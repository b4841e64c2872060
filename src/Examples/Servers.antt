-- ===== src/Examples/Servers.antt =====
-- A Redis server on which other writers spoil the first transactions, and a text format for states.
use Prim.Native.Char.{Char, code}
use saga_bus.Errors.{Error, plain}
use saga_bus.Examples.{metadata_of, natural, number_dates}
use saga_bus.State.{DateValue, SagaState, StoreOps, date, iso_text}
use saga_bus.Store.Memory.{clone, cloned_date, cloned_option}
use saga_bus.Store.Redis.{
  Command, Redis, RedisStore, Settings, build_id_index_key, build_key, on_server, present,
}
use saga_bus.Store.Redis.Client.{Content, IsRedis, apply}
use saga_bus.Store.Redis.Operations.{
  after_exec, attempts, caught, check_version, redis_ops, replace, try_replace, update_from,
  update_state,
}
use saga_bus.Store.Redis.RoundTrip.{IsJson, deserialize-serialize}
use saga_bus.Store.Redis.ReadBack.{update-read}
use saga_bus.Store.Redis.Update.{Written, update-Replaced, update-unwritten}
use saga_bus.Store.Redis.Text.{
  JsonText, date_text, date_text_or_null, deserialize_state, revive, revived, serialize_state,
}
use saga_bus.Prelude.{
  ◌==◌, ◌≢◌, ℕ, zero, suc, String, ◌≡◌, refl, ap, ◌∙◌, Bool, true, false, Option, none, some, List,
  [], ◌∷◌, ◌++◌, nat_eq, if◌then◌else◌, truthy,
}
use saga_bus.Prelude.Exec.{Yields, Exec, Result, err, ok}
use saga_bus.Prelude.Int.{pos}
use saga_bus.Prelude.Texts.{decimal, parse_int, parse_int-decimal}

-- The first character of a text, before another
abbrev glue : String → String → String
glue String.[] t = t
glue (String.◌∷◌ c s) t = String.◌∷◌ c t

-- A text in a sequence: a dot before each character, and a semicolon behind the last.
framed : String → String → String
framed String.[] rest = glue ";" rest
framed (String.◌∷◌ c s) rest = glue "." (String.◌∷◌ c (framed s rest))

frames : List String → String
unfolding framed
frames [] = ""
frames (t ∷ ts) = framed t (frames ts)

abbrev prepend : Char → List String → List String
prepend c [] = String.◌∷◌ c "" ∷ []
prepend c (t ∷ ts) = String.◌∷◌ c t ∷ ts

-- The texts of a sequence; the flag says that a dot was read.
abbrev unframed : Bool → String → List String
unframed dotted String.[] = []
unframed true (String.◌∷◌ c s) = prepend c (unframed false s)
unframed false (String.◌∷◌ c s) =
    let next = unframed false s in
    let inside = unframed true s in if nat_eq (code c) 59 then "" ∷ next else inside

unframed-framed : (t rest : String) → unframed false (framed t rest) ≡ t ∷ unframed false rest
unfolding framed
unframed-framed String.[] rest = refl
unframed-framed (String.◌∷◌ c s) rest = ap (prepend c) (unframed-framed s rest)

unframed-frames : (ts : List String) → unframed false (frames ts) ≡ ts
unfolding frames framed
unframed-frames [] = refl
unframed-frames (t ∷ ts) = unframed-framed t (frames ts) ∙ ap (λ us. t ∷ us) (unframed-frames ts)

option_text : Option String → String
option_text none = ""
option_text (some t) = glue "s" t

option_of : String → Option String
option_of String.[] = none
option_of (String.◌∷◌ c s) = some s

option_of-text : (o : Option String) → option_of (option_text o) ≡ o
unfolding option_of option_text
option_of-text none = refl
option_of-text (some t) = refl

number_text : ℕ → String
number_text n = decimal (pos n)

number_of : String → Option ℕ
number_of t = natural (parse_int t)

number_of-text : (n : ℕ) → number_of (number_text n) ≡ some n
unfolding number_of number_text
number_of-text n = ap natural (parse_int-decimal (pos n))

bool_text : Bool → String
bool_text true = "t"
bool_text false = ""

bool_of-text : (b : Bool) → truthy (bool_text b) ≡ b
unfolding bool_text
bool_of-text true = refl
bool_of-text false = refl

abbrev text_of : DateValue → String
text_of (date t) = number_text t
text_of (iso_text s) = s

map_texts : Option DateValue → Option String
map_texts none = none
map_texts (some d) = some (text_of d)

map_numbers : Option ℕ → Option String
map_numbers none = none
map_numbers (some n) = some (number_text n)

unmap_texts : Option String → Option DateValue
unmap_texts none = none
unmap_texts (some s) = some (iso_text s)

unmap_numbers : Option String → Option ℕ
unmap_numbers none = none
unmap_numbers (some s) = number_of s

unmap_numbers-map : (o : Option ℕ) → unmap_numbers (map_numbers o) ≡ o
unfolding unmap_numbers map_numbers
unmap_numbers-map none = refl
unmap_numbers-map (some n) = number_of-text n

date-text_of : (d : DateValue) → iso_text (text_of d) ≡ cloned_date number_dates d
unfolding number_text
date-text_of (date t) = refl
date-text_of (iso_text s) = refl

unmap_texts-map : (o : Option DateValue) → unmap_texts (map_texts o) ≡ cloned_option number_dates o
unfolding unmap_texts map_texts
unmap_texts-map none = refl
unmap_texts-map (some d) = ap some (date-text_of d)

parts : SagaState ℕ → List String
parts x =
    number_text x.fields
    ∷ x.metadata.saga_id
    ∷ number_text x.metadata.version
    ∷ text_of x.metadata.created_at
    ∷ text_of x.metadata.updated_at
    ∷ bool_text x.metadata.is_completed
    ∷ option_text (map_texts x.metadata.archived_at)
    ∷ option_text x.metadata.trace_parent
    ∷ option_text x.metadata.trace_state
    ∷ option_text (map_numbers x.metadata.timeout_ms)
    ∷ option_text (map_texts x.metadata.timeout_expires_at)
    ∷ []

assembled :
    Option ℕ
    → String
    → Option ℕ
    → String
    → String
    → String
    → String
    → String
    → String
    → String
    → String
    → Result Error (SagaState ℕ)
assembled (some n) id (some v) created updated completed archived parent state ms expires =
    ok (record {
      fields = n;
      metadata = record {
        saga_id = id;
        version = v;
        created_at = iso_text created;
        updated_at = iso_text updated;
        is_completed = truthy completed;
        archived_at = unmap_texts (option_of archived);
        trace_parent = option_of parent;
        trace_state = option_of state;
        timeout_ms = unmap_numbers (option_of ms);
        timeout_expires_at = unmap_texts (option_of expires);
      };
    })
assembled _ _ _ _ _ _ _ _ _ _ _ = err (plain "SyntaxError")

state_of_parts : List String → Result Error (SagaState ℕ)
state_of_parts
      (n ∷ id ∷ v ∷ created ∷ updated ∷ completed ∷ archived ∷ parent ∷ state ∷ ms ∷ expires ∷ []) =
    assembled (number_of n) id (number_of v) created updated completed archived parent state ms
      expires
state_of_parts _ = err (plain "SyntaxError")

state_of_parts-parts :
    (x : SagaState ℕ) → state_of_parts (parts x) ≡ ok (clone number_dates (λ n. n) x)
unfolding state_of_parts parts assembled clone
state_of_parts-parts x =
    rw
      (
        number_of-text x.fields,
        number_of-text x.metadata.version,
        date-text_of x.metadata.created_at,
        date-text_of x.metadata.updated_at,
        bool_of-text x.metadata.is_completed,
        option_of-text (map_texts x.metadata.archived_at),
        option_of-text x.metadata.trace_parent,
        option_of-text x.metadata.trace_state,
        option_of-text (map_numbers x.metadata.timeout_ms),
        option_of-text (map_texts x.metadata.timeout_expires_at),
        unmap_texts-map x.metadata.archived_at,
        unmap_numbers-map x.metadata.timeout_ms,
        unmap_texts-map x.metadata.timeout_expires_at,
      )
      refl

abbrev frame_text : JsonText ℕ
frame_text = record {
  stringify = λ x. frames (parts x);
  parse = λ t. state_of_parts (unframed false t);
}

frames-truthy : (t : String) (ts : List String) → truthy (frames (t ∷ ts)) ≡ true
unfolding frames framed
frames-truthy String.[] ts = refl
frames-truthy (String.◌∷◌ c s) ts = refl

frame_text-IsJson : IsJson number_dates frame_text (λ n. n)
unfolding parts
frame_text-IsJson = record {
  parse-stringify = λ x. ap state_of_parts (unframed-frames (parts x)) ∙ state_of_parts-parts x;
  truthy-stringify = λ x. frames-truthy (number_text x.fields) _;
}

-- The server: its keys, the transactions so far, and how many of the next ones are spoiled.
pub record Server : Type 0 where
  pub keys : Content
  pub done : List (List Command)
  pub spoiled : ℕ

abbrev executed_with : ℕ → List Command → Exec Error Server Bool
executed_with zero commands s =
    (ok true, record s { keys = apply commands s.keys; done = s.done ++ commands ∷ [] })
executed_with (suc n) commands s = (ok false, record s { spoiled = n })

abbrev execute : List Command → Exec Error Server Bool
execute commands s = executed_with s.spoiled commands s

abbrev busy_server : Redis Server
busy_server = record {
  get = λ k s. (ok (s.keys k), s);
  watch = λ k s. (ok tt, s);
  unwatch = λ s. (ok tt, s);
  multi_exec = execute;
  del = λ ks s. (ok tt, s);
  quit = λ s. (ok tt, s);
}

executed_at :
    (commands : List Command) (k : String) (v : Option String) (s : Server)
    → s.keys k ≡ v
    → Yields
        (λ done s'.
          if done
          then ((before : Content) × (before k ≡ v)
              × (s'.keys ≡ apply commands before)
              × (s'.done ≡ s.done ++ commands ∷ []))
          else (s'.done ≡ s.done))
        (execute commands s)
executed_at commands k v s held = by_spoiled s.spoiled
  where
    by_spoiled :
        (n : ℕ)
        → Yields
            (λ done s'.
              if done
              then ((before : Content) × (before k ≡ v)
                  × (s'.keys ≡ apply commands before)
                  × (s'.done ≡ s.done ++ commands ∷ []))
              else (s'.done ≡ s.done))
            (executed_with n commands s)
    by_spoiled zero = (s.keys, held, refl, refl)
    by_spoiled (suc n) = refl

busy_server-IsRedis : IsRedis busy_server
busy_server-IsRedis = record {
  content = λ s. s.keys;
  log = λ s. s.done;
  Fresh = λ k s. Unit;
  Watching = λ k v s. s.keys k ≡ v;
  watched = λ k s. (tt, refl);
  got = λ k s. refl;
  got_watched = λ k s fresh. refl;
  executed = executed_at;
}

abbrev some_settings : ℕ → Settings
some_settings max_retries = record {
  key_prefix = "saga-bus:";
  completed_ttl_seconds = 60;
  default_ttl_seconds = 0;
  max_retries = max_retries;
  owns_redis = true;
}

-- The saga "s1", of version 1, and what is to replace it
abbrev started_state : SagaState ℕ
started_state = record {
  fields = 3;
  metadata = record (metadata_of "s1" 1 false) { created_at = date 7; updated_at = date 8 };
}

abbrev completed_state : SagaState ℕ
completed_state = record {
  fields = 4;
  metadata = record (metadata_of "s1" 2 true) {
    created_at = date 7;
    updated_at = date 9;
    timeout_expires_at = some (date 50);
  };
}

-- It is stored under the correlation id "k1"; one transaction is spoiled before the next succeeds.
abbrev stored_keys : Content
stored_keys k =
    if k == "saga-bus:saga:orders:idx:id:s1"
    then some "k1"
    else (if k == "saga-bus:saga:orders:k1" then some ".3;.s.1;.1;.7;.8;;;;;;;" else none)

abbrev one_spoiled : Server
one_spoiled = record { keys = stored_keys; done = []; spoiled = 1 }

-- What the store does with it
abbrev orders_with : ℕ → StoreOps ℕ (RedisStore Server)
orders_with max_retries = redis_ops number_dates frame_text (some_settings max_retries) busy_server

abbrev on_store : Server → RedisStore Server
on_store s = record { connected = true; server = s }

test_text :
    (serialize_state number_dates frame_text started_state one_spoiled).0
    ≡ ok ".3;.s.1;.1;.7;.8;;;;;;;"
unfolding serialize_state date_text date_text_or_null parts frames framed number_text option_text
    map_texts map_numbers bool_text decimal
test_text = refl

test_indexed :
    (busy_server.get (build_id_index_key (some_settings 3) "orders" "s1") one_spoiled).0
    ≡ ok (some "k1")
unfolding build_id_index_key
test_indexed = refl

test_indexed_none :
    (busy_server.get (build_id_index_key (some_settings 0) "orders" "s1") one_spoiled).0
    ≡ ok (some "k1")
unfolding build_id_index_key
test_indexed_none = refl

test_updated : ((orders_with 3).update "orders" completed_state 1 (on_store one_spoiled)).0 ≡ ok tt
unfolding on_server update_state update_from attempts try_replace caught replace check_version
    after_exec deserialize_state revived revive present build_key build_id_index_key serialize_state
    date_text date_text_or_null parts frames framed number_text option_text map_texts map_numbers
    bool_text decimal state_of_parts assembled number_of parse_int
test_updated = refl

-- The server after that update
abbrev updated_store : ℕ → RedisStore Server
updated_store max_retries =
    ((orders_with max_retries).update "orders" completed_state 1 (on_store one_spoiled)).1

update-Replaced_example :
    Written number_dates frame_text
      (some_settings 3)
      busy_server
      busy_server-IsRedis
      "orders"
      completed_state
      1
      one_spoiled
      (updated_store 3).server
update-Replaced_example =
    update-Replaced number_dates frame_text (some_settings 3) busy_server busy_server-IsRedis
      "orders" completed_state 1 2 one_spoiled refl test_updated

update-unwritten_example :
    (orders_with 0).update "orders" completed_state 1 (on_store one_spoiled)
    ≡ (ok tt, on_store one_spoiled)
unfolding build_id_index_key
update-unwritten_example =
    update-unwritten number_dates frame_text (some_settings 0) busy_server busy_server-IsRedis
      "orders" completed_state 1 one_spoiled {c = "k1"} refl test_indexed_none refl

test_text_of :
    (serialize_state number_dates frame_text completed_state one_spoiled).0
    ≡ ok ".4;.s.1;.2;.7;.9;.t;;;;;.s.5.0;"
unfolding serialize_state date_text date_text_or_null parts frames framed number_text option_text
    map_texts map_numbers bool_text decimal
test_text_of = refl

deserialize-serialize_example :
    deserialize_state number_dates frame_text ".4;.s.1;.2;.7;.9;.t;;;;;.s.5.0;" one_spoiled
    ≡ (ok completed_state, one_spoiled)
deserialize-serialize_example =
    deserialize-serialize number_dates frame_text (λ n. n) frame_text-IsJson completed_state
      one_spoiled one_spoiled test_text_of

keys_apart :
    build_key (some_settings 3) "orders" "k1" ≢ build_id_index_key (some_settings 3) "orders" "s1"
unfolding build_key build_id_index_key
keys_apart e = cc (e)

update-read_example :
    (text : String) × ((updated_store 3).server.keys (build_key (some_settings 3) "orders" "k1")
      ≡ some text)
    × (deserialize_state number_dates frame_text text one_spoiled
        ≡ (ok completed_state, one_spoiled))
unfolding on_server busy_server-IsRedis
update-read_example =
    update-read number_dates frame_text (λ n. n) (some_settings 3) busy_server busy_server-IsRedis
      frame_text-IsJson "orders" "k1" completed_state 1 2 one_spoiled one_spoiled refl test_indexed
      keys_apart test_updated
