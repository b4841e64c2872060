-- ===== src/Examples/Marks.antt =====
-- A Redis server with keys that expire, under the idempotency middleware.
use saga_bus.Errors.{Error}
use saga_bus.Examples.{order_envelope}
use saga_bus.Idempotency.{
  IdempotencyOptions, create_idempotency_middleware, duplicate_outcome, mark,
}
use saga_bus.Idempotency.Redis.{
  Redis, ceil_seconds, exists, has, key_of, redis_idempotency_store, set,
}
use saga_bus.Idempotency.Redis.Client.{IsRedis}
use saga_bus.Idempotency.Redis.Window.{execute-lasting, options}
use saga_bus.Messages.{Envelope}
use saga_bus.Pipeline.{execute}
use saga_bus.Dsl.{includes}
use saga_bus.Prelude.{
  ℕ, ◌+◌, ◌*◌, ◌≤◌, String, ◌≡◌, refl, ◌==◌, Option, none, some, [], ◌∷◌, ltb, le→ltb_false,
  eq_refl, if◌then◌else◌, arith,
}
use saga_bus.Prelude.Exec.{Exec, Slot, ok}

-- Each call takes 5 milliseconds; a key that expires does at its time.
record Server : Type 0 where
  clock : ℕ
  expiry : String → Option ℕ

abbrev value_at : ℕ → Option ℕ → Option String
value_at now none = none
value_at now (some t) = if ltb t now then none else some "1"

abbrev passed : Server → Server
passed s = record s { clock = s.clock + 5 }

abbrev expiring_server : Redis Server
expiring_server = record {
  get = λ k s. (ok (value_at (s.clock + 5) (s.expiry k)), passed s);
  set = λ k v s. (ok tt, passed s);
  setex = λ k seconds v s. (
    ok tt,
    record {
      clock = s.clock + 5;
      expiry = λ j. if k == j then some (s.clock + 5 + 1000 * seconds) else s.expiry j;
    },
  );
  del = λ k s. (ok tt, record s { expiry = λ j. if k == j then none else s.expiry j });
  keys = λ pattern s. (ok [], passed s);
}

value_at-live : (now t : ℕ) → now ≤ t → value_at now (some t) ≡ some "1"
value_at-live now t early = rw (le→ltb_false t now early) refl

expiring_server-IsRedis : IsRedis expiring_server
expiring_server-IsRedis = record {
  now = λ s. s.clock;
  Lasts = λ k t s. s.expiry k ≡ some t;
  expiring =
      λ k seconds v s. (s.clock + 5 + 1000 * seconds, omega arith, ground (arith, eq_refl k));
  got = λ k t s lasts early missing. cc (lasts, value_at-live (s.clock + 5) t early, missing);
}

abbrev Small : Type 0
Small = Envelope ℕ × Server × ℕ

abbrev slot : Slot Small Server
slot = record { look = λ w. w.1; put = λ a w. (w.0, a, w.2); look-put = λ a w. refl }

-- A window that is no whole number of seconds
abbrev settings : IdempotencyOptions ℕ Small
settings = record {
  store = redis_idempotency_store "idempotency:" expiring_server slot;
  window_ms = some 1500;
  get_message_id = none;
  on_duplicate = none;
  exclude_types = none;
  mark_timing = none;
}

abbrev counting : Exec Error Small (Unit {0})
counting w = (ok tt, (w.0, w.1, w.2 + 1))

abbrev started : Small
started = (order_envelope, record { clock = 100; expiry = λ k. none }, 0)

abbrev redis_options : IdempotencyOptions ℕ Small
redis_options =
    options "idempotency:" expiring_server expiring_server-IsRedis slot settings (λ w. w.0)

abbrev marked : Small
marked = (mark redis_options (λ w. w.0) "m1" started).1

-- Later, after other calls
abbrev redelivered : Small
redelivered = (marked.0, record (marked.1) { clock = 1500 }, 1)

execute-lasting_example :
    execute (create_idempotency_middleware redis_options (λ w. w.0) ∷ []) counting redelivered
    ≡ (ok tt, (order_envelope, record (redelivered.1) { clock = 1505 }, 1))
unfolding has set key_of duplicate_outcome exists ceil_seconds includes expiring_server-IsRedis
execute-lasting_example =
    execute-lasting "idempotency:" expiring_server expiring_server-IsRedis slot settings (λ w. w.0)
      [] counting started redelivered refl (λ t h. h) refl refl (omega arith)
