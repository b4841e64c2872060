-- ===== src/Store/Redis/Client.antt =====
-- What RedisSagaStore relies on of Redis: the documented behaviour of WATCH, GET and MULTI/EXEC on a
-- connection, while clients on other connections write at any time. It holds where no other call is
-- made on the same connection between WATCH and EXEC: an EXEC or UNWATCH there clears what is watched.
use saga_bus.Store.Redis.{Command, Redis, set, setex}
use saga_bus.Prelude.{String, ◌≡◌, Option, some, List, [], ◌∷◌, ◌++◌, if◌then◌else◌, ◌==◌}
use saga_bus.Prelude.Exec.{Yields}

-- The keys of a server and their values
abbrev pub Content : Type 0
Content = String → Option String

abbrev pub put : String → String → Content → Content
put k v content j = if k == j then some v else content j

-- What a transaction makes of the keys, before anything expires
unfoldable pub apply : List Command → Content → Content
apply [] content = content
apply (set k v ∷ commands) content = apply commands (put k v content)
apply (setex k ttl v ∷ commands) content = apply commands (put k v content)

-- One operation of the store at a time on a connection
pub record IsRedis {S : Type 0} (redis : Redis S) : Type 1 where
  -- The keys when the last call was answered, and the transactions of this client so far
  pub content : S → Content
  pub log : S → List (List Command)
  -- The key is watched, and no call was made since; it is watched, and had that value since, or
  -- else the next transaction is aborted.
  pub Fresh : String → S → Type 0
  pub Watching : String → Option String → S → Type 0
  pub watched :
      (k : String) (s : S) → Yields (λ u s'. Fresh k s' × (log s' ≡ log s)) (redis.watch k s)
  pub got : (k : String) (s : S) → Yields (λ v s'. log s' ≡ log s) (redis.get k s)
  pub got_watched :
      (k : String) (s : S) → Fresh k s → Yields (λ v s'. Watching k v s') (redis.get k s)
  -- A transaction that is executed finds a watched key as it was, and is executed at once.
  pub executed :
      (commands : List Command) (k : String) (v : Option String) (s : S)
      → Watching k v s
      → Yields
          (λ done s'.
            if done
            then ((before : Content) × (before k ≡ v)
                × (content s' ≡ apply commands before)
                × (log s' ≡ log s ++ commands ∷ []))
            else (log s' ≡ log s))
          (redis.multi_exec commands s)
