-- ===== src/Idempotency/Redis.antt =====
-- packages/middleware-idempotency/src/stores/RedisIdempotencyStore.ts over the calls of a Redis client,
-- which is a parameter. Calls of other clients show in the state that a call returns.
pub mod Client
pub mod Window
use saga_bus.Errors.{Error}
use saga_bus.Idempotency.{IdempotencyStore}
use saga_bus.Prelude.{
  ℕ, ◌+◌, ◌/◌, String, Bool, true, false, Option, none, some, List, [], ◌∷◌, ◌<?>◌,
}
use saga_bus.Prelude.Exec.{Exec, Slot, on_slot, pure, ◌>>=◌, ◌>>◌}
use saga_bus.Prelude.Texts.{◌<>◌}

-- The calls of the client on servers of type S
pub record Redis (S : Type 0) : Type 0 where
  pub get : String → Exec Error S (Option String)
  pub set : String → String → Exec Error S (Unit {0})
  pub setex : String → ℕ → String → Exec Error S (Unit {0})
  pub del : String → Exec Error S (Unit {0})
  pub keys : String → Exec Error S (List String)

-- `options.keyPrefix ?? "idempotency:"`
unfoldable pub prefix_of : Option String → String
prefix_of key_prefix = key_prefix <?> "idempotency:"

-- Math.ceil(ttlMs / 1000)
unfoldable pub ceil_seconds : ℕ → ℕ
ceil_seconds ttl_ms = (ttl_ms + 999) / 1000

unfoldable pub exists : Option String → Bool
exists none = false
exists (some text) = true

module _ {S : Type 0} (key_prefix : String) (redis : Redis S) where
  unfoldable pub key_of : String → String
  unfolding ◌<>◌
  key_of message_id = key_prefix <> message_id

  unfoldable pub has : String → Exec Error S Bool
  has message_id = do result ← redis.get (key_of message_id); pure (exists result)

  unfoldable pub set : String → Option ℕ → Exec Error S (Unit {0})
  set message_id none = redis.set (key_of message_id) "1"
  set message_id (some ttl_ms) = redis.setex (key_of message_id) (ceil_seconds ttl_ms) "1"

  unfoldable pub delete : String → Exec Error S (Unit {0})
  delete message_id = redis.del (key_of message_id)

  -- The loop of clear
  unfoldable pub delete_all : List String → Exec Error S (Unit {0})
  delete_all [] = pure tt
  delete_all (k ∷ ks) = do redis.del k; delete_all ks

  unfoldable pub clear : Exec Error S (Unit {0})
  unfolding ◌<>◌
  clear = do keys ← redis.keys (key_prefix <> "*"); delete_all keys

  -- The store inside a larger state
  abbrev pub redis_idempotency_store : {W : Type 0} → Slot W S → IdempotencyStore W
  redis_idempotency_store slot = record {
    has = λ message_id. on_slot slot (has message_id);
    set = λ message_id ttl_ms. on_slot slot (set message_id ttl_ms);
    delete = λ message_id. on_slot slot (delete message_id);
    clear = on_slot slot clear;
  }
