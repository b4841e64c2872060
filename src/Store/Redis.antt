-- ===== src/Store/Redis.antt =====
-- packages/store-redis/src/RedisSagaStore.ts over the client of a Redis server, which is a parameter,
-- as is JSON on the data of the user. Calls of other clients show in the state that a call returns.

pub mod Text
pub mod Operations
pub mod Client
pub mod Turn
pub mod Update
pub mod RoundTrip
pub mod ReadBack
use saga_bus.Errors.{Error, concurrency, other, plain}
use saga_bus.Interfaces.{DateFormat}
use saga_bus.State.{DateValue, Metadata, SagaState, StoreOps, date, iso_text}
use saga_bus.Prelude.{
  ℕ, zero, suc, String, Bool, true, false, ◌&&◌, Option, none, some, List, [], ◌∷◌, ltb, nat_eq,
  truthy, if◌then◌else◌, ◌<?>◌, not,
}
use saga_bus.Prelude.Exec.{Exec, Result, err, ok, pure, resume, throw, ◌>>=◌, ◌>>◌}
use saga_bus.Prelude.Int.{negsuc, pos}
use saga_bus.Prelude.Texts.{◌<>◌}
use saga_bus.Store.Redis.Text.{JsonText, deserialize_state, serialize_state}

-- The commands of a transaction
pub data Command : Type 0 where
  set : String → String → Command
  setex : String → ℕ → String → Command

-- The calls of the client on servers of type S. A transaction is executed or, if a watched key was
-- changed, aborted.
pub record Redis (S : Type 0) : Type 0 where
  pub get : String → Exec Error S (Option String)
  pub watch : String → Exec Error S (Unit {0})
  pub unwatch : Exec Error S (Unit {0})
  pub multi_exec : List Command → Exec Error S Bool
  pub del : List String → Exec Error S (Unit {0})
  pub quit : Exec Error S (Unit {0})

-- RedisSagaStoreOptions but for the connection
pub record RedisOptions : Type 0 where
  pub key_prefix : Option String
  pub completed_ttl_seconds : Option ℕ
  pub default_ttl_seconds : Option ℕ
  pub max_retries : Option ℕ
  -- whether a client was given, and whether a connection was
  pub given_redis : Bool
  pub given_connection : Bool

-- The options with their defaults; the delay between retries changes nothing.
pub record Settings : Type 0 where
  pub key_prefix : String
  pub completed_ttl_seconds : ℕ
  pub default_ttl_seconds : ℕ
  pub max_retries : ℕ
  pub owns_redis : Bool

-- new RedisSagaStore(options)
unfoldable pub create_store : RedisOptions → Result Error Settings
create_store options =
    if not options.given_redis && not options.given_connection
    then err (plain "Either redis or connection must be provided")
    else ok (record {
      key_prefix = options.key_prefix <?> "saga-bus:";
      completed_ttl_seconds = options.completed_ttl_seconds <?> 0;
      default_ttl_seconds = options.default_ttl_seconds <?> 0;
      max_retries = options.max_retries <?> 3;
      owns_redis = not options.given_redis;
    })

-- RedisSagaStore: whether it is initialized, and the server
pub record RedisStore (S : Type 0) : Type 0 where
  pub connected : Bool
  pub server : S

-- `!value`: null and the empty text are missing.
unfoldable pub present : Option String → Option String
present none = none
present (some s) = if truthy s then some s else none

module _ (settings : Settings) where
  unfoldable pub build_key : String → String → String
  unfolding ◌<>◌
  build_key saga_name correlation_id =
      settings.key_prefix <> "saga:" <> saga_name <> ":" <> correlation_id

  unfoldable pub build_id_index_key : String → String → String
  unfolding ◌<>◌
  build_id_index_key saga_name saga_id =
      settings.key_prefix <> "saga:" <> saga_name <> ":idx:id:" <> saga_id

  -- The time to live of a state in seconds, 0 for no expiry
  unfoldable pub ttl_of : Metadata → ℕ
  ttl_of metadata =
      if metadata.is_completed && ltb 0 settings.completed_ttl_seconds
      then settings.completed_ttl_seconds
      else settings.default_ttl_seconds

  -- The transaction that writes a state and its index entry
  unfoldable pub writes : String → String → Metadata → String → String → List Command
  unfolding ttl_of
  writes key index_key metadata serialized correlation_id =
      let ttl = ttl_of metadata in
      if ltb 0 ttl
      then setex key ttl serialized ∷ setex index_key ttl correlation_id ∷ []
      else set key serialized ∷ set index_key correlation_id ∷ []

-- `throw new Error("Store not initialized")`
abbrev pub not_initialized : Error
not_initialized = plain "Store not initialized"

-- A call of the client in an initialized store
unfoldable pub on_server : {S A : Type 0} → Exec Error S A → Exec Error (RedisStore S) A
on_server m store =
    if store.connected
    then (let (r, s) = m store.server in (r, record store { server = s }))
    else (err not_initialized, store)

module _ {S : Type 0} (settings : Settings) (redis : Redis S) where
  unfoldable pub initialize : Exec Error (RedisStore S) (Unit {0})
  initialize store = (ok tt, record store { connected = true })

  -- The connection stays where quit throws.
  unfoldable pub close : Exec Error (RedisStore S) (Unit {0})
  close store =
      if settings.owns_redis && store.connected
      then (do on_server redis.quit; λ w. (ok tt, record w { connected = false })) store
      else (ok tt, record store { connected = false })
