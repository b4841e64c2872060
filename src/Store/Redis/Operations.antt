-- ===== src/Store/Redis/Operations.antt =====
-- packages/store-redis/src/RedisSagaStore.ts: the methods of the store.
use saga_bus.Store.Redis.{
  Redis, RedisStore, Settings, build_id_index_key, build_key, on_server, present, writes,
}
use saga_bus.Errors.{Error, concurrency, plain}
use saga_bus.Interfaces.{DateFormat}
use saga_bus.State.{SagaState, StoreOps}
use saga_bus.Prelude.{
  ℕ, zero, suc, String, Bool, true, false, Option, none, some, [], ◌∷◌, nat_eq, if◌then◌else◌, not,
}
use saga_bus.Prelude.Exec.{Exec, Result, err, ok, pure, throw, ◌>>=◌, ◌>>◌}
use saga_bus.Prelude.Int.{negsuc, pos}
use saga_bus.Prelude.Texts.{◌<>◌}
use saga_bus.Store.Redis.Text.{JsonText, deserialize_state, serialize_state}

module _ {S : Type 0} (redis : Redis S) where
  unfoldable pub check_version : String → ℕ → ℕ → Exec Error S (Unit {0})
  check_version saga_id expected version =
      if not (nat_eq version expected)
      then (do redis.unwatch; throw (concurrency saga_id expected (some (pos version))))
      else pure tt

  -- An aborted transaction is tried again while turns are left; -1 stands for an unknown version.
  unfoldable pub after_exec : String → ℕ → ℕ → Bool → Exec Error S Bool
  after_exec saga_id expected left true = pure true
  after_exec saga_id expected zero false = throw (concurrency saga_id expected (some (negsuc 0)))
  after_exec saga_id expected (suc left) false = pure false

  -- The catch block
  unfoldable pub caught : {A : Type 0} → Result Error A × S → Result Error A × S
  caught (ok a, s) = (ok a, s)
  caught (err e, s) = (do redis.unwatch; throw e) s

module _ {D S : Type 0} (dates : DateFormat) (json : JsonText D) (settings : Settings)
    (redis : Redis S) where
  -- What a value leads to that may be missing
  unfoldable pub read_state : Option String → Exec Error S (Option (SagaState D))
  read_state none = pure none
  read_state (some text) = do state ← deserialize_state dates json text; pure (some state)

  unfoldable pub find_by_correlation_id : String → String → Exec Error S (Option (SagaState D))
  find_by_correlation_id saga_name correlation_id = do
    value ← redis.get (build_key settings saga_name correlation_id)
    read_state (present value)

  unfoldable pub find_from_index : String → Option String → Exec Error S (Option (SagaState D))
  find_from_index saga_name none = pure none
  find_from_index saga_name (some correlation_id) = find_by_correlation_id saga_name correlation_id

  unfoldable pub find_by_id : String → String → Exec Error S (Option (SagaState D))
  find_by_id saga_name saga_id = do
    correlation_id ← redis.get (build_id_index_key settings saga_name saga_id)
    find_from_index saga_name (present correlation_id)

  unfoldable pub insert_new :
      String → String → SagaState D → Option String → Exec Error S (Unit {0})
  unfolding ◌<>◌
  insert_new saga_name correlation_id state (some existing) = throw (
      plain
        ("Saga " <> saga_name <> " with correlation ID " <> correlation_id <> " already exists"))
  insert_new saga_name correlation_id state none = do
    serialized ← serialize_state dates json state
    redis.multi_exec (
        writes settings (build_key settings saga_name correlation_id)
          (build_id_index_key settings saga_name state.metadata.saga_id) state.metadata serialized
          correlation_id)
    pure tt

  -- The result of the transaction is not looked at.
  unfoldable pub insert_state : String → String → SagaState D → Exec Error S (Unit {0})
  insert_state saga_name correlation_id state = do
    existing ← redis.get (build_key settings saga_name correlation_id)
    insert_new saga_name correlation_id state (present existing)

  -- One turn of the loop of update, in its try block: whether it is done. `left` is the number of
  -- turns after it.
  unfoldable pub replace :
      String → String → String → SagaState D → ℕ → ℕ → Option String → Exec Error S Bool
  unfolding ◌<>◌
  replace key index_key correlation_id state expected left none = do
    redis.unwatch
    throw (plain ("Saga " <> state.metadata.saga_id <> " not found"))
  replace key index_key correlation_id state expected left (some existing) = do
    current ← deserialize_state dates json existing
    check_version redis state.metadata.saga_id expected current.metadata.version
    serialized ← serialize_state dates json state
    done ← redis.multi_exec (writes settings key index_key state.metadata serialized correlation_id)
    after_exec redis state.metadata.saga_id expected left done

  unfoldable pub try_replace : String → String → String → SagaState D → ℕ → ℕ → Exec Error S Bool
  try_replace key index_key correlation_id state expected left s = caught redis (
      (do
        existing ← redis.get key
        replace key index_key correlation_id state expected left (present existing))
        s)

  -- The loop of update, with the turns that are left; it falls through after the last one.
  unfoldable pub attempts : ℕ → String → String → String → SagaState D → ℕ → Exec Error S (Unit {0})
  attempts zero key index_key correlation_id state expected = pure tt
  attempts (suc left) key index_key correlation_id state expected = do
    redis.watch key
    done ← try_replace key index_key correlation_id state expected left
    if done then pure tt else attempts left key index_key correlation_id state expected

  unfoldable pub update_from : String → SagaState D → ℕ → Option String → Exec Error S (Unit {0})
  unfolding ◌<>◌
  update_from saga_name state expected none =
      throw (plain ("Saga " <> state.metadata.saga_id <> " not found"))
  update_from saga_name state expected (some correlation_id) =
      attempts settings.max_retries (build_key settings saga_name correlation_id)
        (build_id_index_key settings saga_name state.metadata.saga_id) correlation_id state expected

  unfoldable pub update_state : String → SagaState D → ℕ → Exec Error S (Unit {0})
  update_state saga_name state expected = do
    correlation_id ← redis.get (build_id_index_key settings saga_name state.metadata.saga_id)
    update_from saga_name state expected (present correlation_id)

  unfoldable pub delete_found : String → String → Option String → Exec Error S (Unit {0})
  delete_found saga_name saga_id none = pure tt
  delete_found saga_name saga_id (some correlation_id) = redis.del (
      build_key settings saga_name correlation_id
      ∷ build_id_index_key settings saga_name saga_id
      ∷ [])

  unfoldable pub delete_state : String → String → Exec Error S (Unit {0})
  delete_state saga_name saga_id = do
    correlation_id ← redis.get (build_id_index_key settings saga_name saga_id)
    delete_found saga_name saga_id (present correlation_id)

  -- RedisSagaStore as a store; every method first asks for the client.
  abbrev pub redis_ops : StoreOps D (RedisStore S)
  redis_ops = record {
    get_by_id = λ n i. on_server (find_by_id n i);
    get_by_correlation_id = λ n c. on_server (find_by_correlation_id n c);
    insert = λ n c x. on_server (insert_state n c x);
    update = λ n x v. on_server (update_state n x v);
    delete = λ n i. on_server (delete_state n i);
  }
