-- ===== src/Store/Redis/ReadBack.antt =====
-- What RedisSagaStore.update wrote is there to be read: packages/store-redis/src/RedisSagaStore.ts.
use saga_bus.Interfaces.{DateFormat}
use saga_bus.State.{SagaState}
use saga_bus.Store.Redis.{Redis, Settings, build_id_index_key, build_key, writes, ttl_of}
use saga_bus.Store.Redis.Client.{Content, IsRedis, apply}
use saga_bus.Store.Redis.Operations.{redis_ops}
use saga_bus.Store.Redis.RoundTrip.{IsJson, deserialize-serialize, read_back}
use saga_bus.Store.Redis.Text.{JsonText, deserialize_state}
use saga_bus.Store.Redis.Update.{update-Replaced}
use saga_bus.Errors.{Error}
use saga_bus.State.{Metadata}
use saga_bus.Prelude.{
  Option, ℕ, suc, String, ◌≡◌, ◌≢◌, subst, sym, ap, ◌∙◌, true, some, eq_iff, eq_refl, arith, inl,
  inr, Bool-cases, ltb,
}
use saga_bus.Prelude.Exec.{Result, ok}

-- After the transaction, the key has the text of the state.
apply-writes :
    (settings : Settings) (key index_key : String) (m : Metadata) (serialized c : String)
    (before : Content)
    → key ≢ index_key
    → apply (writes settings key index_key m serialized c) before key ≡ some serialized
unfolding apply writes
apply-writes settings key index_key m serialized c before apart =
    elim (Bool-cases (ltb 0 (ttl_of settings m))) [
      | inl expires ↦ ground (arith, expires, eq_iff index_key key, eq_refl key)
      | inr stays ↦ ground (arith, stays, eq_iff index_key key, eq_refl key)
    ]

module _ {D S : Type 0} (dates : DateFormat) (json : JsonText D) (data_clone : D → D)
    (settings : Settings) (redis : Redis S) (laws : IsRedis redis)
    (reading : IsJson dates json data_clone) where
  -- On a client with the documented WATCH and MULTI/EXEC, where nothing else calls Redis on the same
  -- connection while the update runs, in an initialized store with some turn for the loop, where JSON gives back the clone of what it wrote: after an update that succeeds, the key
  -- of the correlation id that the index gave, if it is not the one of the index entry, holds a text
  -- that is read as the state that was written, its dates as dates, but for what JSON does to the data
  -- of the user.
  pub update-read :
      (n c : String) (x : SagaState D) (v turns : ℕ) (s z : S)
      → settings.max_retries ≡ suc turns
      → (redis.get (build_id_index_key settings n x.metadata.saga_id) s).0 ≡ ok (some c)
      → build_key settings n c ≢ build_id_index_key settings n x.metadata.saga_id
      → ((redis_ops dates json settings redis).update n x v
          (record { connected = true; server = s })).0
        ≡ ok tt
      → (text : String) × (laws.content
            ((redis_ops dates json settings redis).update n x v
              (record { connected = true; server = s })).1.server
            (build_key settings n c)
          ≡ some text)
        × (deserialize_state dates json text z ≡ (ok (read_back data_clone x), z))
  update-read n c x v turns s z some_turn given apart done =
      let (c', found, replaced) =
        update-Replaced dates json settings redis laws n x v turns s some_turn done in
      let same : c' ≡ c = some_ok found given in
      (
        replaced.serialized,
        ap (λ k. laws.content after k) (ap (build_key settings n) (sym same))
            ∙ ap (λ content. content (build_key settings n c')) replaced.written
            ∙ apply-writes settings (build_key settings n c')
                (build_id_index_key settings n x.metadata.saga_id) x.metadata replaced.serialized c'
                replaced.before
                (subst
                  (λ k. build_key settings n k ≢ build_id_index_key settings n x.metadata.saga_id)
                  (sym same) apart),
        deserialize-serialize dates json data_clone reading x replaced.at z replaced.serializes,
      )
    where
      after : S
      after =
          ((redis_ops dates json settings redis).update n x v
            (record { connected = true; server = s })).1.server

      some_ok :
          {r : Result Error (Option String)} {a b : String}
          → r ≡ ok (some a)
          → r ≡ ok (some b)
          → a ≡ b
      some_ok h k = cc
