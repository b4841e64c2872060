-- ===== src/Store/Redis/Update.antt =====
-- RedisSagaStore.update against other writers: packages/store-redis/src/RedisSagaStore.ts.
use saga_bus.Store.Redis.Turn.{Replaced, Turn, try_replace-Turn}
use saga_bus.Interfaces.{DateFormat}
use saga_bus.State.{SagaState}
use saga_bus.Store.Redis.{on_server, Redis, Settings, build_id_index_key, build_key, present}
use saga_bus.Store.Redis.Client.{IsRedis}
use saga_bus.Store.Redis.Operations.{redis_ops, attempts, try_replace, update_from, update_state}
use saga_bus.Store.Redis.Text.{JsonText}
use saga_bus.Prelude.{
  ℕ, zero, suc, String, ◌≡◌, subst, sym, ap, ◌∙◌, inl, inr, Bool, Bool-cases, true, false, Option,
  none, some, if◌then◌else◌, truthy,
}
use saga_bus.Prelude.Exec.{
  Yields-both, Yields-known, resume-ok, Yields-weaken, pure, ok, Yields, Yields-ok, Yields-resume,
}

module _ {D S : Type 0} (dates : DateFormat) (json : JsonText D) (settings : Settings)
    (redis : Redis S) (laws : IsRedis redis) (key index_key correlation_id : String)
    (state : SagaState D) (expected : ℕ) where
  abbrev Done : S → S → Type 0
  Done t s' =
      Replaced dates json settings redis laws key index_key correlation_id state expected t s'

  -- A first turn of the loop, if the turns after a first one that is not the last do what they must
  turn_first :
      (n : ℕ) (s t : S)
      → laws.log s ≡ laws.log t
      → ((z : S) (m : ℕ)
          → n ≡ suc m
          → laws.log z ≡ laws.log t
          → Yields
              (λ u s'. Done t s')
              (attempts dates json settings redis n key index_key correlation_id state expected z))
      → Yields
          (λ u s'. Done t s')
          (attempts dates json settings redis (suc n) key index_key correlation_id state expected s)
  unfolding attempts
  turn_first n s t same rest =
      Yields-resume (λ u w. laws.Fresh key w × (laws.log w ≡ laws.log s)) (λ u s'. Done t s')
        (redis.watch key s) _ (laws.watched key s)
        (λ u w known.
          Yields-resume
            (Turn dates json settings redis laws key index_key correlation_id state expected n t)
            (λ u s'. Done t s')
            (try_replace dates json settings redis key index_key correlation_id state expected n w)
            _
            (try_replace-Turn dates json settings redis laws key index_key correlation_id state
              expected n w t known.0 (known.1 ∙ same))
            next)
    where
      next :
          (done : Bool) (z : S)
          → Turn dates json settings redis laws key index_key correlation_id state expected n t done
              z
          → Yields
              (λ u s'. Done t s')
              ((if done
                  then pure tt
                  else attempts dates json settings redis n key index_key correlation_id state
                      expected)
                z)
      next true z replaced = replaced
      next false z (m, more, kept) = rest z m more kept

  -- The loop, if it has a turn
  pub attempts-Replaced :
      (n : ℕ) (s t : S)
      → laws.log s ≡ laws.log t
      → Yields
          (λ u s'. Done t s')
          (attempts dates json settings redis (suc n) key index_key correlation_id state expected s)
  attempts-Replaced zero s t same = turn_first zero s t same (λ z m e kept. absurd (cc e))
  attempts-Replaced (suc n) s t same =
      turn_first (suc n) s t same (λ z m e kept. attempts-Replaced n z t kept)

module _ {D S : Type 0} (dates : DateFormat) (json : JsonText D) (settings : Settings)
    (redis : Redis S) (laws : IsRedis redis) where
  -- The transaction, for the correlation id c that the index gave
  abbrev pub Written : String → SagaState D → ℕ → S → S → Type 0
  Written n x v s s' =
      (c : String) × ((redis.get (build_id_index_key settings n x.metadata.saga_id) s).0
        ≡ ok (some c))
      × Replaced dates json settings redis laws (build_key settings n c)
          (build_id_index_key settings n x.metadata.saga_id) c x v s s'

  update_from-Written :
      (n : String) (x : SagaState D) (v turns : ℕ) (c : Option String) (s t : S)
      → settings.max_retries ≡ suc turns
      → laws.log s ≡ laws.log t
      → (redis.get (build_id_index_key settings n x.metadata.saga_id) t).0 ≡ ok c
      → Yields
          (λ u s'. Written n x v t s')
          (update_from dates json settings redis n x v (present c) s)
  unfolding update_from present
  update_from-Written n x v turns none s t some_turn same given = tt
  update_from-Written n x v turns (some c) s t some_turn same given = elim (Bool-cases (truthy c)) [
    | inl there ↦ rw there (
        subst
          (λ k.
            Yields (λ u s'. Written n x v t s')
              (attempts dates json settings redis k (build_key settings n c)
                (build_id_index_key settings n x.metadata.saga_id) c x v s))
          (sym some_turn)
          (Yields-weaken
            (λ u s'.
              Replaced dates json settings redis laws (build_key settings n c)
                (build_id_index_key settings n x.metadata.saga_id) c x v t s')
            (λ u s'. Written n x v t s')
            (attempts dates json settings redis (suc turns) (build_key settings n c)
              (build_id_index_key settings n x.metadata.saga_id) c x v s)
            (λ u s' replaced. (c, given, replaced))
            (attempts-Replaced dates json settings redis laws (build_key settings n c)
              (build_id_index_key settings n x.metadata.saga_id) c x v turns s t same)))
    | inr empty ↦ rw empty tt
  ]

  update_state-Written :
      (n : String) (x : SagaState D) (v turns : ℕ) (s : S)
      → settings.max_retries ≡ suc turns
      → Yields (λ u s'. Written n x v s s') (update_state dates json settings redis n x v s)
  unfolding update_state
  update_state-Written n x v turns s some_turn =
      let index = build_id_index_key settings n x.metadata.saga_id in
      Yields-resume (λ c w. (laws.log w ≡ laws.log s) × ((redis.get index s).0 ≡ ok c))
        (λ u s'. Written n x v s s') (redis.get index s) _
        (Yields-both (λ c w. laws.log w ≡ laws.log s) (λ c w. (redis.get index s).0 ≡ ok c)
          (redis.get index s) (laws.got index s) (Yields-known (redis.get index s)))
        (λ c w known. update_from-Written n x v turns c w s some_turn known.0 known.1)

  -- On a client with the documented WATCH and MULTI/EXEC, where nothing else calls Redis on the same
  -- connection while the update runs, in an initialized store with some turn for the loop: an update
  -- that succeeds replaced the state under the correlation id of the index by exactly one transaction
  -- of this client. Right before it, whatever clients on other connections wrote up to then, the key
  -- held a text that reads as a state of the expected version.
  pub update-Replaced :
      (n : String) (x : SagaState D) (v turns : ℕ) (s : S)
      → settings.max_retries ≡ suc turns
      → ((redis_ops dates json settings redis).update n x v
          (record { connected = true; server = s })).0
        ≡ ok tt
      → Written n x v s
          ((redis_ops dates json settings redis).update n x v
            (record { connected = true; server = s })).1.server
  unfolding on_server
  update-Replaced n x v turns s some_turn done =
      Yields-ok (λ u s'. Written n x v s s') (update_state dates json settings redis n x v s)
        (update_state-Written n x v turns s some_turn) done

  -- With no turn for the loop, on an initialized store: an update of a saga that the index knows
  -- succeeds, and makes no call but the reading of the index.
  pub update-unwritten :
      (n : String) (x : SagaState D) (v : ℕ) (s : S) {c : String}
      → settings.max_retries ≡ 0
      → (redis.get (build_id_index_key settings n x.metadata.saga_id) s).0 ≡ ok (some c)
      → truthy c ≡ true
      → ((redis_ops dates json settings redis).update n x v
          (record { connected = true; server = s }))
        ≡ (
          ok tt,
          record {
            connected = true;
            server = (redis.get (build_id_index_key settings n x.metadata.saga_id) s).1;
          },
        )
  unfolding on_server update_state update_from present attempts
  update-unwritten n x v s {c} none_left known there =
      ap (λ p. (p.0, record { connected = true; server = p.1 }))
        (resume-ok (redis.get (build_id_index_key settings n x.metadata.saga_id) s)
            (λ o. update_from dates json settings redis n x v (present o)) known
          ∙ ap (λ b. update_from dates json settings redis n x v (if b then some c else none) left)
              there
          ∙ ap
              (λ k.
                attempts dates json settings redis k (build_key settings n c)
                  (build_id_index_key settings n x.metadata.saga_id) c x v left)
              none_left)
    where
      left : S
      left = (redis.get (build_id_index_key settings n x.metadata.saga_id) s).1
