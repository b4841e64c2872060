-- ===== src/Orchestrator/Persist.antt =====
-- What SagaOrchestrator leaves in the store.
use saga_bus.Interfaces.{now, Platform, TransportOps, random_uuid}
use saga_bus.Context.{TimeoutChange, Context, Session, new_context}
use saga_bus.Dsl.{handle, create_initial_state}
use saga_bus.Orchestrator.{
  on_store, created_state, entered, noted, on_store, timeout_to_schedule, Orchestrator, Work,
  advanced_state, with_context, on_env,
}
use saga_bus.Orchestrator.Handle.{
  insert_created, create_saga, run_handler, process_state, handle_message, persist, schedule_if_set,
}
use saga_bus.Errors.{Error}
use saga_bus.State.{SagaState, HandlerResult, StoreOps, DateValue, date, iso_text}
use saga_bus.Store.{IsOptimistic}
use saga_bus.Messages.{Envelope}
use saga_bus.Prelude.{
  ℕ, ◌+◌, String, ◌≡◌, refl, sym, ap, ◌∙◌, subst, ◌⊎◌, inl, inr, Bool, true, false, Option, none,
  some, arith, if◌then◌else◌, ◌<?>◌,
}
use saga_bus.Prelude.Exec.{Result, ok, err, Exec, pure, resume, resume-cases, resume-err, resume-ok}

module _ {B D V S T A : Type 0} where
  -- User code never sees the store.
  with_context-store :
      (m : Exec Error (Session B V T) A) (c : Context B V) (w : Work B D S T)
      → (with_context m c w).1.store ≡ w.store
  with_context-store m c w = ground arith

module _ {B D V S T : Type 0} (platform : Platform) (store : StoreOps D S)
    (transport : TransportOps B T) (o : Orchestrator B D V T) where
  pub schedule-store :
      (saga_id correlation_id : String) (timeout : Option (ℕ × Option DateValue)) (w : Work B D S T)
      → (schedule_if_set platform store transport o saga_id correlation_id timeout w).1.store
        ≡ w.store
  unfolding schedule_if_set
  schedule-store saga_id correlation_id none w = refl
  schedule-store saga_id correlation_id (some (ms, none)) w = refl
  schedule-store saga_id correlation_id (some (ms, some (date t))) w = refl
  schedule-store saga_id correlation_id (some (ms, some (iso_text s))) w = refl

  -- Either the state was written from the version that was read, or nothing was and there is an
  -- error.
  abbrev pub Persisted : SagaState D → Result Error (Unit {0}) × Work B D S T → S → Type 0
  Persisted state r s =
      ((new_state : SagaState D) × (new_state.metadata.version ≡ state.metadata.version + 1)
        × ((store.update o.definition.name new_state state.metadata.version s).0 ≡ ok tt)
        × (r.1.store ≡ (store.update o.definition.name new_state state.metadata.version s).1))
      ⊎ ((e : Error) × (r.0 ≡ err e) × (r.1.store ≡ s))

  module _ (laws : IsOptimistic store) where
    persist-Persisted :
        (correlation_id : String) (state : SagaState D) (result : HandlerResult D) (c : Context B V)
        (w : Work B D S T)
        → Persisted state
            (persist platform store transport o correlation_id state result c w)
            w.store
    unfolding persist advanced_state
    persist-Persisted correlation_id state result c w =
        let is_completed : Bool = result.is_completed <?> c.is_completed in
        let change : Option TimeoutChange = c.pending_timeout_change in
        let new_state : SagaState D =
          advanced_state state result is_completed change (platform.times w.env.reads) in
        let w' : Work B D S T = (noted new_state result (on_env (now platform) w).1).1 in
        elim (resume-cases
          (on_store (store.update o.definition.name new_state state.metadata.version) w')
          (λ _.
            schedule_if_set platform store transport o state.metadata.saga_id correlation_id
              (timeout_to_schedule is_completed change))) [
                | inl (e, failed, run) ↦ inr (
                  e,
                  ap (λ r. r.0) run,
                  ap (λ r. r.1.store) run
                      ∙ laws.update_failed o.definition.name new_state state.metadata.version
                          w.store e failed,
                )
                | inr (u, done, run) ↦ inl (
                  new_state,
                  refl,
                  done,
                  ap (λ r. r.1.store) run
                      ∙ schedule-store state.metadata.saga_id correlation_id
                          (timeout_to_schedule is_completed change) _,
                )
              ]

    run_handler-Persisted :
        (envelope : Envelope B) (correlation_id : String) (state : SagaState D) (w : Work B D S T)
        → Persisted state
            (run_handler platform store transport o envelope correlation_id state w)
            w.store
    unfolding run_handler
    run_handler-Persisted envelope correlation_id state w =
        let c : Context B V =
          new_context o.definition.name state.metadata.saga_id correlation_id envelope
            o.default_endpoint (some state.metadata) o.timeout_bounds in
        let m : Exec Error (Session B V T) (HandlerResult D) =
          handle o.definition envelope.payload state in
        let kept : (with_context m c w).1.store ≡ w.store = with_context-store m c w in
        elim (resume-cases (with_context m c w) (λ handled.
          persist platform store transport o correlation_id state handled.0 handled.1)) [
            | inl (e, failed, run) ↦ inr (e, ap (λ r. r.0) run, ap (λ r. r.1.store) run ∙ kept)
            | inr (h, done, run) ↦
                subst
                  (λ s.
                    Persisted state
                      (run_handler platform store transport o envelope correlation_id state w) s)
                  kept
                  (subst (λ r. Persisted state r (with_context m c w).1.store) (sym run)
                    (persist-Persisted correlation_id state h.0 h.1 (with_context m c w).1))
          ]

    -- A message for a saga that goes on either stores a state that was made from the version that
    -- was read, with the next version, or throws and leaves the store as it was.
    pub process_state-Persisted :
        (envelope : Envelope B) (correlation_id : String) (state : SagaState D) (w : Work B D S T)
        → state.metadata.is_completed ≡ false
        → Persisted state
            (process_state platform store transport o envelope correlation_id state w)
            w.store
    unfolding process_state
    process_state-Persisted envelope correlation_id state w goes_on =
        subst
          (λ b.
            Persisted state
              (if b
                then (ok tt, entered state w)
                else run_handler platform store transport o envelope correlation_id state
                    (entered state w))
              w.store)
          (sym goes_on) (run_handler-Persisted envelope correlation_id state (entered state w))

    -- A fresh state was inserted, or nothing was and there is an error.
    abbrev pub Created : String → Result Error (SagaState D) × Work B D S T → S → Type 0
    Created correlation_id r s =
        ((x : SagaState D) × (x.metadata.version ≡ 0)
          × (x.metadata.is_completed ≡ false)
          × (r.0 ≡ ok x)
          × ((store.insert o.definition.name correlation_id x s).0 ≡ ok tt)
          × (r.1.store ≡ (store.insert o.definition.name correlation_id x s).1))
        ⊎ ((e : Error) × (r.0 ≡ err e) × (r.1.store ≡ s))

    insert-Created :
        (correlation_id : String) (x : SagaState D) (w : Work B D S T)
        → x.metadata.version ≡ 0
        → x.metadata.is_completed ≡ false
        → Created correlation_id
            (resume (on_store (store.insert o.definition.name correlation_id x) w) (λ _. pure x))
            w.store
    insert-Created correlation_id x w fresh active =
        elim (resume-cases (on_store (store.insert o.definition.name correlation_id x) w)
          (λ _. pure x)) [
            | inl (e, failed, run) ↦ inr (
              e,
              ap (λ r. r.0) run,
              ap (λ r. r.1.store) run
                  ∙ laws.insert_failed o.definition.name correlation_id x w.store e failed,
            )
            | inr (u, done, run) ↦
                inl (x, fresh, active, ap (λ r. r.0) run, done, ap (λ r. r.1.store) run)
          ]

    insert_created-Created :
        (correlation_id saga_id : String) (initial : SagaState D) (w : Work B D S T)
        → Created correlation_id
            (insert_created platform store transport o correlation_id saga_id initial w)
            w.store
    unfolding insert_created created_state
    insert_created-Created correlation_id saga_id initial w =
        insert-Created correlation_id
          (created_state initial saga_id (platform.times w.env.reads)
            (platform.times (w.env.reads + 1)) w.ctx.trace_context)
          (on_env (now platform) (on_env (now platform) w).1).1 refl refl

    create_saga-Created :
        (envelope : Envelope B) (correlation_id : String) (w : Work B D S T)
        → Created correlation_id
            (create_saga platform store transport o envelope correlation_id w)
            w.store
    unfolding create_saga created_state
    create_saga-Created envelope correlation_id w =
        let w' : Work B D S T = (on_env (random_uuid platform) w).1 in
        let saga_id : String = platform.uuids w.env.draws in
        let c : Context B V =
          new_context o.definition.name saga_id correlation_id envelope none none
            o.timeout_bounds in
        let m : Exec Error (Session B V T) (SagaState D) =
          create_initial_state o.definition envelope.payload in
        let kept : (with_context m c w').1.store ≡ w.store = with_context-store m c w' in
        elim (resume-cases (with_context m c w')
          (λ initial. insert_created platform store transport o correlation_id saga_id initial.0)) [
            | inl (e, failed, run) ↦ inr (e, ap (λ r. r.0) run, ap (λ r. r.1.store) run ∙ kept)
            | inr (h, done, run) ↦
                subst
                  (λ s.
                    Created correlation_id
                      (create_saga platform store transport o envelope correlation_id w) s)
                  kept
                  (subst (λ r. Created correlation_id r (with_context m c w').1.store) (sym run)
                    (insert_created-Created correlation_id saga_id h.0 (with_context m c w').1))
          ]

    -- On a store that keeps its promises, a message that may start a saga and finds none: nothing is
    -- stored and there is an error, or a new state of version 0 is inserted, and the handler then goes
    -- on from it.
    pub handle_message-creates :
        (envelope : Envelope B) (correlation_id : String) (w : Work B D S T)
        → let r = handle_message platform store transport o envelope correlation_id true none w in
          ((e : Error) × (r.0 ≡ err e) × (r.1.store ≡ w.store))
          ⊎ ((x : SagaState D) × (x.metadata.version ≡ 0)
              × (x.metadata.is_completed ≡ false)
              × ((store.insert o.definition.name correlation_id x w.store).0 ≡ ok tt)
              × Persisted x r (store.insert o.definition.name correlation_id x w.store).1)
    unfolding handle_message
    handle_message-creates envelope correlation_id w =
        let go : SagaState D → Exec Error (Work B D S T) (Unit {0}) =
          process_state platform store transport o envelope correlation_id in
        let made : Result Error (SagaState D) × Work B D S T =
          create_saga platform store transport o envelope correlation_id w in
        elim (create_saga-Created envelope correlation_id w) [
          | inr (e, failed, kept) ↦ inl (
            e,
            ap (λ r. r.0) (resume-err made go failed),
            ap (λ r. r.1.store) (resume-err made go failed) ∙ kept,
          )
          | inl (x, fresh, active, done, inserted, written) ↦ inr (
            x,
            fresh,
            active,
            inserted,
            subst (λ s. Persisted x (resume made go) s) written
                (subst (λ r. Persisted x r made.1.store) (sym (resume-ok made go done))
                  (process_state-Persisted envelope correlation_id x made.1 active)),
          )
        ]
