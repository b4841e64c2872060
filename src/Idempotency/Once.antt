-- ===== src/Idempotency/Once.antt =====
-- What the idempotency middleware keeps from the rest of the pipeline.
use saga_bus.Errors.{Error}
use saga_bus.Idempotency.{
  IdempotencyOptions, MarkTiming, after, before, create_idempotency_middleware, duplicate_outcome,
  id_of, is_excluded, mark, mark_after, run_known, run_new, skips, then_next, timing,
}
use saga_bus.Messages.{Envelope}
use saga_bus.Pipeline.{Done, Middleware, drive, execute, next_from}
use saga_bus.Pipeline.Onion.{CallsOnce, Stops, around, execute-onion, onion}
use saga_bus.Prelude.{
  String, ◌≡◌, refl, ap, ◌∙◌, Bool, true, false, List, ◌∷◌, All, Bool-cases, inl, inr, sym, fun_ext,
  ◌<?>◌,
}
use saga_bus.Prelude.Exec.{Exec, Result, err, ok, ◌>>◌, resume}

module _ {B W : Type 0} (options : IdempotencyOptions B W) (envelope_in : W → Envelope B) where
  abbrev idempotency : Middleware W
  idempotency = create_idempotency_middleware options envelope_in

  mark_after-Stops :
      (message_id : String) (r : Done) (w : W)
      → Stops (mark_after options envelope_in message_id r w)
  unfolding mark_after
  mark_after-Stops message_id (err e) w = tt
  mark_after-Stops message_id (ok u) w = tt

  then_next-CallsOnce :
      (x : Result Error (Unit {0}) × W) → CallsOnce (then_next options envelope_in x)
  unfolding then_next
  then_next-CallsOnce (err e, v) = tt
  then_next-CallsOnce (ok u, v) = λ _ _. tt

  run_new-CallsOnce :
      (t : MarkTiming) (message_id : String) (w : W)
      → CallsOnce (run_new options envelope_in t message_id w)
  unfolding run_new
  run_new-CallsOnce after message_id w = mark_after-Stops message_id
  run_new-CallsOnce before message_id w =
      then_next-CallsOnce (mark options envelope_in message_id w)

  run_known-CallsOnce :
      (message_id message_type : String) (x : Result Error Bool × W)
      → CallsOnce (run_known options envelope_in message_id message_type x)
  unfolding run_known
  run_known-CallsOnce message_id message_type (err e, w) = tt
  run_known-CallsOnce message_id message_type (ok true, w) = tt
  run_known-CallsOnce message_id message_type (ok false, w) =
      run_new-CallsOnce (timing options envelope_in) message_id w

  idempotency-CallsOnce : (w : W) → CallsOnce (idempotency w)
  unfolding create_idempotency_middleware
  idempotency-CallsOnce w = elim (Bool-cases (is_excluded options envelope_in w)) [
    | inl out ↦ rw out (λ _ _. tt)
    | inr included ↦ rw included (
        run_known-CallsOnce (id_of options envelope_in w) (envelope_in w).type
          (options.store.has (id_of options envelope_in w) w))
  ]

  around-mark_after :
      (inner : Exec Error W (Unit {0})) (message_id : String) (x : Done × W)
      → around inner (mark_after options envelope_in message_id x.0 x.1)
        ≡ resume x (λ _. mark options envelope_in message_id)
  unfolding around mark_after
  around-mark_after inner message_id (err e, w) = refl
  around-mark_after inner message_id (ok u, w) = refl

  around-then_next :
      (inner : Exec Error W (Unit {0})) (x : Done × W)
      → around inner (then_next options envelope_in x) ≡ resume x (λ _. inner)
  unfolding around then_next
  around-then_next inner (err e, w) = refl
  around-then_next inner (ok u, w) = refl

  -- The mark before or behind an action
  abbrev pub marked : MarkTiming → String → Exec Error W (Unit {0}) → Exec Error W (Unit {0})
  marked before message_id inner = do mark options envelope_in message_id; inner
  marked after message_id inner = do inner; mark options envelope_in message_id

  around-run_new :
      (t : MarkTiming) (inner : Exec Error W (Unit {0})) (message_id : String) (w : W)
      → around inner (run_new options envelope_in t message_id w) ≡ marked t message_id inner w
  unfolding around run_new
  around-run_new before inner message_id w =
      around-then_next inner (mark options envelope_in message_id w)
  around-run_new after inner message_id w = around-mark_after inner message_id (inner w)

  -- A message that the store knows, of a type that is not excluded, reaches no later middleware and
  -- no handler, whether they are well behaved or not: the outcome is that of the configured action,
  -- in the state that the look into the store left.
  pub execute-duplicate :
      (rest : List (Middleware W)) (core : Exec Error W (Unit {0})) (w w' : W)
      → is_excluded options envelope_in w ≡ false
      → options.store.has (id_of options envelope_in w) w ≡ (ok true, w')
      → execute (idempotency ∷ rest) core w ≡ (
        duplicate_outcome
            (options.on_duplicate <?> skips)
            (id_of options envelope_in w)
            (envelope_in w).type,
        w',
      )
  unfolding execute next_from create_idempotency_middleware run_known drive
  execute-duplicate rest core w w' included known = rw (included, known)

  -- A message that the store does not know runs through the rest of the pipeline, where each later
  -- middleware calls next at most once: with the timing "before" it is marked first, and not run if
  -- that throws; with "after" it is marked only once the rest has returned.
  pub execute-fresh :
      (rest : List (Middleware W)) (core : Exec Error W (Unit {0})) (w w' : W)
      → All (λ m. (v : W) → CallsOnce (m v)) rest
      → is_excluded options envelope_in w ≡ false
      → options.store.has (id_of options envelope_in w) w ≡ (ok false, w')
      → execute (idempotency ∷ rest) core w
        ≡ marked (timing options envelope_in) (id_of options envelope_in w) (execute rest core) w'
  unfolding create_idempotency_middleware run_known onion
  execute-fresh rest core w w' once included fresh =
      execute-onion (idempotency ∷ rest) core w (idempotency-CallsOnce, once)
      ∙ rw (included, fresh)
          (around-run_new (timing options envelope_in) (onion rest core)
            (id_of options envelope_in w) w')
      ∙ ap (λ inner. marked (timing options envelope_in) (id_of options envelope_in w) inner w')
          (sym (fun_ext (λ v. execute-onion rest core v once)))
