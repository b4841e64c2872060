-- ===== src/Orchestrator/Scheduled.antt =====
-- When SagaOrchestrator publishes the timeout message: packages/core/src/runtime/SagaOrchestrator.ts.
use saga_bus.Context.{Context}
use saga_bus.Errors.{Error}
use saga_bus.Interfaces.{Env, Platform, TransportOps}
use saga_bus.Messages.{Envelope}
use saga_bus.Orchestrator.{CorrelationFailure, Orchestrator, timeout_to_schedule}
use saga_bus.Orchestrator.Message.{message_key, may_start, processed, processed-loaded, read}
use saga_bus.Orchestrator.Next.{IsNext, advanced_state-IsNext, due, timeout_to_schedule-due}
use saga_bus.Orchestrator.Process.{wrapped}
use saga_bus.Orchestrator.Stale.{rest_of-rejected}
use saga_bus.Orchestrator.Success.{
  Returned, completes, processed-scheduled, stamped, stored, timeout_sent,
}
use saga_bus.Pipeline.{Done}
use saga_bus.State.{HandlerResult, SagaState, StoreOps, date}
use saga_bus.Store.{IsOptimistic}
use saga_bus.Prelude.{
  ℕ, ◌<◌, String, ◌≡◌, sym, ap, ◌∙◌, inl, inr, true, false, Option, none, some, truthy,
}
use saga_bus.Prelude.Exec.{Result, Result-cases, err, ok}

module _ {B D V S T : Type 0} (platform : Platform) (store : StoreOps D S)
    (transport : TransportOps B T) (o : Orchestrator B D V T) (laws : IsOptimistic store)
    (envelope : Envelope B) (s : S) (env : Env T) where
  abbrev key : String
  key = message_key platform store transport o laws envelope s env

  -- What is left when the store answered to the new state: if it took the state, the timeout message
  -- was published; if it refused, nothing was published, and its error is thrown in its wrapping.
  abbrev pub answered :
      SagaState D → Env T → ℕ → ℕ → Done × S → Result Error (Option CorrelationFailure) × S × Env T
  answered x left ms expires (ok u, t) = (
    ok none,
    t,
    record (stamped platform store transport o laws envelope s env left) {
      transport = (timeout_sent platform store transport o laws envelope s env x left ms expires).1;
    },
  )
  answered x left ms expires (err e, t) = (
    err (wrapped o envelope key (some x.metadata.saga_id) e),
    t,
    stamped platform store transport o laws envelope s env left,
  )

  -- A message for a saga that goes on, whose handler returns with a timeout pending that is not 0,
  -- and does not complete the saga, where the call of the transport for the timeout message does not
  -- throw: the new state is handed to the store first. If the store takes it, the timeout message is
  -- published by that one call, to the default endpoint, or else to the endpoint of timeout messages,
  -- with the correlation id as its key and the whole timeout as its delay, and the message is
  -- accepted. If the store refuses it, nothing is published, and the error of the store is thrown.
  pub process_message-schedules :
      (x : SagaState D) (result : HandlerResult D) (c : Context B V) (left : Env T) (ms expires : ℕ)
      → truthy (message_key platform store transport o laws envelope s env) ≡ true
      → (read platform store transport o laws envelope s env).0 ≡ ok (some x)
      → x.metadata.is_completed ≡ false
      → Returned platform store transport o laws envelope s env x result c left
      → c.pending_timeout_change ≡ due ms expires
      → completes platform store transport o laws envelope s env result c ≡ false
      → 0 < ms
      → (timeout_sent platform store transport o laws envelope s env x left ms expires).0 ≡ ok tt
      → (y : SagaState D) × IsNext x result
          (completes platform store transport o laws envelope s env result c)
          c.pending_timeout_change
          (platform.times left.reads)
          y
        × (processed platform store transport o laws envelope s env
            ≡ answered x left ms expires (store.update o.definition.name y x.metadata.version s))
  process_message-schedules x result c left ms expires correlated found active returned pending
        going some_time sent =
      (
        y,
        advanced_state-IsNext x result
            (completes platform store transport o laws envelope s env result c)
            c.pending_timeout_change (platform.times left.reads),
        elim (Result-cases (store.update o.definition.name y x.metadata.version s).0) [
          | inl (e, refused) ↦
              processed-loaded platform store transport o laws envelope s env correlated found
              ∙ rest_of-rejected platform store transport o envelope key
                  (may_start platform store transport o laws envelope s env) x s env result c left
                  active returned refused
              ∙ ap (λ r. answered x left ms expires (r, after)) (sym refused)
          | inr (u, taken) ↦
              processed-scheduled platform store transport o laws envelope s env x result c left
                correlated found active returned taken ms expires scheduled sent
              ∙ ap (λ r. answered x left ms expires (r, after)) (sym taken)
        ],
      )
    where
      y : SagaState D
      y = stored platform store transport o laws envelope s env x result c left

      after : S
      after = (store.update o.definition.name y x.metadata.version s).1

      scheduled :
          timeout_to_schedule
            (completes platform store transport o laws envelope s env result c)
            c.pending_timeout_change
          ≡ some (ms, some (date expires))
      scheduled =
          ap (λ b. timeout_to_schedule b c.pending_timeout_change) going
          ∙ ap (λ p. timeout_to_schedule false p) pending
          ∙ timeout_to_schedule-due ms expires some_time
