-- ===== src/Orchestrator/Handle.antt =====
-- handleMessage of packages/core/src/runtime/SagaOrchestrator.ts: create or take the saga, run the
-- handler, store the result, schedule the timeout message.
use saga_bus.Orchestrator.{
  created_state, Orchestrator, Work, on_store, on_env, with_context, created_state, advanced_state,
  timeout_to_schedule, get_time, entered, noted,
}
use saga_bus.Messages.{Envelope, timeout_expired, saga_timeout_message_type, whole}
use saga_bus.Errors.{Error}
use saga_bus.Interfaces.{Platform, TransportOps, now, random_uuid, on_transport}
use saga_bus.State.{DateValue, SagaState, StoreOps, HandlerResult}
use saga_bus.Context.{new_context, Context}
use saga_bus.Dsl.{handle, create_initial_state, handle}
use saga_bus.Prelude.{ℕ, ◌-◌, String, Bool, Option, none, some, if◌then◌else◌, ◌<?>◌}
use saga_bus.Prelude.Exec.{ok, Exec, pure, ◌>>=◌, ◌>>◌}

module _ {B D V S T : Type 0} (platform : Platform) (store : StoreOps D S)
    (transport : TransportOps B T) (o : Orchestrator B D V T) where
  abbrev Step : Type 0 → Type 0
  Step A = Exec Error (Work B D S T) A

  -- The initial state gets its metadata and is inserted.
  unfoldable pub insert_created : String → String → SagaState D → Step (SagaState D)
  unfolding created_state
  insert_created correlation_id saga_id initial w =
      (do
        created ← on_env (now platform)
        updated ← on_env (now platform)
        let state = created_state initial saga_id created updated w.ctx.trace_context
        on_store (store.insert o.definition.name correlation_id state)
        pure state)
        w

  -- The branch of handleMessage for a message that starts a saga.
  unfoldable pub create_saga : Envelope B → String → Step (SagaState D)
  unfolding insert_created
  create_saga envelope correlation_id w =
      (do
        saga_id ← on_env (random_uuid platform)
        initial ← with_context (create_initial_state o.definition envelope.payload) (
            new_context o.definition.name saga_id correlation_id envelope none none
              o.timeout_bounds)
        insert_created correlation_id saga_id initial.0)
        w

  unfoldable pub schedule_timeout_message : String → String → ℕ → ℕ → Step (Unit {0})
  schedule_timeout_message saga_id correlation_id timeout_ms expires = on_env (
      on_transport (
        transport.publish
          (timeout_expired (record {
            saga_id = saga_id;
            saga_name = o.definition.name;
            correlation_id = correlation_id;
            timeout_ms = timeout_ms;
            timeout_set_at = expires - timeout_ms;
          }))
          (record {
            endpoint = o.default_endpoint <?> saga_timeout_message_type;
            key = some correlation_id;
            headers = none;
            delay_ms = some (whole timeout_ms);
          })))

  -- `timeoutExpiresAt ?? new Date()` at its time in milliseconds
  abbrev expiry_time : Option DateValue → Step ℕ
  expiry_time none = on_env (now platform)
  expiry_time (some d) = get_time d

  unfoldable pub schedule_if_set : String → String → Option (ℕ × Option DateValue) → Step (Unit {0})
  unfolding schedule_timeout_message
  schedule_if_set saga_id correlation_id none = pure tt
  schedule_if_set saga_id correlation_id (some (timeout_ms, expires_at)) = do
    expires ← expiry_time expires_at
    schedule_timeout_message saga_id correlation_id timeout_ms expires

  -- The new state is written under the version that was read, then the timeout is scheduled.
  unfoldable pub persist : String → SagaState D → HandlerResult D → Context B V → Step (Unit {0})
  unfolding advanced_state timeout_to_schedule schedule_if_set
  persist correlation_id state result c w =
      (do
        let is_completed = result.is_completed <?> c.is_completed
        updated ← on_env (now platform)
        let new_state = advanced_state state result is_completed c.pending_timeout_change updated
        noted new_state result
        on_store (store.update o.definition.name new_state state.metadata.version)
        schedule_if_set state.metadata.saga_id correlation_id
            (timeout_to_schedule is_completed c.pending_timeout_change))
        w

  unfoldable pub run_handler : Envelope B → String → SagaState D → Step (Unit {0})
  unfolding persist
  run_handler envelope correlation_id state w =
      (do
        handled ← with_context (handle o.definition envelope.payload state) (
            new_context o.definition.name state.metadata.saga_id correlation_id envelope
              o.default_endpoint (some state.metadata) o.timeout_bounds)
        persist correlation_id state handled.0 handled.1)
        w

  -- A completed saga takes no more messages.
  unfoldable pub process_state : Envelope B → String → SagaState D → Step (Unit {0})
  unfolding run_handler
  process_state envelope correlation_id state w =
      let w' = entered state w in
      if state.metadata.is_completed
      then (ok tt, w')
      else run_handler envelope correlation_id state w'

  unfoldable pub handle_message :
      Envelope B → String → Bool → Option (SagaState D) → Step (Unit {0})
  unfolding create_saga process_state
  handle_message envelope correlation_id can_start (some state) =
      process_state envelope correlation_id state
  handle_message envelope correlation_id can_start none =
      if can_start
      then (do
        state ← create_saga envelope correlation_id
        process_state envelope correlation_id state)
      else pure tt
