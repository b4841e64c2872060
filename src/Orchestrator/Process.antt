-- ===== src/Orchestrator/Process.antt =====
-- processMessage of packages/core/src/runtime/SagaOrchestrator.ts: correlate, load, run the
-- pipeline around handleMessage, and wrap what it throws.
use saga_bus.Orchestrator.{
  Orchestrator, Work, PipelineContext, CorrelationFailure, drop_message, FailureAction,
}
use saga_bus.Orchestrator.Handle.{handle_message}
use saga_bus.Messages.{Envelope, type_of}
use saga_bus.Errors.{Error, processing, as_error}
use saga_bus.Interfaces.{Platform, Env, TransportOps}
use saga_bus.State.{SagaState, StoreOps}
use saga_bus.Dsl.{get_correlation}
use saga_bus.Pipeline.{Middleware, Done, execute}
use saga_bus.Prelude.{String, Bool, Option, none, some, List, truthy, if◌then◌else◌, ◌<?>◌}
use saga_bus.Prelude.Exec.{Result, ok, err}

module _ {B D V T : Type 0} (o : Orchestrator B D V T) where
  -- The context with which a message enters the pipeline.
  unfoldable pub opened : Envelope B → String → Option (SagaState D) → PipelineContext B D
  opened envelope correlation_id existing = record {
    envelope = envelope;
    saga_name = o.definition.name;
    correlation_id = correlation_id;
    saga_id = none;
    existing_state = existing;
    pre_state = none;
    post_state = none;
    handler_result = none;
    error = none;
    trace_context = none;
  }

  -- A thrown error is wrapped with what is known of the message.
  unfoldable pub wrapped : Envelope B → String → Option String → Error → Error
  unfolding as_error
  wrapped envelope correlation_id saga_id e = processing (as_error e) (record {
    saga_name = o.definition.name;
    correlation_id = correlation_id;
    saga_id = saga_id;
    message_type = type_of envelope.payload;
    message_id = envelope.id;
  })

  unfoldable pub finished :
      {S : Type 0}
      → Envelope B
      → String
      → Done × Work B D S T
      → Result Error (Option CorrelationFailure) × S × Env T
  unfolding wrapped
  finished envelope correlation_id (ok u, w) = (ok none, w.store, w.env)
  finished envelope correlation_id (err e, w) =
      (err (wrapped envelope correlation_id w.ctx.saga_id e), w.store, w.env)

unfoldable pub failure_of :
    String → Result Error FailureAction → Result Error (Option CorrelationFailure)
failure_of message_type (ok action) =
    ok (some (record { action = action; message_type = message_type }))
failure_of message_type (err e) = err e

module _ {B D V S T : Type 0} (platform : Platform) (store : StoreOps D S)
    (transport : TransportOps B T) (pipeline : List (Middleware (Work B D S T)))
    (o : Orchestrator B D V T) where
  -- The pipeline around handleMessage, from the state that was loaded before it.
  unfoldable pub process_loaded :
      Envelope B
      → String
      → Bool
      → Option (SagaState D)
      → S
      → Env T
      → Result Error (Option CorrelationFailure) × S × Env T
  unfolding opened finished
  process_loaded envelope correlation_id can_start existing s env =
      finished o envelope correlation_id (
        execute pipeline
          (handle_message platform store transport o envelope correlation_id can_start existing)
          (record { ctx = opened o envelope correlation_id existing; store = s; env = env }))

  -- What a read of the store leads to; an error of the read is thrown as it is.
  unfoldable pub process_read :
      Envelope B
      → String
      → Bool
      → Result Error (Option (SagaState D))
      → S
      → Env T
      → Result Error (Option CorrelationFailure) × S × Env T
  unfolding process_loaded
  process_read envelope correlation_id can_start (err e) s env = (err e, s, env)
  process_read envelope correlation_id can_start (ok existing) s env =
      process_loaded envelope correlation_id can_start existing s env

  unfoldable pub process_correlated :
      Envelope B → String → Bool → S → Env T → Result Error (Option CorrelationFailure) × S × Env T
  unfolding process_read
  process_correlated envelope correlation_id can_start s env =
      let (r, s') = store.get_by_correlation_id o.definition.name correlation_id s in
      process_read envelope correlation_id can_start r s' env

  -- The configured handler chooses what happens to a message that has no correlation id.
  unfoldable pub process_uncorrelated :
      Envelope B → S → Env T → Result Error (Option CorrelationFailure) × S × Env T
  unfolding failure_of
  process_uncorrelated envelope s env =
      let message_type = type_of envelope.payload in
      elim o.on_correlation_failure [
        | none ↦ (ok (some (record { action = drop_message; message_type = message_type })), s, env)
        | some choose ↦
            let (r, env') = choose envelope o.definition.name message_type env in
            (failure_of message_type r, s, env')
      ]

  -- A missing or empty correlation id is a correlation failure.
  unfoldable pub process_message :
      Envelope B → S → Env T → Result Error (Option CorrelationFailure) × S × Env T
  unfolding process_correlated process_uncorrelated
  process_message envelope s env =
      let correlation = get_correlation o.definition envelope.payload in
      let correlation_id = correlation.get_correlation_id envelope.payload <?> "" in
      if truthy correlation_id
      then process_correlated envelope correlation_id correlation.can_start s env
      else process_uncorrelated envelope s env
