-- ===== src/Orchestrator/Loaded.antt =====
-- processMessage of packages/core/src/runtime/SagaOrchestrator.ts with any pipeline: what runs once
-- the message is correlated and the store is read.
use saga_bus.Dsl.{get_correlation}
use saga_bus.Errors.{Error}
use saga_bus.Interfaces.{Env, Platform, TransportOps}
use saga_bus.Messages.{Envelope}
use saga_bus.Orchestrator.{Orchestrator, Work}
use saga_bus.Orchestrator.Handle.{handle_message}
use saga_bus.Orchestrator.Process.{
  finished, opened, process_correlated, process_loaded, process_message, process_read,
  process_uncorrelated,
}
use saga_bus.Pipeline.{Done, Middleware, execute}
use saga_bus.State.{SagaState, StoreOps}
use saga_bus.Prelude.{String, ◌≡◌, ap, ◌∙◌, Bool, true, Option, List, truthy, if◌then◌else◌, ◌<?>◌}
use saga_bus.Prelude.Exec.{Result, ok}

module _ {B D V S T : Type 0} (platform : Platform) (store : StoreOps D S)
    (transport : TransportOps B T) (o : Orchestrator B D V T) (envelope : Envelope B) (s : S) where
  abbrev pub correlation_key : String
  correlation_key =
      (get_correlation o.definition envelope.payload).get_correlation_id envelope.payload <?> ""

  abbrev pub can_start : Bool
  can_start = (get_correlation o.definition envelope.payload).can_start

  abbrev pub read_first : Result Error (Option (SagaState D)) × S
  read_first = store.get_by_correlation_id o.definition.name correlation_key s

  abbrev pub core : Option (SagaState D) → Work B D S T → Done × Work B D S T
  core existing =
      handle_message platform store transport o envelope correlation_key can_start existing

  abbrev pub opened_work : Option (SagaState D) → Env T → Work B D S T
  opened_work existing env = record {
    ctx = opened o envelope correlation_key existing;
    store = read_first.1;
    env = env;
  }

  -- A correlated message, once the store is read, runs through the pipeline.
  pub process_message-loaded :
      (pipeline : List (Middleware (Work B D S T))) (env : Env T) {existing : Option (SagaState D)}
      → truthy correlation_key ≡ true
      → read_first.0 ≡ ok existing
      → process_message platform store transport pipeline o envelope s env
        ≡ finished o envelope correlation_key
            (execute pipeline (core existing) (opened_work existing env))
  unfolding process_message process_loaded
  process_message-loaded pipeline env correlated found =
      ap
        (λ b.
          if b
          then process_correlated platform store transport pipeline o envelope correlation_key
              can_start s env
          else process_uncorrelated platform store transport pipeline o envelope s env)
        correlated
      ∙ ap
          (λ r.
            process_read platform store transport pipeline o envelope correlation_key can_start r
              read_first.1 env)
          found
