-- ===== src/Sagas/Loan/Expiry.antt =====
-- The timeout that packages/examples-shared/src/sagas/LoanApplicationSaga.ts sets for an application.
use saga_bus.Dsl.{get_correlation}
use saga_bus.Interfaces.{Env}
use saga_bus.Messages.{Envelope, TimeoutExpired, saga_timeout_message_type, timeout_expired}
use saga_bus.Orchestrator.{Orchestrator, Work, drop_message}
use saga_bus.Orchestrator.Process.{process_message}
use saga_bus.Pipeline.{Middleware}
use saga_bus.Sagas.Loan.Application.{Application}
use saga_bus.Sagas.Loan.Messages.{LoanMessage}
use saga_bus.Sagas.Loan.Machine.{loan_builder}
use saga_bus.Sagas.Loan.Steps.{Host}
use saga_bus.Sagas.Loan.Turn.{saga}
use saga_bus.Prelude.Exec.{ok}
use saga_bus.Dsl.{definition_of}
use saga_bus.State.{StoreOps}
use saga_bus.Prelude.{String, ◌≡◌, refl, Option, none, some, List}
use saga_bus.Context.{PartialBounds}
use saga_bus.Prelude.Dict

module _ {N S T : Type 0} (V : Type 0) (host : Host N T) (store : StoreOps (Application N) S)
    (endpoint : Option String) (bounds : Option PartialBounds) where
  -- The runtime's orchestrator of the saga, with no handler of correlation failures
  abbrev pub loan_orchestrator : Orchestrator (LoanMessage N) (Application N) V T
  loan_orchestrator = record {
    definition = saga host;
    default_endpoint = endpoint;
    timeout_bounds = bounds;
    on_correlation_failure = none;
  }

  -- The timeout message of an application, which the saga asks for when it starts, is dropped: it has
  -- no application id to correlate it by. No state is read, and nothing is changed or published.
  pub process_message-timeout_dropped :
      (pipeline : List (Middleware (Work (LoanMessage N) (Application N) S T)))
      (envelope : Envelope (LoanMessage N)) (e : TimeoutExpired) (s : S) (env : Env T)
      → process_message host.platform store host.transport pipeline loan_orchestrator
          (record envelope { payload = timeout_expired e })
          s
          env
        ≡ (
          ok (some (record { action = drop_message; message_type = saga_timeout_message_type })),
          s,
          env,
        )
  unfolding process_message saga definition_of loan_builder get_correlation Dict.get Dict.set
  process_message-timeout_dropped pipeline envelope e s env = refl
