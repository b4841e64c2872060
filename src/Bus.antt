-- ===== src/Bus.antt =====
-- packages/core/src/runtime/BusImpl.ts: the bus over its sagas. A saga is what the bus calls of
-- SagaOrchestrator; all stores together are one state. The callback that the transport gets for an
-- endpoint is `receive` at that endpoint. Logging is left out.
pub mod Subscriptions
pub mod Receive
pub mod Create
pub mod Recovery
use saga_bus.Messages.{Envelope, Message, PartialOptions, type_of}
use saga_bus.Errors.{Error, ErrorContext, plain, extract_context, original}
use saga_bus.Errors.Classify.{default_handle, Action, retry, dlq, drop}
use saga_bus.Interfaces.{Platform, Env, TransportOps, on_transport}
use saga_bus.State.{StoreOps}
use saga_bus.Context.{PartialBounds}
use saga_bus.Dsl.{Definition, includes}
use saga_bus.Pipeline.{Middleware}
use saga_bus.Retry.{
  RetryPolicy, default_retry_policy, default_dlq_naming, handle_failure, send_to_dlq,
}
use saga_bus.Orchestrator.{Work, CorrelationFailure, FailureAction, drop_message, to_dlq}
use saga_bus.Orchestrator.Process.{process_message}
use saga_bus.Prelude.{
  ℕ, String, Bool, true, false, Option, none, some, List, [], ◌∷◌, ◌++◌, if◌then◌else◌, ◌<?>◌,
  ◌<|>◌, all, keep,
}
use saga_bus.Prelude.Dict.{Dict}
use saga_bus.Prelude.Exec.{Result, ok, err, Exec, pure, resume, ◌>>=◌, ◌>>◌}
use saga_bus.Prelude.Texts.{◌<>◌}
use saga_bus.Prelude.Dict

-- The state of all stores, and the world outside.
pub record World (S T : Type 0) : Type 0 where
  pub stores : S
  pub env : Env T

-- What the bus uses of a SagaOrchestrator.
pub record Saga (B S T : Type 0) : Type 0 where
  pub name : String
  pub handled_message_types : List String
  pub process : Envelope B → Exec Error (World S T) (Option CorrelationFailure)

-- One entry of WorkerConfig.sagas
pub record SagaWorker : Type 0 where
  pub concurrency : Option ℕ
  pub retry_policy : Option RetryPolicy

-- WorkerConfig, without the shutdown timeout, which the bus does not read
pub record WorkerConfig (B T : Type 0) : Type 0 where
  pub default_concurrency : Option ℕ
  pub retry_policy : Option RetryPolicy
  pub sagas : Dict SagaWorker
  pub dlq_naming : Option (String → Result Error String)
  pub timeout_bounds : Option PartialBounds
  pub on_correlation_failure :
      Option (Envelope B → String → String → Exec Error (Env T) FailureAction)

-- SagaRegistration
pub record SagaRegistration (B D V S T : Type 0) : Type 0 where
  pub definition : Definition B D V T
  pub store : Option (StoreOps D S)

-- ErrorHandler: it gets the error, the envelope, the name of the saga and what is known of the saga. It
-- is the user's, and may throw.
abbrev pub ErrorHandler : Type 0 → Type 0 → Type 0
ErrorHandler B T = Error → Envelope B → String → Option ErrorContext → Exec Error (Env T) Action

-- BusConfig
pub record BusConfig (B D V S T : Type 0) : Type 0 where
  pub transport : TransportOps B T
  pub store : Option (StoreOps D S)
  pub sagas : List (SagaRegistration B D V S T)
  pub middleware : List (Middleware (Work B D S T))
  pub error_handler : Option (ErrorHandler B T)
  pub worker : WorkerConfig B T

-- The fields of BusImpl
pub record Bus (B S T : Type 0) : Type 0 where
  pub transport : TransportOps B T
  pub platform : Platform
  pub error_handler : ErrorHandler B T
  pub worker : WorkerConfig B T
  pub sagas : List (Saga B S T)

module _ {B D V S T : Type 0} (platform : Platform) (config : BusConfig B D V S T) where
  -- One orchestrator as the bus calls it.
  unfoldable pub new_orchestrator : SagaRegistration B D V S T → StoreOps D S → Saga B S T
  new_orchestrator registration store = record {
    name = registration.definition.name;
    handled_message_types = registration.definition.handled_message_types;
    process = λ envelope w.
        let (r, s, e) =
          process_message platform store config.transport config.middleware
            (record {
              definition = registration.definition;
              default_endpoint = none;
              timeout_bounds = config.worker.timeout_bounds;
              on_correlation_failure = config.worker.on_correlation_failure;
            })
            envelope w.stores w.env in
        (r, record { stores = s; env = e });
  }

  -- The error for a saga without a store
  abbrev pub no_store : String → Error
  unfolding ◌<>◌
  no_store name = plain (
      "Saga \"" <> name <> "\" has no store. "
      <> "Provide a store in the saga registration or set a default store in BusConfig.")

  -- A saga's own store comes before the default store.
  unfoldable pub resolve : SagaRegistration B D V S T → Result Error (Saga B S T)
  unfolding new_orchestrator
  resolve registration = elim (registration.store <|> config.store) [
    | some store ↦ ok (new_orchestrator registration store)
    | none ↦ err (no_store registration.definition.name)
  ]

  unfoldable pub orchestrators :
      List (SagaRegistration B D V S T) → Result Error (List (Saga B S T))
  unfolding resolve
  orchestrators [] = ok []
  orchestrators (r ∷ rs) = elim (resolve r) [
    | err e ↦ err e
    | ok saga ↦ elim (orchestrators rs) [ err e ↦ err e | ok sagas ↦ ok (saga ∷ sagas) ]
  ]

  -- The fields that the constructor sets
  unfoldable pub bus_of : List (Saga B S T) → Bus B S T
  unfolding default_handle
  bus_of sagas = record {
    transport = config.transport;
    platform = platform;
    error_handler = config.error_handler <?> (λ e envelope name known. pure (default_handle e));
    worker = config.worker;
    sagas = sagas;
  }

  -- The constructor, createBus
  unfoldable pub create_bus : Result Error (Bus B S T)
  unfolding orchestrators bus_of
  create_bus = elim (orchestrators config.sagas) [ err e ↦ err e | ok sagas ↦ ok (bus_of sagas) ]

-- The loop of start over the message types of one saga: what is subscribed, and with which
-- concurrency.
unfoldable pub subscribe_types : ℕ → List String → List String → List (String × ℕ) × List String
unfolding includes
subscribe_types concurrency [] subscribed = ([], subscribed)
subscribe_types concurrency (t ∷ ts) subscribed =
    let skipped = subscribe_types concurrency ts subscribed in
    let (rest, seen) = subscribe_types concurrency ts (t ∷ subscribed) in
    if includes subscribed t then skipped else ((t, concurrency) ∷ rest, seen)

module _ {B T : Type 0} where
  unfoldable pub concurrency_of : WorkerConfig B T → String → ℕ
  concurrency_of worker name =
      (elim (Dict.get name worker.sagas) [ none ↦ none | some w ↦ w.concurrency ]
        <|> worker.default_concurrency)
      <?> 1

  -- Each subscription is made in turn; the first that throws ends the start.
  unfoldable pub subscribe_each : TransportOps B T → List (String × ℕ) → Exec Error T (Unit {0})
  subscribe_each transport [] = pure tt
  subscribe_each transport ((endpoint, concurrency) ∷ rest) = do
    transport.subscribe endpoint concurrency
    subscribe_each transport rest

  unfoldable pub dlq_naming_of : WorkerConfig B T → String → Result Error String
  unfolding default_dlq_naming
  dlq_naming_of worker = worker.dlq_naming <?> default_dlq_naming

  -- The policy of the saga, else of the bus, else the default
  unfoldable pub retry_policy_of : WorkerConfig B T → String → RetryPolicy
  retry_policy_of worker name =
      (elim (Dict.get name worker.sagas) [ none ↦ none | some w ↦ w.retry_policy ]
        <|> worker.retry_policy)
      <?> default_retry_policy

-- `this.started = true` at the end of start, and `= false` at the end of stop, if nothing threw
abbrev pub now_running :
    {T : Type 0} → Bool → Result Error (Unit {0}) × T → Result Error (Unit {0}) × (Bool × T)
now_running running (err e, t) = (err e, (if running then false else true, t))
now_running running (ok u, t) = (ok tt, (running, t))

-- A call that publishes, in the world of the bus
abbrev pub on_world : {S T A : Type 0} → Exec Error T A → Exec Error (World S T) A
on_world m w = let (r, e) = on_transport m w.env in (r, record w { env = e })

-- User code in the world of the bus
abbrev pub in_env : {S T A : Type 0} → Exec Error (Env T) A → Exec Error (World S T) A
in_env m w = let (r, e) = m w.env in (r, record w { env = e })

module _ {B S T : Type 0} where
  -- The loop over the sagas
  unfoldable pub subscribe_sagas :
      WorkerConfig B T → List (Saga B S T) → List String → List (String × ℕ) × List String
  unfolding subscribe_types concurrency_of
  subscribe_sagas worker [] subscribed = ([], subscribed)
  subscribe_sagas worker (saga ∷ sagas) subscribed =
      let (here, seen) =
        subscribe_types (concurrency_of worker saga.name) saga.handled_message_types subscribed in
      let (rest, all) = subscribe_sagas worker sagas seen in (here ++ rest, all)

  unfoldable pub subscriptions : Bus B S T → List (String × ℕ)
  unfolding subscribe_sagas
  subscriptions bus = (subscribe_sagas bus.worker bus.sagas []).0

  -- The state beside the transport's is `started`.
  unfoldable pub start : Bus B S T → Exec Error (Bool × T) (Unit {0})
  unfolding subscriptions subscribe_each
  start bus (true, t) = (ok tt, (true, t))
  start bus (false, t) =
      now_running true
        (resume (bus.transport.start t) (λ _. subscribe_each bus.transport (subscriptions bus)))

  unfoldable pub stop : Bus B S T → Exec Error (Bool × T) (Unit {0})
  stop bus (false, t) = (ok tt, (false, t))
  stop bus (true, t) = now_running false (bus.transport.stop t)

  -- Without options, only the endpoint is given.
  unfoldable pub publish : Bus B S T → Message B → Option PartialOptions → Exec Error T (Unit {0})
  publish bus m none =
      bus.transport.publish m
        (record { endpoint = type_of m; key = none; headers = none; delay_ms = none })
  publish bus m (some o) = bus.transport.publish m (record {
    endpoint = o.endpoint <?> type_of m;
    key = o.key;
    headers = o.headers;
    delay_ms = o.delay_ms;
  })

  unfoldable pub bury : Bus B S T → String → Envelope B → Error → Exec Error (World S T) (Unit {0})
  unfolding dlq_naming_of
  bury bus endpoint envelope e =
      on_world (
        send_to_dlq bus.platform.dates bus.transport (dlq_naming_of bus.worker) envelope endpoint e)

  unfoldable pub try_again :
      Bus B S T → String → Envelope B → RetryPolicy → Error → Exec Error (World S T) (Unit {0})
  unfolding dlq_naming_of
  try_again bus endpoint envelope policy e = on_world (do
    handle_failure bus.platform.dates bus.transport (dlq_naming_of bus.worker) envelope endpoint e
        policy
    pure tt)

  -- What the action of the error handler leads to
  unfoldable pub act :
      Bus B S T → String → Envelope B → String → Error → Action → Exec Error (World S T) (Unit {0})
  unfolding bury try_again retry_policy_of
  act bus endpoint envelope name e retry =
      try_again bus endpoint envelope (retry_policy_of bus.worker name) e
  act bus endpoint envelope name e dlq = bury bus endpoint envelope e
  act bus endpoint envelope name e drop = pure tt

  -- An error is classified by what was thrown first, and sent on with its wrapping. What the error
  -- handler throws, the catch block throws.
  unfoldable pub recover :
      Bus B S T → String → Envelope B → String → Error → Exec Error (World S T) (Unit {0})
  unfolding act original extract_context
  recover bus endpoint envelope name e w =
      (do
        action ← in_env (bus.error_handler (original e) envelope name (extract_context e))
        act bus endpoint envelope name e action)
        w

  -- What is done on a correlation failure
  unfoldable pub uncorrelated :
      Bus B S T → String → Envelope B → CorrelationFailure → Exec Error (World S T) (Unit {0})
  unfolding bury
  uncorrelated bus endpoint envelope failure = elim failure.action [
    | drop_message ↦ pure tt
    | to_dlq ↦
        bury bus endpoint envelope
          (plain ("Correlation failed for message type " <> failure.message_type))
  ]

  -- The body of the try block
  unfoldable pub attempt :
      Bus B S T → String → Envelope B → Saga B S T → Exec Error (World S T) (Unit {0})
  unfolding uncorrelated
  attempt bus endpoint envelope saga w =
      resume (saga.process envelope w)
        (λ failed. elim failed [ none ↦ pure tt | some f ↦ uncorrelated bus endpoint envelope f ])

  -- The catch block, which a throw of the try block's publication reaches too
  unfoldable pub caught :
      Bus B S T
      → String
      → Envelope B
      → String
      → Result Error (Unit {0}) × World S T
      → Result Error (Unit {0}) × World S T
  unfolding recover
  caught bus endpoint envelope name (ok u, w) = (ok tt, w)
  caught bus endpoint envelope name (err e, w) = recover bus endpoint envelope name e w

  -- One round of the loop over the sagas that handle the message
  unfoldable pub run_saga :
      Bus B S T → String → Envelope B → Saga B S T → Exec Error (World S T) (Unit {0})
  unfolding caught attempt
  run_saga bus endpoint envelope saga w =
      caught bus endpoint envelope saga.name (attempt bus endpoint envelope saga w)

  unfoldable pub run_each :
      Bus B S T → String → Envelope B → List (Saga B S T) → Exec Error (World S T) (Unit {0})
  unfolding run_saga
  run_each bus endpoint envelope [] = pure tt
  run_each bus endpoint envelope (saga ∷ sagas) = do
    run_saga bus endpoint envelope saga
    run_each bus endpoint envelope sagas

  unfoldable pub handles : Envelope B → Saga B S T → Bool
  unfolding includes
  handles envelope saga = includes saga.handled_message_types envelope.type

  -- The callback that start gives to the transport for an endpoint
  unfoldable pub receive : Bus B S T → String → Envelope B → Exec Error (World S T) (Unit {0})
  unfolding run_each handles
  receive bus endpoint envelope = run_each bus endpoint envelope (keep (handles envelope) bus.sagas)
