-- ===== src/Examples/Orders.antt =====
-- The orchestrator on one order.
use saga_bus.Examples.{
  no_store, number_dates, order_envelope, order_orchestrator, quiet_env, state_of, store_with,
  ticking_platform,
}
use saga_bus.Errors.{Error}
use saga_bus.Interfaces.{TransportOps, Env}
use saga_bus.Orchestrator.{Work, CorrelationFailure}
use saga_bus.Orchestrator.Handle.{handle_message}
use saga_bus.Orchestrator.Message.{
  process_message-completed, process_message-not_started, process_message-advances,
}
use saga_bus.Orchestrator.Persist.{Persisted, handle_message-creates}
use saga_bus.Orchestrator.Process.{process_message, opened}
use saga_bus.Retry.Exhaust.{Outbox, recorder}
use saga_bus.State.{SagaState, StoreOps}
use saga_bus.Store.{IsOptimistic}
use saga_bus.Store.Memory.{
  MemoryStore, memory_ops, clone, get_by_correlation_id, get_by_id, get_correlation_key,
  get_store_key,
}
use saga_bus.Prelude.Dict.{get}
use saga_bus.Store.Memory.Laws.{memory-IsOptimistic}
use saga_bus.Dsl.{get_correlation}
use saga_bus.Prelude.{ℕ, ◌+◌, ◌≡◌, refl, ◌⊎◌, true, false, Option, none, some, []}
use saga_bus.Prelude.Exec.{Result, ok, err}

abbrev ops : StoreOps ℕ (MemoryStore ℕ)
ops = memory_ops number_dates (λ x. x)

laws : IsOptimistic ops
laws = memory-IsOptimistic number_dates (λ x. x)

abbrev transport : TransportOps ℕ (Outbox ℕ)
transport = recorder

abbrev going : SagaState ℕ
going = state_of "s1" 2 false

abbrev completed : SagaState ℕ
completed = state_of "s1" 2 true

abbrev work_on : Option (SagaState ℕ) → MemoryStore ℕ → Work ℕ ℕ (MemoryStore ℕ) (Outbox ℕ)
work_on existing s = record {
  ctx = opened (order_orchestrator true) order_envelope "k1" existing;
  store = s;
  env = quiet_env;
}

process_message-completed_example :
    process_message ticking_platform ops transport []
      (order_orchestrator true)
      order_envelope
      (store_with completed)
      quiet_env
    ≡ (ok none, store_with completed, quiet_env)
unfolding get_correlation get_by_correlation_id get_by_id clone get get_correlation_key
    get_store_key
process_message-completed_example =
    process_message-completed ticking_platform ops transport (order_orchestrator true) laws
      order_envelope (store_with completed) quiet_env completed refl refl refl

process_message-not_started_example :
    process_message ticking_platform ops transport []
      (order_orchestrator false)
      order_envelope
      no_store
      quiet_env
    ≡ (ok none, no_store, quiet_env)
unfolding get_correlation get_by_correlation_id get get_correlation_key
process_message-not_started_example =
    process_message-not_started ticking_platform ops transport (order_orchestrator false) laws
      order_envelope no_store quiet_env refl refl refl

abbrev advanced : Result Error (Option CorrelationFailure) × MemoryStore ℕ × (Env (Outbox ℕ))
advanced =
    process_message ticking_platform ops transport [] (order_orchestrator true) order_envelope
      (store_with going) quiet_env

process_message-advances_example :
    ((y : SagaState ℕ) × (old : SagaState ℕ) × (laws.lookup
          (store_with going)
          "orders"
          y.metadata.saga_id
        ≡ some old)
      × (old.metadata.version ≡ 2)
      × (y.metadata.version ≡ 2 + 1)
      × (laws.lookup advanced.1 "orders" y.metadata.saga_id ≡ some (laws.image y)))
    ⊎ ((e : Error) × (advanced.0 ≡ err e) × (advanced.1 ≡ store_with going))
unfolding get_correlation get_by_correlation_id get_by_id clone get get_correlation_key
    get_store_key
process_message-advances_example =
    process_message-advances ticking_platform ops transport (order_orchestrator true) laws
      order_envelope (store_with going) quiet_env going refl refl refl

abbrev created : Result Error (Unit {0}) × Work ℕ ℕ (MemoryStore ℕ) (Outbox ℕ)
created =
    handle_message ticking_platform ops transport (order_orchestrator true) order_envelope "k1" true
      none (work_on none no_store)

handle_message-creates_example :
    ((e : Error) × (created.0 ≡ err e) × (created.1.store ≡ no_store))
    ⊎ ((x : SagaState ℕ) × (x.metadata.version ≡ 0)
        × (x.metadata.is_completed ≡ false)
        × ((ops.insert "orders" "k1" x no_store).0 ≡ ok tt)
        × Persisted ticking_platform ops transport
            (order_orchestrator true)
            x
            created
            (ops.insert "orders" "k1" x no_store).1)
handle_message-creates_example =
    handle_message-creates ticking_platform ops transport (order_orchestrator true) laws
      order_envelope "k1" (work_on none no_store)
