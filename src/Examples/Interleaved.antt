-- ===== src/Examples/Interleaved.antt =====
-- Two messages of one order that are loaded before either is stored.
use saga_bus.Examples.{
  number_dates, order_envelope, order_orchestrator, quiet_env, state_of, store_with,
  ticking_platform,
}
use saga_bus.Context.{new_context}
use saga_bus.Dsl.{get_correlation, handle}
use saga_bus.Errors.{Error}
use saga_bus.Interfaces.{Env, TransportOps}
use saga_bus.Messages.{Envelope}
use saga_bus.Orchestrator.{Orchestrator, advanced_state}
use saga_bus.Orchestrator.Message.{processed}
use saga_bus.Orchestrator.Process.{wrapped}
use saga_bus.Orchestrator.Stale.{given_context, made, process_loaded-stale, rest_of}
use saga_bus.Orchestrator.Success.{handler_context}
use saga_bus.Retry.Exhaust.{Outbox, recorder}
use saga_bus.State.{HandlerResult, SagaState, StoreOps}
use saga_bus.Store.{IsOptimistic}
use saga_bus.Store.Memory.{
  MemoryStore, clone, get_by_correlation_id, get_by_id, get_correlation_key, get_store_key,
  memory_ops, update,
}
use saga_bus.Store.Memory.Laws.{memory-IsOptimistic}
use saga_bus.Prelude.{ℕ, ◌≡◌, refl, false, true, none, some}
use saga_bus.Prelude.Dict.{get}
use saga_bus.Prelude.Exec.{err}

abbrev ops : StoreOps ℕ (MemoryStore ℕ)
ops = memory_ops number_dates (λ x. x)

abbrev laws : IsOptimistic ops
laws = memory-IsOptimistic number_dates (λ x. x)

abbrev transport : TransportOps ℕ (Outbox ℕ)
transport = recorder

abbrev o : Orchestrator ℕ ℕ ℕ (Outbox ℕ)
o = order_orchestrator true

abbrev going : SagaState ℕ
going = state_of "s1" 2 false

abbrev counted : HandlerResult ℕ
counted = record { new_state = record going { fields = 4 }; is_completed = none }

abbrev later : Envelope ℕ
later = record order_envelope { id = "m2" }

-- What the first message leaves in the store
abbrev left : MemoryStore ℕ
left =
    (processed ticking_platform ops transport o laws order_envelope (store_with going) quiet_env).1

abbrev later_env : Env (Outbox ℕ)
later_env = record quiet_env { reads = 5 }

process_loaded-stale_example :
    (e : Error) × ((ops.update "orders"
        (made ticking_platform ops transport o later "k1" true going left later_env counted
          (given_context ticking_platform ops transport o later "k1" true going left later_env)
          later_env)
        2
        left).0
      ≡ err e)
    × (rest_of ticking_platform ops transport o later "k1" true going left later_env
        ≡ (err (wrapped o later "k1" (some "s1") e), left, record later_env { reads = 6 }))
unfolding get_correlation get_by_correlation_id get_by_id clone get get_correlation_key
    get_store_key handle update new_context advanced_state
process_loaded-stale_example =
    process_loaded-stale ticking_platform ops transport o laws order_envelope later
      (store_with going) quiet_env later_env "k1" true going counted counted
      (handler_context ticking_platform ops transport o laws order_envelope (store_with going)
        quiet_env going)
      (given_context ticking_platform ops transport o later "k1" true going left later_env)
      quiet_env later_env refl refl refl refl refl refl refl
