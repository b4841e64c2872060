-- ===== src/Examples/Handled.antt =====
-- The orchestrator on an order whose handler returns, without and with a timeout.
use saga_bus.Examples.{
  count_handler, count_registration, number_dates, order_definition, order_envelope,
  order_orchestrator, quiet_env, state_of, store_with, ticking_platform,
}
use saga_bus.Context.{Context, new_context, set, set_timeout}
use saga_bus.Dsl.{Handler, get_correlation, handle}
use saga_bus.Interfaces.{Env, TransportOps}
use saga_bus.Orchestrator.{Orchestrator, advanced_state}
use saga_bus.Orchestrator.Process.{process_message}
use saga_bus.Orchestrator.Next.{IsNext, due}
use saga_bus.Orchestrator.Scheduled.{answered, process_message-schedules}
use saga_bus.Orchestrator.Success.{process_message-handled, handler_context}
use saga_bus.Retry.Exhaust.{Outbox, recorder}
use saga_bus.State.{HandlerResult, SagaState, StoreOps, date}
use saga_bus.Store.{IsOptimistic}
use saga_bus.Store.Memory.{
  MemoryStore, clone, get_by_correlation_id, get_by_id, get_correlation_key, get_store_key,
  memory_ops, update,
}
use saga_bus.Store.Memory.Laws.{memory-IsOptimistic}
use saga_bus.Prelude.{ℕ, ◌≡◌, refl, false, true, none, some, [], ◌∷◌, arith}
use saga_bus.Prelude.Dict.{get}
use saga_bus.Prelude.Exec.{ok, ◌>>◌}
use saga_bus.Prelude.Int.{pos}

abbrev ops : StoreOps ℕ (MemoryStore ℕ)
ops = memory_ops number_dates (λ x. x)

abbrev laws : IsOptimistic ops
laws = memory-IsOptimistic number_dates (λ x. x)

abbrev transport : TransportOps ℕ (Outbox ℕ)
transport = recorder

abbrev going : SagaState ℕ
going = state_of "s1" 2 false

abbrev counted : HandlerResult ℕ
counted = record { new_state = record going { fields = 4 }; is_completed = none }

abbrev context : Orchestrator ℕ ℕ ℕ (Outbox ℕ) → Context ℕ ℕ
context o =
    handler_context ticking_platform ops transport o laws order_envelope (store_with going)
      quiet_env going

abbrev plain : Orchestrator ℕ ℕ ℕ (Outbox ℕ)
plain = order_orchestrator true

process_message-handled_example :
    (y : SagaState ℕ) × IsNext going counted false none 5000 y
    × (process_message ticking_platform ops transport [] plain order_envelope
          (store_with going)
          quiet_env
        ≡ (
          ok none,
          (ops.update "orders" y 2 (store_with going)).1,
          record { transport = []; reads = 1; draws = 7 },
        ))
unfolding get_correlation get_by_correlation_id get_by_id clone get get_correlation_key
    get_store_key handle update new_context advanced_state
process_message-handled_example =
    process_message-handled ticking_platform ops transport plain laws order_envelope
      (store_with going) quiet_env going counted (context plain) quiet_env refl refl refl refl refl
      tt

-- Counts, and asks for a timeout in two seconds.
abbrev timed_handler : Handler ℕ ℕ ℕ (Outbox ℕ)
timed_handler m state = do set_timeout ticking_platform (pos 2000); count_handler m state

abbrev timed : Orchestrator ℕ ℕ ℕ (Outbox ℕ)
timed = record (order_orchestrator true) {
  definition = record (order_definition true) {
    handlers = ("OrderPlaced", record count_registration { handler = timed_handler } ∷ []) ∷ [];
  };
}

abbrev timed_context : Context ℕ ℕ
timed_context = record (context timed) {
  pending_timeout_change =
      some (record { change = set; timeout_ms = some 2000; timeout_expires_at = some (date 7000) });
}

abbrev timed_env : Env (Outbox ℕ)
timed_env = record quiet_env { reads = 1 }

process_message-schedules_example :
    (y : SagaState ℕ) × IsNext going counted false (due 2000 7000) 5010 y
    × (process_message ticking_platform ops transport [] timed order_envelope
          (store_with going)
          quiet_env
        ≡ answered ticking_platform ops transport timed laws order_envelope
            (store_with going)
            quiet_env
            going
            timed_env
            2000
            7000
            (ops.update "orders" y 2 (store_with going)))
unfolding get_correlation get_by_correlation_id get_by_id clone get get_correlation_key
    get_store_key handle update set_timeout new_context advanced_state
process_message-schedules_example =
    process_message-schedules ticking_platform ops transport timed laws order_envelope
      (store_with going) quiet_env going counted timed_context timed_env 2000 7000 refl refl refl
      refl refl refl (omega arith) refl
