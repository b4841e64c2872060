-- ===== src/Examples/Skipped.antt =====
-- The idempotency middleware before the orchestrator, on an order that was handled.
use saga_bus.Examples.{order_envelope, state_of, store_with, ticking_platform}
use saga_bus.Examples.Tenants.{ops, orchestrator, transport}
use saga_bus.Dsl.{get_correlation, includes}
use saga_bus.Idempotency.{IdempotencyOptions}
use saga_bus.Idempotency.Memory.{Entry, memory_idempotency_store}
use saga_bus.Idempotency.Sagas.{guard, marks_in, process_message-skipped}
use saga_bus.Interfaces.{Env}
use saga_bus.Orchestrator.{Work}
use saga_bus.Orchestrator.Process.{process_message}
use saga_bus.Store.Memory.{
  MemoryStore, clone, get_by_correlation_id, get_by_id, get_correlation_key, get_store_key,
}
use saga_bus.Prelude.{ℕ, ◌≡◌, refl, false, none, some, [], ◌∷◌, arith}
use saga_bus.Prelude.Dict.{Dict}
use saga_bus.Prelude.Exec.{Slot, ok}
use saga_bus.Prelude.Dict

-- The world outside is the marks.
abbrev slot : Slot (Dict Entry) (Dict Entry)
slot = record { look = λ t. t; put = λ a t. a; look-put = λ a t. refl }

abbrev settings : IdempotencyOptions ℕ (Work ℕ ℕ (MemoryStore ℕ) (Dict Entry))
settings = record {
  store = memory_idempotency_store ticking_platform.times (marks_in slot);
  window_ms = none;
  get_message_id = none;
  on_duplicate = none;
  exclude_types = none;
  mark_timing = none;
}

abbrev marked_env : Env (Dict Entry)
marked_env = record {
  transport = ("m1", record { expires_at = some 65000 }) ∷ [];
  reads = 3;
  draws = 7;
}

process_message-skipped_example :
    process_message ticking_platform ops transport
      (guard ticking_platform slot settings ∷ [])
      orchestrator
      order_envelope
      (store_with (state_of "s1" 2 false))
      marked_env
    ≡ (ok none, store_with (state_of "s1" 2 false), record marked_env { reads = 4 })
unfolding get_correlation get_by_correlation_id get_by_id clone Dict.get get_correlation_key
    get_store_key includes
process_message-skipped_example =
    process_message-skipped ticking_platform slot settings ops transport orchestrator order_envelope
      (store_with (state_of "s1" 2 false)) marked_env [] 65000 refl refl refl refl refl
      (omega arith)
