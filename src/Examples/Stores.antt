-- ===== src/Examples/Stores.antt =====
-- The stores on one saga of two versions.
use saga_bus.Examples.{
  no_store, number_dates, order_envelope, quiet_env, state_of, store_with, ticking_platform,
}
use saga_bus.Context.{Context, get_timeout_remaining, new_context}
use saga_bus.Store.Memory.Dates.{remaining-stored}
use saga_bus.Errors.{Error}
use saga_bus.Store.{IsOptimistic}
use saga_bus.Store.Memory.Laws.{memory-IsOptimistic}
use saga_bus.State.{SagaState, StoreOps, date}
use saga_bus.Store.Memory.{MemoryStore, clone, memory_ops, get_by_id, get_store_key, update}
use saga_bus.Prelude.{ℕ, ◌≡◌, refl, false, none, some}
use saga_bus.Prelude.Dict.{get, set}
use saga_bus.Prelude.Exec.{err}

abbrev ops : StoreOps ℕ (MemoryStore ℕ)
ops = memory_ops number_dates (λ x. x)

abbrev version : ℕ → SagaState ℕ
version v = state_of "s1" v false

memory-IsOptimistic_example : IsOptimistic ops
memory-IsOptimistic_example = memory-IsOptimistic number_dates (λ x. x)

abbrev other : SagaState ℕ
other = state_of "s2" 0 false

abbrev shadowed : MemoryStore ℕ
shadowed = (ops.insert "orders" "k1" other (ops.insert "orders" "k1" (version 0) no_store).1).1

-- The saga with a timeout at 7000.
abbrev timed : SagaState ℕ
timed = record (version 3) {
  metadata = record ((version 3).metadata) { timeout_expires_at = some (date 7000) };
}

abbrev read_back : SagaState ℕ
read_back = clone number_dates (λ x. x) (clone number_dates (λ x. x) timed)

abbrev next_context : Context ℕ ℕ
next_context = new_context "orders" "s1" "k1" order_envelope none (some read_back.metadata) none

remaining-stored_example :
    (e : Error) × (get_timeout_remaining ticking_platform (next_context, quiet_env)
      ≡ (err e, (next_context, quiet_env)))
unfolding update get set get_store_key get_by_id new_context
remaining-stored_example =
    remaining-stored ticking_platform (λ x. x) "orders" timed read_back 2 (store_with (version 2))
      (date 7000) next_context quiet_env refl refl refl refl refl refl
