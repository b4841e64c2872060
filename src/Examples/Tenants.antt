-- ===== src/Examples/Tenants.antt =====
-- The tenant middleware on an order.
use saga_bus.Examples.{number_dates, order_envelope, state_of, store_with, ticking_platform}
use saga_bus.Dsl.{Definition, Handler, get_correlation, includes}
use saga_bus.Interfaces.{Env, TransportOps}
use saga_bus.Messages.{Envelope}
use saga_bus.Orchestrator.{Orchestrator}
use saga_bus.Orchestrator.Process.{process_message}
use saga_bus.State.{StoreOps}
use saga_bus.Store.Memory.{
  MemoryStore, clone, get_by_correlation_id, get_by_id, get_correlation_key, get_store_key,
  memory_ops,
}
use saga_bus.Tenant.{TenantInfo, TenantOptions, resolve_tenant, tenant_middleware}
use saga_bus.Tenant.Isolation.{process_message-tenancy, work_view, restored}
use saga_bus.Prelude.{ℕ, ◌+◌, String, ◌≡◌, refl, false, true, Option, none, some, [], ◌∷◌}
use saga_bus.Prelude.Dict
use saga_bus.Prelude.Exec.{Slot, pure}

-- The world outside is the tenant of the running code.
abbrev World : Type 0
World = Option TenantInfo

abbrev slot : Slot World (Option TenantInfo)
slot = record { look = λ t. t; put = λ a t. a; look-put = λ a t. refl }

abbrev pub transport : {T : Type 0} → TransportOps ℕ T
transport = record {
  start = pure tt;
  stop = pure tt;
  subscribe = λ endpoint concurrency. pure tt;
  publish = λ m options. pure tt;
}

abbrev pub ops : StoreOps ℕ (MemoryStore ℕ)
ops = memory_ops number_dates (λ x. x)

abbrev pub count : {T : Type 0} → Handler ℕ ℕ ℕ T
count m state =
    pure (record { new_state = record state { fields = state.fields + 1 }; is_completed = none })

abbrev pub orders : {T : Type 0} → Definition ℕ ℕ ℕ T
orders = record {
  name = "orders";
  handled_message_types = "OrderPlaced" ∷ [];
  correlations =
      ("OrderPlaced", record { can_start = true; get_correlation_id = λ m. some "k1" }) ∷ [];
  wildcard_correlation = none;
  handlers =
      ("OrderPlaced", record { message_type = "OrderPlaced"; guard = none; handler = count } ∷ [])
      ∷ [];
  initial_factory = some (λ m. pure (state_of "" 0 false));
}

abbrev pub orchestrator : {T : Type 0} → Orchestrator ℕ ℕ ℕ T
orchestrator = record {
  definition = orders;
  default_endpoint = none;
  timeout_bounds = none;
  on_correlation_failure = none;
}

abbrev options : TenantOptions ℕ
options = record {
  strategy = none;
  resolver = none;
  header_name = none;
  correlation_separator = none;
  required = none;
  default_tenant_id = none;
  allowed_tenants = some ("acme" ∷ []);
  prefix_saga_id = none;
}

abbrev by_key : Envelope ℕ → Option String
by_key envelope = envelope.partition_key

abbrev from : String → Envelope ℕ
from tenant = record order_envelope { partition_key = some tenant }

abbrev env : Env World
env = record { transport = none; reads = 0; draws = 7 }

process_message-tenancy_example :
    process_message ticking_platform ops transport
      (tenant_middleware options (work_view slot) by_key ∷ [])
      orchestrator
      (from "acme")
      (store_with (state_of "s1" 2 false))
      env
    ≡ restored ticking_platform ops transport orchestrator
        (from "acme")
        (store_with (state_of "s1" 2 false))
        slot
        options
        by_key
        env
        (process_message ticking_platform ops transport [] orchestrator
          (from "acme")
          (store_with (state_of "s1" 2 false))
          (record env {
            transport = some (record { tenant_id = "acme"; original_saga_id = none });
          }))
unfolding get_correlation get_by_correlation_id get_by_id clone Dict.get get_correlation_key
    get_store_key resolve_tenant includes
process_message-tenancy_example =
    process_message-tenancy ticking_platform ops transport orchestrator (from "acme")
      (store_with (state_of "s1" 2 false)) slot options by_key env "acme" refl refl refl refl refl
