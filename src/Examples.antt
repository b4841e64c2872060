-- ===== src/Examples.antt =====
-- A small saga, its messages and its surroundings, for the concrete runs of the tests.
mod Orders
mod Handled
mod Stores
mod Parts
mod Buses
mod Sagas
mod Guards
mod Interleaved
mod Tenants
mod Tables
mod Skipped
mod Validated
mod Loans
mod Servers
mod Marks
mod Ordered
use saga_bus.Messages.{Message, user, Envelope}
use saga_bus.Interfaces.{DateFormat, Platform, Env}
use saga_bus.State.{iso_text, Metadata, SagaState}
use saga_bus.Dsl.{Builder, Definition, Handler, Registration}
use saga_bus.Orchestrator.{Orchestrator}
use saga_bus.Store.Memory.{MemoryStore}
use saga_bus.Retry.{RetryPolicy, exponential}
use saga_bus.Retry.Exhaust.{Outbox}
use saga_bus.Prelude.{ℕ, ◌+◌, ◌*◌, String, ap, Bool, false, Option, none, some, [], ◌∷◌}
use saga_bus.Prelude.Exec.{pure}
use saga_bus.Prelude.Int.{ℤ, pos, negsuc}
use saga_bus.Prelude.Texts.{decimal, parse_int, parse_int-decimal, truthy-decimal}

abbrev pub natural : Option ℤ → Option ℕ
natural none = none
natural (some (pos n)) = some n
natural (some (negsuc n)) = none

-- A date written as its number of milliseconds.
abbrev pub number_dates : DateFormat
number_dates = record {
  to_iso = λ t. decimal (pos t);
  parse = λ s. natural (parse_int s);
  parse-to_iso = λ t. ap natural (parse_int-decimal (pos t));
  truthy-to_iso = λ t. truthy-decimal (pos t);
}

abbrev pub ticking_platform : Platform
ticking_platform = record {
  times = λ n. 5000 + 10 * n;
  uuids = λ n. decimal (pos n);
  dates = number_dates;
}

abbrev pub quiet_env : Env (Outbox ℕ)
quiet_env = record { transport = []; reads = 0; draws = 7 }

abbrev pub order_message : Message ℕ
order_message = user "OrderPlaced" 5

abbrev pub order_envelope : Envelope ℕ
order_envelope = record {
  id = "m1";
  type = "OrderPlaced";
  payload = order_message;
  headers = [];
  timestamp = 40;
  partition_key = some "k1";
}

abbrev pub metadata_of : String → ℕ → Bool → Metadata
metadata_of saga_id version is_completed = record {
  saga_id = saga_id;
  version = version;
  created_at = iso_text "1";
  updated_at = iso_text "1";
  is_completed = is_completed;
  archived_at = none;
  trace_parent = none;
  trace_state = none;
  timeout_ms = none;
  timeout_expires_at = none;
}

abbrev pub state_of : String → ℕ → Bool → SagaState ℕ
state_of saga_id version is_completed = record {
  fields = 3;
  metadata = metadata_of saga_id version is_completed;
}

-- The state that was stored first, with the saga "s1" of the correlation id "k1".
abbrev pub store_with : SagaState ℕ → MemoryStore ℕ
store_with x = record {
  store = ("orders:s1", x) ∷ [];
  correlation_index = ("orders:k1", "s1") ∷ [];
}

abbrev pub no_store : MemoryStore ℕ
no_store = record { store = []; correlation_index = [] }

-- Adds one to the fields and goes on.
abbrev pub count_handler : Handler ℕ ℕ ℕ (Outbox ℕ)
count_handler m state =
    pure (record { new_state = record state { fields = state.fields + 1 }; is_completed = none })

abbrev pub count_registration : Registration ℕ ℕ ℕ (Outbox ℕ)
count_registration = record { message_type = "OrderPlaced"; guard = none; handler = count_handler }

abbrev pub order_builder : Bool → Builder ℕ ℕ ℕ (Outbox ℕ)
order_builder can_start = record {
  saga_name = some "orders";
  correlations =
      ("OrderPlaced", record { can_start = can_start; get_correlation_id = λ m. some "k1" }) ∷ [];
  wildcard_correlation = none;
  handlers = ("OrderPlaced", count_registration ∷ []) ∷ [];
  initial_factory = some (λ m. pure (state_of "" 0 false));
}

abbrev pub order_definition : Bool → Definition ℕ ℕ ℕ (Outbox ℕ)
order_definition can_start = record {
  name = "orders";
  handled_message_types = "OrderPlaced" ∷ [];
  correlations = (order_builder can_start).correlations;
  wildcard_correlation = none;
  handlers = (order_builder can_start).handlers;
  initial_factory = (order_builder can_start).initial_factory;
}

abbrev pub order_orchestrator : Bool → Orchestrator ℕ ℕ ℕ (Outbox ℕ)
order_orchestrator can_start = record {
  definition = order_definition can_start;
  default_endpoint = none;
  timeout_bounds = none;
  on_correlation_failure = none;
}

abbrev pub three_attempts : RetryPolicy
three_attempts = record {
  max_attempts = 3;
  base_delay_ms = 100;
  max_delay_ms = 150;
  backoff = exponential;
}
