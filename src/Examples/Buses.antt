-- ===== src/Examples/Buses.antt =====
-- A bus of two sagas, of which the first throws, and the in-memory transport.
use saga_bus.Examples.{
  order_definition, number_dates, order_envelope, order_message, quiet_env, ticking_platform,
}
use saga_bus.Bus.Create.{create_bus-Resolved, has_store, names, registered_names}
use saga_bus.Bus.Recovery.{published_again, run_saga-conflict}
use saga_bus.Store.Memory.{MemoryStore, memory_ops}
use saga_bus.Bus.{
  BusConfig, create_bus, run_saga, dlq_naming_of, Bus, Saga, World, receive, run_each,
  subscriptions,
}
use saga_bus.Bus.Receive.{Classifies, HasDate, Names, Publishes, receive-ok, run_each-append}
use saga_bus.Bus.Subscriptions.{times, times-subscriptions}
use saga_bus.Dsl.{includes}
use saga_bus.Errors.{Error, ErrorContext, concurrency, processing, transient}
use saga_bus.Errors.Classify.{default_handle}
use saga_bus.Messages.{PublishOptions}
use saga_bus.Retry.{
  RetryPolicy, attempt_of, default_dlq_naming, get_attempt_count, get_first_seen, linear,
}
use saga_bus.Retry.Exhaust.{Outbox, recorder}
use saga_bus.Transport.Memory.{
  MemoryTransport, new_transport, published, run, start, stop, subscribe, ticks,
}
use saga_bus.Transport.Memory.Order.{run-stop}
use saga_bus.Transport.Semaphore.{
  IsSound, Reached-IsSound, acquire, acquired, made, new_semaphore, release, released,
}
use saga_bus.Prelude.{
  ℕ, ◌+◌, String, ◌≡◌, refl, none, some, [], ◌∷◌, if◌then◌else◌, any, all, false, true, ◌⊎◌, arith,
}
use saga_bus.Prelude.Dict
use saga_bus.Prelude.Exec.{ok, err, pure}
use saga_bus.Prelude.Int.{pos}

abbrev counting : Saga ℕ ℕ (Outbox ℕ)
counting = record {
  name = "orders";
  handled_message_types = "OrderPlaced" ∷ "OrderPaid" ∷ [];
  process = λ envelope w. (ok none, record w { stores = w.stores + 1 });
}

abbrev throwing : Saga ℕ ℕ (Outbox ℕ)
throwing = record {
  name = "broken";
  handled_message_types = "OrderPlaced" ∷ [];
  process = λ envelope w. (err (transient "socket closed"), w);
}

-- The policy of the saga that throws
abbrev patient : RetryPolicy
patient = record { max_attempts = 9; base_delay_ms = 50; max_delay_ms = 900; backoff = linear }

abbrev two_sagas : Bus ℕ ℕ (Outbox ℕ)
two_sagas = record {
  transport = recorder;
  platform = ticking_platform;
  error_handler = λ e envelope name known. pure (default_handle e);
  worker = record {
    default_concurrency = some 4;
    retry_policy = none;
    sagas = ("broken", record { concurrency = none; retry_policy = some patient }) ∷ [];
    dlq_naming = none;
    timeout_bounds = none;
    on_correlation_failure = none;
  };
  sagas = throwing ∷ counting ∷ [];
}

abbrev world : World ℕ (Outbox ℕ)
world = record { stores = 0; env = quiet_env }

recorder_publishes : Publishes two_sagas "OrderPlaced" order_envelope
recorder_publishes m o t = refl

order_has_date : HasDate two_sagas "OrderPlaced" order_envelope
unfolding get_first_seen Dict.get
order_has_date = (40, refl)

orders_named : Names two_sagas "OrderPlaced" order_envelope
unfolding dlq_naming_of default_dlq_naming
orders_named = ("OrderPlaced.dlq", refl)

default_classifies : Classifies two_sagas "OrderPlaced" order_envelope
default_classifies e name known env = (default_handle e, refl)

receive-ok_example : (receive two_sagas "OrderPlaced" order_envelope world).0 ≡ ok tt
receive-ok_example =
    receive-ok two_sagas "OrderPlaced" order_envelope recorder_publishes order_has_date orders_named
      default_classifies world

run_each-append_example :
    run_each two_sagas "OrderPlaced" order_envelope (throwing ∷ counting ∷ []) world
    ≡ run_each two_sagas "OrderPlaced" order_envelope
        (counting ∷ [])
        (run_each two_sagas "OrderPlaced" order_envelope (throwing ∷ []) world).1
run_each-append_example =
    run_each-append two_sagas "OrderPlaced" order_envelope recorder_publishes order_has_date
      orders_named default_classifies (throwing ∷ []) (counting ∷ []) world

times-subscriptions_example : times "OrderPlaced" (subscriptions two_sagas) ≡ (
    if any (λ saga. includes saga.handled_message_types "OrderPlaced") two_sagas.sagas
    then 1
    else 0)
times-subscriptions_example = times-subscriptions two_sagas "OrderPlaced"

abbrev to_orders : PublishOptions
to_orders = record { endpoint = "orders"; key = some "k1"; headers = none; delay_ms = none }

abbrev listening : MemoryTransport ℕ String
listening =
    start (
      subscribe "orders" none "h2" (subscribe "orders" (some 2) "h1" (new_transport ℕ String none)))

run-stop_example :
    (run (published "m1" 3 order_message to_orders ∷ ticks ∷ []) (stop listening)).0 ≡ []
run-stop_example =
    run-stop (published "m1" 3 order_message to_orders ∷ ticks ∷ []) listening (refl, (refl, tt))

-- Two acquire the only permit; the one that waits gets it when the first releases.
Reached-IsSound_example : IsSound 1 (release (acquire 8 (acquire 7 (new_semaphore 1)).1).1).1 1
unfolding new_semaphore acquire release
Reached-IsSound_example = Reached-IsSound {h = 1} (released {h = 0} (acquired 8 (acquired 7 made)))

-- As SagaOrchestrator throws: with the context of the message.
abbrev lost_connection : ErrorContext
lost_connection = record {
  saga_name = "broken";
  correlation_id = "k1";
  saga_id = none;
  message_type = "OrderPlaced";
  message_id = "m1";
}

abbrev conflicting : Saga ℕ ℕ (Outbox ℕ)
conflicting = record throwing {
  process = λ envelope w. (err (processing (concurrency "s1" 2 (some (pos 3))) lost_connection), w);
}

run_saga-conflict_example : run_saga two_sagas "OrderPlaced" order_envelope conflicting world ≡ (
  ok tt,
  record world {
    env = record quiet_env {
      transport =
          (published_again two_sagas "OrderPlaced" order_envelope conflicting world patient 1 40).1;
    };
  },
)
unfolding get_attempt_count attempt_of get_first_seen Dict.get
run_saga-conflict_example =
    run_saga-conflict two_sagas "OrderPlaced" order_envelope conflicting world "s1" 2 (some (pos 3))
      lost_connection (record { concurrency = none; retry_policy = some patient }) patient 1 40 refl
      refl refl refl refl (omega arith) refl refl

abbrev order_config : BusConfig ℕ ℕ ℕ (MemoryStore ℕ) (Outbox ℕ)
order_config = record {
  transport = recorder;
  store = none;
  sagas =
      record { definition = order_definition true; store = some (memory_ops number_dates (λ x. x)) }
      ∷ record { definition = order_definition false; store = none }
      ∷ [];
  middleware = [];
  error_handler = none;
  worker = two_sagas.worker;
}

create_bus-Resolved_example :
    ((bus : Bus ℕ (MemoryStore ℕ) (Outbox ℕ)) × (create_bus ticking_platform order_config ≡ ok bus)
      × (all (has_store ticking_platform order_config) order_config.sagas ≡ true)
      × (names ticking_platform order_config bus.sagas
          ≡ registered_names ticking_platform order_config order_config.sagas))
    ⊎ ((e : Error) × (create_bus ticking_platform order_config ≡ err e)
        × (all (has_store ticking_platform order_config) order_config.sagas ≡ false))
create_bus-Resolved_example = create_bus-Resolved ticking_platform order_config
