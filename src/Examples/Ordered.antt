-- ===== src/Examples/Ordered.antt =====
-- The order saga on a transport that keeps what is published.
use saga_bus.Context.{Context, new_context, publish, send}
use saga_bus.Dsl.{definition_of, handle}
use saga_bus.Examples.{ticking_platform}
use saga_bus.Interfaces.{Env}
use saga_bus.Messages.{Envelope}
use saga_bus.Prelude.Dict
use saga_bus.Retry.Exhaust.{Outbox, recorder}
use saga_bus.Sagas.Order.Flow.{Follows, handle-Follows, untouched}
use saga_bus.Sagas.Order.Handlers.{OrderHost, publish_order, on_payment_captured}
use saga_bus.Sagas.Order.Machine.{order_builder}
use saga_bus.Sagas.Order.Messages.{
  Order, OrderMessage, OrderStatus, OrderStatus-discrete, lines_of, order_type_of, payment_captured,
  sent_order,
}
use saga_bus.Sagas.Order.Turn.{built_order}
use saga_bus.State.{HandlerResult, SagaState, date}
use saga_bus.Prelude.{ℕ, ◌≡◌, ◌⊎◌, refl, false, none, some, [], ◌∷◌}

abbrev shop : OrderHost ℕ (Outbox (OrderMessage ℕ))
shop = record { platform = ticking_platform; transport = recorder }

-- An order whose payment was asked for
abbrev awaited : SagaState (Order ℕ)
awaited = record {
  fields = record {
    order_id = "o1";
    customer_id = "c1";
    items = record { sku = "pen"; quantity = 2; price = 3 } ∷ [];
    total = 6;
    status = OrderStatus.payment_requested;
    transaction_id = none;
    reservation_id = none;
    tracking_number = none;
    cancel_reason = none;
  };
  metadata = record {
    saga_id = "s1";
    version = 1;
    created_at = date 1;
    updated_at = date 2;
    is_completed = false;
    archived_at = none;
    trace_parent = none;
    trace_state = none;
    timeout_ms = none;
    timeout_expires_at = none;
  };
}

abbrev payment : OrderMessage ℕ
payment = payment_captured (record { order_id = "o1"; transaction_id = "t1" })

abbrev letter : Envelope (OrderMessage ℕ)
letter = record {
  id = "m1";
  type = "PaymentCaptured";
  payload = sent_order payment;
  headers = [];
  timestamp = 1;
  partition_key = none;
}

abbrev context : Context (OrderMessage ℕ) ℕ
context = new_context "OrderSaga" "s1" "o1" letter none none none

abbrev env : Env (Outbox (OrderMessage ℕ))
env = record { transport = []; reads = 0; draws = 0 }

abbrev paid : HandlerResult (Order ℕ)
paid = record {
  new_state = record awaited {
    fields = record (awaited.fields) {
      status = OrderStatus.inventory_requested;
      transaction_id = some "t1";
    };
  };
  is_completed = none;
}

handle-Follows_example : (paid ≡ untouched awaited) ⊎ Follows "PaymentCaptured" awaited paid
unfolding OrderStatus-discrete order_type_of handle built_order definition_of order_builder Dict.set
    Dict.get on_payment_captured publish_order publish send new_context lines_of
handle-Follows_example = handle-Follows shop payment awaited (context, env) {r = paid} tt refl
