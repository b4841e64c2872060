-- ===== src/Sagas/Order/Handlers.antt =====
-- packages/examples-shared/src/sagas/OrderSaga.ts: the handlers.
use saga_bus.Context
use saga_bus.Context.{Session}
use saga_bus.Errors.{Error, other}
use saga_bus.Interfaces.{Platform, TransportOps}
use saga_bus.Messages.{Message, no_options, user}
use saga_bus.Sagas.Loan.Platform.{read_clock}
use saga_bus.Sagas.Order.Messages.{
  OrderStatus, Order, OrderMessage, OrderSubmitted, PaymentCaptured, PaymentFailed,
  InventoryReserved, InventoryReservationFailed, ShipmentCreated, OrderCancelled, order_submitted,
  payment_requested_message, inventory_reserve_requested, shipment_requested_message,
  order_cancelled, order_completed, sent_order, lines_of,
}
use saga_bus.State.{HandlerResult, SagaState, date}
use saga_bus.Prelude.{String, true, false, none, some}
use saga_bus.Prelude.Exec.{Exec, ok, pure, throw, ◌>>=◌, ◌>>◌}
use saga_bus.Prelude.Texts.{◌<>◌}

-- What the handlers return
abbrev pub Handled : Type 0 → Type 0 → Type 0 → Type 0
Handled N V T = Exec Error (Session (OrderMessage N) V T) (HandlerResult (Order N))

-- What the saga calls besides its context
pub record OrderHost (N T : Type 0) : Type 0 where
  pub platform : Platform
  pub transport : TransportOps (OrderMessage N) T

module _ {N V T : Type 0} (host : OrderHost N T) where
  -- ctx.publish({...})
  unfoldable pub publish_order :
      OrderMessage N → Exec Error (Session (OrderMessage N) V T) (Unit {0})
  publish_order m = Context.publish host.transport (sent_order m) no_options

  -- ctx.complete()
  unfoldable pub complete_order : Exec Error (Session (OrderMessage N) V T) (Unit {0})
  complete_order (ctx, env) = (ok tt, (Context.complete ctx, env))

  -- `return { newState: {...state, ...} }`
  abbrev pub goes_on : SagaState (Order N) → Order N → Handled N V T
  goes_on state order =
      pure (record { new_state = record state { fields = order }; is_completed = none })

  -- `return { newState: {...state, ...}, isCompleted: true }`
  abbrev pub ends : SagaState (Order N) → Order N → Handled N V T
  ends state order =
      pure (record { new_state = record state { fields = order }; is_completed = some true })

  abbrev pub cancel_with : SagaState (Order N) → String → Handled N V T
  cancel_with state reason =
      ends state
        (record (state.fields) { status = OrderStatus.cancelled; cancel_reason = some reason })

  unfoldable pub on_order_submitted : OrderSubmitted N → SagaState (Order N) → Handled N V T
  on_order_submitted msg state = do
    publish_order (
        payment_requested_message
          (record { order_id = msg.order_id; amount = msg.total; customer_id = msg.customer_id }))
    goes_on state (record (state.fields) { status = OrderStatus.payment_requested })

  unfoldable pub on_payment_captured : PaymentCaptured → SagaState (Order N) → Handled N V T
  on_payment_captured msg state = do
    publish_order (
        inventory_reserve_requested
          (record { order_id = msg.order_id; items = lines_of state.fields.items }))
    goes_on state (record (state.fields) {
      status = OrderStatus.inventory_requested;
      transaction_id = some msg.transaction_id;
    })

  unfoldable pub on_payment_failed : PaymentFailed → SagaState (Order N) → Handled N V T
  unfolding ◌<>◌
  on_payment_failed msg state = do
    publish_order (
        order_cancelled
          (record { order_id = msg.order_id; reason = "Payment failed: " <> msg.reason }))
    complete_order
    cancel_with state msg.reason

  unfoldable pub on_inventory_reserved : InventoryReserved → SagaState (Order N) → Handled N V T
  on_inventory_reserved msg state = do
    publish_order (
        shipment_requested_message (record {
          order_id = msg.order_id;
          customer_id = state.fields.customer_id;
          items = lines_of state.fields.items;
        }))
    goes_on state (record (state.fields) {
      status = OrderStatus.shipment_requested;
      reservation_id = some msg.reservation_id;
    })

  unfoldable pub on_inventory_reservation_failed :
      InventoryReservationFailed → SagaState (Order N) → Handled N V T
  unfolding ◌<>◌
  on_inventory_reservation_failed msg state = do
    publish_order (
        order_cancelled (record {
          order_id = msg.order_id;
          reason = "Inventory reservation failed: " <> msg.reason;
        }))
    complete_order
    cancel_with state msg.reason

  unfoldable pub on_shipment_created : ShipmentCreated → SagaState (Order N) → Handled N V T
  on_shipment_created msg state = do
    publish_order (
        order_completed (record { order_id = msg.order_id; tracking_number = msg.tracking_number }))
    complete_order
    ends state (record (state.fields) {
      status = OrderStatus.shipped;
      tracking_number = some msg.tracking_number;
    })

  unfoldable pub on_order_cancelled : OrderCancelled → SagaState (Order N) → Handled N V T
  on_order_cancelled msg state = do complete_order; cancel_with state msg.reason

  -- The initial state
  unfoldable pub start_order :
      String → OrderSubmitted N → Exec Error (Session (OrderMessage N) V T) (SagaState (Order N))
  start_order saga_id msg = do
    created_at ← read_clock host.platform
    updated_at ← read_clock host.platform
    pure (record {
      metadata = record {
        saga_id = saga_id;
        version = 0;
        created_at = date created_at;
        updated_at = date updated_at;
        is_completed = false;
        archived_at = none;
        trace_parent = none;
        trace_state = none;
        timeout_ms = none;
        timeout_expires_at = none;
      };
      fields = record {
        order_id = msg.order_id;
        customer_id = msg.customer_id;
        items = msg.items;
        total = msg.total;
        status = OrderStatus.pending;
        transaction_id = none;
        reservation_id = none;
        tracking_number = none;
        cancel_reason = none;
      };
    })

  -- The factory, whose context has the id of the saga
  unfoldable pub start_order_from :
      Message (OrderMessage N) → Exec Error (Session (OrderMessage N) V T) (SagaState (Order N))
  start_order_from (user t (order_submitted msg)) (ctx, env) =
      start_order ctx.saga_id msg (ctx, env)
  start_order_from _ session = throw (other "TypeError" "not the message's type") session
