-- ===== src/Sagas/Order/Machine.antt =====
-- packages/examples-shared/src/sagas/OrderSaga.ts: the chain of builder calls. A message is what its
-- `type` says, as the type OrderMessage has it; a handler that is given another message throws.
use saga_bus.Dsl.{
  Builder, Definition, Guard, Handler, build, correlate, create_saga_machine, handle_with, initial,
  named, on, when,
}
use saga_bus.Errors.{Error, other}
use saga_bus.Messages.{Message, timeout_expired, user}
use saga_bus.Sagas.Order.Handlers.{
  Handled, OrderHost, start_order_from, on_order_submitted, on_payment_captured, on_payment_failed,
  on_inventory_reserved, on_inventory_reservation_failed, on_shipment_created, on_order_cancelled,
}
use saga_bus.Sagas.Order.Messages.{
  OrderStatus, Order, OrderMessage, is_order_status, order_id_of, OrderSubmitted, PaymentCaptured,
  PaymentFailed, InventoryReserved, InventoryReservationFailed, ShipmentCreated, OrderCancelled,
  order_submitted, payment_captured, payment_failed, inventory_reserved,
  inventory_reservation_failed, shipment_created, order_cancelled,
}
use saga_bus.State.{SagaState}
use saga_bus.Prelude.{String, true, not, ◌&&◌, Option, none, some}
use saga_bus.Prelude.Exec.{Result, throw}

-- The method call `x.f()`
infixl 4 ◌|>◌
abbrev ◌|>◌ {ℓ} : {A B : Type ℓ} → A → (A → B) → B
◌|>◌ x f = f x

abbrev pub as_order_submitted : {N : Type 0} → OrderMessage N → Option (OrderSubmitted N)
as_order_submitted (order_submitted m) = some m
as_order_submitted _ = none

abbrev pub as_payment_captured : {N : Type 0} → OrderMessage N → Option PaymentCaptured
as_payment_captured (payment_captured m) = some m
as_payment_captured _ = none

abbrev pub as_payment_failed : {N : Type 0} → OrderMessage N → Option PaymentFailed
as_payment_failed (payment_failed m) = some m
as_payment_failed _ = none

abbrev pub as_inventory_reserved : {N : Type 0} → OrderMessage N → Option InventoryReserved
as_inventory_reserved (inventory_reserved m) = some m
as_inventory_reserved _ = none

abbrev pub as_inventory_reservation_failed :
    {N : Type 0} → OrderMessage N → Option InventoryReservationFailed
as_inventory_reservation_failed (inventory_reservation_failed m) = some m
as_inventory_reservation_failed _ = none

abbrev pub as_shipment_created : {N : Type 0} → OrderMessage N → Option ShipmentCreated
as_shipment_created (shipment_created m) = some m
as_shipment_created _ = none

abbrev pub as_order_cancelled : {N : Type 0} → OrderMessage N → Option OrderCancelled
as_order_cancelled (order_cancelled m) = some m
as_order_cancelled _ = none

-- A handler of one kind of message, among the handlers of the saga
abbrev pub taking_order :
    {N V T M : Type 0}
    → (OrderMessage N → Option M)
    → (M → SagaState (Order N) → Handled N V T)
    → Handler (OrderMessage N) (Order N) V T
taking_order pick handler (timeout_expired e) state =
    throw (other "TypeError" "not the message's type")
taking_order pick handler (user t m) state = elim (pick m) [
  | none ↦ throw (other "TypeError" "not the message's type")
  | some msg ↦ handler msg state
]

-- A guard that names the status in which a handler runs
abbrev pub while : {N : Type 0} → OrderStatus → Guard (Order N)
while status state = is_order_status state.fields.status status

-- The guard of "OrderCancelled"
abbrev pub not_ended : {N : Type 0} → Guard (Order N)
not_ended state =
    not (is_order_status state.fields.status OrderStatus.cancelled)
    && not (is_order_status state.fields.status OrderStatus.shipped)

-- msg.orderId, which a timeout message does not have
abbrev pub order_id : {N : Type 0} → Message (OrderMessage N) → Option String
order_id (user t m) = some (order_id_of m)
order_id (timeout_expired e) = none

module _ {N V T : Type 0} (host : OrderHost N T) where
  unfoldable pub order_builder : Builder (OrderMessage N) (Order N) V T
  unfolding create_saga_machine named correlate initial handle_with on when
  order_builder =
      create_saga_machine
      |> named "OrderSaga"
      |> correlate "OrderSubmitted" order_id (some true)
      |> correlate "*" order_id none
      |> initial (start_order_from host)
      |> handle_with (when (while OrderStatus.pending) (on "OrderSubmitted"))
          (taking_order as_order_submitted (on_order_submitted host))
      |> handle_with (when (while OrderStatus.payment_requested) (on "PaymentCaptured"))
          (taking_order as_payment_captured (on_payment_captured host))
      |> handle_with (when (while OrderStatus.payment_requested) (on "PaymentFailed"))
          (taking_order as_payment_failed (on_payment_failed host))
      |> handle_with (when (while OrderStatus.inventory_requested) (on "InventoryReserved"))
          (taking_order as_inventory_reserved (on_inventory_reserved host))
      |> handle_with
          (when (while OrderStatus.inventory_requested) (on "InventoryReservationFailed"))
          (taking_order as_inventory_reservation_failed (on_inventory_reservation_failed host))
      |> handle_with (when (while OrderStatus.shipment_requested) (on "ShipmentCreated"))
          (taking_order as_shipment_created (on_shipment_created host))
      |> handle_with (when not_ended (on "OrderCancelled"))
          (taking_order as_order_cancelled (on_order_cancelled host))

  -- .build()
  unfoldable pub order_saga : Result Error (Definition (OrderMessage N) (Order N) V T)
  unfolding build order_builder
  order_saga = build order_builder
