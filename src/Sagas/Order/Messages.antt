-- ===== src/Sagas/Order/Messages.antt =====
-- packages/examples-shared/src/types/index.ts and src/messages/order.ts: the state of an order and the
-- messages about it. Quantities and prices are numbers of a type N.
use mathlib.Core.Logic.{ite}
use saga_bus.Messages.{Message, user}
use saga_bus.Prelude.{String, Bool, true, false, Option, List, [], ◌∷◌}

pub data OrderStatus : Type 0 where
  pending payment_requested paid inventory_requested : OrderStatus
  reserved shipment_requested shipped cancelled : OrderStatus

unfoldable pub OrderStatus-discrete : Discrete OrderStatus
OrderStatus-discrete = hlevel

-- `s === t`
abbrev pub is_order_status : OrderStatus → OrderStatus → Bool
is_order_status s t = ite (OrderStatus-discrete s t) true false

pub record OrderItem (N : Type 0) : Type 0 where
  pub sku : String
  pub quantity : N
  pub price : N

-- An item without its price
pub record OrderLine (N : Type 0) : Type 0 where
  pub sku : String
  pub quantity : N

-- OrderSagaState without the metadata
pub record Order (N : Type 0) : Type 0 where
  pub order_id : String
  pub customer_id : String
  pub items : List (OrderItem N)
  pub total : N
  pub status : OrderStatus
  pub transaction_id : Option String
  pub reservation_id : Option String
  pub tracking_number : Option String
  pub cancel_reason : Option String

-- items.map((item) => ({ sku, quantity }))
unfoldable pub lines_of : {N : Type 0} → List (OrderItem N) → List (OrderLine N)
lines_of [] = []
lines_of (item ∷ items) = record { sku = item.sku; quantity = item.quantity } ∷ lines_of items

pub record OrderSubmitted (N : Type 0) : Type 0 where
  pub order_id : String
  pub customer_id : String
  pub items : List (OrderItem N)
  pub total : N

pub record PaymentRequested (N : Type 0) : Type 0 where
  pub order_id : String
  pub amount : N
  pub customer_id : String

pub record PaymentCaptured : Type 0 where
  pub order_id : String
  pub transaction_id : String

pub record PaymentFailed : Type 0 where
  pub order_id : String
  pub reason : String

pub record InventoryReserveRequested (N : Type 0) : Type 0 where
  pub order_id : String
  pub items : List (OrderLine N)

pub record InventoryReserved : Type 0 where
  pub order_id : String
  pub reservation_id : String

pub record InventoryReservationFailed : Type 0 where
  pub order_id : String
  pub reason : String

pub record ShipmentRequested (N : Type 0) : Type 0 where
  pub order_id : String
  pub customer_id : String
  pub items : List (OrderLine N)

pub record ShipmentCreated : Type 0 where
  pub order_id : String
  pub tracking_number : String

pub record OrderCancelled : Type 0 where
  pub order_id : String
  pub reason : String

pub record OrderCompleted : Type 0 where
  pub order_id : String
  pub tracking_number : String

pub data OrderMessage (N : Type 0) : Type 0 where
  order_submitted : OrderSubmitted N → OrderMessage N
  payment_requested_message : PaymentRequested N → OrderMessage N
  payment_captured : PaymentCaptured → OrderMessage N
  payment_failed : PaymentFailed → OrderMessage N
  inventory_reserve_requested : InventoryReserveRequested N → OrderMessage N
  inventory_reserved : InventoryReserved → OrderMessage N
  inventory_reservation_failed : InventoryReservationFailed → OrderMessage N
  shipment_requested_message : ShipmentRequested N → OrderMessage N
  shipment_created : ShipmentCreated → OrderMessage N
  order_cancelled : OrderCancelled → OrderMessage N
  order_completed : OrderCompleted → OrderMessage N

-- The type of a message
unfoldable pub order_type_of : {N : Type 0} → OrderMessage N → String
order_type_of (order_submitted m) = "OrderSubmitted"
order_type_of (payment_requested_message m) = "PaymentRequested"
order_type_of (payment_captured m) = "PaymentCaptured"
order_type_of (payment_failed m) = "PaymentFailed"
order_type_of (inventory_reserve_requested m) = "InventoryReserveRequested"
order_type_of (inventory_reserved m) = "InventoryReserved"
order_type_of (inventory_reservation_failed m) = "InventoryReservationFailed"
order_type_of (shipment_requested_message m) = "ShipmentRequested"
order_type_of (shipment_created m) = "ShipmentCreated"
order_type_of (order_cancelled m) = "OrderCancelled"
order_type_of (order_completed m) = "OrderCompleted"

unfoldable pub order_id_of : {N : Type 0} → OrderMessage N → String
order_id_of (order_submitted m) = m.order_id
order_id_of (payment_requested_message m) = m.order_id
order_id_of (payment_captured m) = m.order_id
order_id_of (payment_failed m) = m.order_id
order_id_of (inventory_reserve_requested m) = m.order_id
order_id_of (inventory_reserved m) = m.order_id
order_id_of (inventory_reservation_failed m) = m.order_id
order_id_of (shipment_requested_message m) = m.order_id
order_id_of (shipment_created m) = m.order_id
order_id_of (order_cancelled m) = m.order_id
order_id_of (order_completed m) = m.order_id

-- An order message among the messages of the bus
abbrev pub sent_order : {N : Type 0} → OrderMessage N → Message (OrderMessage N)
sent_order m = user (order_type_of m) m
