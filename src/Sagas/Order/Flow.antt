-- ===== src/Sagas/Order/Flow.antt =====
-- The flow of an order as a relation on statuses: the guards and the statuses of the handlers in
-- packages/examples-shared/src/sagas/OrderSaga.ts. The comment at the head of that file names the
-- statuses pending, paid and reserved after the first three steps; the handlers set payment_requested,
-- inventory_requested and shipment_requested. Besides the relation, what an
-- order shows of the steps behind it.
use saga_bus.Context.{Session}
use saga_bus.Dsl.{handle}
use saga_bus.Sagas.Order.Handlers.{
  Handled, OrderHost, publish_order, complete_order, on_order_submitted, on_payment_captured,
  on_payment_failed, on_inventory_reserved, on_inventory_reservation_failed, on_shipment_created,
  on_order_cancelled,
}
use saga_bus.Sagas.Order.Machine.{not_ended}
use saga_bus.Sagas.Order.Messages.{
  OrderStatus, OrderStatus-discrete, is_order_status, Order, OrderMessage, OrderSubmitted,
  PaymentCaptured, PaymentFailed, InventoryReserved, InventoryReservationFailed, ShipmentCreated,
  sent_order, order_type_of, order_submitted, payment_captured, payment_failed, inventory_reserved,
  inventory_reservation_failed, shipment_created, order_cancelled,
}
use saga_bus.Sagas.Order.Turn.{built_order, guarded, order_turn, handle-order_turn}
use saga_bus.State.{HandlerResult, SagaState}
use saga_bus.Prelude.{
  inl, inr, ◌⊎◌, ◌≢◌, String, ◌≡◌, refl, sym, ap, ◌∙◌, subst, Bool, true, false, Option, none, some,
  arith,
}
use saga_bus.Prelude.Exec.{Ensures, Ensures-after, Ensures-ok, Ensures-weaken, ok}

-- By which type of message which status leads to which
pub data Flow : String → OrderStatus → OrderStatus → Type 0 where
  submitted : Flow "OrderSubmitted" OrderStatus.pending OrderStatus.payment_requested
  captured : Flow "PaymentCaptured" OrderStatus.payment_requested OrderStatus.inventory_requested
  unpaid : Flow "PaymentFailed" OrderStatus.payment_requested OrderStatus.cancelled
  reserved : Flow "InventoryReserved" OrderStatus.inventory_requested OrderStatus.shipment_requested
  unreserved :
      Flow "InventoryReservationFailed" OrderStatus.inventory_requested OrderStatus.cancelled
  shipped : Flow "ShipmentCreated" OrderStatus.shipment_requested OrderStatus.shipped
  cancelled :
      {s : OrderStatus}
      → s ≢ OrderStatus.cancelled
      → s ≢ OrderStatus.shipped
      → Flow "OrderCancelled" s OrderStatus.cancelled

abbrev pub Has : Option String → Type 0
Has o = o ≢ none

-- What an order has in a status: its payment, its reservation, its parcel
abbrev pub Shown : {N : Type 0} → OrderStatus → Order N → Type 0
Shown OrderStatus.inventory_requested order = Has order.transaction_id
Shown OrderStatus.shipment_requested order = Has order.transaction_id × Has order.reservation_id
Shown OrderStatus.shipped order =
    Has order.transaction_id × Has order.reservation_id × Has order.tracking_number
Shown OrderStatus.cancelled order = Has order.cancel_reason
Shown _ order = Unit

-- Whether a status is reported as the end of the saga
abbrev pub verdict : OrderStatus → Option Bool
verdict OrderStatus.shipped = some true
verdict OrderStatus.cancelled = some true
verdict _ = none

-- A step of the flow, after which the order shows what it must and is itself otherwise
pub record Follows {N : Type 0} (type : String) (x : SagaState (Order N))
    (r : HandlerResult (Order N)) : Type 0 where
  pub flow : Flow type x.fields.status r.new_state.fields.status
  pub shown : Shown r.new_state.fields.status r.new_state.fields
  pub ends : r.is_completed ≡ verdict r.new_state.fields.status
  pub metadata : r.new_state.metadata ≡ x.metadata
  pub order_id : r.new_state.fields.order_id ≡ x.fields.order_id
  pub customer_id : r.new_state.fields.customer_id ≡ x.fields.customer_id

abbrev pub untouched : {N : Type 0} → SagaState (Order N) → HandlerResult (Order N)
untouched x = record { new_state = x; is_completed = none }

abbrev Turned : {N : Type 0} → String → SagaState (Order N) → HandlerResult (Order N) → Type 0
Turned type x r = (r ≡ untouched x) ⊎ Follows type x r

is_order_status-eq : (s t : OrderStatus) → is_order_status s t ≡ true → s ≡ t
is_order_status-eq s t h = elim (OrderStatus-discrete s t) [
  | yes same ↦ same
  | no differs ↦ absurd (ground arith)
]

some-Has : (s : String) → Has (some s)
some-Has s = cc

not_ended-open :
    {N : Type 0} (x : SagaState (Order N))
    → not_ended x ≡ true
    → (x.fields.status ≢ OrderStatus.cancelled) × (x.fields.status ≢ OrderStatus.shipped)
not_ended-open x h = (ground arith, ground arith)

module _ {N V T : Type 0} (host : OrderHost N T) where
  guarded-Turned :
      (type : String) (b : Bool) (handler : Handled N V T) (x : SagaState (Order N))
      (session : Session (OrderMessage N) V T)
      → (b ≡ true → Ensures (Follows type x) (handler session))
      → Ensures (Turned type x) (guarded host b handler x session)
  unfolding guarded
  guarded-Turned type true handler x session ensured =
      Ensures-weaken (Follows type x) (Turned type x) (handler session) (λ r. inr) (ensured refl)
  guarded-Turned type false handler x session ensured = inl refl

  on_order_submitted-Follows :
      (m : OrderSubmitted N) (x : SagaState (Order N)) (session : Session (OrderMessage N) V T)
      → x.fields.status ≡ OrderStatus.pending
      → Shown x.fields.status x.fields
      → Ensures (Follows "OrderSubmitted" x) (on_order_submitted host m x session)
  unfolding on_order_submitted complete_order
  on_order_submitted-Follows m x session at sound =
      Ensures-after (Follows "OrderSubmitted" x) (publish_order host _ session) _ (λ u t. record {
        flow =
            subst (λ s. Flow "OrderSubmitted" s OrderStatus.payment_requested) (sym at)
              Flow.submitted;
        shown = tt;
        ends = refl;
        metadata = refl;
        order_id = refl;
        customer_id = refl;
      })

  on_payment_captured-Follows :
      (m : PaymentCaptured) (x : SagaState (Order N)) (session : Session (OrderMessage N) V T)
      → x.fields.status ≡ OrderStatus.payment_requested
      → Shown x.fields.status x.fields
      → Ensures (Follows "PaymentCaptured" x) (on_payment_captured host m x session)
  unfolding on_payment_captured complete_order
  on_payment_captured-Follows m x session at sound =
      Ensures-after (Follows "PaymentCaptured" x) (publish_order host _ session) _ (λ u t. record {
        flow =
            subst (λ s. Flow "PaymentCaptured" s OrderStatus.inventory_requested) (sym at)
              Flow.captured;
        shown = some-Has m.transaction_id;
        ends = refl;
        metadata = refl;
        order_id = refl;
        customer_id = refl;
      })

  on_payment_failed-Follows :
      (m : PaymentFailed) (x : SagaState (Order N)) (session : Session (OrderMessage N) V T)
      → x.fields.status ≡ OrderStatus.payment_requested
      → Shown x.fields.status x.fields
      → Ensures (Follows "PaymentFailed" x) (on_payment_failed host m x session)
  unfolding on_payment_failed complete_order
  on_payment_failed-Follows m x session at sound =
      Ensures-after (Follows "PaymentFailed" x) (publish_order host _ session) _ (λ u t. record {
        flow = subst (λ s. Flow "PaymentFailed" s OrderStatus.cancelled) (sym at) Flow.unpaid;
        shown = some-Has m.reason;
        ends = refl;
        metadata = refl;
        order_id = refl;
        customer_id = refl;
      })

  on_inventory_reserved-Follows :
      (m : InventoryReserved) (x : SagaState (Order N)) (session : Session (OrderMessage N) V T)
      → x.fields.status ≡ OrderStatus.inventory_requested
      → Shown x.fields.status x.fields
      → Ensures (Follows "InventoryReserved" x) (on_inventory_reserved host m x session)
  unfolding on_inventory_reserved complete_order
  on_inventory_reserved-Follows m x session at sound =
      Ensures-after (Follows "InventoryReserved" x) (publish_order host _ session) _ (λ u t.
        record {
          flow =
              subst (λ s. Flow "InventoryReserved" s OrderStatus.shipment_requested) (sym at)
                Flow.reserved;
          shown = (subst (λ s. Shown s x.fields) at sound, some-Has m.reservation_id);
          ends = refl;
          metadata = refl;
          order_id = refl;
          customer_id = refl;
        })

  on_inventory_reservation_failed-Follows :
      (m : InventoryReservationFailed) (x : SagaState (Order N))
      (session : Session (OrderMessage N) V T)
      → x.fields.status ≡ OrderStatus.inventory_requested
      → Shown x.fields.status x.fields
      → Ensures
          (Follows "InventoryReservationFailed" x)
          (on_inventory_reservation_failed host m x session)
  unfolding on_inventory_reservation_failed complete_order
  on_inventory_reservation_failed-Follows m x session at sound =
      Ensures-after (Follows "InventoryReservationFailed" x) (publish_order host _ session) _
        (λ u t. record {
          flow =
              subst (λ s. Flow "InventoryReservationFailed" s OrderStatus.cancelled) (sym at)
                Flow.unreserved;
          shown = some-Has m.reason;
          ends = refl;
          metadata = refl;
          order_id = refl;
          customer_id = refl;
        })

  on_shipment_created-Follows :
      (m : ShipmentCreated) (x : SagaState (Order N)) (session : Session (OrderMessage N) V T)
      → x.fields.status ≡ OrderStatus.shipment_requested
      → Shown x.fields.status x.fields
      → Ensures (Follows "ShipmentCreated" x) (on_shipment_created host m x session)
  unfolding on_shipment_created complete_order
  on_shipment_created-Follows m x session at sound =
      Ensures-after (Follows "ShipmentCreated" x) (publish_order host _ session) _ (λ u t. record {
        flow = subst (λ s. Flow "ShipmentCreated" s OrderStatus.shipped) (sym at) Flow.shipped;
        shown = (
          (subst (λ s. Shown s x.fields) at sound).0,
          (subst (λ s. Shown s x.fields) at sound).1,
          some-Has m.tracking_number,
        );
        ends = refl;
        metadata = refl;
        order_id = refl;
        customer_id = refl;
      })

  turn-Turned :
      (m : OrderMessage N) (x : SagaState (Order N)) (session : Session (OrderMessage N) V T)
      → Shown x.fields.status x.fields
      → Ensures (Turned (order_type_of m) x) (order_turn host m x session)
  unfolding order_turn order_type_of complete_order on_order_cancelled
  turn-Turned (order_submitted m) x session sound =
      guarded-Turned "OrderSubmitted" _ _ x session
        (λ go. on_order_submitted-Follows m x session (is_order_status-eq _ _ go) sound)
  turn-Turned (payment_captured m) x session sound =
      guarded-Turned "PaymentCaptured" _ _ x session
        (λ go. on_payment_captured-Follows m x session (is_order_status-eq _ _ go) sound)
  turn-Turned (payment_failed m) x session sound =
      guarded-Turned "PaymentFailed" _ _ x session
        (λ go. on_payment_failed-Follows m x session (is_order_status-eq _ _ go) sound)
  turn-Turned (inventory_reserved m) x session sound =
      guarded-Turned "InventoryReserved" _ _ x session
        (λ go. on_inventory_reserved-Follows m x session (is_order_status-eq _ _ go) sound)
  turn-Turned (inventory_reservation_failed m) x session sound =
      guarded-Turned "InventoryReservationFailed" _ _ x session (λ go.
        on_inventory_reservation_failed-Follows m x session (is_order_status-eq _ _ go) sound)
  turn-Turned (shipment_created m) x session sound =
      guarded-Turned "ShipmentCreated" _ _ x session
        (λ go. on_shipment_created-Follows m x session (is_order_status-eq _ _ go) sound)
  turn-Turned (order_cancelled m) x session sound =
      guarded-Turned "OrderCancelled" _ (on_order_cancelled host m x) x session (λ go. record {
        flow = Flow.cancelled (not_ended-open x go).0 (not_ended-open x go).1;
        shown = some-Has m.reason;
        ends = refl;
        metadata = refl;
        order_id = refl;
        customer_id = refl;
      })
  turn-Turned _ x session sound = inl refl

  -- When the order saga returns for a message on an order that shows what its status asks for, it
  -- leaves the order as it is, or takes one step of Flow by that message: the new
  -- order shows what its status asks for, the end is reported exactly for a shipped or cancelled
  -- order, and metadata, order id and customer stay.
  pub handle-Follows :
      (m : OrderMessage N) (x : SagaState (Order N)) (session : Session (OrderMessage N) V T)
      {r : HandlerResult (Order N)}
      → Shown x.fields.status x.fields
      → (handle (built_order host) (sent_order m) x session).0 ≡ ok r
      → (r ≡ untouched x) ⊎ Follows (order_type_of m) x r
  handle-Follows m x session sound returned =
      Ensures-ok (Turned (order_type_of m) x) (order_turn host m x session)
        (turn-Turned m x session sound)
        (sym (ap (λ f. (f session).0) (handle-order_turn host m x)) ∙ returned)
