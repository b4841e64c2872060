-- ===== src/Sagas/Order/Turn.antt =====
-- Which handler of the order saga a message runs: SagaDefinitionImpl.handle on the definition that
-- packages/examples-shared/src/sagas/OrderSaga.ts builds.
use saga_bus.Prelude.Dict
use saga_bus.Dsl.{
  Guard, Handler, admits, passes, Definition, build, definition_of, handle, has_starting, run_first,
}
use saga_bus.Messages.{Message}
use saga_bus.Sagas.Order.Handlers.{
  Handled, OrderHost, on_order_submitted, on_payment_captured, on_payment_failed,
  on_inventory_reserved, on_inventory_reservation_failed, on_shipment_created, on_order_cancelled,
}
use saga_bus.Sagas.Order.Machine.{
  while, not_ended, order_builder, order_saga, taking_order, as_order_submitted,
  as_payment_captured, as_payment_failed, as_inventory_reserved, as_inventory_reservation_failed,
  as_shipment_created, as_order_cancelled,
}
use saga_bus.Sagas.Order.Messages.{
  OrderStatus, Order, OrderMessage, sent_order, order_type_of, order_submitted, payment_captured,
  payment_failed, inventory_reserved, inventory_reservation_failed, shipment_created,
  order_cancelled,
}
use saga_bus.State.{SagaState}
use saga_bus.Prelude.{
  inl, inr, Bool-cases, first, String, [], ◌∷◌, ◌≡◌, refl, Bool, none, some, if◌then◌else◌,
}
use saga_bus.Prelude.Exec.{ok, pure}

module _ {N V T : Type 0} (host : OrderHost N T) where
  unfoldable pub built_order : Definition (OrderMessage N) (Order N) V T
  unfolding definition_of order_builder
  built_order = definition_of "OrderSaga" (order_builder host)

  pub order_saga-built_order : order_saga {V = V} host ≡ ok built_order
  unfolding order_saga build built_order definition_of order_builder has_starting Dict.set
  order_saga-built_order = refl

  -- A message in a state that its handler does not take leaves the state as it is.
  unfoldable pub guarded : Bool → Handled N V T → SagaState (Order N) → Handled N V T
  guarded b handler x = if b then handler else pure (record { new_state = x; is_completed = none })

  unfoldable pub order_turn : OrderMessage N → SagaState (Order N) → Handled N V T
  unfolding guarded
  order_turn (order_submitted m) x =
      guarded (while OrderStatus.pending x) (on_order_submitted host m x) x
  order_turn (payment_captured m) x =
      guarded (while OrderStatus.payment_requested x) (on_payment_captured host m x) x
  order_turn (payment_failed m) x =
      guarded (while OrderStatus.payment_requested x) (on_payment_failed host m x) x
  order_turn (inventory_reserved m) x =
      guarded (while OrderStatus.inventory_requested x) (on_inventory_reserved host m x) x
  order_turn (inventory_reservation_failed m) x =
      guarded (while OrderStatus.inventory_requested x) (on_inventory_reservation_failed host m x) x
  order_turn (shipment_created m) x =
      guarded (while OrderStatus.shipment_requested x) (on_shipment_created host m x) x
  order_turn (order_cancelled m) x = guarded (not_ended x) (on_order_cancelled host m x) x
  order_turn _ x = pure (record { new_state = x; is_completed = none })

  -- A list of one registration
  registered :
      (t : String) (g : Guard (Order N)) (handler : Handler (OrderMessage N) (Order N) V T)
      (m : Message (OrderMessage N)) (x : SagaState (Order N))
      → run_first
          (first (admits x) (record { message_type = t; guard = some g; handler = handler } ∷ []))
          m
          x
        ≡ guarded (g x) (handler m x) x
  unfolding run_first admits passes guarded
  registered t g handler m x = elim (Bool-cases (g x)) [
    | inl taken ↦ rw taken
    | inr passed ↦ rw passed
  ]

  -- The saga runs the one handler of the message, if its guard takes the state.
  pub handle-order_turn :
      (m : OrderMessage N) (x : SagaState (Order N))
      → handle built_order (sent_order m) x ≡ order_turn m x
  unfolding handle built_order order_turn definition_of order_builder order_type_of Dict.set
      Dict.get
  handle-order_turn (order_submitted m) x =
      registered "OrderSubmitted" (while OrderStatus.pending)
        (taking_order as_order_submitted (on_order_submitted host)) (sent_order (order_submitted m))
        x
  handle-order_turn (payment_captured m) x =
      registered "PaymentCaptured" (while OrderStatus.payment_requested)
        (taking_order as_payment_captured (on_payment_captured host))
        (sent_order (payment_captured m)) x
  handle-order_turn (payment_failed m) x =
      registered "PaymentFailed" (while OrderStatus.payment_requested)
        (taking_order as_payment_failed (on_payment_failed host)) (sent_order (payment_failed m)) x
  handle-order_turn (inventory_reserved m) x =
      registered "InventoryReserved" (while OrderStatus.inventory_requested)
        (taking_order as_inventory_reserved (on_inventory_reserved host))
        (sent_order (inventory_reserved m)) x
  handle-order_turn (inventory_reservation_failed m) x =
      registered "InventoryReservationFailed" (while OrderStatus.inventory_requested)
        (taking_order as_inventory_reservation_failed (on_inventory_reservation_failed host))
        (sent_order (inventory_reservation_failed m)) x
  handle-order_turn (shipment_created m) x =
      registered "ShipmentCreated" (while OrderStatus.shipment_requested)
        (taking_order as_shipment_created (on_shipment_created host))
        (sent_order (shipment_created m)) x
  handle-order_turn (order_cancelled m) x =
      registered "OrderCancelled" (not_ended)
        (taking_order as_order_cancelled (on_order_cancelled host)) (sent_order (order_cancelled m))
        x
  handle-order_turn _ x = refl
