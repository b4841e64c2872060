-- ===== src/Sagas/Order.antt =====
-- packages/examples-shared/src/sagas/OrderSaga.ts: the saga of an order.
pub mod Messages
pub mod Handlers
pub mod Machine
pub mod Turn
pub mod Flow
