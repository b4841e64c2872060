-- ===== src/Lib.antt =====
-- saga-bus: a message bus that runs sagas (packages/core) over a store and a transport.
--
-- A message reaches the bus through a transport. BusImpl hands it to each saga that handles its
-- type; SagaOrchestrator correlates it, loads the saga's state, runs the middleware pipeline around
-- the handler and stores the new state under the version that was read. What throws is classified:
-- RetryHandler publishes the message again with a delay, or sends it to a dead-letter endpoint.
--
-- Files and what they model:
-- - Prelude: shared names. Prelude/Exec is code that changes a state and may throw, where the state
--   of a throw is kept; Prelude/Dict is Map; Prelude/Texts is String(n) and parseInt.
-- - Messages, State, Interfaces: packages/core/src/types. A platform gives the n-th reading of the
--   clock and the n-th random id, and the text form of dates.
-- - Errors: packages/core/src/errors; Errors/Classify and Errors/Patterns:
--   packages/core/src/runtime/DefaultErrorHandler.ts.
-- - Context: packages/core/src/runtime/SagaContextImpl.ts.
-- - Dsl: packages/core/src/dsl. Pipeline: packages/core/src/runtime/MiddlewarePipeline.ts, with fuel
--   for the middlewares that are left; their number is enough.
-- - Orchestrator: packages/core/src/runtime/SagaOrchestrator.ts; Orchestrator/Handle is
--   handleMessage and Orchestrator/Process is processMessage.
-- - Retry: packages/core/src/runtime/RetryHandler.ts. Bus: packages/core/src/runtime/BusImpl.ts, where
--   the error handler and the naming of dead-letter endpoints are the user's and may throw.
-- - Store: what the orchestrator relies on of a store (packages/core/src/types/saga.ts);
--   Store/Memory: packages/store-inmemory/src/InMemorySagaStore.ts; Store/Sqlite:
--   packages/store-sqlite/src/index.ts over prepared statements, whose documented behaviour is
--   assumed in Store/Sqlite/Database; Store/Redis: packages/store-redis/src/RedisSagaStore.ts over
--   the calls of a Redis client (Redis), whose documented behaviour, with other clients that write
--   at any call, is assumed in Store/Redis/Client, for one operation at a time on a connection. The
--   loop of update recurses on the attempts left.
-- - Transport/Memory and Transport/Semaphore: packages/transport-inmemory/src. What Transport/Memory
--   gives are the calls of withPermit; when a permit is granted, and so when a handler is called, is
--   the matter of Transport/Semaphore, and the two are not joined.
-- - Idempotency, Idempotency/Memory and Idempotency/Redis, the latter over the calls of a Redis client
--   that are documented in Idempotency/Redis/Client: packages/middleware-idempotency/src. Tenant:
--   packages/middleware-tenant/src. Validation: packages/middleware-validation/src. They are
--   middlewares of Pipeline over any state that has the envelope; a part of a state is a Slot
--   (Prelude/Exec).
-- - Sagas/Loan: packages/examples-shared/src/sagas/LoanApplicationSaga.ts, a saga on the builder of
--   Dsl. Types, Status and Application are src/types/loan.ts of that package, Messages is
--   src/messages/loan.ts, Platform the helpers at the end of the saga's file, Steps what the handlers
--   share, Handlers the handlers by stage, and Machine the saga with its guards. Numbers of money,
--   rates and scores are of a type with the operations that the saga uses (Platform).
-- - Sagas/Order: packages/examples-shared/src/sagas/OrderSaga.ts in the same way; Messages is
--   src/types/index.ts and src/messages/order.ts of that package.
-- - Examples: a small saga and the theorems at concrete inputs.
-- The children of these modules hold the proofs.
--
-- Numbers: versions, times and delays are natural numbers, attempt counts are integers, a retry
-- delay is an integer over a power of two. JavaScript rounds numbers beyond 2 ^ 53; the model does
-- not. A time before 1970 is not modelled. An Invalid Date is kept as the text it was read from.
--
-- Not modelled: logging, the delays between attempts, the expiry of states in Redis, the stores of other
-- databases, the transports of brokers, the other middleware packages, the integrations with web
-- frameworks, the test harness, and the example applications but for the two sagas.
mod Prelude
pub mod Messages
pub mod Errors
pub mod Interfaces
pub mod Retry
pub mod Transport
mod Examples
pub mod State
pub mod Context
pub mod Store
pub mod Dsl
pub mod Pipeline
pub mod Idempotency
pub mod Orchestrator
pub mod Bus
pub mod Tenant
pub mod Sagas
pub mod Validation
