-- ===== src/Errors.antt =====
-- packages/core/src/errors/index.ts: the error classes, with the `name` and `message` that the
-- runtime reads. A thrown value that is no Error keeps its `String(value)`. The stack and the
-- unknown `value` of ValidationError are not modelled.
pub mod Patterns
pub mod Classify
use saga_bus.Prelude.{ℕ, String, Bool, true, false, Option, none, some}
use saga_bus.Prelude.Int.{ℤ}
use saga_bus.Prelude.Texts.{◌<>◌, decimal, decimal_ℕ}

pub record ErrorContext : Type 0 where
  pub saga_name : String
  pub correlation_id : String
  pub saga_id : Option String
  pub message_type : String
  pub message_id : String

pub data Error : Type 0 where
  -- ConcurrencyError: saga id, expected version, actual version
  concurrency : String → ℕ → Option ℤ → Error
  -- TransientError, without and with its cause
  transient : String → Error
  transient_of : String → Error → Error
  -- ValidationError: message, field
  validation : String → Option String → Error
  -- SagaTimeoutError: saga id, saga name, correlation id, milliseconds
  saga_timeout : String → String → String → ℕ → Error
  -- SagaProcessingError: cause, context
  processing : Error → ErrorContext → Error
  -- any other Error, with its name and message
  other : String → String → Error
  -- a thrown value that is no Error
  thrown : String → Error

unfoldable pub is_error : Error → Bool
is_error (thrown s) = false
is_error _ = true

-- error.message, and `String(error)` of a value that is no Error
unfoldable pub message : Error → String
unfolding ◌<>◌ decimal decimal_ℕ
message (concurrency id expected none) =
    "Concurrency conflict for saga " <> id <> ": expected version " <> decimal_ℕ expected
message (concurrency id expected (some actual)) =
    "Concurrency conflict for saga "
    <> id
    <> ": expected version "
    <> decimal_ℕ expected
    <> ", got "
    <> decimal actual
message (transient m) = m
message (transient_of m cause) = m
message (validation m field) = m
message (saga_timeout id name corr ms) =
    "Saga timeout expired: " <> name <> " (" <> id <> ") after " <> decimal_ℕ ms <> "ms"
message (processing cause ctx) =
    "Error processing message in " <> ctx.saga_name <> ": " <> message cause
message (other name m) = m
message (thrown s) = s

-- error.name, and "UnknownError" for a value that is no Error
unfoldable pub name : Error → String
name (concurrency id expected actual) = "ConcurrencyError"
name (transient m) = "TransientError"
name (transient_of m cause) = "TransientError"
name (validation m field) = "ValidationError"
name (saga_timeout id saga corr ms) = "SagaTimeoutError"
name (processing cause ctx) = "SagaProcessingError"
name (other n m) = n
name (thrown s) = "UnknownError"

-- new Error(m)
abbrev pub plain : String → Error
plain m = other "Error" m

-- TransientError.wrap
unfoldable pub wrap : Error → Error
wrap e = transient_of (message e) e

-- `error instanceof Error ? error : new Error(String(error))`, and the wrapping of processMessage
unfoldable pub as_error : Error → Error
as_error (thrown s) = plain s
as_error e = e

-- SagaProcessingError.extractContext
unfoldable pub extract_context : Error → Option ErrorContext
extract_context (processing cause ctx) = some ctx
extract_context _ = none

-- `error instanceof SagaProcessingError ? error.cause : error`
unfoldable pub original : Error → Error
original (processing cause ctx) = cause
original e = e
