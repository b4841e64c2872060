-- ===== src/Errors/Classify.antt =====
-- packages/core/src/runtime/DefaultErrorHandler.ts: which errors are retried.
use saga_bus.Errors.{Error, concurrency, transient, transient_of, thrown, message}
use saga_bus.Errors.Patterns.{Pattern, literal, spread, test}
use saga_bus.Prelude.{
  String, Bool, true, false, Option, none, some, List, [], ◌∷◌, if◌then◌else◌, ◌<?>◌, any,
}

pub data Action : Type 0 where
  retry dlq drop : Action

abbrev pub transient_error_patterns : List Pattern
transient_error_patterns =
    literal "ECONNREFUSED"
    ∷ literal "ECONNRESET"
    ∷ literal "ETIMEDOUT"
    ∷ literal "ENOTFOUND"
    ∷ literal "timeout"
    ∷ spread "connection" "refused"
    ∷ spread "connection" "reset"
    ∷ literal "network"
    ∷ literal "socket hang up"
    ∷ literal "EPIPE"
    ∷ literal "EHOSTUNREACH"
    ∷ []

-- patterns.some((pattern) => pattern.test(message))
unfoldable pub some_match : List Pattern → String → Bool
some_match patterns m = any (λ p. test p m) patterns

unfoldable pub is_transient_error : Error → Bool
unfolding some_match
is_transient_error (transient m) = true
is_transient_error (transient_of m cause) = true
is_transient_error (concurrency id expected actual) = true
is_transient_error (thrown s) = false
is_transient_error e = some_match transient_error_patterns (message e)

-- DefaultErrorHandler.handle
unfoldable pub default_handle : Error → Action
default_handle e = if is_transient_error e then retry else dlq

-- An additional pattern applies to an Error only.
unfoldable pub additional_match : List Pattern → Error → Bool
unfolding some_match
additional_match patterns (thrown s) = false
additional_match patterns e = some_match patterns (message e)

-- The tests of createErrorHandler behind the custom classifier
unfoldable pub classify : List Pattern → Error → Action
classify patterns e =
    if is_transient_error e then retry else if additional_match patterns e then retry else dlq

-- createErrorHandler: the classifier decides unless it returns null.
unfoldable pub create_error_handler {ℓ} :
    {C : Type ℓ} → List Pattern → Option (Error → C → Option Action) → Error → C → Action
create_error_handler patterns none e ctx = classify patterns e
create_error_handler patterns (some custom) e ctx = custom e ctx <?> classify patterns e
