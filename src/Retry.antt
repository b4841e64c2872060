-- ===== src/Retry.antt =====
-- packages/core/src/runtime/RetryHandler.ts: retry headers, delays, and the two ways in which a
-- failed message is published again. Logging is left out. Delays are exact numbers; a JavaScript
-- number rounds them beyond 2 ^ 53.
pub mod Delay
pub mod Headers
pub mod Exhaust
use saga_bus.Messages.{Envelope, Number, whole}
use saga_bus.Errors.{Error, message, name, other}
use saga_bus.Interfaces.{DateFormat, TransportOps}
use saga_bus.Prelude.{
  ℕ, zero, suc, ◌+◌, ◌*◌, ◌^◌, String, Bool, true, false, Option, none, some, truthy, if◌then◌else◌,
  ◌<?>◌,
}
use saga_bus.Prelude.Dict.{Dict}
use saga_bus.Prelude.Exec.{Exec, Result, ok, pure, throw, ◌>>=◌, ◌>>◌}
use saga_bus.Prelude.Int.{ℤ, pos, negsuc, next, scale, lt_nat, nat_lt}
use saga_bus.Prelude.Texts.{◌<>◌, decimal, parse_int}
use saga_bus.Prelude.Dict

-- RETRY_HEADERS
abbrev pub attempt_header : String
attempt_header = "x-saga-attempt"

abbrev pub first_seen_header : String
first_seen_header = "x-saga-first-seen"

abbrev pub original_endpoint_header : String
original_endpoint_header = "x-saga-original-endpoint"

abbrev pub error_message_header : String
error_message_header = "x-saga-error-message"

abbrev pub error_type_header : String
error_type_header = "x-saga-error-type"

pub data Backoff : Type 0 where
  linear exponential : Backoff

-- WorkerRetryPolicy
pub record RetryPolicy : Type 0 where
  pub max_attempts : ℕ
  pub base_delay_ms : ℕ
  pub max_delay_ms : ℕ
  pub backoff : Backoff

abbrev pub default_retry_policy : RetryPolicy
default_retry_policy = record {
  max_attempts = 3;
  base_delay_ms = 1000;
  max_delay_ms = 30000;
  backoff = exponential;
}

unfoldable pub default_dlq_naming : String → Result Error String
unfolding ◌<>◌
default_dlq_naming endpoint = ok (endpoint <> ".dlq")

-- The delay before the cap: for an attempt below 1 the power of two is a fraction.
unfoldable pub uncapped : RetryPolicy → Backoff → ℤ → Number
uncapped p linear attempt = record { num = scale p.base_delay_ms attempt; exp = 0 }
uncapped p exponential (pos zero) = record { num = pos p.base_delay_ms; exp = 1 }
uncapped p exponential (pos (suc n)) = whole (p.base_delay_ms * 2 ^ n)
uncapped p exponential (negsuc n) = record { num = pos p.base_delay_ms; exp = n + 2 }

-- Math.min(delay, cap)
unfoldable pub cap : Number → ℕ → Number
cap d m = if nat_lt (m * 2 ^ d.exp) d.num then whole m else d

unfoldable pub calculate_delay : RetryPolicy → ℤ → Number
unfolding uncapped cap
calculate_delay p attempt = cap (uncapped p p.backoff attempt) p.max_delay_ms

-- An absent or empty header counts as the first attempt, and so does one that is no number.
unfoldable pub attempt_of : Option String → ℤ
attempt_of none = pos 1
attempt_of (some text) = if truthy text then parse_int text <?> pos 1 else pos 1

-- `none` is an invalid date, from a header that is no date.
unfoldable pub first_seen_of : DateFormat → ℕ → Option String → Option ℕ
first_seen_of dates timestamp none = some timestamp
first_seen_of dates timestamp (some text) = if truthy text then dates.parse text else some timestamp

module _ {B : Type 0} where
  unfoldable pub get_attempt_count : Envelope B → ℤ
  unfolding attempt_of
  get_attempt_count envelope = attempt_of (Dict.get attempt_header envelope.headers)

  unfoldable pub get_first_seen : DateFormat → Envelope B → Option ℕ
  unfolding first_seen_of
  get_first_seen dates envelope =
      first_seen_of dates envelope.timestamp (Dict.get first_seen_header envelope.headers)

  -- The headers of a message that is published again.
  unfoldable pub tracking_headers : Envelope B → String → ℤ → String → Dict String
  tracking_headers envelope endpoint attempt seen =
      Dict.set original_endpoint_header
        (Dict.get original_endpoint_header envelope.headers <?> endpoint)
        (Dict.set first_seen_header seen
          (Dict.set attempt_header (decimal attempt) envelope.headers))

  -- The headers of a message on its way to the dead-letter endpoint.
  unfoldable pub dlq_headers : Envelope B → String → String → Error → Dict String
  dlq_headers envelope endpoint seen error = Dict.set error_type_header (name error) (
      Dict.set error_message_header (message error)
        (tracking_headers envelope endpoint (get_attempt_count envelope) seen))

-- toISOString throws on an invalid date.
abbrev pub to_iso_string : {S : Type 0} → DateFormat → Option ℕ → Exec Error S String
to_iso_string dates none = throw (other "RangeError" "Invalid time value")
to_iso_string dates (some t) = pure (dates.to_iso t)

module _ {B T : Type 0} (dates : DateFormat) (ops : TransportOps B T)
    (dlq_naming : String → Result Error String) where
  -- The naming function is the user's, and may throw.
  unfoldable pub send_to_dlq : Envelope B → String → Error → Exec Error T (Unit {0})
  send_to_dlq envelope original_endpoint error = do
    dlq_endpoint ← (λ t. (dlq_naming original_endpoint, t))
    seen ← to_iso_string dates (get_first_seen dates envelope)
    ops.publish envelope.payload (record {
      endpoint = dlq_endpoint;
      key = envelope.partition_key;
      headers = some (dlq_headers envelope original_endpoint seen error);
      delay_ms = none;
    })

  -- Publishes the message again, to be delivered later.
  unfoldable pub publish_again : Envelope B → String → RetryPolicy → Exec Error T Bool
  publish_again envelope endpoint policy = do
    seen ← to_iso_string dates (get_first_seen dates envelope)
    ops.publish envelope.payload (record {
      endpoint = endpoint;
      key = envelope.partition_key;
      headers = some (tracking_headers envelope endpoint (next (get_attempt_count envelope)) seen);
      delay_ms = some (calculate_delay policy (get_attempt_count envelope));
    })
    pure true

  -- True: published again; false: sent to the dead-letter endpoint.
  unfoldable pub handle_failure : Envelope B → String → Error → RetryPolicy → Exec Error T Bool
  unfolding publish_again send_to_dlq
  handle_failure envelope endpoint error policy =
      if lt_nat (get_attempt_count envelope) policy.max_attempts
      then publish_again envelope endpoint policy
      else (do send_to_dlq envelope endpoint error; pure false)
