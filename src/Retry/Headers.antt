-- ===== src/Retry/Headers.antt =====
-- What the retry headers of packages/core/src/runtime/RetryHandler.ts say when they are read back.
use saga_bus.Messages.{Envelope}
use saga_bus.Interfaces.{DateFormat}
use saga_bus.Retry.{
  attempt_header, first_seen_header, original_endpoint_header, attempt_of, first_seen_of,
  tracking_headers,
}
use saga_bus.Prelude.{ℕ, String, ◌≡◌, some, ◌<?>◌}
use saga_bus.Prelude.Dict.{Dict, dict_laws}
use saga_bus.Prelude.Int.{ℤ}
use saga_bus.Prelude.Texts.{decimal, parse_int-decimal, truthy-decimal}
use saga_bus.Prelude.Dict

-- A count that was written by `String` is read back.
pub attempt_of-decimal : (z : ℤ) → attempt_of (some (decimal z)) ≡ z
unfolding attempt_of
attempt_of-decimal z = rw (truthy-decimal z, parse_int-decimal z)

-- So is a time that was written by `toISOString`.
pub first_seen_of-to_iso :
    (dates : DateFormat) (timestamp t : ℕ)
    → first_seen_of dates timestamp (some (dates.to_iso t)) ≡ some t
unfolding first_seen_of
first_seen_of-to_iso dates timestamp t = rw (dates.truthy-to_iso t, dates.parse-to_iso t)

module _ {B : Type 0} (envelope : Envelope B) (endpoint : String) (attempt : ℤ)
    (seen : String) where
  pub get-tracking_attempt :
      Dict.get attempt_header (tracking_headers envelope endpoint attempt seen)
      ≡ some (decimal attempt)
  unfolding tracking_headers
  get-tracking_attempt = simp dict_laws

  pub get-tracking_first_seen :
      Dict.get first_seen_header (tracking_headers envelope endpoint attempt seen) ≡ some seen
  unfolding tracking_headers
  get-tracking_first_seen = simp dict_laws

  pub get-tracking_origin :
      Dict.get original_endpoint_header (tracking_headers envelope endpoint attempt seen)
      ≡ some (Dict.get original_endpoint_header envelope.headers <?> endpoint)
  unfolding tracking_headers
  get-tracking_origin = simp dict_laws
