-- ===== src/Examples/Parts.antt =====
-- Retries, patterns, the context, the builder and the pipeline on small inputs.
use saga_bus.Examples.{
  number_dates, order_envelope, order_message, quiet_env, three_attempts, ticking_platform,
}
use saga_bus.Context.{Context, set_timeout, get_timeout_remaining}
use saga_bus.Context.Timeout.{set_timeout-remaining}
use saga_bus.Errors.{Error, original, transient}
use saga_bus.Errors.Classify.{is_transient_error}
use saga_bus.Errors.Patterns.{spread, test}
use saga_bus.Errors.Patterns.Matching.{Matches, test_iff-Matches}
use saga_bus.Messages.{PublishOptions}
use saga_bus.Retry.{default_dlq_naming}
use saga_bus.Retry.Exhaust.{Buried, dead, fate, fate-exhausts}
use saga_bus.Prelude.{ℕ, ◌+◌, ◌-◌, ◌≡◌, refl, ◌↔◌, true, false, none, some, [], arith}
use saga_bus.Prelude.Dict.{get}
use saga_bus.Prelude.Exec.{ok}
use saga_bus.Prelude.Int.{pos}
use saga_bus.Prelude.Texts.{decimal}

-- Each delivery fails with an error of its own.
abbrev failures : ℕ → Error
failures n = transient (decimal (pos n))

fate-exhausts_example :
    (o : PublishOptions) × (fate number_dates default_dlq_naming "orders" three_attempts failures
        (λ n. decimal (pos n))
        (λ n. n)
        3
        0
        order_envelope
      ≡ dead 3 order_message o)
    × Buried number_dates "orders.dlq" "orders" order_envelope 40 3 (failures 2) o
unfolding get default_dlq_naming is_transient_error original
fate-exhausts_example =
    fate-exhausts number_dates default_dlq_naming "orders" "orders.dlq" refl three_attempts failures
      (λ n. decimal (pos n)) (λ n. n) order_envelope
      (record { no_attempt = refl; no_first_seen = refl; no_origin = refl }) (omega arith)
      (λ i below. refl)

test_iff-Matches_example :
    (test (spread "connection" "reset") "Connection was RESET" ≡ true)
    ↔ Matches (spread "connection" "reset") "Connection was RESET"
test_iff-Matches_example = test_iff-Matches (spread "connection" "reset") "Connection was RESET"

abbrev small_context : Context ℕ ℕ
small_context = record {
  saga_name = "orders";
  saga_id = "s1";
  correlation_id = "k1";
  envelope = order_envelope;
  metadata = [];
  default_endpoint = some "orders-in";
  timeout_bounds = record { min_ms = 10; max_ms = 5000 };
  is_completed = false;
  current_metadata = none;
  pending_timeout_change = none;
}

set_timeout-remaining_example :
    let r = set_timeout ticking_platform (pos 100) (small_context, quiet_env) in
    (r.0 ≡ ok tt) × ((get_timeout_remaining ticking_platform r.1).0 ≡ ok (some (5000 + 100 - 5010)))
set_timeout-remaining_example =
    set_timeout-remaining ticking_platform small_context quiet_env 100 (omega arith) (omega arith)
      (omega arith)
