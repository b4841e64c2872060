-- ===== src/Examples/Validated.antt =====
-- The validation middleware on two orders.
use saga_bus.Examples.{order_envelope}
use saga_bus.Dsl.{includes}
use saga_bus.Errors.{Error}
use saga_bus.Messages.{Envelope, Message, timeout_expired, user}
use saga_bus.Pipeline.{execute}
use saga_bus.Validation.{ValidationOptions, ValidationResult, validation_middleware}
use saga_bus.Validation.Verdict.{execute-verdict, sentenced, verdict}
use saga_bus.Prelude.{ℕ, ◌+◌, ◌≡◌, refl, false, none, some, [], ◌∷◌, leb}
use saga_bus.Prelude.Dict
use saga_bus.Prelude.Exec.{Exec, ok, pure, resume}

-- An envelope, and how often the handler ran
abbrev Small : Type 0
Small = Envelope ℕ × ℕ

abbrev at_most_three : Message ℕ → Exec Error Small ValidationResult
at_most_three (user t n) = pure (record {
  valid = leb n 3;
  errors = some (record { path = "count"; message = "too large" } ∷ []);
})
at_most_three (timeout_expired e) = pure (record { valid = false; errors = none })

abbrev options : ValidationOptions ℕ Small
options = record {
  validators = ("OrderPlaced", at_most_three) ∷ [];
  on_invalid = none;
  dead_letter_handler = none;
  strict_mode = none;
  exclude_types = none;
}

abbrev counting : Exec Error Small (Unit {0})
counting w = (ok tt, (w.0, w.1 + 1))

execute-verdict_example :
    execute (validation_middleware options (λ w. w.0) ∷ []) counting (order_envelope, 0)
    ≡ resume
        (verdict options (λ w. w.0) (some at_most_three) (order_envelope, 0))
        (sentenced options (λ w. w.0) (execute [] counting))
unfolding includes Dict.get
execute-verdict_example = execute-verdict options (λ w. w.0) [] counting (order_envelope, 0) tt refl
