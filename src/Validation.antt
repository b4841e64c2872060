-- ===== src/Validation.antt =====
-- packages/middleware-validation/src/ValidationMiddleware.ts and types.ts: a middleware that keeps
-- invalid messages from the rest of the pipeline. It acts on any state W that has the envelope.
-- Logging, the invalid value of an error and the fields of MessageValidationError are left out. The
-- validators are an object with no keys but its own.
pub mod Verdict
use saga_bus.Dsl.{includes}
use saga_bus.Errors.{Error, other, plain}
use saga_bus.Messages.{Envelope, Message}
use saga_bus.Pipeline.{Action, Done, Middleware, call_next, stop}
use saga_bus.Prelude.{
  String, Bool, true, false, Option, none, some, List, [], ◌∷◌, if◌then◌else◌, ◌<?>◌,
}
use saga_bus.Prelude.Dict.{Dict}
use saga_bus.Prelude.Exec.{Exec, Result, err, ok}
use saga_bus.Prelude.Texts.{◌<>◌}
use saga_bus.Prelude.Dict

-- ValidationError
pub record FieldError : Type 0 where
  pub path : String
  pub message : String

pub record ValidationResult : Type 0 where
  pub valid : Bool
  pub errors : Option (List FieldError)

pub data InvalidMessageAction : Type 0 where
  skips logs throws to_dlq : InvalidMessageAction

-- ValidationMiddlewareOptions without the logger
pub record ValidationOptions (B W : Type 0) : Type 0 where
  pub validators : Dict (Message B → Exec Error W ValidationResult)
  pub on_invalid : Option InvalidMessageAction
  pub dead_letter_handler : Option (Envelope B → List FieldError → Exec Error W (Unit {0}))
  pub strict_mode : Option Bool
  pub exclude_types : Option (List String)

-- errors.map((e) => `${e.path}: ${e.message}`).join(", ")
unfoldable pub error_summary : List FieldError → String
unfolding ◌<>◌
error_summary [] = ""
error_summary (e ∷ []) = e.path <> ": " <> e.message
error_summary (e ∷ (f ∷ es)) = e.path <> ": " <> e.message <> ", " <> error_summary (f ∷ es)

-- new MessageValidationError(messageId, messageType, errors)
unfoldable pub message_validation_error : String → List FieldError → Error
unfolding ◌<>◌ error_summary
message_validation_error message_id errors =
    other "MessageValidationError"
      ("Validation failed for message " <> message_id <> ": " <> error_summary errors)

module _ {B W : Type 0} (options : ValidationOptions B W) (envelope_in : W → Envelope B) where
  -- handleInvalidMessage
  unfoldable pub handle_invalid_message : InvalidMessageAction → List FieldError → W → Done × W
  unfolding message_validation_error
  handle_invalid_message skips errors w = (ok tt, w)
  handle_invalid_message logs errors w = (ok tt, w)
  handle_invalid_message throws errors w =
      (err (message_validation_error (envelope_in w).id errors), w)
  handle_invalid_message to_dlq errors w = elim options.dead_letter_handler [
    | none ↦ (err (other "TypeError" "deadLetterHandler is not a function"), w)
    | some handler ↦ handler (envelope_in w) errors w
  ]

  abbrev pub invalid_action : InvalidMessageAction
  invalid_action = options.on_invalid <?> throws

  -- The errors of a message without a validator
  unfoldable pub no_validator : String → List FieldError
  unfolding ◌<>◌
  no_validator message_type =
      record {
        path = "type";
        message = "No validator registered for message type: " <> message_type;
      }
      ∷ []

  -- What a validator's answer leads to
  unfoldable pub after_validator : Result Error ValidationResult × W → Action W
  unfolding handle_invalid_message
  after_validator (err e, w) = stop (err e) w
  after_validator (ok result, w) =
      if result.valid
      then call_next w stop
      else (let (r, w') = handle_invalid_message invalid_action (result.errors <?> []) w in
          stop r w')

  unfoldable pub run_validator : Option (Message B → Exec Error W ValidationResult) → W → Action W
  unfolding after_validator no_validator
  run_validator none w =
      if options.strict_mode <?> false
      then (let (r, w') =
            handle_invalid_message invalid_action (no_validator (envelope_in w).type) w in
          stop r w')
      else call_next w stop
  run_validator (some validator) w = after_validator (validator (envelope_in w).payload w)

  unfoldable pub validation_middleware : Middleware W
  unfolding run_validator includes
  validation_middleware w =
      if includes (options.exclude_types <?> []) (envelope_in w).type
      then call_next w stop
      else run_validator (Dict.get (envelope_in w).type options.validators) w

  -- The options that are refused
  unfoldable pub check_options :
      InvalidMessageAction → Option (Envelope B → List FieldError → Exec Error W (Unit {0})) → Bool
  check_options to_dlq none = false
  check_options _ _ = true

  unfoldable pub create_validation_middleware : Result Error (Middleware W)
  unfolding check_options validation_middleware
  create_validation_middleware =
      if check_options invalid_action options.dead_letter_handler
      then ok validation_middleware
      else err (plain "deadLetterHandler is required when onInvalid is set to 'dlq'")
