-- ===== src/Validation/Verdict.antt =====
-- Which messages the validation middleware lets through.
use saga_bus.Dsl.{includes}
use saga_bus.Errors.{Error}
use saga_bus.Messages.{Envelope, Message}
use saga_bus.Pipeline.{Middleware, execute}
use saga_bus.Pipeline.Onion.{CallsOnce, around, execute-onion, onion}
use saga_bus.Validation.{
  FieldError, ValidationOptions, ValidationResult, after_validator, handle_invalid_message,
  invalid_action, no_validator, run_validator, validation_middleware,
}
use saga_bus.Prelude.{
  ◌≡◌, refl, ap, ◌∙◌, sym, fun_ext, false, Option, none, some, List, [], ◌∷◌, All, Bool-cases, inl,
  inr, if◌then◌else◌, ◌<?>◌,
}
use saga_bus.Prelude.Dict.{Dict}
use saga_bus.Prelude.Exec.{Exec, Result, err, ok, resume}
use saga_bus.Prelude.Dict

module _ {B W : Type 0} (options : ValidationOptions B W) (envelope_in : W → Envelope B) where
  -- The specification: the faults of a message, `none` if it may pass.
  abbrev pub faults_of : ValidationResult → Option (List FieldError)
  faults_of result = if result.valid then none else some (result.errors <?> [])

  abbrev pub verdict :
      Option (Message B → Exec Error W ValidationResult) → Exec Error W (Option (List FieldError))
  verdict none w = (
    ok (
        if options.strict_mode <?> false
        then some (no_validator options envelope_in (envelope_in w).type)
        else none),
    w,
  )
  verdict (some validator) w =
      resume (validator (envelope_in w).payload w) (λ result v. (ok (faults_of result), v))

  abbrev pub sentenced :
      Exec Error W (Unit {0}) → Option (List FieldError) → Exec Error W (Unit {0})
  sentenced inner none = inner
  sentenced inner (some faults) =
      handle_invalid_message options envelope_in (invalid_action options envelope_in) faults

  around-after_validator :
      (inner : Exec Error W (Unit {0})) (x : Result Error ValidationResult × W)
      → around inner (after_validator options envelope_in x)
        ≡ resume (resume x (λ result v. (ok (faults_of result), v))) (sentenced inner)
  unfolding around after_validator
  around-after_validator inner (err e, w) = refl
  around-after_validator inner (ok result, w) = elim (Bool-cases result.valid) [
    | inl valid ↦ rw valid
    | inr invalid ↦ rw invalid
  ]

  around-run_validator :
      (inner : Exec Error W (Unit {0})) (v : Option (Message B → Exec Error W ValidationResult))
      (w : W)
      → around inner (run_validator options envelope_in v w)
        ≡ resume (verdict v w) (sentenced inner)
  unfolding around run_validator
  around-run_validator inner none w = elim (Bool-cases (options.strict_mode <?> false)) [
    | inl strict ↦ rw strict
    | inr lax ↦ rw lax
  ]
  around-run_validator inner (some validator) w =
      around-after_validator inner (validator (envelope_in w).payload w)

  after_validator-CallsOnce :
      (x : Result Error ValidationResult × W) → CallsOnce (after_validator options envelope_in x)
  unfolding after_validator
  after_validator-CallsOnce (err e, w) = tt
  after_validator-CallsOnce (ok result, w) = elim (Bool-cases result.valid) [
    | inl valid ↦ rw valid (λ _ _. tt)
    | inr invalid ↦ rw invalid tt
  ]

  run_validator-CallsOnce :
      (v : Option (Message B → Exec Error W ValidationResult)) (w : W)
      → CallsOnce (run_validator options envelope_in v w)
  unfolding run_validator
  run_validator-CallsOnce none w = elim (Bool-cases (options.strict_mode <?> false)) [
    | inl strict ↦ rw strict tt
    | inr lax ↦ rw lax (λ _ _. tt)
  ]
  run_validator-CallsOnce (some validator) w =
      after_validator-CallsOnce (validator (envelope_in w).payload w)

  validation-CallsOnce : (w : W) → CallsOnce (validation_middleware options envelope_in w)
  unfolding validation_middleware
  validation-CallsOnce w =
      elim (Bool-cases (includes (options.exclude_types <?> []) (envelope_in w).type)) [
        | inl out ↦ rw out (λ _ _. tt)
        | inr included ↦
            rw included
              (run_validator-CallsOnce (Dict.get (envelope_in w).type options.validators) w)
      ]

  -- A message of a type that is not excluded reaches the rest of the pipeline, where each later
  -- middleware calls next at most once, exactly if it has no validator and the mode is not strict,
  -- or its validator accepts it; otherwise the configured action gets its faults, and an error that
  -- the validator throws is thrown.
  pub execute-verdict :
      (rest : List (Middleware W)) (core : Exec Error W (Unit {0})) (w : W)
      → All (λ m. (v : W) → CallsOnce (m v)) rest
      → includes (options.exclude_types <?> []) (envelope_in w).type ≡ false
      → execute (validation_middleware options envelope_in ∷ rest) core w
        ≡ resume
            (verdict (Dict.get (envelope_in w).type options.validators) w)
            (sentenced (execute rest core))
  unfolding validation_middleware onion
  execute-verdict rest core w once included =
      execute-onion (validation_middleware options envelope_in ∷ rest) core w
        (validation-CallsOnce, once)
      ∙ rw included (
          around-run_validator (onion rest core) (Dict.get (envelope_in w).type options.validators)
            w)
      ∙ ap
          (λ inner.
            resume (verdict (Dict.get (envelope_in w).type options.validators) w) (sentenced inner))
          (sym (fun_ext (λ v. execute-onion rest core v once)))
