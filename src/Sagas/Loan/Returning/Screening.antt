-- ===== src/Sagas/Loan/Returning/Screening.antt =====
-- The handlers of packages/examples-shared/src/sagas/LoanApplicationSaga.ts for the screening return.
use saga_bus.Sagas.Loan.Returning.{
  IsQuiet, publish-Returns, set-Returns, going-Returns, ending-Returns,
}
use saga_bus.Context.{Context, publish, send}
use saga_bus.Interfaces.{Env}
use saga_bus.Prelude.Exec.{Returns, Returns-resume}
use saga_bus.Context.{set_timeout}
use saga_bus.Prelude.Int.{pos}
use saga_bus.Sagas.Loan.Handlers.Screening.{
  cancel_for, on_submitted, on_identity_verified, on_identity_verification_failed, deny_credit,
  ask_employer, ask_documents, is_employed, on_credit_check_completed, on_credit_check_failed,
}
use saga_bus.Sagas.Loan.Handlers.Employment.{
  on_employment_verified, on_employment_verification_failed,
}
use saga_bus.Sagas.Loan.Messages.{LoanMessage}
use saga_bus.Sagas.Loan.Messages.Checks.{
  LoanApplicationSubmitted, IdentityVerified, IdentityVerificationFailed, CreditCheckCompleted,
  CreditCheckFailed, EmploymentVerified, EmploymentVerificationFailed,
}
use saga_bus.Sagas.Loan.Platform.{iso_now}
use saga_bus.Sagas.Loan.Status.{Status}
use saga_bus.Sagas.Loan.Steps.{Host, Loaned, publish_loan}
use saga_bus.Prelude.{◌*◌, String, Bool-cases, inl, inr, ◌&&◌, truthy, ◌<?>◌}

module _ {N V T : Type 0} (host : Host N T) (ctx : Context (LoanMessage N) V) (env : Env T)
    (quiet : IsQuiet host ctx) where
  pub on_submitted-Returns :
      (msg : LoanApplicationSubmitted N) (x : Loaned N)
      → Returns (on_submitted host msg x (ctx, env))
  unfolding on_submitted publish send
  on_submitted-Returns msg x =
      Returns-resume (publish_loan host _ (ctx, env)) _ (publish-Returns host ctx env quiet _ env)
        (λ u.
          Returns-resume (set_timeout host.platform (pos (7 * 24 * 60 * 60 * 1000)) (ctx, _)) _
            (set-Returns host ctx env quiet _) (λ v. going-Returns host x _ _ _ _))

  pub on_identity_verified-Returns :
      (msg : IdentityVerified N) (x : Loaned N)
      → Returns (on_identity_verified host msg x (ctx, env))
  unfolding on_identity_verified iso_now
  on_identity_verified-Returns msg x =
      Returns-resume (publish_loan host _ (ctx, _)) _ (publish-Returns host ctx env quiet _ _)
        (λ u. going-Returns host x _ _ _ _)

  pub cancel_for-Returns :
      (id told : String) (failed : Status) (why : String) (x : Loaned N)
      → Returns (cancel_for host id told failed why x (ctx, env))
  unfolding cancel_for iso_now
  cancel_for-Returns id told failed why x =
      Returns-resume (publish_loan host _ (ctx, env)) _ (publish-Returns host ctx env quiet _ _)
        (λ u. ending-Returns host x _ _ _ _)

  pub on_identity_verification_failed-Returns :
      (msg : IdentityVerificationFailed) (x : Loaned N)
      → Returns (on_identity_verification_failed host msg x (ctx, env))
  unfolding on_identity_verification_failed
  on_identity_verification_failed-Returns msg x = cancel_for-Returns _ _ _ _ x

  pub deny_credit-Returns :
      (msg : CreditCheckCompleted N) (x : Loaned N) → Returns (deny_credit host msg x (ctx, env))
  unfolding deny_credit iso_now
  deny_credit-Returns msg x =
      Returns-resume (publish_loan host _ (ctx, _)) _ (publish-Returns host ctx env quiet _ _)
        (λ u. ending-Returns host x _ _ _ _)

  pub ask_employer-Returns :
      (msg : CreditCheckCompleted N) (e : String) (x : Loaned N)
      → Returns (ask_employer host msg e x (ctx, env))
  unfolding ask_employer iso_now
  ask_employer-Returns msg e x =
      Returns-resume (publish_loan host _ (ctx, _)) _ (publish-Returns host ctx env quiet _ _)
        (λ u. going-Returns host x _ _ _ _)

  pub ask_documents-Returns :
      (msg : CreditCheckCompleted N) (x : Loaned N) → Returns (ask_documents host msg x (ctx, env))
  unfolding ask_documents iso_now
  ask_documents-Returns msg x =
      Returns-resume (publish_loan host _ (ctx, _)) _ (publish-Returns host ctx env quiet _ _)
        (λ u. going-Returns host x _ _ _ _)

  pub on_credit_check_completed-Returns :
      (msg : CreditCheckCompleted N) (x : Loaned N)
      → Returns (on_credit_check_completed host msg x (ctx, env))
  unfolding on_credit_check_completed
  on_credit_check_completed-Returns msg x =
      elim (Bool-cases (host.numbers.is_below msg.credit_score (host.numbers.literal 580))) [
        | inl low ↦ rw low (deny_credit-Returns msg x)
        | inr fine ↦
            rw fine
              (elim (Bool-cases (
                is_employed x.fields.applicant_info.employment_status
                && truthy (x.fields.applicant_info.employer_name <?> ""))) [
                  | inl asked ↦ rw asked (ask_employer-Returns msg _ x)
                  | inr skipped ↦ rw skipped (ask_documents-Returns msg x)
                ])
      ]

  pub on_credit_check_failed-Returns :
      (msg : CreditCheckFailed) (x : Loaned N)
      → Returns (on_credit_check_failed host msg x (ctx, env))
  unfolding on_credit_check_failed
  on_credit_check_failed-Returns msg x = cancel_for-Returns _ _ _ _ x

  pub on_employment_verified-Returns :
      (msg : EmploymentVerified N) (x : Loaned N)
      → Returns (on_employment_verified host msg x (ctx, env))
  unfolding on_employment_verified iso_now
  on_employment_verified-Returns msg x =
      Returns-resume (publish_loan host _ (ctx, _)) _ (publish-Returns host ctx env quiet _ _)
        (λ u. going-Returns host x _ _ _ _)

  pub on_employment_verification_failed-Returns :
      (msg : EmploymentVerificationFailed) (x : Loaned N)
      → Returns (on_employment_verification_failed host msg x (ctx, env))
  unfolding on_employment_verification_failed
  on_employment_verification_failed-Returns msg x =
      Returns-resume (publish_loan host _ (ctx, _)) _ (publish-Returns host ctx env quiet _ _)
        (λ u. going-Returns host x _ _ _ _)
