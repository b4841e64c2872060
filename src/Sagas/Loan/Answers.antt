-- ===== src/Sagas/Loan/Answers.antt =====
-- Every message to the saga of packages/examples-shared/src/sagas/LoanApplicationSaga.ts is answered.
use saga_bus.Sagas.Loan.Returning.Screening.{
  on_submitted-Returns, on_identity_verified-Returns, on_identity_verification_failed-Returns,
  on_credit_check_completed-Returns, on_credit_check_failed-Returns, on_employment_verified-Returns,
  on_employment_verification_failed-Returns,
}
use saga_bus.Sagas.Loan.Returning.Documents.{
  on_documents_received-Returns, on_documents_verified-Returns,
  on_document_verification_failed-Returns, on_appraisal_completed-Returns,
  on_appraisal_failed-Returns,
}
use saga_bus.Sagas.Loan.Returning.Decisions.{
  on_underwriting_approved-Returns, on_underwriting_denied-Returns,
  on_underwriting_pending_review-Returns, on_loan_approved-Returns, on_loan_offer_accepted-Returns,
  on_loan_offer_declined-Returns, on_loan_offer_expired-Returns, on_disbursement_completed-Returns,
  on_disbursement_failed-Returns, on_application_cancelled-Returns,
}
use saga_bus.Sagas.Loan.Returning.{IsQuiet}
use saga_bus.Context.{Context}
use saga_bus.Interfaces.{Env}
use saga_bus.Prelude.Exec.{Returns}
use saga_bus.Sagas.Loan.Turn.{guarded, handle-turn, saga, turn}
use saga_bus.Sagas.Loan.Messages.{
  sent, loan_application_submitted, identity_verified, identity_verification_failed,
  credit_check_completed, credit_check_failed, employment_verified, employment_verification_failed,
  documents_received, documents_verified, document_verification_failed, appraisal_completed,
  appraisal_failed, underwriting_approved, underwriting_denied, underwriting_pending_review,
  loan_approved, loan_offer_accepted, loan_offer_declined, loan_offer_expired,
  disbursement_completed, disbursement_failed, application_cancelled,
}
use saga_bus.Dsl.{handle}
use saga_bus.Sagas.Loan.Machine.{in_status, in_either, in_progress}
use saga_bus.Sagas.Loan.Soundness.{is_status-eq}
use saga_bus.Prelude.Exec.{Returns-ok, ok}
use saga_bus.State.{HandlerResult}
use saga_bus.Sagas.Loan.Application.{Application}
use saga_bus.Sagas.Loan.Handlers.Screening.{
  on_submitted, on_identity_verified, on_identity_verification_failed, on_credit_check_completed,
  on_credit_check_failed,
}
use saga_bus.Sagas.Loan.Handlers.Employment.{
  on_employment_verified, on_employment_verification_failed,
}
use saga_bus.Sagas.Loan.Handlers.Documents.{
  on_documents_received, on_documents_verified, on_document_verification_failed,
  on_appraisal_completed, on_appraisal_failed,
}
use saga_bus.Sagas.Loan.Handlers.Decisions.{
  on_underwriting_approved, on_underwriting_denied, on_underwriting_pending_review,
  on_loan_approved, on_loan_offer_accepted, on_loan_offer_declined, on_loan_offer_expired,
  on_disbursement_completed, on_disbursement_failed, on_application_cancelled,
}
use saga_bus.Sagas.Loan.Messages.{LoanMessage}
use saga_bus.Sagas.Loan.Progress.{IsSound}
use saga_bus.Sagas.Loan.Status.{Status}
use saga_bus.Sagas.Loan.Steps.{Handled, Host, Loaned}
use saga_bus.Prelude.{◌≡◌, refl, ap, ◌∙◌, Bool, true, false}

module _ {N V T : Type 0} (host : Host N T) (ctx : Context (LoanMessage N) V) (env : Env T)
    (quiet : IsQuiet host ctx) where
  guarded-Returns :
      (b : Bool) (handler : Handled N V T) (x : Loaned N)
      → (b ≡ true → Returns (handler (ctx, env)))
      → Returns (guarded host b handler x (ctx, env))
  unfolding guarded
  guarded-Returns true handler x h = h refl
  guarded-Returns false handler x h = tt

  turn-Returns :
      (m : LoanMessage N) (x : Loaned N) → IsSound x.fields → Returns (turn host m x (ctx, env))
  unfolding turn
  turn-Returns (loan_application_submitted msg) x sound =
      guarded-Returns (in_status Status.submitted x) (on_submitted host msg x) x
        (λ go. on_submitted-Returns host ctx env quiet msg x)
  turn-Returns (identity_verified msg) x sound =
      guarded-Returns (in_status Status.identity_verification_pending x)
        (on_identity_verified host msg x) x
        (λ go. on_identity_verified-Returns host ctx env quiet msg x)
  turn-Returns (identity_verification_failed msg) x sound =
      guarded-Returns (in_status Status.identity_verification_pending x)
        (on_identity_verification_failed host msg x) x
        (λ go. on_identity_verification_failed-Returns host ctx env quiet msg x)
  turn-Returns (credit_check_completed msg) x sound =
      guarded-Returns (in_status Status.credit_check_pending x)
        (on_credit_check_completed host msg x) x
        (λ go. on_credit_check_completed-Returns host ctx env quiet msg x)
  turn-Returns (credit_check_failed msg) x sound =
      guarded-Returns (in_status Status.credit_check_pending x) (on_credit_check_failed host msg x)
        x (λ go. on_credit_check_failed-Returns host ctx env quiet msg x)
  turn-Returns (employment_verified msg) x sound =
      guarded-Returns (in_status Status.employment_verification_pending x)
        (on_employment_verified host msg x) x
        (λ go. on_employment_verified-Returns host ctx env quiet msg x)
  turn-Returns (employment_verification_failed msg) x sound =
      guarded-Returns (in_status Status.employment_verification_pending x)
        (on_employment_verification_failed host msg x) x
        (λ go. on_employment_verification_failed-Returns host ctx env quiet msg x)
  turn-Returns (documents_received msg) x sound =
      guarded-Returns (in_status Status.documents_requested x) (on_documents_received host msg x) x
        (λ go. on_documents_received-Returns host ctx env quiet msg x)
  turn-Returns (documents_verified msg) x sound =
      guarded-Returns (in_status Status.documents_received x) (on_documents_verified host msg x) x
        (λ go. on_documents_verified-Returns host ctx env quiet msg x)
  turn-Returns (document_verification_failed msg) x sound =
      guarded-Returns (in_either Status.documents_received Status.documents_verification_failed x)
        (on_document_verification_failed host msg x) x
        (λ go. on_document_verification_failed-Returns host ctx env quiet msg x)
  turn-Returns (appraisal_completed msg) x sound =
      guarded-Returns (in_status Status.appraisal_pending x) (on_appraisal_completed host msg x) x
        (λ go. on_appraisal_completed-Returns host ctx env quiet msg x)
  turn-Returns (appraisal_failed msg) x sound =
      guarded-Returns (in_status Status.appraisal_pending x) (on_appraisal_failed host msg x) x
        (λ go. on_appraisal_failed-Returns host ctx env quiet msg x)
  turn-Returns (underwriting_approved msg) x sound =
      guarded-Returns (in_either Status.underwriting_pending Status.underwriting_review x)
        (on_underwriting_approved host msg x) x
        (λ go. on_underwriting_approved-Returns host ctx env quiet msg x)
  turn-Returns (underwriting_denied msg) x sound =
      guarded-Returns (in_either Status.underwriting_pending Status.underwriting_review x)
        (on_underwriting_denied host msg x) x
        (λ go. on_underwriting_denied-Returns host ctx env quiet msg x)
  turn-Returns (underwriting_pending_review msg) x sound =
      guarded-Returns (in_status Status.underwriting_pending x)
        (on_underwriting_pending_review host msg x) x
        (λ go. on_underwriting_pending_review-Returns host ctx env quiet msg x)
  turn-Returns (loan_approved msg) x sound =
      guarded-Returns (in_status Status.approved x) (on_loan_approved host msg x) x
        (λ go. on_loan_approved-Returns host ctx env quiet msg x)
  turn-Returns (loan_offer_accepted msg) x sound =
      guarded-Returns (in_status Status.offer_sent x) (on_loan_offer_accepted host msg x) x
        (λ go. on_loan_offer_accepted-Returns host ctx env quiet msg x sound (is_status-eq _ _ go))
  turn-Returns (loan_offer_declined msg) x sound =
      guarded-Returns (in_status Status.offer_sent x) (on_loan_offer_declined host msg x) x
        (λ go. on_loan_offer_declined-Returns host ctx env quiet msg x)
  turn-Returns (loan_offer_expired msg) x sound =
      guarded-Returns (in_status Status.offer_sent x) (on_loan_offer_expired host msg x) x
        (λ go. on_loan_offer_expired-Returns host ctx env quiet msg x)
  turn-Returns (disbursement_completed msg) x sound =
      guarded-Returns (in_status Status.disbursement_pending x)
        (on_disbursement_completed host msg x) x
        (λ go. on_disbursement_completed-Returns host ctx env quiet msg x)
  turn-Returns (disbursement_failed msg) x sound =
      guarded-Returns (in_status Status.disbursement_pending x) (on_disbursement_failed host msg x)
        x (λ go. on_disbursement_failed-Returns host ctx env quiet msg x)
  turn-Returns (application_cancelled msg) x sound =
      guarded-Returns (in_progress x) (on_application_cancelled host msg x) x
        (λ go. on_application_cancelled-Returns host ctx env quiet msg x)
  turn-Returns _ x sound = tt

  -- On a sound application, the saga returns a result for every message, if the transport takes what
  -- it publishes and 7 days are in the bounds of a timeout: no handler throws of its own.
  pub handle-Returns :
      (m : LoanMessage N) (x : Loaned N)
      → IsSound x.fields
      → (r : HandlerResult (Application N)) × ((handle (saga host) (sent m) x (ctx, env)).0 ≡ ok r)
  handle-Returns m x sound =
      let (r, returned) = Returns-ok (turn host m x (ctx, env)) (turn-Returns m x sound) in
      (r, ap (λ f. (f (ctx, env)).0) (handle-turn host m x) ∙ returned)
