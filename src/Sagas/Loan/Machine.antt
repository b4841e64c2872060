-- ===== src/Sagas/Loan/Machine.antt =====
-- packages/examples-shared/src/sagas/LoanApplicationSaga.ts: the chain of builder calls.
use saga_bus.Sagas.Loan.Kinds.{
  taking, as_loan_application_submitted, as_identity_verified, as_identity_verification_failed,
  as_credit_check_completed, as_credit_check_failed, as_employment_verified,
  as_employment_verification_failed, as_documents_received, as_documents_verified,
  as_document_verification_failed, as_appraisal_completed, as_appraisal_failed,
  as_underwriting_approved, as_underwriting_denied, as_underwriting_pending_review,
  as_loan_approved, as_loan_offer_accepted, as_loan_offer_declined, as_loan_offer_expired,
  as_disbursement_completed, as_disbursement_failed, as_application_cancelled,
}
use saga_bus.Sagas.Loan.Start.{start_from}
use saga_bus.Dsl.{
  Builder, Definition, Guard, build, correlate, create_saga_machine, handle_with, initial, named,
  on, when,
}
use saga_bus.Errors.{Error}
use saga_bus.Messages.{Message, timeout_expired, user}
use saga_bus.Sagas.Loan.Application.{Application}
use saga_bus.Sagas.Loan.Messages.{LoanMessage, application_id_of}
use saga_bus.Sagas.Loan.Handlers.Screening.{
  on_submitted, on_identity_verified, on_identity_verification_failed, on_credit_check_completed,
  on_credit_check_failed,
}
use saga_bus.Sagas.Loan.Handlers.Employment.{
  on_employment_verified, on_employment_verification_failed,
}
use saga_bus.Sagas.Loan.Handlers.Documents.{
  on_documents_received, on_documents_verified, on_document_verification_failed,
  on_appraisal_completed, on_appraisal_failed,
}
use saga_bus.Sagas.Loan.Handlers.Decisions.{
  on_underwriting_approved, on_underwriting_denied, on_underwriting_pending_review,
  on_loan_approved, on_loan_offer_accepted, on_loan_offer_declined, on_loan_offer_expired,
  on_disbursement_completed, on_disbursement_failed, on_application_cancelled,
}
use saga_bus.Sagas.Loan.Status.{Status, is_status}
use saga_bus.Sagas.Loan.Steps.{Host}
use saga_bus.Prelude.{String, true, not, ◌&&◌, ◌||◌, Option, none, some}
use saga_bus.Prelude.Exec.{Result}

-- The method call `x.f()`
infixl 4 ◌|>◌
abbrev ◌|>◌ {ℓ} : {A B : Type ℓ} → A → (A → B) → B
◌|>◌ x f = f x

-- A guard that names the statuses in which a handler runs
abbrev pub in_status : {N : Type 0} → Status → Guard (Application N)
in_status status state = is_status state.fields.status status

abbrev pub in_either : {N : Type 0} → Status → Status → Guard (Application N)
in_either status status' state =
    is_status state.fields.status status || is_status state.fields.status status'

-- The guard of "ApplicationCancelled"
abbrev pub in_progress : {N : Type 0} → Guard (Application N)
in_progress state =
    not (is_status state.fields.status Status.completed)
    && not (is_status state.fields.status Status.cancelled)
    && not (is_status state.fields.status Status.denied)
    && not (is_status state.fields.status Status.offer_declined)
    && not (is_status state.fields.status Status.offer_expired)

-- msg.applicationId, which a timeout message does not have
abbrev pub application_id : {N : Type 0} → Message (LoanMessage N) → Option String
application_id (user t m) = some (application_id_of m)
application_id (timeout_expired e) = none

module _ {N V T : Type 0} (host : Host N T) where
  unfoldable pub loan_builder : Builder (LoanMessage N) (Application N) V T
  unfolding create_saga_machine named correlate initial handle_with on when start_from
      application_id_of
  loan_builder =
      create_saga_machine
      |> named "LoanApplicationSaga"
      |> correlate "LoanApplicationSubmitted" application_id (some true)
      |> correlate "*" application_id none
      |> initial (start_from host)
      |> handle_with (when (in_status Status.submitted) (on "LoanApplicationSubmitted"))
          (taking as_loan_application_submitted (on_submitted host))
      |> handle_with (when (in_status Status.identity_verification_pending) (on "IdentityVerified"))
          (taking as_identity_verified (on_identity_verified host))
      |> handle_with
          (when (in_status Status.identity_verification_pending) (on "IdentityVerificationFailed"))
          (taking as_identity_verification_failed (on_identity_verification_failed host))
      |> handle_with (when (in_status Status.credit_check_pending) (on "CreditCheckCompleted"))
          (taking as_credit_check_completed (on_credit_check_completed host))
      |> handle_with (when (in_status Status.credit_check_pending) (on "CreditCheckFailed"))
          (taking as_credit_check_failed (on_credit_check_failed host))
      |> handle_with
          (when (in_status Status.employment_verification_pending) (on "EmploymentVerified"))
          (taking as_employment_verified (on_employment_verified host))
      |> handle_with
          (when (in_status Status.employment_verification_pending)
            (on "EmploymentVerificationFailed"))
          (taking as_employment_verification_failed (on_employment_verification_failed host))
      |> handle_with (when (in_status Status.documents_requested) (on "DocumentsReceived"))
          (taking as_documents_received (on_documents_received host))
      |> handle_with (when (in_status Status.documents_received) (on "DocumentsVerified"))
          (taking as_documents_verified (on_documents_verified host))
      |> handle_with
          (when (in_either Status.documents_received Status.documents_verification_failed)
            (on "DocumentVerificationFailed"))
          (taking as_document_verification_failed (on_document_verification_failed host))
      |> handle_with (when (in_status Status.appraisal_pending) (on "AppraisalCompleted"))
          (taking as_appraisal_completed (on_appraisal_completed host))
      |> handle_with (when (in_status Status.appraisal_pending) (on "AppraisalFailed"))
          (taking as_appraisal_failed (on_appraisal_failed host))
      |> handle_with
          (when (in_either Status.underwriting_pending Status.underwriting_review)
            (on "UnderwritingApproved"))
          (taking as_underwriting_approved (on_underwriting_approved host))
      |> handle_with
          (when (in_either Status.underwriting_pending Status.underwriting_review)
            (on "UnderwritingDenied"))
          (taking as_underwriting_denied (on_underwriting_denied host))
      |> handle_with (when (in_status Status.underwriting_pending) (on "UnderwritingPendingReview"))
          (taking as_underwriting_pending_review (on_underwriting_pending_review host))
      |> handle_with (when (in_status Status.approved) (on "LoanApproved"))
          (taking as_loan_approved (on_loan_approved host))
      |> handle_with (when (in_status Status.offer_sent) (on "LoanOfferAccepted"))
          (taking as_loan_offer_accepted (on_loan_offer_accepted host))
      |> handle_with (when (in_status Status.offer_sent) (on "LoanOfferDeclined"))
          (taking as_loan_offer_declined (on_loan_offer_declined host))
      |> handle_with (when (in_status Status.offer_sent) (on "LoanOfferExpired"))
          (taking as_loan_offer_expired (on_loan_offer_expired host))
      |> handle_with (when (in_status Status.disbursement_pending) (on "DisbursementCompleted"))
          (taking as_disbursement_completed (on_disbursement_completed host))
      |> handle_with (when (in_status Status.disbursement_pending) (on "DisbursementFailed"))
          (taking as_disbursement_failed (on_disbursement_failed host))
      |> handle_with (when in_progress (on "ApplicationCancelled"))
          (taking as_application_cancelled (on_application_cancelled host))

  -- .build()
  unfoldable pub loan_definition : Result Error (Definition (LoanMessage N) (Application N) V T)
  unfolding build loan_builder
  loan_definition = build loan_builder
