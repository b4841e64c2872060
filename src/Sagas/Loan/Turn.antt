-- ===== src/Sagas/Loan/Turn.antt =====
-- Which handler of the loan saga a message runs: SagaDefinitionImpl.handle on the definition that
-- packages/examples-shared/src/sagas/LoanApplicationSaga.ts builds.
use saga_bus.Sagas.Loan.Kinds.{
  taking, as_loan_application_submitted, as_identity_verified, as_identity_verification_failed,
  as_credit_check_completed, as_credit_check_failed, as_employment_verified,
  as_employment_verification_failed, as_documents_received, as_documents_verified,
  as_document_verification_failed, as_appraisal_completed, as_appraisal_failed,
  as_underwriting_approved, as_underwriting_denied, as_underwriting_pending_review,
  as_loan_approved, as_loan_offer_accepted, as_loan_offer_declined, as_loan_offer_expired,
  as_disbursement_completed, as_disbursement_failed, as_application_cancelled,
}
use saga_bus.Prelude.Dict
use saga_bus.Dsl.{
  Guard, Handler, admits, passes, Definition, build, definition_of, handle, has_starting, run_first,
}
use saga_bus.Messages.{Message}
use saga_bus.Sagas.Loan.Application.{Application}
use saga_bus.Sagas.Loan.Handlers.Screening.{
  on_submitted, on_identity_verified, on_identity_verification_failed, on_credit_check_completed,
  on_credit_check_failed,
}
use saga_bus.Sagas.Loan.Handlers.Employment.{
  on_employment_verified, on_employment_verification_failed,
}
use saga_bus.Sagas.Loan.Handlers.Documents.{
  on_documents_received, on_documents_verified, on_document_verification_failed,
  on_appraisal_completed, on_appraisal_failed,
}
use saga_bus.Sagas.Loan.Handlers.Decisions.{
  on_underwriting_approved, on_underwriting_denied, on_underwriting_pending_review,
  on_loan_approved, on_loan_offer_accepted, on_loan_offer_declined, on_loan_offer_expired,
  on_disbursement_completed, on_disbursement_failed, on_application_cancelled,
}
use saga_bus.Sagas.Loan.Machine.{in_either, in_progress, in_status, loan_builder, loan_definition}
use saga_bus.Sagas.Loan.Messages.{
  LoanMessage, sent, loan_type_of, loan_application_submitted, identity_verified,
  identity_verification_failed, credit_check_completed, credit_check_failed, employment_verified,
  employment_verification_failed, documents_received, documents_verified,
  document_verification_failed, appraisal_completed, appraisal_failed, underwriting_approved,
  underwriting_denied, underwriting_pending_review, loan_approved, loan_offer_accepted,
  loan_offer_declined, loan_offer_expired, disbursement_completed, disbursement_failed,
  application_cancelled,
}
use saga_bus.Sagas.Loan.Status.{Status}
use saga_bus.Sagas.Loan.Steps.{Handled, Host, Loaned}
use saga_bus.Prelude.{
  inl, inr, Bool-cases, first, String, [], ◌∷◌, ◌≡◌, refl, Bool, none, some, if◌then◌else◌,
}
use saga_bus.Prelude.Exec.{ok, pure}

module _ {N V T : Type 0} (host : Host N T) where
  unfoldable pub saga : Definition (LoanMessage N) (Application N) V T
  unfolding definition_of loan_builder
  saga = definition_of "LoanApplicationSaga" (loan_builder host)

  pub loan_definition-saga : loan_definition {V = V} host ≡ ok saga
  unfolding loan_definition build saga definition_of loan_builder has_starting Dict.set
  loan_definition-saga = refl

  -- A message in a state that its handler does not take leaves the state as it is.
  unfoldable pub guarded : Bool → Handled N V T → Loaned N → Handled N V T
  guarded b handler x = if b then handler else pure (record { new_state = x; is_completed = none })

  unfoldable pub turn : LoanMessage N → Loaned N → Handled N V T
  unfolding guarded
  turn (loan_application_submitted m) x =
      guarded (in_status Status.submitted x) (on_submitted host m x) x
  turn (identity_verified m) x =
      guarded (in_status Status.identity_verification_pending x) (on_identity_verified host m x) x
  turn (identity_verification_failed m) x =
      guarded (in_status Status.identity_verification_pending x)
        (on_identity_verification_failed host m x) x
  turn (credit_check_completed m) x =
      guarded (in_status Status.credit_check_pending x) (on_credit_check_completed host m x) x
  turn (credit_check_failed m) x =
      guarded (in_status Status.credit_check_pending x) (on_credit_check_failed host m x) x
  turn (employment_verified m) x =
      guarded (in_status Status.employment_verification_pending x) (on_employment_verified host m x)
        x
  turn (employment_verification_failed m) x =
      guarded (in_status Status.employment_verification_pending x)
        (on_employment_verification_failed host m x) x
  turn (documents_received m) x =
      guarded (in_status Status.documents_requested x) (on_documents_received host m x) x
  turn (documents_verified m) x =
      guarded (in_status Status.documents_received x) (on_documents_verified host m x) x
  turn (document_verification_failed m) x =
      guarded (in_either Status.documents_received Status.documents_verification_failed x)
        (on_document_verification_failed host m x) x
  turn (appraisal_completed m) x =
      guarded (in_status Status.appraisal_pending x) (on_appraisal_completed host m x) x
  turn (appraisal_failed m) x =
      guarded (in_status Status.appraisal_pending x) (on_appraisal_failed host m x) x
  turn (underwriting_approved m) x =
      guarded (in_either Status.underwriting_pending Status.underwriting_review x)
        (on_underwriting_approved host m x) x
  turn (underwriting_denied m) x =
      guarded (in_either Status.underwriting_pending Status.underwriting_review x)
        (on_underwriting_denied host m x) x
  turn (underwriting_pending_review m) x =
      guarded (in_status Status.underwriting_pending x) (on_underwriting_pending_review host m x) x
  turn (loan_approved m) x = guarded (in_status Status.approved x) (on_loan_approved host m x) x
  turn (loan_offer_accepted m) x =
      guarded (in_status Status.offer_sent x) (on_loan_offer_accepted host m x) x
  turn (loan_offer_declined m) x =
      guarded (in_status Status.offer_sent x) (on_loan_offer_declined host m x) x
  turn (loan_offer_expired m) x =
      guarded (in_status Status.offer_sent x) (on_loan_offer_expired host m x) x
  turn (disbursement_completed m) x =
      guarded (in_status Status.disbursement_pending x) (on_disbursement_completed host m x) x
  turn (disbursement_failed m) x =
      guarded (in_status Status.disbursement_pending x) (on_disbursement_failed host m x) x
  turn (application_cancelled m) x = guarded (in_progress x) (on_application_cancelled host m x) x
  turn _ x = pure (record { new_state = x; is_completed = none })

  -- A list of one registration
  registered :
      (t : String) (g : Guard (Application N))
      (handler : Handler (LoanMessage N) (Application N) V T) (m : Message (LoanMessage N))
      (x : Loaned N)
      → run_first
          (first (admits x) (record { message_type = t; guard = some g; handler = handler } ∷ []))
          m
          x
        ≡ guarded (g x) (handler m x) x
  unfolding run_first admits passes guarded
  registered t g handler m x = elim (Bool-cases (g x)) [
    | inl taken ↦ rw taken
    | inr passed ↦ rw passed
  ]

  -- The saga runs the one handler of the message, if its guard takes the state.
  pub handle-turn : (m : LoanMessage N) (x : Loaned N) → handle saga (sent m) x ≡ turn m x
  unfolding handle saga turn definition_of loan_builder sent loan_type_of Dict.set Dict.get
  handle-turn (loan_application_submitted m) x =
      registered "LoanApplicationSubmitted" (in_status Status.submitted)
        (taking as_loan_application_submitted (on_submitted host))
        (sent (loan_application_submitted m)) x
  handle-turn (identity_verified m) x =
      registered "IdentityVerified" (in_status Status.identity_verification_pending)
        (taking as_identity_verified (on_identity_verified host)) (sent (identity_verified m)) x
  handle-turn (identity_verification_failed m) x =
      registered "IdentityVerificationFailed" (in_status Status.identity_verification_pending)
        (taking as_identity_verification_failed (on_identity_verification_failed host))
        (sent (identity_verification_failed m)) x
  handle-turn (credit_check_completed m) x =
      registered "CreditCheckCompleted" (in_status Status.credit_check_pending)
        (taking as_credit_check_completed (on_credit_check_completed host))
        (sent (credit_check_completed m)) x
  handle-turn (credit_check_failed m) x =
      registered "CreditCheckFailed" (in_status Status.credit_check_pending)
        (taking as_credit_check_failed (on_credit_check_failed host)) (sent (credit_check_failed m))
        x
  handle-turn (employment_verified m) x =
      registered "EmploymentVerified" (in_status Status.employment_verification_pending)
        (taking as_employment_verified (on_employment_verified host)) (sent (employment_verified m))
        x
  handle-turn (employment_verification_failed m) x =
      registered "EmploymentVerificationFailed" (in_status Status.employment_verification_pending)
        (taking as_employment_verification_failed (on_employment_verification_failed host))
        (sent (employment_verification_failed m)) x
  handle-turn (documents_received m) x =
      registered "DocumentsReceived" (in_status Status.documents_requested)
        (taking as_documents_received (on_documents_received host)) (sent (documents_received m)) x
  handle-turn (documents_verified m) x =
      registered "DocumentsVerified" (in_status Status.documents_received)
        (taking as_documents_verified (on_documents_verified host)) (sent (documents_verified m)) x
  handle-turn (document_verification_failed m) x =
      registered "DocumentVerificationFailed"
        (in_either Status.documents_received Status.documents_verification_failed)
        (taking as_document_verification_failed (on_document_verification_failed host))
        (sent (document_verification_failed m)) x
  handle-turn (appraisal_completed m) x =
      registered "AppraisalCompleted" (in_status Status.appraisal_pending)
        (taking as_appraisal_completed (on_appraisal_completed host)) (sent (appraisal_completed m))
        x
  handle-turn (appraisal_failed m) x =
      registered "AppraisalFailed" (in_status Status.appraisal_pending)
        (taking as_appraisal_failed (on_appraisal_failed host)) (sent (appraisal_failed m)) x
  handle-turn (underwriting_approved m) x =
      registered "UnderwritingApproved"
        (in_either Status.underwriting_pending Status.underwriting_review)
        (taking as_underwriting_approved (on_underwriting_approved host))
        (sent (underwriting_approved m)) x
  handle-turn (underwriting_denied m) x =
      registered "UnderwritingDenied"
        (in_either Status.underwriting_pending Status.underwriting_review)
        (taking as_underwriting_denied (on_underwriting_denied host)) (sent (underwriting_denied m))
        x
  handle-turn (underwriting_pending_review m) x =
      registered "UnderwritingPendingReview" (in_status Status.underwriting_pending)
        (taking as_underwriting_pending_review (on_underwriting_pending_review host))
        (sent (underwriting_pending_review m)) x
  handle-turn (loan_approved m) x =
      registered "LoanApproved" (in_status Status.approved)
        (taking as_loan_approved (on_loan_approved host)) (sent (loan_approved m)) x
  handle-turn (loan_offer_accepted m) x =
      registered "LoanOfferAccepted" (in_status Status.offer_sent)
        (taking as_loan_offer_accepted (on_loan_offer_accepted host)) (sent (loan_offer_accepted m))
        x
  handle-turn (loan_offer_declined m) x =
      registered "LoanOfferDeclined" (in_status Status.offer_sent)
        (taking as_loan_offer_declined (on_loan_offer_declined host)) (sent (loan_offer_declined m))
        x
  handle-turn (loan_offer_expired m) x =
      registered "LoanOfferExpired" (in_status Status.offer_sent)
        (taking as_loan_offer_expired (on_loan_offer_expired host)) (sent (loan_offer_expired m)) x
  handle-turn (disbursement_completed m) x =
      registered "DisbursementCompleted" (in_status Status.disbursement_pending)
        (taking as_disbursement_completed (on_disbursement_completed host))
        (sent (disbursement_completed m)) x
  handle-turn (disbursement_failed m) x =
      registered "DisbursementFailed" (in_status Status.disbursement_pending)
        (taking as_disbursement_failed (on_disbursement_failed host)) (sent (disbursement_failed m))
        x
  handle-turn (application_cancelled m) x =
      registered "ApplicationCancelled" in_progress
        (taking as_application_cancelled (on_application_cancelled host))
        (sent (application_cancelled m)) x
  handle-turn _ x = refl
