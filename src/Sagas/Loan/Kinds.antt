-- ===== src/Sagas/Loan/Kinds.antt =====
-- packages/examples-shared/src/messages/loan.ts: the message of a union, by its kind. A message is what
-- its `type` says, as the type LoanMessage has it; a handler that is given another message throws.
use saga_bus.Dsl.{Handler}
use saga_bus.Errors.{other}
use saga_bus.Messages.{timeout_expired, user}
use saga_bus.Sagas.Loan.Application.{Application}
use saga_bus.Sagas.Loan.Messages.{
  LoanMessage, loan_application_submitted, identity_verified, identity_verification_failed,
  credit_check_completed, credit_check_failed, employment_verified, employment_verification_failed,
  documents_received, documents_verified, document_verification_failed, appraisal_completed,
  appraisal_failed, underwriting_approved, underwriting_denied, underwriting_pending_review,
  loan_approved, loan_offer_accepted, loan_offer_declined, loan_offer_expired,
  disbursement_completed, disbursement_failed, application_cancelled,
}
use saga_bus.Sagas.Loan.Messages.Checks.{
  LoanApplicationSubmitted, IdentityVerified, IdentityVerificationFailed, CreditCheckCompleted,
  CreditCheckFailed, EmploymentVerified, EmploymentVerificationFailed, DocumentsReceived,
  DocumentsVerified, DocumentVerificationFailed,
}
use saga_bus.Sagas.Loan.Messages.Offers.{
  AppraisalCompleted, AppraisalFailed, UnderwritingApproved, UnderwritingDenied,
  UnderwritingPendingReview, LoanApproved, LoanOfferAccepted, LoanOfferDeclined, LoanOfferExpired,
  DisbursementCompleted, DisbursementFailed, ApplicationCancelled,
}
use saga_bus.Sagas.Loan.Steps.{Handled, Loaned}
use saga_bus.Prelude.{Option, none, some}
use saga_bus.Prelude.Exec.{throw}

abbrev pub as_loan_application_submitted :
    {N : Type 0} → LoanMessage N → Option (LoanApplicationSubmitted N)
as_loan_application_submitted (loan_application_submitted m) = some m
as_loan_application_submitted _ = none

abbrev pub as_identity_verified : {N : Type 0} → LoanMessage N → Option (IdentityVerified N)
as_identity_verified (identity_verified m) = some m
as_identity_verified _ = none

abbrev pub as_identity_verification_failed :
    {N : Type 0} → LoanMessage N → Option IdentityVerificationFailed
as_identity_verification_failed (identity_verification_failed m) = some m
as_identity_verification_failed _ = none

abbrev pub as_credit_check_completed :
    {N : Type 0} → LoanMessage N → Option (CreditCheckCompleted N)
as_credit_check_completed (credit_check_completed m) = some m
as_credit_check_completed _ = none

abbrev pub as_credit_check_failed : {N : Type 0} → LoanMessage N → Option CreditCheckFailed
as_credit_check_failed (credit_check_failed m) = some m
as_credit_check_failed _ = none

abbrev pub as_employment_verified : {N : Type 0} → LoanMessage N → Option (EmploymentVerified N)
as_employment_verified (employment_verified m) = some m
as_employment_verified _ = none

abbrev pub as_employment_verification_failed :
    {N : Type 0} → LoanMessage N → Option EmploymentVerificationFailed
as_employment_verification_failed (employment_verification_failed m) = some m
as_employment_verification_failed _ = none

abbrev pub as_documents_received : {N : Type 0} → LoanMessage N → Option DocumentsReceived
as_documents_received (documents_received m) = some m
as_documents_received _ = none

abbrev pub as_documents_verified : {N : Type 0} → LoanMessage N → Option DocumentsVerified
as_documents_verified (documents_verified m) = some m
as_documents_verified _ = none

abbrev pub as_document_verification_failed :
    {N : Type 0} → LoanMessage N → Option DocumentVerificationFailed
as_document_verification_failed (document_verification_failed m) = some m
as_document_verification_failed _ = none

abbrev pub as_appraisal_completed : {N : Type 0} → LoanMessage N → Option (AppraisalCompleted N)
as_appraisal_completed (appraisal_completed m) = some m
as_appraisal_completed _ = none

abbrev pub as_appraisal_failed : {N : Type 0} → LoanMessage N → Option AppraisalFailed
as_appraisal_failed (appraisal_failed m) = some m
as_appraisal_failed _ = none

abbrev pub as_underwriting_approved : {N : Type 0} → LoanMessage N → Option (UnderwritingApproved N)
as_underwriting_approved (underwriting_approved m) = some m
as_underwriting_approved _ = none

abbrev pub as_underwriting_denied : {N : Type 0} → LoanMessage N → Option UnderwritingDenied
as_underwriting_denied (underwriting_denied m) = some m
as_underwriting_denied _ = none

abbrev pub as_underwriting_pending_review :
    {N : Type 0} → LoanMessage N → Option UnderwritingPendingReview
as_underwriting_pending_review (underwriting_pending_review m) = some m
as_underwriting_pending_review _ = none

abbrev pub as_loan_approved : {N : Type 0} → LoanMessage N → Option (LoanApproved N)
as_loan_approved (loan_approved m) = some m
as_loan_approved _ = none

abbrev pub as_loan_offer_accepted : {N : Type 0} → LoanMessage N → Option LoanOfferAccepted
as_loan_offer_accepted (loan_offer_accepted m) = some m
as_loan_offer_accepted _ = none

abbrev pub as_loan_offer_declined : {N : Type 0} → LoanMessage N → Option LoanOfferDeclined
as_loan_offer_declined (loan_offer_declined m) = some m
as_loan_offer_declined _ = none

abbrev pub as_loan_offer_expired : {N : Type 0} → LoanMessage N → Option LoanOfferExpired
as_loan_offer_expired (loan_offer_expired m) = some m
as_loan_offer_expired _ = none

abbrev pub as_disbursement_completed :
    {N : Type 0} → LoanMessage N → Option (DisbursementCompleted N)
as_disbursement_completed (disbursement_completed m) = some m
as_disbursement_completed _ = none

abbrev pub as_disbursement_failed : {N : Type 0} → LoanMessage N → Option DisbursementFailed
as_disbursement_failed (disbursement_failed m) = some m
as_disbursement_failed _ = none

abbrev pub as_application_cancelled : {N : Type 0} → LoanMessage N → Option ApplicationCancelled
as_application_cancelled (application_cancelled m) = some m
as_application_cancelled _ = none

-- A handler of messages of one type
abbrev pub taking :
    {N V T M : Type 0}
    → (LoanMessage N → Option M)
    → (M → Loaned N → Handled N V T)
    → Handler (LoanMessage N) (Application N) V T
taking pick handler (timeout_expired e) state = throw (other "TypeError" "not the message's type")
taking pick handler (user t m) state = elim (pick m) [
  | none ↦ throw (other "TypeError" "not the message's type")
  | some msg ↦ handler msg state
]
