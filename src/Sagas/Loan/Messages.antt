-- ===== src/Sagas/Loan/Messages.antt =====
-- packages/examples-shared/src/messages/loan.ts: LoanMessage, the union of the messages, and the
-- fields that every message has.
pub mod Checks
pub mod Offers
use saga_bus.Sagas.Loan.Messages.Checks.{
  LoanApplicationSubmitted, IdentityVerificationRequested, IdentityVerified,
  IdentityVerificationFailed, CreditCheckRequested, CreditCheckCompleted, CreditCheckFailed,
  EmploymentVerificationRequested, EmploymentVerified, EmploymentVerificationFailed,
  DocumentsRequested, DocumentsReceived, DocumentsVerified, DocumentVerificationFailed,
}
use saga_bus.Sagas.Loan.Messages.Offers.{
  AppraisalRequested, AppraisalCompleted, AppraisalFailed, UnderwritingRequested,
  UnderwritingApproved, UnderwritingDenied, UnderwritingPendingReview, FinalApprovalRequested,
  LoanApproved, LoanOfferSent, LoanOfferAccepted, LoanOfferDeclined, LoanOfferExpired,
  DisbursementRequested, DisbursementCompleted, DisbursementFailed, ApplicationStatusUpdated,
  ApplicationCancelled, ApplicationCompleted,
}
use saga_bus.Messages.{Message, user}
use saga_bus.Prelude.{String}

pub data LoanMessage (N : Type 0) : Type 0 where
  loan_application_submitted : LoanApplicationSubmitted N → LoanMessage N
  identity_verification_requested : IdentityVerificationRequested → LoanMessage N
  identity_verified : IdentityVerified N → LoanMessage N
  identity_verification_failed : IdentityVerificationFailed → LoanMessage N
  credit_check_requested : CreditCheckRequested → LoanMessage N
  credit_check_completed : CreditCheckCompleted N → LoanMessage N
  credit_check_failed : CreditCheckFailed → LoanMessage N
  employment_verification_requested : EmploymentVerificationRequested N → LoanMessage N
  employment_verified : EmploymentVerified N → LoanMessage N
  employment_verification_failed : EmploymentVerificationFailed → LoanMessage N
  documents_requested : DocumentsRequested → LoanMessage N
  documents_received : DocumentsReceived → LoanMessage N
  documents_verified : DocumentsVerified → LoanMessage N
  document_verification_failed : DocumentVerificationFailed → LoanMessage N
  appraisal_requested : AppraisalRequested N → LoanMessage N
  appraisal_completed : AppraisalCompleted N → LoanMessage N
  appraisal_failed : AppraisalFailed → LoanMessage N
  underwriting_requested : UnderwritingRequested N → LoanMessage N
  underwriting_approved : UnderwritingApproved N → LoanMessage N
  underwriting_denied : UnderwritingDenied → LoanMessage N
  underwriting_pending_review : UnderwritingPendingReview → LoanMessage N
  final_approval_requested : FinalApprovalRequested N → LoanMessage N
  loan_approved : LoanApproved N → LoanMessage N
  loan_offer_sent : LoanOfferSent → LoanMessage N
  loan_offer_accepted : LoanOfferAccepted → LoanMessage N
  loan_offer_declined : LoanOfferDeclined → LoanMessage N
  loan_offer_expired : LoanOfferExpired → LoanMessage N
  disbursement_requested : DisbursementRequested N → LoanMessage N
  disbursement_completed : DisbursementCompleted N → LoanMessage N
  disbursement_failed : DisbursementFailed → LoanMessage N
  application_status_updated : ApplicationStatusUpdated → LoanMessage N
  application_cancelled : ApplicationCancelled → LoanMessage N
  application_completed : ApplicationCompleted → LoanMessage N

-- The `type` of a message
unfoldable pub loan_type_of : {N : Type 0} → LoanMessage N → String
loan_type_of (loan_application_submitted m) = "LoanApplicationSubmitted"
loan_type_of (identity_verification_requested m) = "IdentityVerificationRequested"
loan_type_of (identity_verified m) = "IdentityVerified"
loan_type_of (identity_verification_failed m) = "IdentityVerificationFailed"
loan_type_of (credit_check_requested m) = "CreditCheckRequested"
loan_type_of (credit_check_completed m) = "CreditCheckCompleted"
loan_type_of (credit_check_failed m) = "CreditCheckFailed"
loan_type_of (employment_verification_requested m) = "EmploymentVerificationRequested"
loan_type_of (employment_verified m) = "EmploymentVerified"
loan_type_of (employment_verification_failed m) = "EmploymentVerificationFailed"
loan_type_of (documents_requested m) = "DocumentsRequested"
loan_type_of (documents_received m) = "DocumentsReceived"
loan_type_of (documents_verified m) = "DocumentsVerified"
loan_type_of (document_verification_failed m) = "DocumentVerificationFailed"
loan_type_of (appraisal_requested m) = "AppraisalRequested"
loan_type_of (appraisal_completed m) = "AppraisalCompleted"
loan_type_of (appraisal_failed m) = "AppraisalFailed"
loan_type_of (underwriting_requested m) = "UnderwritingRequested"
loan_type_of (underwriting_approved m) = "UnderwritingApproved"
loan_type_of (underwriting_denied m) = "UnderwritingDenied"
loan_type_of (underwriting_pending_review m) = "UnderwritingPendingReview"
loan_type_of (final_approval_requested m) = "FinalApprovalRequested"
loan_type_of (loan_approved m) = "LoanApproved"
loan_type_of (loan_offer_sent m) = "LoanOfferSent"
loan_type_of (loan_offer_accepted m) = "LoanOfferAccepted"
loan_type_of (loan_offer_declined m) = "LoanOfferDeclined"
loan_type_of (loan_offer_expired m) = "LoanOfferExpired"
loan_type_of (disbursement_requested m) = "DisbursementRequested"
loan_type_of (disbursement_completed m) = "DisbursementCompleted"
loan_type_of (disbursement_failed m) = "DisbursementFailed"
loan_type_of (application_status_updated m) = "ApplicationStatusUpdated"
loan_type_of (application_cancelled m) = "ApplicationCancelled"
loan_type_of (application_completed m) = "ApplicationCompleted"

unfoldable pub application_id_of : {N : Type 0} → LoanMessage N → String
application_id_of (loan_application_submitted m) = m.application_id
application_id_of (identity_verification_requested m) = m.application_id
application_id_of (identity_verified m) = m.application_id
application_id_of (identity_verification_failed m) = m.application_id
application_id_of (credit_check_requested m) = m.application_id
application_id_of (credit_check_completed m) = m.application_id
application_id_of (credit_check_failed m) = m.application_id
application_id_of (employment_verification_requested m) = m.application_id
application_id_of (employment_verified m) = m.application_id
application_id_of (employment_verification_failed m) = m.application_id
application_id_of (documents_requested m) = m.application_id
application_id_of (documents_received m) = m.application_id
application_id_of (documents_verified m) = m.application_id
application_id_of (document_verification_failed m) = m.application_id
application_id_of (appraisal_requested m) = m.application_id
application_id_of (appraisal_completed m) = m.application_id
application_id_of (appraisal_failed m) = m.application_id
application_id_of (underwriting_requested m) = m.application_id
application_id_of (underwriting_approved m) = m.application_id
application_id_of (underwriting_denied m) = m.application_id
application_id_of (underwriting_pending_review m) = m.application_id
application_id_of (final_approval_requested m) = m.application_id
application_id_of (loan_approved m) = m.application_id
application_id_of (loan_offer_sent m) = m.application_id
application_id_of (loan_offer_accepted m) = m.application_id
application_id_of (loan_offer_declined m) = m.application_id
application_id_of (loan_offer_expired m) = m.application_id
application_id_of (disbursement_requested m) = m.application_id
application_id_of (disbursement_completed m) = m.application_id
application_id_of (disbursement_failed m) = m.application_id
application_id_of (application_status_updated m) = m.application_id
application_id_of (application_cancelled m) = m.application_id
application_id_of (application_completed m) = m.application_id

-- A loan message among the messages of the bus
unfoldable pub sent : {N : Type 0} → LoanMessage N → Message (LoanMessage N)
unfolding loan_type_of
sent m = user (loan_type_of m) m
