-- ===== src/Sagas/Loan/Flow.antt =====
-- The flow of a loan application as a relation on statuses: the guards, the statuses and the branches
-- of the handlers in packages/examples-shared/src/sagas/LoanApplicationSaga.ts. The comment at the
-- head of that file has the identity verification parallel with the credit check; the handlers do one
-- after the other.
use saga_bus.Sagas.Loan.Status.{Status}
use saga_bus.Prelude.{String, ◌≡◌, Bool, true, false}

-- The statuses that end an application
abbrev pub is_terminal : Status → Bool
is_terminal Status.completed = true
is_terminal Status.cancelled = true
is_terminal Status.denied = true
is_terminal Status.offer_declined = true
is_terminal Status.offer_expired = true
is_terminal _ = false

-- The statuses after an approval, but for a cancellation
abbrev pub is_financed : Status → Bool
is_financed Status.approved = true
is_financed Status.offer_sent = true
is_financed Status.offer_declined = true
is_financed Status.offer_expired = true
is_financed Status.disbursement_pending = true
is_financed Status.completed = true
is_financed _ = false

-- From a status, by a message of a type, to a status
pub data Flow : Status → String → Status → Type 0 where
  identify : Flow Status.submitted "LoanApplicationSubmitted" Status.identity_verification_pending
  check_credit :
      Flow Status.identity_verification_pending "IdentityVerified" Status.credit_check_pending
  no_identity :
      Flow Status.identity_verification_pending "IdentityVerificationFailed" Status.cancelled
  ask_employer :
      Flow Status.credit_check_pending "CreditCheckCompleted" Status.employment_verification_pending
  skip_employer : Flow Status.credit_check_pending "CreditCheckCompleted" Status.documents_requested
  low_score : Flow Status.credit_check_pending "CreditCheckCompleted" Status.denied
  no_credit : Flow Status.credit_check_pending "CreditCheckFailed" Status.cancelled
  employed :
      Flow Status.employment_verification_pending "EmploymentVerified" Status.documents_requested
  flagged :
      Flow Status.employment_verification_pending "EmploymentVerificationFailed"
        Status.documents_requested
  upload : Flow Status.documents_requested "DocumentsReceived" Status.documents_received
  reject : Flow Status.documents_received "DocumentsVerified" Status.documents_verification_failed
  appraise : Flow Status.documents_received "DocumentsVerified" Status.appraisal_pending
  skip_appraisal : Flow Status.documents_received "DocumentsVerified" Status.underwriting_pending
  upload_again :
      Flow Status.documents_verification_failed "DocumentVerificationFailed"
        Status.documents_requested
  refuse_documents :
      Flow Status.documents_received "DocumentVerificationFailed" Status.documents_requested
  appraised : Flow Status.appraisal_pending "AppraisalCompleted" Status.underwriting_pending
  no_appraisal : Flow Status.appraisal_pending "AppraisalFailed" Status.cancelled
  approve : Flow Status.underwriting_pending "UnderwritingApproved" Status.approved
  approve_review : Flow Status.underwriting_review "UnderwritingApproved" Status.approved
  deny : Flow Status.underwriting_pending "UnderwritingDenied" Status.denied
  deny_review : Flow Status.underwriting_review "UnderwritingDenied" Status.denied
  review : Flow Status.underwriting_pending "UnderwritingPendingReview" Status.underwriting_review
  offer : Flow Status.approved "LoanApproved" Status.offer_sent
  accept : Flow Status.offer_sent "LoanOfferAccepted" Status.disbursement_pending
  decline : Flow Status.offer_sent "LoanOfferDeclined" Status.offer_declined
  expire : Flow Status.offer_sent "LoanOfferExpired" Status.offer_expired
  disburse : Flow Status.disbursement_pending "DisbursementCompleted" Status.completed
  retry : Flow Status.disbursement_pending "DisbursementFailed" Status.disbursement_pending
  cancel : {s : Status} → is_terminal s ≡ false → Flow s "ApplicationCancelled" Status.cancelled
