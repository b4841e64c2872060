-- ===== src/Sagas/Loan/Application.antt =====
-- packages/examples-shared/src/types/loan.ts: LoanApplicationSagaState, without its metadata.
use saga_bus.Sagas.Loan.Status.{Status}
use saga_bus.Sagas.Loan.Types.{
  ApplicantInfo, CancelledBy, CreditHistory, Decision, DisbursementMethod, DocumentStatus,
  EmploymentType, LoanType, PropertyInfo,
}
use saga_bus.Prelude.{String, List, Option}

pub record DocumentRecord : Type 0 where
  pub document_type : String
  pub document_id : String
  pub uploaded_at : String
  pub status : DocumentStatus
  pub notes : Option String

-- An entry of statusHistory
pub record StatusEntry : Type 0 where
  pub status : Status
  pub timestamp : String
  pub reason : Option String

pub record IdentityVerification (N : Type 0) : Type 0 where
  pub verification_id : String
  pub verification_score : N
  pub matched_fields : List String
  pub verified_at : String

pub record CreditCheck (N : Type 0) : Type 0 where
  pub credit_report_id : String
  pub credit_score : N
  pub debt_to_income_ratio : N
  pub open_accounts : N
  pub negative_marks : N
  pub credit_history : CreditHistory N
  pub checked_at : String

pub record EmploymentVerification (N : Type 0) : Type 0 where
  pub verification_id : String
  pub confirmed_income : N
  pub employment_start_date : String
  pub employment_type : EmploymentType
  pub verified_at : String

pub record Appraisal (N : Type 0) : Type 0 where
  pub appraisal_id : String
  pub appraised_value : N
  pub appraisal_date : String
  pub appraiser_name : String
  pub loan_to_value_ratio : N

pub record Underwriting (N : Type 0) : Type 0 where
  pub underwriter_id : String
  pub decision : Decision
  pub approved_amount : Option N
  pub interest_rate : Option N
  pub conditions : List String
  pub risk_score : Option N
  pub denial_reason : Option String
  pub decided_at : String

-- The fields that every `loan` has by its type
pub record LoanTerms (N : Type 0) : Type 0 where
  pub loan_id : String
  pub approved_amount : N
  pub interest_rate : N
  pub monthly_payment : N
  pub first_payment_date : String

-- `{ ...state.loan!, offerExpiresAt }` of a state without a loan has no terms.
pub record Loan (N : Type 0) : Type 0 where
  pub terms : Option (LoanTerms N)
  pub offer_expires_at : Option String
  pub accepted_at : Option String
  pub e_signature_id : Option String

pub record Disbursement (N : Type 0) : Type 0 where
  pub disbursement_id : String
  pub amount : N
  pub method : DisbursementMethod
  pub disbursed_at : String
  pub confirmation_number : String

pub record Cancellation : Type 0 where
  pub reason : String
  pub cancelled_by : CancelledBy
  pub cancelled_at : String

pub record Application (N : Type 0) : Type 0 where
  pub application_id : String
  pub applicant_id : String
  pub loan_type : LoanType
  pub requested_amount : N
  pub term_months : N
  pub status : Status
  pub applicant_info : ApplicantInfo N
  pub property_info : Option (PropertyInfo N)
  pub identity_verification : Option (IdentityVerification N)
  pub credit_check : Option (CreditCheck N)
  pub employment_verification : Option (EmploymentVerification N)
  pub documents : List DocumentRecord
  pub required_documents : List String
  pub appraisal : Option (Appraisal N)
  pub underwriting : Option (Underwriting N)
  pub loan : Option (Loan N)
  pub disbursement : Option (Disbursement N)
  pub status_history : List StatusEntry
  pub cancellation : Option Cancellation
  pub submitted_at : String
  pub last_updated_at : String
  pub completed_at : Option String
