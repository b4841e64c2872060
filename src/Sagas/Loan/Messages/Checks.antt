-- ===== src/Sagas/Loan/Messages/Checks.antt =====
-- packages/examples-shared/src/messages/loan.ts: from the application to its documents. The `type`
-- of a message is the constructor of LoanMessage that holds it.
use saga_bus.Sagas.Loan.Types.{
  LoanType, EmploymentType, DocumentStatus, ApplicantInfo, PropertyInfo, CreditHistory,
}
use saga_bus.Prelude.{String, Option, List}

pub record UploadedDocument : Type 0 where
  pub document_type : String
  pub document_id : String
  pub uploaded_at : String

pub record VerificationResult : Type 0 where
  pub document_type : String
  pub status : DocumentStatus
  pub notes : Option String

pub record LoanApplicationSubmitted (N : Type 0) : Type 0 where
  pub application_id : String
  pub applicant_id : String
  pub loan_type : LoanType
  pub requested_amount : N
  pub term_months : N
  pub applicant_info : ApplicantInfo N
  pub property_info : Option (PropertyInfo N)

pub record IdentityVerificationRequested : Type 0 where
  pub application_id : String
  pub applicant_id : String
  pub ssn : String
  pub date_of_birth : String
  pub first_name : String
  pub last_name : String

pub record IdentityVerified (N : Type 0) : Type 0 where
  pub application_id : String
  pub verification_id : String
  pub verification_score : N
  pub matched_fields : List String

pub record IdentityVerificationFailed : Type 0 where
  pub application_id : String
  pub reason : String
  pub failed_checks : List String

pub record CreditCheckRequested : Type 0 where
  pub application_id : String
  pub applicant_id : String
  pub ssn : String

pub record CreditCheckCompleted (N : Type 0) : Type 0 where
  pub application_id : String
  pub credit_score : N
  pub credit_report_id : String
  pub debt_to_income_ratio : N
  pub open_accounts : N
  pub negative_marks : N
  pub credit_history : CreditHistory N

pub record CreditCheckFailed : Type 0 where
  pub application_id : String
  pub reason : String

pub record EmploymentVerificationRequested (N : Type 0) : Type 0 where
  pub application_id : String
  pub applicant_id : String
  pub employer_name : String
  pub annual_income : N

pub record EmploymentVerified (N : Type 0) : Type 0 where
  pub application_id : String
  pub verification_id : String
  pub confirmed_income : N
  pub employment_start_date : String
  pub employment_type : EmploymentType

pub record EmploymentVerificationFailed : Type 0 where
  pub application_id : String
  pub reason : String

pub record DocumentsRequested : Type 0 where
  pub application_id : String
  pub required_documents : List String

pub record DocumentsReceived : Type 0 where
  pub application_id : String
  pub documents : List UploadedDocument

pub record DocumentsVerified : Type 0 where
  pub application_id : String
  pub verification_results : List VerificationResult

pub record DocumentVerificationFailed : Type 0 where
  pub application_id : String
  pub reason : String
  pub failed_documents : List String
