-- ===== src/Sagas/Loan/Types.antt =====
-- packages/examples-shared/src/types/loan.ts and messages/loan.ts: the string unions, and the object
-- types that the messages and the state share. Numbers are of a type N of their own.
use saga_bus.Prelude.{String, Option}

pub data LoanType : Type 0 where
  personal mortgage auto business : LoanType

pub data EmploymentStatus : Type 0 where
  employed self_employed unemployed retired : EmploymentStatus

pub data PropertyType : Type 0 where
  single_family condo multi_family commercial : PropertyType

pub data EmploymentType : Type 0 where
  full_time part_time contractor : EmploymentType

pub data DocumentStatus : Type 0 where
  pending verified rejected : DocumentStatus

pub data Decision : Type 0 where
  approved denied review : Decision

pub data DisbursementMethod : Type 0 where
  ach wire check : DisbursementMethod

pub data CancelledBy : Type 0 where
  applicant system underwriter : CancelledBy

pub record ApplicantInfo (N : Type 0) : Type 0 where
  pub first_name : String
  pub last_name : String
  pub email : String
  pub phone : String
  pub ssn : String
  pub date_of_birth : String
  pub annual_income : N
  pub employment_status : EmploymentStatus
  pub employer_name : Option String

pub record PropertyInfo (N : Type 0) : Type 0 where
  pub address : String
  pub estimated_value : N
  pub property_type : PropertyType

pub record CreditHistory (N : Type 0) : Type 0 where
  pub oldest_account_years : N
  pub recent_inquiries : N
  pub missed_payments_30_days : N
  pub missed_payments_60_days : N
  pub missed_payments_90_days : N
