-- ===== src/Sagas/Loan/Messages/Offers.antt =====
-- packages/examples-shared/src/messages/loan.ts: from the appraisal to the disbursement, and the
-- messages on the application as a whole.
use saga_bus.Sagas.Loan.Types.{DisbursementMethod, CancelledBy}
use saga_bus.Prelude.{String, Option, List}

pub record AccountDetails : Type 0 where
  pub routing_number : String
  pub account_number : String

pub record AppraisalRequested (N : Type 0) : Type 0 where
  pub application_id : String
  pub property_address : String
  pub estimated_value : N

pub record AppraisalCompleted (N : Type 0) : Type 0 where
  pub application_id : String
  pub appraisal_id : String
  pub appraised_value : N
  pub appraisal_date : String
  pub appraiser_name : String
  pub loan_to_value_ratio : N

pub record AppraisalFailed : Type 0 where
  pub application_id : String
  pub reason : String

pub record UnderwritingRequested (N : Type 0) : Type 0 where
  pub application_id : String
  pub credit_score : N
  pub debt_to_income_ratio : N
  pub requested_amount : N
  pub loan_to_value_ratio : Option N

pub record UnderwritingApproved (N : Type 0) : Type 0 where
  pub application_id : String
  pub underwriter_id : String
  pub approved_amount : N
  pub interest_rate : N
  pub conditions : List String
  pub risk_score : N

pub record UnderwritingDenied : Type 0 where
  pub application_id : String
  pub underwriter_id : String
  pub reason : String
  pub appeal_deadline : Option String

pub record UnderwritingPendingReview : Type 0 where
  pub application_id : String
  pub reason : String
  pub required_actions : List String

pub record FinalApprovalRequested (N : Type 0) : Type 0 where
  pub application_id : String
  pub approved_amount : N
  pub interest_rate : N

pub record LoanApproved (N : Type 0) : Type 0 where
  pub application_id : String
  pub loan_id : String
  pub approved_amount : N
  pub interest_rate : N
  pub monthly_payment : N
  pub first_payment_date : String

pub record LoanOfferSent : Type 0 where
  pub application_id : String
  pub loan_id : String
  pub offer_expires_at : String

pub record LoanOfferAccepted : Type 0 where
  pub application_id : String
  pub loan_id : String
  pub accepted_at : String
  pub e_signature_id : String

pub record LoanOfferDeclined : Type 0 where
  pub application_id : String
  pub loan_id : String
  pub reason : Option String

pub record LoanOfferExpired : Type 0 where
  pub application_id : String
  pub loan_id : String

-- The amount is `state.loan!.approvedAmount`, which may be undefined.
pub record DisbursementRequested (N : Type 0) : Type 0 where
  pub application_id : String
  pub loan_id : String
  pub amount : Option N
  pub disbursement_method : DisbursementMethod
  pub account_details : Option AccountDetails

pub record DisbursementCompleted (N : Type 0) : Type 0 where
  pub application_id : String
  pub loan_id : String
  pub disbursement_id : String
  pub amount : N
  pub disbursed_at : String
  pub confirmation_number : String

pub record DisbursementFailed : Type 0 where
  pub application_id : String
  pub loan_id : String
  pub reason : String

pub record ApplicationStatusUpdated : Type 0 where
  pub application_id : String
  pub previous_status : String
  pub new_status : String
  pub updated_at : String
  pub updated_by : String

pub record ApplicationCancelled : Type 0 where
  pub application_id : String
  pub reason : String
  pub cancelled_by : CancelledBy

pub record ApplicationCompleted : Type 0 where
  pub application_id : String
  pub loan_id : String
  pub completed_at : String
