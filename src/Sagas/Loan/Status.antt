-- ===== src/Sagas/Loan/Status.antt =====
-- packages/examples-shared/src/types/loan.ts: LoanApplicationStatus, with its equality.
use mathlib.Core.Logic.{ite}
use saga_bus.Prelude.{Bool, true, false}

pub data Status : Type 0 where
  submitted identity_verification_pending identity_verified : Status
  identity_verification_failed credit_check_pending credit_check_completed : Status
  credit_check_failed employment_verification_pending employment_verified : Status
  employment_verification_failed documents_requested documents_received : Status
  documents_verified documents_verification_failed appraisal_pending : Status
  appraisal_completed appraisal_failed underwriting_pending : Status
  underwriting_approved underwriting_denied underwriting_review : Status
  final_approval_pending approved offer_sent : Status
  offer_accepted offer_declined offer_expired : Status
  disbursement_pending disbursement_completed disbursement_failed : Status
  completed cancelled denied : Status

unfoldable pub Status-discrete : Discrete Status
Status-discrete = hlevel

-- `s === t`
abbrev pub is_status : Status → Status → Bool
is_status s t = ite (Status-discrete s t) true false
