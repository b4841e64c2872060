-- ===== src/Sagas/Loan/Handlers/Screening.antt =====
-- packages/examples-shared/src/sagas/LoanApplicationSaga.ts: submission, identity and credit.
use saga_bus.Context.{set_timeout}
use saga_bus.Sagas.Loan.Application.{CreditCheck}
use saga_bus.Sagas.Loan.Messages.{
  application_cancelled, credit_check_requested, documents_requested,
  employment_verification_requested, identity_verification_requested, underwriting_denied,
}
use saga_bus.Sagas.Loan.Messages.Checks.{
  CreditCheckCompleted, CreditCheckFailed, IdentityVerificationFailed, IdentityVerified,
  LoanApplicationSubmitted,
}
use saga_bus.Sagas.Loan.Platform.{get_required_documents, iso_now}
use saga_bus.Sagas.Loan.Status.{Status}
use saga_bus.Sagas.Loan.Steps.{Handled, Host, Loaned, completing, ending, going, publish_loan}
use saga_bus.Sagas.Loan.Types.{employed, system}
use saga_bus.Sagas.Loan.Types.{EmploymentStatus}
use saga_bus.Prelude.{
  ◌*◌, String, Bool, true, false, ◌&&◌, none, some, List, [], ◌∷◌, if◌then◌else◌, truthy, ◌<?>◌,
}
use saga_bus.Prelude.Exec.{◌>>=◌, ◌>>◌}
use saga_bus.Prelude.Int.{pos}
use saga_bus.Prelude.Texts.{◌<>◌}

-- The creditCheck of the new state
unfoldable pub checked_credit : {N : Type 0} → CreditCheckCompleted N → String → CreditCheck N
checked_credit msg checked_at = record {
  credit_report_id = msg.credit_report_id;
  credit_score = msg.credit_score;
  debt_to_income_ratio = msg.debt_to_income_ratio;
  open_accounts = msg.open_accounts;
  negative_marks = msg.negative_marks;
  credit_history = msg.credit_history;
  checked_at = checked_at;
}

-- employmentStatus === "employed"
abbrev pub is_employed : EmploymentStatus → Bool
is_employed employed = true
is_employed _ = false

module _ {N V T : Type 0} (host : Host N T) where
  -- The handler of "LoanApplicationSubmitted"
  unfoldable pub on_submitted : LoanApplicationSubmitted N → Loaned N → Handled N V T
  on_submitted msg state = do
    publish_loan host (
        identity_verification_requested (record {
          application_id = msg.application_id;
          applicant_id = msg.applicant_id;
          ssn = msg.applicant_info.ssn;
          date_of_birth = msg.applicant_info.date_of_birth;
          first_name = msg.applicant_info.first_name;
          last_name = msg.applicant_info.last_name;
        }))
    set_timeout host.platform (pos (7 * 24 * 60 * 60 * 1000))
    going host state state.fields Status.identity_verification_pending
        ((Status.identity_verification_pending, none) ∷ [])

  unfoldable pub on_identity_verified : IdentityVerified N → Loaned N → Handled N V T
  on_identity_verified msg state = do
    publish_loan host (
        credit_check_requested (record {
          application_id = msg.application_id;
          applicant_id = state.fields.applicant_id;
          ssn = state.fields.applicant_info.ssn;
        }))
    verified_at ← iso_now host.platform
    going host state
        (record (state.fields) {
          identity_verification = some (record {
            verification_id = msg.verification_id;
            verification_score = msg.verification_score;
            matched_fields = msg.matched_fields;
            verified_at = verified_at;
          });
        })
        Status.credit_check_pending
        ((Status.identity_verified, none) ∷ (Status.credit_check_pending, none) ∷ [])

  -- The handlers that give up: a cancellation is published and kept, and the saga ends. `told` is
  -- the reason that both carry, `why` the one of the entry of `failed`.
  unfoldable pub cancel_for : String → String → Status → String → Loaned N → Handled N V T
  cancel_for application_id told failed why state = do
    publish_loan host (
        application_cancelled
          (record { application_id = application_id; reason = told; cancelled_by = system }))
    completing
    cancelled_at ← iso_now host.platform
    ending host state
        (record (state.fields) {
          cancellation =
              some (record { reason = told; cancelled_by = system; cancelled_at = cancelled_at });
        })
        Status.cancelled ((failed, some why) ∷ (Status.cancelled, none) ∷ [])

  unfoldable pub on_identity_verification_failed :
      IdentityVerificationFailed → Loaned N → Handled N V T
  on_identity_verification_failed msg state =
      cancel_for msg.application_id ("Identity verification failed: " <> msg.reason)
        Status.identity_verification_failed msg.reason state

  unfoldable pub deny_credit : CreditCheckCompleted N → Loaned N → Handled N V T
  deny_credit msg state = do
    publish_loan host (
        underwriting_denied (record {
          application_id = msg.application_id;
          underwriter_id = "auto-decline";
          reason =
              "Credit score "
              <> host.numbers.text msg.credit_score
              <> " below minimum requirement of 580";
          appeal_deadline = none;
        }))
    completing
    checked_at ← iso_now host.platform
    ending host state
        (record (state.fields) { credit_check = some (checked_credit msg checked_at) })
        Status.denied
        ((Status.credit_check_completed, none)
          ∷ (Status.denied, some "Credit score below minimum")
          ∷ [])

  unfoldable pub ask_employer : CreditCheckCompleted N → String → Loaned N → Handled N V T
  ask_employer msg employer_name state = do
    publish_loan host (
        employment_verification_requested (record {
          application_id = msg.application_id;
          applicant_id = state.fields.applicant_id;
          employer_name = employer_name;
          annual_income = state.fields.applicant_info.annual_income;
        }))
    checked_at ← iso_now host.platform
    going host state (record (state.fields) { credit_check = some (checked_credit msg checked_at) })
        Status.employment_verification_pending
        ((Status.credit_check_completed, none)
          ∷ (Status.employment_verification_pending, none)
          ∷ [])

  unfoldable pub ask_documents : CreditCheckCompleted N → Loaned N → Handled N V T
  ask_documents msg state = do
    publish_loan host (
        documents_requested
          (record { application_id = msg.application_id; required_documents = required }))
    checked_at ← iso_now host.platform
    going host state
        (record (state.fields) {
          credit_check = some (checked_credit msg checked_at);
          required_documents = required;
        })
        Status.documents_requested
        ((Status.credit_check_completed, none) ∷ (Status.documents_requested, none) ∷ [])
    where
      required : List String
      required =
          get_required_documents state.fields.loan_type
            state.fields.applicant_info.employment_status

  unfoldable pub on_credit_check_completed : CreditCheckCompleted N → Loaned N → Handled N V T
  on_credit_check_completed msg state =
      if host.numbers.is_below msg.credit_score (host.numbers.literal 580)
      then deny_credit msg state
      else if is_employed state.fields.applicant_info.employment_status && truthy employer
      then ask_employer msg employer state
      else ask_documents msg state
    where
      employer : String
      employer = state.fields.applicant_info.employer_name <?> ""

  unfoldable pub on_credit_check_failed : CreditCheckFailed → Loaned N → Handled N V T
  on_credit_check_failed msg state =
      cancel_for msg.application_id ("Credit check failed: " <> msg.reason)
        Status.credit_check_failed msg.reason state
