-- ===== src/Sagas/Loan/Handlers/Employment.antt =====
-- packages/examples-shared/src/sagas/LoanApplicationSaga.ts: employment.
use saga_bus.Sagas.Loan.Messages.{documents_requested}
use saga_bus.Sagas.Loan.Messages.Checks.{EmploymentVerificationFailed, EmploymentVerified}
use saga_bus.Sagas.Loan.Platform.{get_required_documents, iso_now}
use saga_bus.Sagas.Loan.Status.{Status}
use saga_bus.Sagas.Loan.Steps.{Handled, Host, Loaned, going, publish_loan}
use saga_bus.Prelude.{String, none, some, List, [], ◌∷◌, ◌++◌}
use saga_bus.Prelude.Exec.{◌>>=◌, ◌>>◌}

module _ {N V T : Type 0} (host : Host N T) where
  unfoldable pub on_employment_verified : EmploymentVerified N → Loaned N → Handled N V T
  on_employment_verified msg state = do
    publish_loan host (
        documents_requested
          (record { application_id = msg.application_id; required_documents = required }))
    verified_at ← iso_now host.platform
    going host state
        (record (state.fields) {
          employment_verification = some (record {
            verification_id = msg.verification_id;
            confirmed_income = msg.confirmed_income;
            employment_start_date = msg.employment_start_date;
            employment_type = msg.employment_type;
            verified_at = verified_at;
          });
          required_documents = required;
        })
        Status.documents_requested
        ((Status.employment_verified, none) ∷ (Status.documents_requested, none) ∷ [])
    where
      required : List String
      required =
          get_required_documents state.fields.loan_type
            state.fields.applicant_info.employment_status

  unfoldable pub on_employment_verification_failed :
      EmploymentVerificationFailed → Loaned N → Handled N V T
  on_employment_verification_failed msg state = do
    publish_loan host (
        documents_requested
          (record { application_id = msg.application_id; required_documents = required }))
    going host state (record (state.fields) { required_documents = required })
        Status.documents_requested
        ((Status.employment_verification_failed, some msg.reason)
          ∷ (Status.documents_requested, none)
          ∷ [])
    where
      required : List String
      required =
          get_required_documents state.fields.loan_type
            state.fields.applicant_info.employment_status
          ++ "pay_stubs_3_months" ∷ "employment_letter" ∷ []
