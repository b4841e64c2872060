-- ===== src/Sagas/Loan/Start.antt =====
-- packages/examples-shared/src/sagas/LoanApplicationSaga.ts: the initial state.
use saga_bus.Errors.{Error, other}
use saga_bus.Messages.{Message, user}
use saga_bus.Context.{Session}
use saga_bus.State.{date}
use saga_bus.Sagas.Loan.Messages.{LoanMessage, loan_application_submitted}
use saga_bus.Sagas.Loan.Messages.Checks.{LoanApplicationSubmitted}
use saga_bus.Sagas.Loan.Platform.{iso_now, read_clock}
use saga_bus.Sagas.Loan.Status.{Status}
use saga_bus.Sagas.Loan.Steps.{Host, Loaned}
use saga_bus.Prelude.{String, false, none, [], ◌∷◌}
use saga_bus.Prelude.Exec.{Exec, pure, throw, ◌>>=◌}

module _ {N V T : Type 0} (host : Host N T) where
  -- The initial state
  unfoldable pub start_application :
      String → LoanApplicationSubmitted N → Exec Error (Session (LoanMessage N) V T) (Loaned N)
  unfolding iso_now read_clock
  start_application saga_id msg = do
    created_at ← read_clock host.platform
    updated_at ← read_clock host.platform
    timestamp ← iso_now host.platform
    submitted_at ← iso_now host.platform
    last_updated_at ← iso_now host.platform
    pure (record {
      metadata = record {
        saga_id = saga_id;
        version = 0;
        created_at = date created_at;
        updated_at = date updated_at;
        is_completed = false;
        archived_at = none;
        trace_parent = none;
        trace_state = none;
        timeout_ms = none;
        timeout_expires_at = none;
      };
      fields = record {
        application_id = msg.application_id;
        applicant_id = msg.applicant_id;
        loan_type = msg.loan_type;
        requested_amount = msg.requested_amount;
        term_months = msg.term_months;
        status = Status.submitted;
        applicant_info = msg.applicant_info;
        property_info = msg.property_info;
        identity_verification = none;
        credit_check = none;
        employment_verification = none;
        documents = [];
        required_documents = [];
        appraisal = none;
        underwriting = none;
        loan = none;
        disbursement = none;
        status_history =
            record { status = Status.submitted; timestamp = timestamp; reason = none } ∷ [];
        cancellation = none;
        submitted_at = submitted_at;
        last_updated_at = last_updated_at;
        completed_at = none;
      };
    })

  -- The factory, whose context has the id of the saga
  unfoldable pub start_from :
      Message (LoanMessage N) → Exec Error (Session (LoanMessage N) V T) (Loaned N)
  unfolding start_application
  start_from (user t (loan_application_submitted msg)) (ctx, env) =
      start_application ctx.saga_id msg (ctx, env)
  start_from _ session = throw (other "TypeError" "not the message's type") session
