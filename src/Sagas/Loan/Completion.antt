-- ===== src/Sagas/Loan/Completion.antt =====
-- From its start, an application of packages/examples-shared/src/sagas/LoanApplicationSaga.ts can be
-- led to the disbursement.
use saga_bus.Sagas.Loan.Stages.{IsCompletable, lead, from_received}
use saga_bus.Sagas.Loan.Reaching.{
  is_status-same, Reaches, AfterCredit, credit-Reaches, passed, on_submitted_only,
  on_identity_verified_only, on_employment_verified_only, on_documents_received_only,
}
use saga_bus.Sagas.Loan.Start.{start_application}
use saga_bus.Sagas.Loan.Reachable.{started, reachable-IsSound}
use saga_bus.Context.{Context, Session}
use saga_bus.Sagas.Loan.Application.{Application}
use saga_bus.Sagas.Loan.Handlers.Employment.{on_employment_verified}
use saga_bus.Sagas.Loan.Handlers.Screening.{
  on_submitted, on_identity_verified, on_credit_check_completed,
}
use saga_bus.Sagas.Loan.Handlers.Documents.{on_documents_received}
use saga_bus.Sagas.Loan.Messages.{
  LoanMessage, credit_check_completed, documents_received, identity_verified, employment_verified,
  loan_application_submitted,
}
use saga_bus.Sagas.Loan.Messages.Checks.{LoanApplicationSubmitted}
use saga_bus.Sagas.Loan.Platform.{iso_now, read_clock}
use saga_bus.Sagas.Loan.Progress.{Advances, IsSound, at}
use saga_bus.Sagas.Loan.Progress.Screening.{
  on_submitted-Advances, on_identity_verified-Advances, on_employment_verified-Advances,
}
use saga_bus.Sagas.Loan.Progress.Documents.{on_documents_received-Advances}
use saga_bus.Sagas.Loan.Returning.{IsQuiet}
use saga_bus.Sagas.Loan.Status.{Status}
use saga_bus.Sagas.Loan.Steps.{Host, Loaned}
use saga_bus.Sagas.Loan.Turn.{turn}
use saga_bus.Sagas.Loan.Types.{full_time}
use saga_bus.Prelude.{String, ◌≡◌, inl, inr, refl, sym, false, []}
use saga_bus.Prelude.Exec.{Ensures, Ensures-ok, Ensures-weaken, ok}

module _ {N V T : Type 0} (host : Host N T) (contexts : LoanMessage N → Context (LoanMessage N) V)
    (quiet : (m : LoanMessage N) → IsQuiet host (contexts m)) (n : N) where
  from_requested :
      (a : Application N)
      → IsSound a
      → a.status ≡ Status.documents_requested
      → IsCompletable host contexts a
  unfolding turn
  from_requested a sound h =
      lead host contexts quiet n (λ s. s ≡ Status.documents_received)
        (documents_received (record { application_id = a.application_id; documents = [] })) a sound
        (λ metadata session.
          passed host _ (on_documents_received host _ _) _ session (is_status-same _ _ h) (
            Ensures-weaken (Advances "DocumentsReceived" _)
              (Reaches (λ s. s ≡ Status.documents_received))
              (on_documents_received host _ _ session)
              (λ r moved. on_documents_received_only (at (sym h) moved.flow))
              (on_documents_received-Advances host _ _ session h)))
        (from_received host contexts quiet n)

  from_employment :
      (a : Application N)
      → IsSound a
      → a.status ≡ Status.employment_verification_pending
      → IsCompletable host contexts a
  unfolding turn
  from_employment a sound h =
      lead host contexts quiet n (λ s. s ≡ Status.documents_requested)
        (employment_verified (record {
          application_id = a.application_id;
          verification_id = "";
          confirmed_income = n;
          employment_start_date = "";
          employment_type = full_time;
        }))
        a sound
        (λ metadata session.
          passed host _ (on_employment_verified host _ _) _ session (is_status-same _ _ h) (
            Ensures-weaken (Advances "EmploymentVerified" _)
              (Reaches (λ s. s ≡ Status.documents_requested))
              (on_employment_verified host _ _ session)
              (λ r moved. on_employment_verified_only (at (sym h) moved.flow))
              (on_employment_verified-Advances host _ _ session h)))
        from_requested

  started-submitted :
      (saga_id : String) (msg : LoanApplicationSubmitted N) (session : Session (LoanMessage N) V T)
      → Ensures
          (λ y. y.fields.status ≡ Status.submitted)
          (start_application host saga_id msg session)
  unfolding start_application iso_now read_clock
  started-submitted saga_id msg session = refl

  module _ (fine : host.numbers.is_below n (host.numbers.literal 580) ≡ false) where
    from_credit :
        (a : Application N)
        → IsSound a
        → a.status ≡ Status.credit_check_pending
        → IsCompletable host contexts a
    unfolding turn
    from_credit a sound h =
        lead host contexts quiet n AfterCredit
          (credit_check_completed (record {
            application_id = a.application_id;
            credit_score = n;
            credit_report_id = "";
            debt_to_income_ratio = n;
            open_accounts = n;
            negative_marks = n;
            credit_history = record {
              oldest_account_years = n;
              recent_inquiries = n;
              missed_payments_30_days = n;
              missed_payments_60_days = n;
              missed_payments_90_days = n;
            };
          }))
          a sound
          (λ metadata session.
            passed host _ (on_credit_check_completed host _ _) _ session (is_status-same _ _ h)
              (credit-Reaches host _ _ session fine))
          (λ b s k. elim k [ inl e ↦ from_employment b s e | inr e ↦ from_requested b s e ])

    from_identity :
        (a : Application N)
        → IsSound a
        → a.status ≡ Status.identity_verification_pending
        → IsCompletable host contexts a
    unfolding turn
    from_identity a sound h =
        lead host contexts quiet n (λ s. s ≡ Status.credit_check_pending)
          (identity_verified (record {
            application_id = a.application_id;
            verification_id = "";
            verification_score = n;
            matched_fields = [];
          }))
          a sound
          (λ metadata session.
            passed host _ (on_identity_verified host _ _) _ session (is_status-same _ _ h) (
              Ensures-weaken (Advances "IdentityVerified" _)
                (Reaches (λ s. s ≡ Status.credit_check_pending))
                (on_identity_verified host _ _ session)
                (λ r moved. on_identity_verified_only (at (sym h) moved.flow))
                (on_identity_verified-Advances host _ _ session h)))
          from_credit

    submitted-IsCompletable :
        (msg : LoanApplicationSubmitted N) (a : Application N)
        → IsSound a
        → a.status ≡ Status.submitted
        → IsCompletable host contexts a
    unfolding turn
    submitted-IsCompletable msg a sound h =
        lead host contexts quiet n (λ s. s ≡ Status.identity_verification_pending)
          (loan_application_submitted msg) a sound
          (λ metadata session.
            passed host _ (on_submitted host _ _) _ session (is_status-same _ _ h) (
              Ensures-weaken (Advances "LoanApplicationSubmitted" _)
                (Reaches (λ s. s ≡ Status.identity_verification_pending))
                (on_submitted host _ _ session)
                (λ r moved. on_submitted_only (at (sym h) moved.flow))
                (on_submitted-Advances host _ _ session h)))
          from_identity

    -- Every application that is started can be led to its completion by messages of the saga, if the
    -- transport takes what is published, 7 days are in the bounds of a timeout and some number n is
    -- a credit score that is not below 580.
    pub started-IsCompletable :
        (saga_id : String) (msg : LoanApplicationSubmitted N)
        (session : Session (LoanMessage N) V T) {x : Loaned N}
        → (start_application host saga_id msg session).0 ≡ ok x
        → IsCompletable host contexts x.fields
    unfolding start_application
    started-IsCompletable saga_id msg session {x} h =
        submitted-IsCompletable msg x.fields
          (reachable-IsSound V host x.fields (started saga_id msg session h))
          (Ensures-ok (λ y. y.fields.status ≡ Status.submitted)
            (start_application host saga_id msg session) (started-submitted saga_id msg session) h)
