-- ===== src/Sagas/Loan/Soundness.antt =====
-- What holds of every application that packages/examples-shared/src/sagas/LoanApplicationSaga.ts
-- works on.
use saga_bus.Context.{Session}
use saga_bus.Dsl.{handle}
use saga_bus.State.{HandlerResult}
use saga_bus.Sagas.Loan.Application.{Application}
use saga_bus.Sagas.Loan.Flow.{is_terminal}
use saga_bus.Sagas.Loan.Machine.{in_progress}
use saga_bus.Sagas.Loan.Messages.{
  LoanMessage, loan_type_of, sent, loan_application_submitted, identity_verified,
  identity_verification_failed, credit_check_completed, credit_check_failed, employment_verified,
  employment_verification_failed, documents_received, documents_verified,
  document_verification_failed, appraisal_completed, appraisal_failed, underwriting_approved,
  underwriting_denied, underwriting_pending_review, loan_approved, loan_offer_accepted,
  loan_offer_declined, loan_offer_expired, disbursement_completed, disbursement_failed,
  application_cancelled,
}
use saga_bus.Sagas.Loan.Progress.{Advances, IsSound}
use saga_bus.Sagas.Loan.Progress.Screening.{
  on_submitted-Advances, on_identity_verified-Advances, on_identity_verification_failed-Advances,
  on_credit_check_completed-Advances, on_credit_check_failed-Advances,
  on_employment_verified-Advances, on_employment_verification_failed-Advances,
}
use saga_bus.Sagas.Loan.Progress.Documents.{
  on_documents_received-Advances, on_documents_verified-Advances,
  on_document_verification_failed-Advances, on_appraisal_completed-Advances,
  on_appraisal_failed-Advances,
}
use saga_bus.Sagas.Loan.Progress.Decisions.{
  on_underwriting_approved-Advances, on_underwriting_denied-Advances,
  on_underwriting_pending_review-Advances, on_loan_approved-Advances,
  on_loan_offer_accepted-Advances, on_loan_offer_declined-Advances, on_loan_offer_expired-Advances,
  on_disbursement_completed-Advances, on_disbursement_failed-Advances,
  on_application_cancelled-Advances,
}
use saga_bus.Sagas.Loan.Status.{Status, Status-discrete, is_status}
use saga_bus.Sagas.Loan.Steps.{Handled, Host, Loaned}
use saga_bus.Sagas.Loan.Turn.{guarded, handle-turn, saga, turn}
use saga_bus.Prelude.{
  String, ◌≡◌, refl, sym, ap, ◌∙◌, subst, Bool, Bool-cases, inl, inr, true, false, none, arith, ◌⊎◌,
  ◌||◌,
}
use saga_bus.Prelude.Exec.{Ensures, Ensures-weaken, Ensures-ok, ok}

pub is_status-eq : (s t : Status) → is_status s t ≡ true → s ≡ t
is_status-eq s t h = elim (Status-discrete s t) [
  | yes same ↦ same
  | no differs ↦ absurd (ground arith)
]

pub is_either-eq : (s t u : Status) → (is_status s t || is_status s u) ≡ true → (s ≡ t) ⊎ (s ≡ u)
is_either-eq s t u h = elim (Bool-cases (is_status s t)) [
  | inl same ↦ inl (is_status-eq s t same)
  | inr differs ↦ inr (is_status-eq s u (subst (λ b. (b || is_status s u) ≡ true) differs h))
]

-- An application is cancelled only before its end.
pub in_progress-open :
    {N : Type 0} (x : Loaned N) → in_progress x ≡ true → is_terminal x.fields.status ≡ false
in_progress-open x h = ground arith

-- A result that leaves the state and its completion as they are
abbrev pub unchanged : {N : Type 0} → Loaned N → HandlerResult (Application N)
unchanged x = record { new_state = x; is_completed = none }

abbrev Turned : {N : Type 0} → String → Loaned N → HandlerResult (Application N) → Type 0
Turned type x r = (r ≡ unchanged x) ⊎ Advances type x r

module _ {N V T : Type 0} (host : Host N T) where
  guarded-Turned :
      (type : String) (b : Bool) (handler : Handled N V T) (x : Loaned N)
      (session : Session (LoanMessage N) V T)
      → (b ≡ true → Ensures (Advances type x) (handler session))
      → Ensures (Turned type x) (guarded host b handler x session)
  unfolding guarded
  guarded-Turned type true handler x session ensured =
      Ensures-weaken (Advances type x) (Turned type x) (handler session) (λ r. inr) (ensured refl)
  guarded-Turned type false handler x session ensured = inl refl

  turn-Turned :
      (m : LoanMessage N) (x : Loaned N) (session : Session (LoanMessage N) V T)
      → IsSound x.fields
      → Ensures (Turned (loan_type_of m) x) (turn host m x session)
  unfolding turn loan_type_of
  turn-Turned (loan_application_submitted msg) x session sound =
      guarded-Turned "LoanApplicationSubmitted" _ _ x session
        (λ go. on_submitted-Advances host msg x session (is_status-eq _ _ go))
  turn-Turned (identity_verified msg) x session sound =
      guarded-Turned "IdentityVerified" _ _ x session
        (λ go. on_identity_verified-Advances host msg x session (is_status-eq _ _ go))
  turn-Turned (identity_verification_failed msg) x session sound =
      guarded-Turned "IdentityVerificationFailed" _ _ x session
        (λ go. on_identity_verification_failed-Advances host msg x session (is_status-eq _ _ go))
  turn-Turned (credit_check_completed msg) x session sound =
      guarded-Turned "CreditCheckCompleted" _ _ x session
        (λ go. on_credit_check_completed-Advances host msg x session (is_status-eq _ _ go))
  turn-Turned (credit_check_failed msg) x session sound =
      guarded-Turned "CreditCheckFailed" _ _ x session
        (λ go. on_credit_check_failed-Advances host msg x session (is_status-eq _ _ go))
  turn-Turned (employment_verified msg) x session sound =
      guarded-Turned "EmploymentVerified" _ _ x session
        (λ go. on_employment_verified-Advances host msg x session (is_status-eq _ _ go))
  turn-Turned (employment_verification_failed msg) x session sound =
      guarded-Turned "EmploymentVerificationFailed" _ _ x session
        (λ go. on_employment_verification_failed-Advances host msg x session (is_status-eq _ _ go))
  turn-Turned (documents_received msg) x session sound =
      guarded-Turned "DocumentsReceived" _ _ x session
        (λ go. on_documents_received-Advances host msg x session (is_status-eq _ _ go))
  turn-Turned (documents_verified msg) x session sound =
      guarded-Turned "DocumentsVerified" _ _ x session
        (λ go. on_documents_verified-Advances host msg x session (is_status-eq _ _ go))
  turn-Turned (document_verification_failed msg) x session sound =
      guarded-Turned "DocumentVerificationFailed" _ _ x session
        (λ go. on_document_verification_failed-Advances host msg x session (is_either-eq _ _ _ go))
  turn-Turned (appraisal_completed msg) x session sound =
      guarded-Turned "AppraisalCompleted" _ _ x session
        (λ go. on_appraisal_completed-Advances host msg x session (is_status-eq _ _ go))
  turn-Turned (appraisal_failed msg) x session sound =
      guarded-Turned "AppraisalFailed" _ _ x session
        (λ go. on_appraisal_failed-Advances host msg x session (is_status-eq _ _ go))
  turn-Turned (underwriting_approved msg) x session sound =
      guarded-Turned "UnderwritingApproved" _ _ x session
        (λ go. on_underwriting_approved-Advances host msg x session (is_either-eq _ _ _ go))
  turn-Turned (underwriting_denied msg) x session sound =
      guarded-Turned "UnderwritingDenied" _ _ x session
        (λ go. on_underwriting_denied-Advances host msg x session (is_either-eq _ _ _ go))
  turn-Turned (underwriting_pending_review msg) x session sound =
      guarded-Turned "UnderwritingPendingReview" _ _ x session
        (λ go. on_underwriting_pending_review-Advances host msg x session (is_status-eq _ _ go))
  turn-Turned (loan_approved msg) x session sound =
      guarded-Turned "LoanApproved" _ _ x session
        (λ go. on_loan_approved-Advances host msg x session (is_status-eq _ _ go) sound)
  turn-Turned (loan_offer_accepted msg) x session sound =
      guarded-Turned "LoanOfferAccepted" _ _ x session
        (λ go. on_loan_offer_accepted-Advances host msg x session (is_status-eq _ _ go) sound)
  turn-Turned (loan_offer_declined msg) x session sound =
      guarded-Turned "LoanOfferDeclined" _ _ x session
        (λ go. on_loan_offer_declined-Advances host msg x session (is_status-eq _ _ go) sound)
  turn-Turned (loan_offer_expired msg) x session sound =
      guarded-Turned "LoanOfferExpired" _ _ x session
        (λ go. on_loan_offer_expired-Advances host msg x session (is_status-eq _ _ go) sound)
  turn-Turned (disbursement_completed msg) x session sound =
      guarded-Turned "DisbursementCompleted" _ _ x session
        (λ go. on_disbursement_completed-Advances host msg x session (is_status-eq _ _ go) sound)
  turn-Turned (disbursement_failed msg) x session sound =
      guarded-Turned "DisbursementFailed" _ _ x session
        (λ go. on_disbursement_failed-Advances host msg x session (is_status-eq _ _ go) sound)
  turn-Turned (application_cancelled msg) x session sound =
      guarded-Turned "ApplicationCancelled" _ _ x session
        (λ go. on_application_cancelled-Advances host msg x session (in_progress-open x go))
  turn-Turned _ x session sound = inl refl

  -- A message leaves a sound application as it is, or takes one step of Flow by it.
  pub handle-Advances :
      (m : LoanMessage N) (x : Loaned N) (session : Session (LoanMessage N) V T)
      {r : HandlerResult (Application N)}
      → IsSound x.fields
      → (handle (saga host) (sent m) x session).0 ≡ ok r
      → (r ≡ unchanged x) ⊎ Advances (loan_type_of m) x r
  handle-Advances m x session sound returned =
      Ensures-ok (Turned (loan_type_of m) x) (turn host m x session) (turn-Turned m x session sound)
        (sym (ap (λ f. (f session).0) (handle-turn host m x)) ∙ returned)
