-- ===== src/Sagas/Loan/Progress/Screening.antt =====
-- The handlers of packages/examples-shared/src/sagas/LoanApplicationSaga.ts for identity, credit and
-- employment follow the flow.
use saga_bus.Context.{Session, set_timeout}
use saga_bus.Prelude.Int.{pos}
use saga_bus.Sagas.Loan.Flow.{Flow}
use saga_bus.Sagas.Loan.Handlers.Screening.{
  cancel_for, on_submitted, on_identity_verified, on_identity_verification_failed, deny_credit,
  ask_employer, ask_documents, is_employed, on_credit_check_completed, on_credit_check_failed,
}
use saga_bus.Sagas.Loan.Handlers.Employment.{
  on_employment_verified, on_employment_verification_failed,
}
use saga_bus.Sagas.Loan.Messages.{LoanMessage}
use saga_bus.Sagas.Loan.Messages.Checks.{
  LoanApplicationSubmitted, IdentityVerified, IdentityVerificationFailed, CreditCheckCompleted,
  CreditCheckFailed, EmploymentVerified, EmploymentVerificationFailed,
}
use saga_bus.Sagas.Loan.Platform.{iso_now}
use saga_bus.Sagas.Loan.Progress.{Advances, going-Advances, ending-Advances, at, unfinanced}
use saga_bus.Sagas.Loan.Status.{Status}
use saga_bus.Sagas.Loan.Steps.{Host, Loaned, publish_loan}
use saga_bus.Prelude.{◌*◌, String, ◌≡◌, refl, Bool-cases, inl, inr, ◌&&◌, truthy, ◌<?>◌}
use saga_bus.Prelude.Exec.{Ensures, Ensures-after}

module _ {N V T : Type 0} (host : Host N T) where
  pub on_submitted-Advances :
      (msg : LoanApplicationSubmitted N) (x : Loaned N) (session : Session (LoanMessage N) V T)
      → x.fields.status ≡ Status.submitted
      → Ensures (Advances "LoanApplicationSubmitted" x) (on_submitted host msg x session)
  unfolding on_submitted
  on_submitted-Advances msg x session h = Ensures-after _ (publish_loan host _ session) _ (λ u s.
      Ensures-after _ (set_timeout host.platform (pos (7 * 24 * 60 * 60 * 1000)) s) _ (λ v s'.
        going-Advances host "LoanApplicationSubmitted" x _ _ _
          (record { same_id = refl; flow = at h Flow.identify; last = refl; financed = unfinanced })
          _ refl))

  pub on_identity_verified-Advances :
      (msg : IdentityVerified N) (x : Loaned N) (session : Session (LoanMessage N) V T)
      → x.fields.status ≡ Status.identity_verification_pending
      → Ensures (Advances "IdentityVerified" x) (on_identity_verified host msg x session)
  unfolding on_identity_verified iso_now
  on_identity_verified-Advances msg x session h =
      Ensures-after _ (publish_loan host _ session) _ (λ u s.
        going-Advances host "IdentityVerified" x _ _ _
          (record {
            same_id = refl;
            flow = at h Flow.check_credit;
            last = refl;
            financed = unfinanced;
          })
          _ refl)

  -- A step that gives the application up
  pub cancel_for-Advances :
      (type application_id told : String) (failed : Status) (why : String) (x : Loaned N)
      (session : Session (LoanMessage N) V T)
      → Flow x.fields.status type Status.cancelled
      → Ensures (Advances type x) (cancel_for host application_id told failed why x session)
  unfolding cancel_for iso_now
  cancel_for-Advances type application_id told failed why x session flow =
      Ensures-after _ (publish_loan host _ session) _ (λ u s.
        ending-Advances host type x _ _ _
          (record { same_id = refl; flow = flow; last = refl; financed = unfinanced }) _ refl)

  pub on_identity_verification_failed-Advances :
      (msg : IdentityVerificationFailed) (x : Loaned N) (session : Session (LoanMessage N) V T)
      → x.fields.status ≡ Status.identity_verification_pending
      → Ensures
          (Advances "IdentityVerificationFailed" x)
          (on_identity_verification_failed host msg x session)
  unfolding on_identity_verification_failed
  on_identity_verification_failed-Advances msg x session h =
      cancel_for-Advances "IdentityVerificationFailed" _ _ _ _ x session (at h Flow.no_identity)

  deny_credit-Advances :
      (msg : CreditCheckCompleted N) (x : Loaned N) (session : Session (LoanMessage N) V T)
      → x.fields.status ≡ Status.credit_check_pending
      → Ensures (Advances "CreditCheckCompleted" x) (deny_credit host msg x session)
  unfolding deny_credit iso_now
  deny_credit-Advances msg x session h = Ensures-after _ (publish_loan host _ session) _ (λ u s.
      ending-Advances host "CreditCheckCompleted" x _ _ _
        (record { same_id = refl; flow = at h Flow.low_score; last = refl; financed = unfinanced })
        _ refl)

  ask_employer-Advances :
      (msg : CreditCheckCompleted N) (employer : String) (x : Loaned N)
      (session : Session (LoanMessage N) V T)
      → x.fields.status ≡ Status.credit_check_pending
      → Ensures (Advances "CreditCheckCompleted" x) (ask_employer host msg employer x session)
  unfolding ask_employer iso_now
  ask_employer-Advances msg employer x session h =
      Ensures-after _ (publish_loan host _ session) _ (λ u s.
        going-Advances host "CreditCheckCompleted" x _ _ _
          (record {
            same_id = refl;
            flow = at h Flow.ask_employer;
            last = refl;
            financed = unfinanced;
          })
          _ refl)

  ask_documents-Advances :
      (msg : CreditCheckCompleted N) (x : Loaned N) (session : Session (LoanMessage N) V T)
      → x.fields.status ≡ Status.credit_check_pending
      → Ensures (Advances "CreditCheckCompleted" x) (ask_documents host msg x session)
  unfolding ask_documents iso_now
  ask_documents-Advances msg x session h = Ensures-after _ (publish_loan host _ session) _ (λ u s.
      going-Advances host "CreditCheckCompleted" x _ _ _
        (record {
          same_id = refl;
          flow = at h Flow.skip_employer;
          last = refl;
          financed = unfinanced;
        })
        _ refl)

  pub on_credit_check_completed-Advances :
      (msg : CreditCheckCompleted N) (x : Loaned N) (session : Session (LoanMessage N) V T)
      → x.fields.status ≡ Status.credit_check_pending
      → Ensures (Advances "CreditCheckCompleted" x) (on_credit_check_completed host msg x session)
  unfolding on_credit_check_completed
  on_credit_check_completed-Advances msg x session h =
      elim (Bool-cases (host.numbers.is_below msg.credit_score (host.numbers.literal 580))) [
        | inl low ↦ rw low (deny_credit-Advances msg x session h)
        | inr fine ↦
            rw fine
              (elim (Bool-cases (
                is_employed x.fields.applicant_info.employment_status
                && truthy (x.fields.applicant_info.employer_name <?> ""))) [
                  | inl asked ↦ rw asked (ask_employer-Advances msg _ x session h)
                  | inr skipped ↦ rw skipped (ask_documents-Advances msg x session h)
                ])
      ]

  pub on_credit_check_failed-Advances :
      (msg : CreditCheckFailed) (x : Loaned N) (session : Session (LoanMessage N) V T)
      → x.fields.status ≡ Status.credit_check_pending
      → Ensures (Advances "CreditCheckFailed" x) (on_credit_check_failed host msg x session)
  unfolding on_credit_check_failed
  on_credit_check_failed-Advances msg x session h =
      cancel_for-Advances "CreditCheckFailed" _ _ _ _ x session (at h Flow.no_credit)

  pub on_employment_verified-Advances :
      (msg : EmploymentVerified N) (x : Loaned N) (session : Session (LoanMessage N) V T)
      → x.fields.status ≡ Status.employment_verification_pending
      → Ensures (Advances "EmploymentVerified" x) (on_employment_verified host msg x session)
  unfolding on_employment_verified iso_now
  on_employment_verified-Advances msg x session h =
      Ensures-after _ (publish_loan host _ session) _ (λ u s.
        going-Advances host "EmploymentVerified" x _ _ _
          (record { same_id = refl; flow = at h Flow.employed; last = refl; financed = unfinanced })
          _ refl)

  pub on_employment_verification_failed-Advances :
      (msg : EmploymentVerificationFailed) (x : Loaned N) (session : Session (LoanMessage N) V T)
      → x.fields.status ≡ Status.employment_verification_pending
      → Ensures
          (Advances "EmploymentVerificationFailed" x)
          (on_employment_verification_failed host msg x session)
  unfolding on_employment_verification_failed
  on_employment_verification_failed-Advances msg x session h =
      Ensures-after _ (publish_loan host _ session) _ (λ u s.
        going-Advances host "EmploymentVerificationFailed" x _ _ _
          (record { same_id = refl; flow = at h Flow.flagged; last = refl; financed = unfinanced })
          _ refl)
