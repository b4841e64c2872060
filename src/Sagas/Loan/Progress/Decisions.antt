-- ===== src/Sagas/Loan/Progress/Decisions.antt =====
-- The handlers of packages/examples-shared/src/sagas/LoanApplicationSaga.ts from the underwriting on
-- follow the flow.
use saga_bus.Context.{Session}
use saga_bus.Sagas.Loan.Application.{LoanTerms}
use saga_bus.Sagas.Loan.Flow.{Flow, is_terminal}
use saga_bus.Sagas.Loan.Handlers.Decisions.{
  on_underwriting_approved, on_underwriting_denied, on_underwriting_pending_review,
  on_loan_approved, on_loan_offer_accepted, on_loan_offer_declined, on_loan_offer_expired,
  on_disbursement_completed, on_disbursement_failed, on_application_cancelled, accept_offer,
  spread_loan,
}
use saga_bus.Sagas.Loan.Messages.{LoanMessage}
use saga_bus.Sagas.Loan.Messages.Offers.{
  UnderwritingApproved, UnderwritingDenied, UnderwritingPendingReview, LoanApproved,
  LoanOfferAccepted, LoanOfferDeclined, LoanOfferExpired, DisbursementCompleted, DisbursementFailed,
  ApplicationCancelled,
}
use saga_bus.Sagas.Loan.Platform.{iso_now, read_clock, calculate_first_payment_date}
use saga_bus.Sagas.Loan.Progress.{
  Advances, IsSound, going-Advances, ending-Advances, at, unfinanced, terms_of,
}
use saga_bus.Sagas.Loan.Status.{Status}
use saga_bus.Sagas.Loan.Steps.{Host, Loaned, publish_loan}
use saga_bus.Sagas.Loan.Application.{Loan}
use saga_bus.Prelude.{◌≡◌, refl, sym, ap, subst, inl, inr, false, Option, none, some, ◌⊎◌}
use saga_bus.Prelude.Exec.{Ensures, Ensures-after}

keeps_terms :
    {N : Type 0} (o : Option (Loan N)) {t : LoanTerms N}
    → terms_of o ≡ some t
    → (spread_loan o).terms ≡ some t
unfolding spread_loan
keeps_terms none h = h
keeps_terms (some loan) h = h

module _ {N V T : Type 0} (host : Host N T) where
  pub on_underwriting_approved-Advances :
      (msg : UnderwritingApproved N) (x : Loaned N) (session : Session (LoanMessage N) V T)
      → (x.fields.status ≡ Status.underwriting_pending)
        ⊎ (x.fields.status ≡ Status.underwriting_review)
      → Ensures (Advances "UnderwritingApproved" x) (on_underwriting_approved host msg x session)
  unfolding on_underwriting_approved iso_now calculate_first_payment_date
  on_underwriting_approved-Advances msg x session h =
      Ensures-after _ (publish_loan host _ _) _ (λ u s.
        going-Advances host "UnderwritingApproved" x _ _ _
          (record {
            same_id = refl;
            flow = elim h [ inl e ↦ at e Flow.approve | inr e ↦ at e Flow.approve_review ];
            last = refl;
            financed = λ e. (_, refl);
          })
          _ refl)

  pub on_underwriting_denied-Advances :
      (msg : UnderwritingDenied) (x : Loaned N) (session : Session (LoanMessage N) V T)
      → (x.fields.status ≡ Status.underwriting_pending)
        ⊎ (x.fields.status ≡ Status.underwriting_review)
      → Ensures (Advances "UnderwritingDenied" x) (on_underwriting_denied host msg x session)
  unfolding on_underwriting_denied iso_now
  on_underwriting_denied-Advances msg x session h =
      ending-Advances host "UnderwritingDenied" x _ _ _
        (record {
          same_id = refl;
          flow = elim h [ inl e ↦ at e Flow.deny | inr e ↦ at e Flow.deny_review ];
          last = refl;
          financed = unfinanced;
        })
        _ refl

  pub on_underwriting_pending_review-Advances :
      (msg : UnderwritingPendingReview) (x : Loaned N) (session : Session (LoanMessage N) V T)
      → x.fields.status ≡ Status.underwriting_pending
      → Ensures
          (Advances "UnderwritingPendingReview" x)
          (on_underwriting_pending_review host msg x session)
  unfolding on_underwriting_pending_review
  on_underwriting_pending_review-Advances msg x session h =
      going-Advances host "UnderwritingPendingReview" x _ _ _
        (record { same_id = refl; flow = at h Flow.review; last = refl; financed = unfinanced }) _
        refl

  pub on_loan_approved-Advances :
      (msg : LoanApproved N) (x : Loaned N) (session : Session (LoanMessage N) V T)
      → x.fields.status ≡ Status.approved
      → IsSound x.fields
      → Ensures (Advances "LoanApproved" x) (on_loan_approved host msg x session)
  unfolding on_loan_approved read_clock
  on_loan_approved-Advances msg x session h sound =
      let (t, there) = sound.financed (rw h refl) in
      Ensures-after _ (publish_loan host _ _) _ (λ u s.
        going-Advances host "LoanApproved" x _ _ _
          (record {
            same_id = refl;
            flow = at h Flow.offer;
            last = refl;
            financed = λ e. (t, keeps_terms x.fields.loan there);
          })
          _ refl)

  accept_offer-Advances :
      (msg : LoanOfferAccepted) (x : Loaned N) (o : Option (Loan N))
      (session : Session (LoanMessage N) V T)
      → x.fields.status ≡ Status.offer_sent
      → (t : LoanTerms N) × (terms_of o ≡ some t)
      → Ensures (Advances "LoanOfferAccepted" x) (accept_offer host msg x o session)
  unfolding accept_offer
  accept_offer-Advances msg x none session h has = tt
  accept_offer-Advances msg x (some loan) session h has =
      Ensures-after _ (publish_loan host _ session) _ (λ u s.
        going-Advances host "LoanOfferAccepted" x _ _ _
          (record { same_id = refl; flow = at h Flow.accept; last = refl; financed = λ e. has }) _
          refl)

  pub on_loan_offer_accepted-Advances :
      (msg : LoanOfferAccepted) (x : Loaned N) (session : Session (LoanMessage N) V T)
      → x.fields.status ≡ Status.offer_sent
      → IsSound x.fields
      → Ensures (Advances "LoanOfferAccepted" x) (on_loan_offer_accepted host msg x session)
  unfolding on_loan_offer_accepted
  on_loan_offer_accepted-Advances msg x session h sound =
      accept_offer-Advances msg x x.fields.loan session h (sound.financed (rw h refl))

  pub on_loan_offer_declined-Advances :
      (msg : LoanOfferDeclined) (x : Loaned N) (session : Session (LoanMessage N) V T)
      → x.fields.status ≡ Status.offer_sent
      → IsSound x.fields
      → Ensures (Advances "LoanOfferDeclined" x) (on_loan_offer_declined host msg x session)
  unfolding on_loan_offer_declined iso_now
  on_loan_offer_declined-Advances msg x session h sound =
      ending-Advances host "LoanOfferDeclined" x _ _ _
        (record {
          same_id = refl;
          flow = at h Flow.decline;
          last = refl;
          financed = λ e. sound.financed (rw h refl);
        })
        _ refl

  pub on_loan_offer_expired-Advances :
      (msg : LoanOfferExpired) (x : Loaned N) (session : Session (LoanMessage N) V T)
      → x.fields.status ≡ Status.offer_sent
      → IsSound x.fields
      → Ensures (Advances "LoanOfferExpired" x) (on_loan_offer_expired host msg x session)
  unfolding on_loan_offer_expired iso_now
  on_loan_offer_expired-Advances msg x session h sound =
      ending-Advances host "LoanOfferExpired" x _ _ _
        (record {
          same_id = refl;
          flow = at h Flow.expire;
          last = refl;
          financed = λ e. sound.financed (rw h refl);
        })
        _ refl

  pub on_disbursement_completed-Advances :
      (msg : DisbursementCompleted N) (x : Loaned N) (session : Session (LoanMessage N) V T)
      → x.fields.status ≡ Status.disbursement_pending
      → IsSound x.fields
      → Ensures (Advances "DisbursementCompleted" x) (on_disbursement_completed host msg x session)
  unfolding on_disbursement_completed iso_now
  on_disbursement_completed-Advances msg x session h sound =
      Ensures-after _ (publish_loan host _ _) _ (λ u s.
        ending-Advances host "DisbursementCompleted" x _ _ _
          (record {
            same_id = refl;
            flow = at h Flow.disburse;
            last = refl;
            financed = λ e. sound.financed (rw h refl);
          })
          _ refl)

  pub on_disbursement_failed-Advances :
      (msg : DisbursementFailed) (x : Loaned N) (session : Session (LoanMessage N) V T)
      → x.fields.status ≡ Status.disbursement_pending
      → IsSound x.fields
      → Ensures (Advances "DisbursementFailed" x) (on_disbursement_failed host msg x session)
  unfolding on_disbursement_failed
  on_disbursement_failed-Advances msg x session h sound =
      going-Advances host "DisbursementFailed" x x.fields x.fields.status _
        (record {
          same_id = refl;
          flow = subst (λ s. Flow s "DisbursementFailed" s) (sym h) Flow.retry;
          last = ap some (sym h);
          financed = sound.financed;
        })
        session (ap is_terminal h)

  pub on_application_cancelled-Advances :
      (msg : ApplicationCancelled) (x : Loaned N) (session : Session (LoanMessage N) V T)
      → is_terminal x.fields.status ≡ false
      → Ensures (Advances "ApplicationCancelled" x) (on_application_cancelled host msg x session)
  unfolding on_application_cancelled iso_now
  on_application_cancelled-Advances msg x session open_still =
      ending-Advances host "ApplicationCancelled" x _ _ _
        (record {
          same_id = refl;
          flow = Flow.cancel open_still;
          last = refl;
          financed = unfinanced;
        })
        _ refl
