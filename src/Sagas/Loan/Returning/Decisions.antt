-- ===== src/Sagas/Loan/Returning/Decisions.antt =====
-- The handlers of packages/examples-shared/src/sagas/LoanApplicationSaga.ts for the decisions return.
use saga_bus.Sagas.Loan.Returning.{IsQuiet, publish-Returns, going-Returns, ending-Returns}
use saga_bus.Context.{Context}
use saga_bus.Interfaces.{Env}
use saga_bus.Prelude.Exec.{Returns, Returns-resume}
use saga_bus.Sagas.Loan.Application.{LoanTerms}
use saga_bus.Sagas.Loan.Handlers.Decisions.{
  on_underwriting_approved, on_underwriting_denied, on_underwriting_pending_review,
  on_loan_approved, on_loan_offer_accepted, on_loan_offer_declined, on_loan_offer_expired,
  on_disbursement_completed, on_disbursement_failed, on_application_cancelled, accept_offer,
}
use saga_bus.Sagas.Loan.Messages.{LoanMessage}
use saga_bus.Sagas.Loan.Messages.Offers.{
  UnderwritingApproved, UnderwritingDenied, UnderwritingPendingReview, LoanApproved,
  LoanOfferAccepted, LoanOfferDeclined, LoanOfferExpired, DisbursementCompleted, DisbursementFailed,
  ApplicationCancelled,
}
use saga_bus.Sagas.Loan.Platform.{iso_now, read_clock, calculate_first_payment_date}
use saga_bus.Sagas.Loan.Progress.{IsSound, terms_of}
use saga_bus.Sagas.Loan.Status.{Status}
use saga_bus.Sagas.Loan.Steps.{Host, Loaned, publish_loan}
use saga_bus.Sagas.Loan.Application.{Loan}
use saga_bus.Prelude.{◌≡◌, refl, Option, none, some}

module _ {N V T : Type 0} (host : Host N T) (ctx : Context (LoanMessage N) V) (env : Env T)
    (quiet : IsQuiet host ctx) where
  pub on_underwriting_approved-Returns :
      (msg : UnderwritingApproved N) (x : Loaned N)
      → Returns (on_underwriting_approved host msg x (ctx, env))
  unfolding on_underwriting_approved iso_now calculate_first_payment_date
  on_underwriting_approved-Returns msg x =
      Returns-resume (publish_loan host _ (ctx, _)) _ (publish-Returns host ctx env quiet _ _)
        (λ u. going-Returns host x _ _ _ _)

  pub on_underwriting_denied-Returns :
      (msg : UnderwritingDenied) (x : Loaned N)
      → Returns (on_underwriting_denied host msg x (ctx, env))
  unfolding on_underwriting_denied iso_now
  on_underwriting_denied-Returns msg x = ending-Returns host x _ _ _ _

  pub on_underwriting_pending_review-Returns :
      (msg : UnderwritingPendingReview) (x : Loaned N)
      → Returns (on_underwriting_pending_review host msg x (ctx, env))
  unfolding on_underwriting_pending_review
  on_underwriting_pending_review-Returns msg x = going-Returns host x _ _ _ _

  pub on_loan_approved-Returns :
      (msg : LoanApproved N) (x : Loaned N) → Returns (on_loan_approved host msg x (ctx, env))
  unfolding on_loan_approved read_clock
  on_loan_approved-Returns msg x =
      Returns-resume (publish_loan host _ (ctx, _)) _ (publish-Returns host ctx env quiet _ _)
        (λ u. going-Returns host x _ _ _ _)

  pub accept_offer-Returns :
      (msg : LoanOfferAccepted) (x : Loaned N) (o : Option (Loan N)) {t : LoanTerms N}
      → terms_of o ≡ some t
      → Returns (accept_offer host msg x o (ctx, env))
  unfolding accept_offer
  accept_offer-Returns msg x none h = absurd (cc h)
  accept_offer-Returns msg x (some loan) h =
      Returns-resume (publish_loan host _ (ctx, env)) _ (publish-Returns host ctx env quiet _ _)
        (λ u. going-Returns host x _ _ _ _)

  pub on_loan_offer_accepted-Returns :
      (msg : LoanOfferAccepted) (x : Loaned N)
      → IsSound x.fields
      → x.fields.status ≡ Status.offer_sent
      → Returns (on_loan_offer_accepted host msg x (ctx, env))
  unfolding on_loan_offer_accepted
  on_loan_offer_accepted-Returns msg x sound h =
      let (t, there) = sound.financed (rw h refl) in accept_offer-Returns msg x x.fields.loan there

  pub on_loan_offer_declined-Returns :
      (msg : LoanOfferDeclined) (x : Loaned N)
      → Returns (on_loan_offer_declined host msg x (ctx, env))
  unfolding on_loan_offer_declined iso_now
  on_loan_offer_declined-Returns msg x = ending-Returns host x _ _ _ _

  pub on_loan_offer_expired-Returns :
      (msg : LoanOfferExpired) (x : Loaned N)
      → Returns (on_loan_offer_expired host msg x (ctx, env))
  unfolding on_loan_offer_expired iso_now
  on_loan_offer_expired-Returns msg x = ending-Returns host x _ _ _ _

  pub on_disbursement_completed-Returns :
      (msg : DisbursementCompleted N) (x : Loaned N)
      → Returns (on_disbursement_completed host msg x (ctx, env))
  unfolding on_disbursement_completed iso_now
  on_disbursement_completed-Returns msg x =
      Returns-resume (publish_loan host _ (ctx, _)) _ (publish-Returns host ctx env quiet _ _)
        (λ u. ending-Returns host x _ _ _ _)

  pub on_disbursement_failed-Returns :
      (msg : DisbursementFailed) (x : Loaned N)
      → Returns (on_disbursement_failed host msg x (ctx, env))
  unfolding on_disbursement_failed
  on_disbursement_failed-Returns msg x = going-Returns host x _ _ _ _

  pub on_application_cancelled-Returns :
      (msg : ApplicationCancelled) (x : Loaned N)
      → Returns (on_application_cancelled host msg x (ctx, env))
  unfolding on_application_cancelled iso_now
  on_application_cancelled-Returns msg x = ending-Returns host x _ _ _ _
