-- ===== src/Sagas/Loan/Returning.antt =====
-- The handlers of packages/examples-shared/src/sagas/LoanApplicationSaga.ts return, where the transport
-- takes what they publish.
pub mod Screening
pub mod Documents
pub mod Decisions
use saga_bus.Context.{Context, check_delay, publish, send}
use saga_bus.Messages.{Message, PublishOptions}
use saga_bus.Interfaces.{Env}
use saga_bus.Sagas.Loan.Steps.{stamp, advance}
use saga_bus.Errors.{Error}
use saga_bus.Prelude.Exec.{Returns, Returns-of, Returns-resume}
use saga_bus.Sagas.Loan.Turn.{guarded, handle-turn, saga, turn}
use saga_bus.Sagas.Loan.Messages.{
  sent, loan_application_submitted, identity_verified, identity_verification_failed,
  credit_check_completed, credit_check_failed, employment_verified, employment_verification_failed,
  documents_received, documents_verified, document_verification_failed, appraisal_completed,
  appraisal_failed, underwriting_approved, underwriting_denied, underwriting_pending_review,
  loan_approved, loan_offer_accepted, loan_offer_declined, loan_offer_expired,
  disbursement_completed, disbursement_failed, application_cancelled,
}
use saga_bus.Dsl.{handle}
use saga_bus.Sagas.Loan.Machine.{in_status, in_either, in_progress}
use saga_bus.Sagas.Loan.Soundness.{is_status-eq}
use saga_bus.Prelude.{ℕ}
use saga_bus.Prelude.Exec.{Returns-ok, Result, ok}
use saga_bus.State.{HandlerResult}
use saga_bus.Context.{Session, set_timeout}
use saga_bus.Prelude.Int.{pos}
use saga_bus.Sagas.Loan.Application.{Application, LoanTerms}
use saga_bus.Sagas.Loan.Flow
use saga_bus.Sagas.Loan.Flow.{Flow, is_terminal}
use saga_bus.Sagas.Loan.Handlers.Screening.{
  cancel_for, on_submitted, on_identity_verified, on_identity_verification_failed, deny_credit,
  ask_employer, ask_documents, is_employed, on_credit_check_completed, on_credit_check_failed,
}
use saga_bus.Sagas.Loan.Handlers.Employment.{
  on_employment_verified, on_employment_verification_failed,
}
use saga_bus.Sagas.Loan.Handlers.Documents.{
  is_mortgage, is_rejected, reviewed, reject_documents, ask_appraisal, ask_underwriter, proceed,
  accept_or_reject, on_documents_received, on_documents_verified, on_document_verification_failed,
  on_appraisal_completed, on_appraisal_failed,
}
use saga_bus.Sagas.Loan.Handlers.Decisions.{
  on_underwriting_approved, on_underwriting_denied, on_underwriting_pending_review,
  on_loan_approved, on_loan_offer_accepted, on_loan_offer_declined, on_loan_offer_expired,
  on_disbursement_completed, on_disbursement_failed, on_application_cancelled, accept_offer,
  spread_loan,
}
use saga_bus.Sagas.Loan.Messages.{LoanMessage}
use saga_bus.Sagas.Loan.Messages.Checks.{
  LoanApplicationSubmitted, IdentityVerified, IdentityVerificationFailed, CreditCheckCompleted,
  CreditCheckFailed, EmploymentVerified, EmploymentVerificationFailed, DocumentsReceived,
  DocumentsVerified, DocumentVerificationFailed, VerificationResult,
}
use saga_bus.Sagas.Loan.Messages.Offers.{
  AppraisalCompleted, AppraisalFailed, UnderwritingApproved, UnderwritingDenied,
  UnderwritingPendingReview, LoanApproved, LoanOfferAccepted, LoanOfferDeclined, LoanOfferExpired,
  DisbursementCompleted, DisbursementFailed, ApplicationCancelled,
}
use saga_bus.Sagas.Loan.Platform.{iso_now, read_clock, calculate_first_payment_date}
use saga_bus.Sagas.Loan.Progress.{
  Advances, IsMove, IsSound, going-Advances, ending-Advances, at, unfinanced, terms_of,
}
use saga_bus.Sagas.Loan.Status.{Status}
use saga_bus.Sagas.Loan.Steps.{Handled, Host, Loaned, completing, ending, going, publish_loan}
use saga_bus.Sagas.Loan.Types.{PropertyInfo}
use saga_bus.Sagas.Loan.Application.{DocumentRecord, Loan}
use saga_bus.Prelude.{
  ◌*◌, String, ◌≡◌, refl, sym, ap, ◌∙◌, subst, Bool, Bool-cases, inl, inr, true, false, ◌&&◌,
  Option, none, some, List, [], ◌∷◌, keep, if◌then◌else◌, truthy, ◌<?>◌, map, arith, ◌⊎◌,
}
use saga_bus.Prelude.Exec.{Ensures, Ensures-after, Ensures-ok, ◌>>=◌}

-- The transport does not throw, and 7 days are in the bounds of a timeout.
pub record IsQuiet {N V T : Type 0} (host : Host N T) (ctx : Context (LoanMessage N) V)
    : Type 0 where
  pub published :
      (m : Message (LoanMessage N)) (options : PublishOptions) (t : T)
      → Returns (host.transport.publish m options t)
  pub in_bounds :
      check_delay ctx.timeout_bounds (pos (7 * 24 * 60 * 60 * 1000)) ≡ ok (7 * 24 * 60 * 60 * 1000)

module _ {N V T : Type 0} (host : Host N T) where
  pub stamp-Returns :
      (entries : List (Status × Option String)) (session : Session (LoanMessage N) V T)
      → Returns (stamp host entries session)
  unfolding stamp iso_now
  stamp-Returns [] session = tt
  stamp-Returns (e ∷ entries) (ctx, env) =
      Returns-resume (stamp host entries _) _ (stamp-Returns entries _) (λ rest. tt)

  module _ (x : Loaned N) (fields : Application N) (status : Status)
      (entries : List (Status × Option String)) (session : Session (LoanMessage N) V T) where
    pub advance-Returns : Returns (advance host x fields status entries session)
    unfolding advance iso_now
    advance-Returns =
        Returns-resume (stamp host entries session) _ (stamp-Returns entries session)
          (λ history. tt)

    pub going-Returns : Returns (going host x fields status entries session)
    unfolding going
    going-Returns =
        Returns-resume (advance host x fields status entries session) _ advance-Returns (λ y. tt)

    pub ending-Returns : Returns (ending host x fields status entries session)
    unfolding ending
    ending-Returns =
        Returns-resume (advance host x fields status entries session) _ advance-Returns (λ y. tt)

module _ {N V T : Type 0} (host : Host N T) (ctx : Context (LoanMessage N) V) (env : Env T)
    (quiet : IsQuiet host ctx) where
  pub publish-Returns :
      (m : LoanMessage N) (env' : Env T) → Returns (publish_loan host m (ctx, env'))
  unfolding publish send
  publish-Returns m env' =
      let (a, h) = Returns-ok _ (quiet.published (sent m) _ env'.transport) in
      Returns-of (publish_loan host m (ctx, env')) h

  pub set-Returns :
      (env' : Env T)
      → Returns (set_timeout host.platform (pos (7 * 24 * 60 * 60 * 1000)) (ctx, env'))
  unfolding set_timeout
  set-Returns env' = rw (quiet.in_bounds, Returns) tt
