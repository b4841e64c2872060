-- ===== src/Sagas/Loan/Handlers/Decisions.antt =====
-- packages/examples-shared/src/sagas/LoanApplicationSaga.ts: underwriting, the offer, the
-- disbursement and the cancellation.
use saga_bus.Sagas.Loan.Application.{Loan}
use saga_bus.Sagas.Loan.Messages.{
  application_completed, disbursement_requested, loan_approved, loan_offer_sent,
}
use saga_bus.Sagas.Loan.Messages.Offers.{
  ApplicationCancelled, DisbursementCompleted, DisbursementFailed, LoanApproved, LoanOfferAccepted,
  LoanOfferDeclined, LoanOfferExpired, UnderwritingApproved, UnderwritingDenied,
  UnderwritingPendingReview,
}
use saga_bus.Errors.{other}
use mathlib.Core.Option
use saga_bus.Sagas.Loan.Platform.{
  calculate_first_payment_date, calculate_monthly_payment, iso_now, read_clock,
}
use saga_bus.Sagas.Loan.Status.{Status}
use saga_bus.Sagas.Loan.Steps.{Handled, Host, Loaned, completing, ending, going, publish_loan}
use saga_bus.Sagas.Loan.Types.{Decision, ach, applicant, system}
use saga_bus.Prelude.{◌+◌, ◌*◌, Option, none, some, [], ◌∷◌, ◌<?>◌}
use saga_bus.Prelude.Exec.{throw, ◌>>=◌, ◌>>◌}
use saga_bus.Prelude.Texts.{◌<>◌}

-- `{ ...state.loan! }`
unfoldable pub spread_loan : {N : Type 0} → Option (Loan N) → Loan N
spread_loan none = record {
  terms = none;
  offer_expires_at = none;
  accepted_at = none;
  e_signature_id = none;
}
spread_loan (some loan) = loan

module _ {N V T : Type 0} (host : Host N T) where
  unfoldable pub on_underwriting_approved : UnderwritingApproved N → Loaned N → Handled N V T
  on_underwriting_approved msg state = do
    first_payment_date ← calculate_first_payment_date host.platform host.calendar
    publish_loan host (
        loan_approved (record {
          application_id = msg.application_id;
          loan_id = "LOAN-" <> msg.application_id;
          approved_amount = msg.approved_amount;
          interest_rate = msg.interest_rate;
          monthly_payment = monthly_payment;
          first_payment_date = first_payment_date;
        }))
    decided_at ← iso_now host.platform
    going host state
        (record (state.fields) {
          underwriting = some (record {
            underwriter_id = msg.underwriter_id;
            decision = Decision.approved;
            approved_amount = some msg.approved_amount;
            interest_rate = some msg.interest_rate;
            conditions = msg.conditions;
            risk_score = some msg.risk_score;
            denial_reason = none;
            decided_at = decided_at;
          });
          loan = some (record {
            terms = some (record {
              loan_id = "LOAN-" <> msg.application_id;
              approved_amount = msg.approved_amount;
              interest_rate = msg.interest_rate;
              monthly_payment = monthly_payment;
              first_payment_date = first_payment_date;
            });
            offer_expires_at = none;
            accepted_at = none;
            e_signature_id = none;
          });
        })
        Status.approved ((Status.underwriting_approved, none) ∷ (Status.approved, none) ∷ [])
    where
      monthly_payment : N
      monthly_payment =
          calculate_monthly_payment host.numbers msg.approved_amount msg.interest_rate
            state.fields.term_months

  unfoldable pub on_underwriting_denied : UnderwritingDenied → Loaned N → Handled N V T
  on_underwriting_denied msg state = do
    completing
    decided_at ← iso_now host.platform
    ending host state
        (record (state.fields) {
          underwriting = some (record {
            underwriter_id = msg.underwriter_id;
            decision = Decision.denied;
            approved_amount = none;
            interest_rate = none;
            conditions = [];
            risk_score = none;
            denial_reason = some msg.reason;
            decided_at = decided_at;
          });
        })
        Status.denied ((Status.underwriting_denied, some msg.reason) ∷ (Status.denied, none) ∷ [])

  unfoldable pub on_underwriting_pending_review :
      UnderwritingPendingReview → Loaned N → Handled N V T
  on_underwriting_pending_review msg state =
      going host state state.fields Status.underwriting_review
        ((Status.underwriting_review, some msg.reason) ∷ [])

  -- The offer lasts for 14 days.
  unfoldable pub on_loan_approved : LoanApproved N → Loaned N → Handled N V T
  on_loan_approved msg state = do
    now ← read_clock host.platform
    publish_loan host (
        loan_offer_sent (record {
          application_id = msg.application_id;
          loan_id = msg.loan_id;
          offer_expires_at = host.platform.dates.to_iso (now + 14 * 24 * 60 * 60 * 1000);
        }))
    going host state
        (record (state.fields) {
          loan = some (record (spread_loan state.fields.loan) {
            offer_expires_at = some (host.platform.dates.to_iso (now + 14 * 24 * 60 * 60 * 1000));
          });
        })
        Status.offer_sent ((Status.offer_sent, none) ∷ [])

  -- `state.loan!.approvedAmount` throws on a state without a loan; of a loan without terms it is
  -- undefined, which the type of the message leaves out.
  unfoldable pub accept_offer : LoanOfferAccepted → Loaned N → Option (Loan N) → Handled N V T
  accept_offer msg state none =
      throw (other "TypeError" "Cannot read properties of undefined (reading 'approvedAmount')")
  accept_offer msg state (some loan) = do
    publish_loan host (
        disbursement_requested (record {
          application_id = msg.application_id;
          loan_id = msg.loan_id;
          amount = Option.map (λ t. t.approved_amount) loan.terms;
          disbursement_method = ach;
          account_details = none;
        }))
    going host state
        (record (state.fields) {
          loan = some (record loan {
            accepted_at = some msg.accepted_at;
            e_signature_id = some msg.e_signature_id;
          });
        })
        Status.disbursement_pending
        ((Status.offer_accepted, none) ∷ (Status.disbursement_pending, none) ∷ [])

  unfoldable pub on_loan_offer_accepted : LoanOfferAccepted → Loaned N → Handled N V T
  on_loan_offer_accepted msg state = accept_offer msg state state.fields.loan

  unfoldable pub on_loan_offer_declined : LoanOfferDeclined → Loaned N → Handled N V T
  on_loan_offer_declined msg state = do
    completing
    cancelled_at ← iso_now host.platform
    ending host state
        (record (state.fields) {
          cancellation = some (record {
            reason = msg.reason <?> "Applicant declined offer";
            cancelled_by = applicant;
            cancelled_at = cancelled_at;
          });
        })
        Status.offer_declined ((Status.offer_declined, msg.reason) ∷ [])

  unfoldable pub on_loan_offer_expired : LoanOfferExpired → Loaned N → Handled N V T
  on_loan_offer_expired msg state = do
    completing
    cancelled_at ← iso_now host.platform
    ending host state
        (record (state.fields) {
          cancellation = some (record {
            reason = "Loan offer expired";
            cancelled_by = system;
            cancelled_at = cancelled_at;
          });
        })
        Status.offer_expired ((Status.offer_expired, none) ∷ [])

  unfoldable pub on_disbursement_completed : DisbursementCompleted N → Loaned N → Handled N V T
  on_disbursement_completed msg state = do
    told_at ← iso_now host.platform
    publish_loan host (
        application_completed (record {
          application_id = msg.application_id;
          loan_id = msg.loan_id;
          completed_at = told_at;
        }))
    completing
    completed_at ← iso_now host.platform
    ending host state
        (record (state.fields) {
          disbursement = some (record {
            disbursement_id = msg.disbursement_id;
            amount = msg.amount;
            method = ach;
            disbursed_at = msg.disbursed_at;
            confirmation_number = msg.confirmation_number;
          });
          completed_at = some completed_at;
        })
        Status.completed ((Status.disbursement_completed, none) ∷ (Status.completed, none) ∷ [])

  -- The status stays disbursement_pending: the guard passed in it.
  unfoldable pub on_disbursement_failed : DisbursementFailed → Loaned N → Handled N V T
  on_disbursement_failed msg state = going host state state.fields state.fields.status (
      (Status.disbursement_failed, some msg.reason)
      ∷ (Status.disbursement_pending, some "Retrying disbursement")
      ∷ [])

  unfoldable pub on_application_cancelled : ApplicationCancelled → Loaned N → Handled N V T
  on_application_cancelled msg state = do
    completing
    cancelled_at ← iso_now host.platform
    ending host state
        (record (state.fields) {
          cancellation = some (record {
            reason = msg.reason;
            cancelled_by = msg.cancelled_by;
            cancelled_at = cancelled_at;
          });
        })
        Status.cancelled ((Status.cancelled, some msg.reason) ∷ [])
