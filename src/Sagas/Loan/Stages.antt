-- ===== src/Sagas/Loan/Stages.antt =====
-- From its documents on, an application of packages/examples-shared/src/sagas/LoanApplicationSaga.ts
-- can be led to the disbursement.
use saga_bus.Sagas.Loan.Reaching.{
  is_status-same, Reaches, AfterDocuments, documents-Reaches, passed, on_appraisal_completed_only,
  on_underwriting_approved_only, on_loan_approved_only, on_loan_offer_accepted_only,
  on_disbursement_completed_only,
}
use saga_bus.Context.{Context, Session}
use saga_bus.Dsl.{handle}
use saga_bus.Interfaces.{Env}
use saga_bus.State.{HandlerResult, Metadata}
use saga_bus.Sagas.Loan.Answers.{handle-Returns}
use saga_bus.Sagas.Loan.Application.{Application}
use saga_bus.Sagas.Loan.Handlers.Decisions.{
  on_underwriting_approved, on_loan_approved, on_loan_offer_accepted, on_disbursement_completed,
}
use saga_bus.Sagas.Loan.Handlers.Documents.{on_appraisal_completed, on_documents_verified}
use saga_bus.Sagas.Loan.Messages.{
  LoanMessage, sent, documents_verified, appraisal_completed, underwriting_approved, loan_approved,
  loan_offer_accepted, disbursement_completed,
}
use saga_bus.Sagas.Loan.Progress.{Advances, IsSound, at}
use saga_bus.Sagas.Loan.Progress.Documents.{on_appraisal_completed-Advances}
use saga_bus.Sagas.Loan.Progress.Decisions.{
  on_underwriting_approved-Advances, on_loan_approved-Advances, on_loan_offer_accepted-Advances,
  on_disbursement_completed-Advances,
}
use saga_bus.Sagas.Loan.Returning.{IsQuiet}
use saga_bus.Sagas.Loan.Soundness.{handle-Advances}
use saga_bus.Sagas.Loan.Status.{Status, is_status}
use saga_bus.Sagas.Loan.Steps.{Host, Loaned}
use saga_bus.Sagas.Loan.Turn.{handle-turn, saga, turn}
use saga_bus.Prelude.{◌≡◌, inl, inr, sym, ap, ◌∙◌, subst, ◌||◌, []}
use saga_bus.Prelude.Exec.{Ensures, Ensures-ok, Ensures-weaken, ok}

-- An application that can be led to its completion by messages of the saga: after each of them the
-- saga returns, whatever the metadata, the readings of the clock and the state of the transport are.
pub data IsCompletable {N V T : Type 0} (host : Host N T)
    (contexts : LoanMessage N → Context (LoanMessage N) V) : Application N → Type 0 where
  is_there : {a : Application N} → a.status ≡ Status.completed → IsCompletable host contexts a
  by_message :
      {a : Application N} (m : LoanMessage N)
      (answer : Metadata → Env T → HandlerResult (Application N))
      → ((metadata : Metadata) (env : Env T)
          → (handle
              (saga host)
              (sent m)
              (record { fields = a; metadata = metadata })
              (contexts m, env)).0
            ≡ ok (answer metadata env))
      → ((metadata : Metadata) (env : Env T)
          → IsCompletable host contexts (answer metadata env).new_state.fields)
      → IsCompletable host contexts a

module _ {N V T : Type 0} (host : Host N T) (contexts : LoanMessage N → Context (LoanMessage N) V)
    (quiet : (m : LoanMessage N) → IsQuiet host (contexts m)) (n : N) where
  pub lead :
      (P : Status → Type 0) (m : LoanMessage N) (a : Application N)
      → IsSound a
      → ((metadata : Metadata) (session : Session (LoanMessage N) V T)
          → Ensures (Reaches P) (turn host m (record { fields = a; metadata = metadata }) session))
      → ((b : Application N) → IsSound b → P b.status → IsCompletable host contexts b)
      → IsCompletable host contexts a
  lead P m a sound reached on =
      by_message m (λ md env. (next md env).0) (λ md env. (next md env).1)
        (λ md env. (next md env).2)
    where
      next :
          (metadata : Metadata) (env : Env T)
          → (r : HandlerResult (Application N)) × ((handle
                (saga host)
                (sent m)
                (record { fields = a; metadata = metadata })
                (contexts m, env)).0
              ≡ ok r)
            × IsCompletable host contexts r.new_state.fields
      next metadata env =
          let x : Loaned N = record { fields = a; metadata = metadata } in
          let (r, returned) = handle-Returns host (contexts m) env (quiet m) m x sound in
          let turned = sym (ap (λ f. (f (contexts m, env)).0) (handle-turn host m x)) ∙ returned in
          (
            r,
            returned,
            on r.new_state.fields
                (elim (handle-Advances host m x (contexts m, env) sound returned) [
                  | inl same ↦ subst (λ q. IsSound q.new_state.fields) (sym same) sound
                  | inr advances ↦ advances.sound
                ])
                (Ensures-ok (Reaches P) (turn host m x (contexts m, env))
                  (reached metadata (contexts m, env)) turned),
          )

  from_disbursement :
      (a : Application N)
      → IsSound a
      → a.status ≡ Status.disbursement_pending
      → IsCompletable host contexts a
  unfolding turn
  from_disbursement a sound h =
      lead (λ s. s ≡ Status.completed)
        (disbursement_completed (record {
          application_id = a.application_id;
          loan_id = "";
          disbursement_id = "";
          amount = n;
          disbursed_at = "";
          confirmation_number = "";
        }))
        a sound
        (λ metadata session.
          passed host _ (on_disbursement_completed host _ _) _ session (is_status-same _ _ h) (
            Ensures-weaken (Advances "DisbursementCompleted" _)
              (Reaches (λ s. s ≡ Status.completed)) (on_disbursement_completed host _ _ session)
              (λ r moved. on_disbursement_completed_only (at (sym h) moved.flow))
              (on_disbursement_completed-Advances host _ _ session h sound)))
        (λ b s k. is_there k)

  from_offer :
      (a : Application N) → IsSound a → a.status ≡ Status.offer_sent → IsCompletable host contexts a
  unfolding turn
  from_offer a sound h =
      lead (λ s. s ≡ Status.disbursement_pending)
        (loan_offer_accepted (record {
          application_id = a.application_id;
          loan_id = "";
          accepted_at = "";
          e_signature_id = "";
        }))
        a sound
        (λ metadata session.
          passed host _ (on_loan_offer_accepted host _ _) _ session (is_status-same _ _ h) (
            Ensures-weaken (Advances "LoanOfferAccepted" _)
              (Reaches (λ s. s ≡ Status.disbursement_pending))
              (on_loan_offer_accepted host _ _ session)
              (λ r moved. on_loan_offer_accepted_only (at (sym h) moved.flow))
              (on_loan_offer_accepted-Advances host _ _ session h sound)))
        from_disbursement

  from_approved :
      (a : Application N) → IsSound a → a.status ≡ Status.approved → IsCompletable host contexts a
  unfolding turn
  from_approved a sound h =
      lead (λ s. s ≡ Status.offer_sent)
        (loan_approved (record {
          application_id = a.application_id;
          loan_id = "";
          approved_amount = n;
          interest_rate = n;
          monthly_payment = n;
          first_payment_date = "";
        }))
        a sound
        (λ metadata session.
          passed host _ (on_loan_approved host _ _) _ session (is_status-same _ _ h) (
            Ensures-weaken (Advances "LoanApproved" _) (Reaches (λ s. s ≡ Status.offer_sent))
              (on_loan_approved host _ _ session)
              (λ r moved. on_loan_approved_only (at (sym h) moved.flow))
              (on_loan_approved-Advances host _ _ session h sound)))
        from_offer

  from_underwriting :
      (a : Application N)
      → IsSound a
      → a.status ≡ Status.underwriting_pending
      → IsCompletable host contexts a
  unfolding turn
  from_underwriting a sound h =
      lead (λ s. s ≡ Status.approved)
        (underwriting_approved (record {
          application_id = a.application_id;
          underwriter_id = "";
          approved_amount = n;
          interest_rate = n;
          conditions = [];
          risk_score = n;
        }))
        a sound
        (λ metadata session.
          passed host _ (on_underwriting_approved host _ _) _ session
            (ap (λ b. b || is_status a.status Status.underwriting_review) (is_status-same _ _ h))
            (Ensures-weaken (Advances "UnderwritingApproved" _) (Reaches (λ s. s ≡ Status.approved))
              (on_underwriting_approved host _ _ session)
              (λ r moved. on_underwriting_approved_only (at (sym h) moved.flow))
              (on_underwriting_approved-Advances host _ _ session (inl h))))
        from_approved

  from_appraisal :
      (a : Application N)
      → IsSound a
      → a.status ≡ Status.appraisal_pending
      → IsCompletable host contexts a
  unfolding turn
  from_appraisal a sound h =
      lead (λ s. s ≡ Status.underwriting_pending)
        (appraisal_completed (record {
          application_id = a.application_id;
          appraisal_id = "";
          appraised_value = n;
          appraisal_date = "";
          appraiser_name = "";
          loan_to_value_ratio = n;
        }))
        a sound
        (λ metadata session.
          passed host _ (on_appraisal_completed host _ _) _ session (is_status-same _ _ h) (
            Ensures-weaken (Advances "AppraisalCompleted" _)
              (Reaches (λ s. s ≡ Status.underwriting_pending))
              (on_appraisal_completed host _ _ session)
              (λ r moved. on_appraisal_completed_only (at (sym h) moved.flow))
              (on_appraisal_completed-Advances host _ _ session h)))
        from_underwriting

  pub from_received :
      (a : Application N)
      → IsSound a
      → a.status ≡ Status.documents_received
      → IsCompletable host contexts a
  unfolding turn
  from_received a sound h =
      lead AfterDocuments
        (documents_verified
          (record { application_id = a.application_id; verification_results = [] }))
        a sound
        (λ metadata session.
          passed host _ (on_documents_verified host _ _) _ session (is_status-same _ _ h)
            (documents-Reaches host a.application_id _ session))
        (λ b s k. elim k [ inl e ↦ from_appraisal b s e | inr e ↦ from_underwriting b s e ])
