-- ===== src/Sagas/Loan/Ended.antt =====
-- An application that has ended, in packages/examples-shared/src/sagas/LoanApplicationSaga.ts.
use saga_bus.Context.{Session}
use saga_bus.Dsl.{handle}
use saga_bus.Sagas.Loan.Flow.{is_terminal}
use saga_bus.Sagas.Loan.Machine.{in_progress}
use saga_bus.Sagas.Loan.Messages.{
  LoanMessage, sent, loan_application_submitted, identity_verified, identity_verification_failed,
  credit_check_completed, credit_check_failed, employment_verified, employment_verification_failed,
  documents_received, documents_verified, document_verification_failed, appraisal_completed,
  appraisal_failed, underwriting_approved, underwriting_denied, underwriting_pending_review,
  loan_approved, loan_offer_accepted, loan_offer_declined, loan_offer_expired,
  disbursement_completed, disbursement_failed, application_cancelled,
}
use saga_bus.Sagas.Loan.Soundness.{unchanged}
use saga_bus.Sagas.Loan.Status.{Status, Status-discrete, is_status}
use saga_bus.Sagas.Loan.Steps.{Handled, Host, Loaned}
use saga_bus.Sagas.Loan.Turn.{guarded, handle-turn, saga, turn}
use saga_bus.Prelude.{sym, ◌≢◌, ◌||◌, ◌≡◌, refl, ap, ◌∙◌, Bool, true, false, arith}
use saga_bus.Prelude.Exec.{ok, pure}

-- No guard passes in a status that ends an application.
terminal-is_status :
    (s t : Status) → is_terminal s ≡ false → is_terminal t ≡ true → is_status t s ≡ false
terminal-is_status s t h ended = elim (Status-discrete t s) [
  | yes same ↦ absurd (false-ne-true (sym h ∙ ap is_terminal (sym same) ∙ ended))
  | no differs ↦ ground arith
]
  where
    false-ne-true : false ≢ true
    false-ne-true = cc

terminal-is_either :
    (s u t : Status)
    → is_terminal s ≡ false
    → is_terminal u ≡ false
    → is_terminal t ≡ true
    → (is_status t s || is_status t u) ≡ false
terminal-is_either s u t h k ended =
    ap (λ b. b || is_status t u) (terminal-is_status s t h ended) ∙ terminal-is_status u t k ended

terminal-in_progress :
    {N : Type 0} (x : Loaned N) → is_terminal x.fields.status ≡ true → in_progress x ≡ false
terminal-in_progress x ended = ground arith

module _ {N V T : Type 0} (host : Host N T) where
  passed_over :
      {b : Bool} (handler : Handled N V T) (x : Loaned N)
      → b ≡ false
      → guarded host b handler x ≡ pure (unchanged x)
  unfolding guarded
  passed_over handler x h = ap (λ c. guarded host c handler x) h

  turn-terminal :
      (m : LoanMessage N) (x : Loaned N)
      → is_terminal x.fields.status ≡ true
      → turn {V = V} host m x ≡ pure (unchanged x)
  unfolding turn
  turn-terminal (loan_application_submitted m) x ended =
      passed_over _ x (terminal-is_status _ _ refl ended)
  turn-terminal (identity_verified m) x ended = passed_over _ x (terminal-is_status _ _ refl ended)
  turn-terminal (identity_verification_failed m) x ended =
      passed_over _ x (terminal-is_status _ _ refl ended)
  turn-terminal (credit_check_completed m) x ended =
      passed_over _ x (terminal-is_status _ _ refl ended)
  turn-terminal (credit_check_failed m) x ended =
      passed_over _ x (terminal-is_status _ _ refl ended)
  turn-terminal (employment_verified m) x ended =
      passed_over _ x (terminal-is_status _ _ refl ended)
  turn-terminal (employment_verification_failed m) x ended =
      passed_over _ x (terminal-is_status _ _ refl ended)
  turn-terminal (documents_received m) x ended = passed_over _ x (terminal-is_status _ _ refl ended)
  turn-terminal (documents_verified m) x ended = passed_over _ x (terminal-is_status _ _ refl ended)
  turn-terminal (document_verification_failed m) x ended =
      passed_over _ x (terminal-is_either _ _ _ refl refl ended)
  turn-terminal (appraisal_completed m) x ended =
      passed_over _ x (terminal-is_status _ _ refl ended)
  turn-terminal (appraisal_failed m) x ended = passed_over _ x (terminal-is_status _ _ refl ended)
  turn-terminal (underwriting_approved m) x ended =
      passed_over _ x (terminal-is_either _ _ _ refl refl ended)
  turn-terminal (underwriting_denied m) x ended =
      passed_over _ x (terminal-is_either _ _ _ refl refl ended)
  turn-terminal (underwriting_pending_review m) x ended =
      passed_over _ x (terminal-is_status _ _ refl ended)
  turn-terminal (loan_approved m) x ended = passed_over _ x (terminal-is_status _ _ refl ended)
  turn-terminal (loan_offer_accepted m) x ended =
      passed_over _ x (terminal-is_status _ _ refl ended)
  turn-terminal (loan_offer_declined m) x ended =
      passed_over _ x (terminal-is_status _ _ refl ended)
  turn-terminal (loan_offer_expired m) x ended = passed_over _ x (terminal-is_status _ _ refl ended)
  turn-terminal (disbursement_completed m) x ended =
      passed_over _ x (terminal-is_status _ _ refl ended)
  turn-terminal (disbursement_failed m) x ended =
      passed_over _ x (terminal-is_status _ _ refl ended)
  turn-terminal (application_cancelled m) x ended = passed_over _ x (terminal-in_progress x ended)
  turn-terminal _ x ended = refl

  -- Once an application has ended, no message of the saga changes it, publishes anything or reads
  -- the clock.
  pub handle-terminal :
      (m : LoanMessage N) (x : Loaned N) (session : Session (LoanMessage N) V T)
      → is_terminal x.fields.status ≡ true
      → handle (saga host) (sent m) x session ≡ (ok (unchanged x), session)
  handle-terminal m x session ended =
      ap (λ f. f session) (handle-turn host m x ∙ turn-terminal m x ended)
