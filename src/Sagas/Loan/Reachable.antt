-- ===== src/Sagas/Loan/Reachable.antt =====
-- The applications that packages/examples-shared/src/sagas/LoanApplicationSaga.ts comes to work on.
use saga_bus.Context.{Session}
use saga_bus.Dsl.{handle}
use saga_bus.State.{HandlerResult}
use saga_bus.Sagas.Loan.Application.{Application}
use saga_bus.Sagas.Loan.Messages.{LoanMessage, sent}
use saga_bus.Sagas.Loan.Messages.Checks.{LoanApplicationSubmitted}
use saga_bus.Sagas.Loan.Platform.{iso_now, read_clock}
use saga_bus.Sagas.Loan.Progress.{IsSound}
use saga_bus.Sagas.Loan.Soundness.{handle-Advances}
use saga_bus.Sagas.Loan.Start.{start_application}
use saga_bus.Sagas.Loan.Steps.{Host, Loaned}
use saga_bus.Sagas.Loan.Turn.{saga}
use saga_bus.Prelude.{String, ◌≡◌, refl, sym, subst, inl, inr}
use saga_bus.Prelude.Exec.{Ensures, Ensures-ok, ok}

module _ {N T : Type 0} (V : Type 0) (host : Host N T) where
  -- The applications that come up: one that was started, and what the saga makes of one by a message
  -- in any session, whatever the runtime did to the metadata in between.
  pub data IsReachable : Application N → Type 0 where
    started :
        (saga_id : String) (msg : LoanApplicationSubmitted N)
        (session : Session (LoanMessage N) V T) {x : Loaned N}
        → (start_application host saga_id msg session).0 ≡ ok x
        → IsReachable x.fields
    handled :
        (m : LoanMessage N) (x : Loaned N) (session : Session (LoanMessage N) V T)
        {r : HandlerResult (Application N)}
        → IsReachable x.fields
        → (handle (saga host) (sent m) x session).0 ≡ ok r
        → IsReachable r.new_state.fields

  start_application-IsSound :
      (saga_id : String) (msg : LoanApplicationSubmitted N) (session : Session (LoanMessage N) V T)
      → Ensures (λ x. IsSound x.fields) (start_application host saga_id msg session)
  unfolding start_application iso_now read_clock
  start_application-IsSound saga_id msg session = record {
    logged = refl;
    financed = λ h. absurd (cc h);
  }

  pub reachable-IsSound : (a : Application N) → IsReachable a → IsSound a
  reachable-IsSound _ (started saga_id msg session h) =
      Ensures-ok (λ x. IsSound x.fields) (start_application host saga_id msg session)
        (start_application-IsSound saga_id msg session) h
  reachable-IsSound _ (handled m x session before h) =
      elim (handle-Advances host m x session (reachable-IsSound x.fields before) h) [
        | inl same ↦
            subst (λ q. IsSound q.new_state.fields) (sym same) (reachable-IsSound x.fields before)
        | inr advances ↦ advances.sound
      ]
