-- ===== src/Sagas/Loan/Steps.antt =====
-- packages/examples-shared/src/sagas/LoanApplicationSaga.ts: what its handlers have in common.
use saga_bus.Context
use saga_bus.Context.{Session}
use saga_bus.Errors.{Error}
use saga_bus.Interfaces.{Platform, TransportOps}
use saga_bus.Messages.{no_options}
use saga_bus.Sagas.Loan.Application.{Application, StatusEntry}
use saga_bus.Sagas.Loan.Messages.{LoanMessage, sent}
use saga_bus.Sagas.Loan.Platform.{Calendar, Numbers, iso_now}
use saga_bus.Sagas.Loan.Status.{Status}
use saga_bus.State.{HandlerResult, SagaState}
use saga_bus.Prelude.{String, true, Option, none, some, List, [], ◌∷◌, ◌++◌}
use saga_bus.Prelude.Exec.{Exec, ok, pure, ◌>>=◌}

abbrev pub Loaned : Type 0 → Type 0
Loaned N = SagaState (Application N)

-- What the handlers return
abbrev pub Handled : Type 0 → Type 0 → Type 0 → Type 0
Handled N V T = Exec Error (Session (LoanMessage N) V T) (HandlerResult (Application N))

-- What a handler of the saga calls besides its context
pub record Host (N T : Type 0) : Type 0 where
  pub platform : Platform
  pub transport : TransportOps (LoanMessage N) T
  pub numbers : Numbers N
  pub calendar : Calendar

module _ {N V T : Type 0} (host : Host N T) where
  -- ctx.publish({...})
  abbrev pub publish_loan : LoanMessage N → Exec Error (Session (LoanMessage N) V T) (Unit {0})
  publish_loan m = Context.publish host.transport (sent m) no_options

module _ {N V T : Type 0} where
  -- ctx.complete()
  abbrev pub completing : Exec Error (Session (LoanMessage N) V T) (Unit {0})
  completing (ctx, env) = (ok tt, (Context.complete ctx, env))

module _ {N V T : Type 0} (host : Host N T) where
  -- The new entries of statusHistory, each with a time of its own
  unfoldable pub stamp :
      List (Status × Option String) → Exec Error (Session (LoanMessage N) V T) (List StatusEntry)
  unfolding iso_now
  stamp [] = pure []
  stamp ((status, reason) ∷ entries) = do
    timestamp ← iso_now host.platform
    rest ← stamp entries
    pure (record { status = status; timestamp = timestamp; reason = reason } ∷ rest)

  -- `{ ...state, status, statusHistory: [...state.statusHistory, ...], lastUpdatedAt }`, after
  -- `fields` took over what else the handler changes.
  unfoldable pub advance :
      Loaned N
      → Application N
      → Status
      → List (Status × Option String)
      → Exec Error (Session (LoanMessage N) V T) (SagaState (Application N))
  unfolding stamp iso_now
  advance state fields status entries = do
    history ← stamp entries
    last_updated_at ← iso_now host.platform
    pure (record state {
      fields = record fields {
        status = status;
        status_history = fields.status_history ++ history;
        last_updated_at = last_updated_at;
      };
    })

  -- `return { newState }`
  unfoldable pub going :
      Loaned N → Application N → Status → List (Status × Option String) → Handled N V T
  unfolding advance
  going state fields status entries = do
    new_state ← advance state fields status entries
    pure (record { new_state = new_state; is_completed = none })

  -- `return { newState, isCompleted: true }`
  unfoldable pub ending :
      Loaned N → Application N → Status → List (Status × Option String) → Handled N V T
  unfolding advance
  ending state fields status entries = do
    new_state ← advance state fields status entries
    pure (record { new_state = new_state; is_completed = some true })
