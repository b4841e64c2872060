-- ===== src/Orchestrator/Next.antt =====
-- What SagaOrchestrator stores after a handler, told field by field, and when a timeout message is due:
-- packages/core/src/runtime/SagaOrchestrator.ts.
use saga_bus.Context.{ChangeType, TimeoutChange, clear, set}
use saga_bus.Orchestrator.{advanced_state, next_timeout, timeout_to_schedule}
use saga_bus.State.{DateValue, HandlerResult, Metadata, SagaState, date}
use saga_bus.Prelude.{
  ℕ, zero, suc, ◌+◌, ◌<◌, ◌≡◌, refl, ◌⊎◌, inl, inr, Bool, true, false, Option, none, some, arith,
}

-- The timeout of the stored state: a change that is pending replaces it.
abbrev pub ChangedBy : ChangeType → TimeoutChange → Metadata → Type 0
ChangedBy clear c after = (after.timeout_ms ≡ none) × (after.timeout_expires_at ≡ none)
ChangedBy set c after =
    (after.timeout_ms ≡ c.timeout_ms) × (after.timeout_expires_at ≡ c.timeout_expires_at)

abbrev pub TimedBy : Metadata → Option TimeoutChange → Metadata → Type 0
TimedBy before none after =
    (after.timeout_ms ≡ before.timeout_ms) × (after.timeout_expires_at ≡ before.timeout_expires_at)
TimedBy before (some c) after = ChangedBy c.change c after

-- The state that is stored, for the state that was read, the handler's result, whether the saga is
-- completed, the pending change of the timeout, and the time
pub record IsNext {D : Type 0} (read : SagaState D) (result : HandlerResult D) (completed : Bool)
    (change : Option TimeoutChange) (time : ℕ) (next : SagaState D) : Type 0 where
  pub same_fields : next.fields ≡ result.new_state.fields
  pub same_id : next.metadata.saga_id ≡ result.new_state.metadata.saga_id
  pub same_creation : next.metadata.created_at ≡ result.new_state.metadata.created_at
  pub next_version : next.metadata.version ≡ read.metadata.version + 1
  pub stamped_at : next.metadata.updated_at ≡ date time
  pub marked : next.metadata.is_completed ≡ completed
  pub timed : TimedBy read.metadata change next.metadata

pub advanced_state-IsNext :
    {D : Type 0} (read : SagaState D) (result : HandlerResult D) (completed : Bool)
    (change : Option TimeoutChange) (time : ℕ)
    → IsNext read result completed change time (advanced_state read result completed change time)
unfolding advanced_state next_timeout
advanced_state-IsNext read result completed change time = record {
  same_fields = refl;
  same_id = refl;
  same_creation = refl;
  next_version = refl;
  stamped_at = refl;
  marked = refl;
  timed = timed_by change;
}
  where
    changed_by :
        (kind : ChangeType) (ms : Option ℕ) (at : Option DateValue)
        → TimedBy read.metadata
            (some (record { change = kind; timeout_ms = ms; timeout_expires_at = at }))
            (advanced_state read result completed
              (some (record { change = kind; timeout_ms = ms; timeout_expires_at = at }))
              time).metadata
    changed_by clear ms at = (refl, refl)
    changed_by set ms at = (refl, refl)

    timed_by :
        (c : Option TimeoutChange)
        → TimedBy read.metadata c (advanced_state read result completed c time).metadata
    timed_by none = (refl, refl)
    timed_by (some c) = changed_by c.change c.timeout_ms c.timeout_expires_at

-- No timeout message is due: no timeout was set, or the saga is completed.
abbrev pub Quiet : Bool → Option TimeoutChange → Type 0
Quiet completed none = Unit
Quiet completed (some c) =
    (c.change ≡ clear) ⊎ (completed ≡ true) ⊎ (c.timeout_ms ≡ none) ⊎ (c.timeout_ms ≡ some 0)

pub timeout_to_schedule-Quiet :
    (completed : Bool) (change : Option TimeoutChange)
    → Quiet completed change
    → timeout_to_schedule completed change ≡ none
unfolding timeout_to_schedule
timeout_to_schedule-Quiet completed none quiet = refl
timeout_to_schedule-Quiet completed (some c) quiet =
    by_change c.change c.timeout_ms c.timeout_expires_at quiet
  where
    by_change :
        (kind : ChangeType) (ms : Option ℕ) (at : Option DateValue)
        → (kind ≡ clear) ⊎ (completed ≡ true) ⊎ (ms ≡ none) ⊎ (ms ≡ some 0)
        → timeout_to_schedule completed
            (some (record { change = kind; timeout_ms = ms; timeout_expires_at = at }))
          ≡ none
    by_change clear ms at q = refl
    by_change set none at q = refl
    by_change set (some ms) at (inl h) = absurd (cc h)
    by_change set (some ms) at (inr (inl h)) = rw h refl
    by_change set (some ms) at (inr (inr (inl h))) = absurd (cc h)
    by_change set (some ms) at (inr (inr (inr h))) = ground (arith, h)

-- One is due for a timeout that was set, and is not 0, on a saga that goes on.
abbrev pub due : ℕ → ℕ → Option TimeoutChange
due ms expires =
    some (record { change = set; timeout_ms = some ms; timeout_expires_at = some (date expires) })

pub timeout_to_schedule-due :
    (ms expires : ℕ)
    → 0 < ms
    → timeout_to_schedule false (due ms expires) ≡ some (ms, some (date expires))
unfolding timeout_to_schedule
timeout_to_schedule-due zero expires h = absurd (omega (arith, h))
timeout_to_schedule-due (suc ms) expires h = ground arith
