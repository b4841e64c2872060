-- ===== src/State.antt =====
-- packages/core/src/types/saga.ts: saga states with their metadata, handler results, and the
-- interface SagaStore. A state is the user's own data beside the metadata.
use saga_bus.Errors.{Error}
use saga_bus.Prelude.{ℕ, String, Bool, Option}
use saga_bus.Prelude.Exec.{Exec}

-- A field of type Date as it is at run time: a Date, or the text that a JSON round trip leaves.
pub data DateValue : Type 0 where
  date : ℕ → DateValue
  iso_text : String → DateValue

-- SagaStateMetadata; `null` and a missing field are one value, `none`.
pub record Metadata : Type 0 where
  pub saga_id : String
  pub version : ℕ
  pub created_at : DateValue
  pub updated_at : DateValue
  pub is_completed : Bool
  pub archived_at : Option DateValue
  pub trace_parent : Option String
  pub trace_state : Option String
  pub timeout_ms : Option ℕ
  pub timeout_expires_at : Option DateValue

pub record SagaState (D : Type 0) : Type 0 where
  pub fields : D
  pub metadata : Metadata

pub record HandlerResult (D : Type 0) : Type 0 where
  pub new_state : SagaState D
  pub is_completed : Option Bool

-- SagaStore over stores of type S
pub record StoreOps (D S : Type 0) : Type 0 where
  pub get_by_id : String → String → Exec Error S (Option (SagaState D))
  pub get_by_correlation_id : String → String → Exec Error S (Option (SagaState D))
  pub insert : String → String → SagaState D → Exec Error S (Unit {0})
  pub update : String → SagaState D → ℕ → Exec Error S (Unit {0})
  pub delete : String → String → Exec Error S (Unit {0})
