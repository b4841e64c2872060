-- ===== src/Store.antt =====
-- What a saga store promises to the orchestrator: packages/core/src/types/saga.ts, SagaStore.
pub mod Memory
pub mod Race
pub mod Sqlite
pub mod Redis
use saga_bus.State.{SagaState, StoreOps}
use saga_bus.Errors.{Error}
use saga_bus.Prelude.{ℕ, String, ◌≡◌, Option, none, some}
use saga_bus.Prelude.Exec.{ok, err}

-- Optimistic concurrency over the states that a store shows by saga name and saga id. `image` is
-- what a read gives back of a state that was written.
pub record IsOptimistic {D S : Type 0} (ops : StoreOps D S) : Type 0 where
  pub lookup : S → String → String → Option (SagaState D)
  pub image : SagaState D → SagaState D
  pub image_id : (x : SagaState D) → (image x).metadata.saga_id ≡ x.metadata.saga_id
  pub image_version : (x : SagaState D) → (image x).metadata.version ≡ x.metadata.version
  pub image_completed :
      (x : SagaState D) → (image x).metadata.is_completed ≡ x.metadata.is_completed
  -- Reads change nothing, and show what is looked up.
  pub read_by_id : (n i : String) (s : S) → ops.get_by_id n i s ≡ (ok (lookup s n i), s)
  pub read_pure : (n c : String) (s : S) → (ops.get_by_correlation_id n c s).1 ≡ s
  pub read_found :
      (n c : String) (s : S) (x : SagaState D)
      → (ops.get_by_correlation_id n c s).0 ≡ ok (some x)
      → (i : String) × (lookup s n i ≡ some x)
  -- A write that succeeds found what it must, and is seen by the next read.
  pub inserted :
      (n c : String) (x : SagaState D) (s : S)
      → (ops.insert n c x s).0 ≡ ok tt
      → (lookup s n x.metadata.saga_id ≡ none)
        × (lookup (ops.insert n c x s).1 n x.metadata.saga_id ≡ some (image x))
  pub updated :
      (n : String) (x : SagaState D) (v : ℕ) (s : S)
      → (ops.update n x v s).0 ≡ ok tt
      → (old : SagaState D) × (lookup s n x.metadata.saga_id ≡ some old)
        × (old.metadata.version ≡ v)
        × (lookup (ops.update n x v s).1 n x.metadata.saga_id ≡ some (image x))
  -- A write that fails changes nothing.
  pub insert_failed :
      (n c : String) (x : SagaState D) (s : S) (e : Error)
      → (ops.insert n c x s).0 ≡ err e
      → (ops.insert n c x s).1 ≡ s
  pub update_failed :
      (n : String) (x : SagaState D) (v : ℕ) (s : S) (e : Error)
      → (ops.update n x v s).0 ≡ err e
      → (ops.update n x v s).1 ≡ s
