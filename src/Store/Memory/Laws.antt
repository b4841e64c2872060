-- ===== src/Store/Memory/Laws.antt =====
-- InMemorySagaStore keeps the promises of a store.
use saga_bus.State.{SagaState}
use saga_bus.Errors.{Error}
use saga_bus.Interfaces.{DateFormat}
use saga_bus.Store.Memory.{
  MemoryStore, get_store_key, get_correlation_key, clone, get_by_id, get_by_correlation_id, insert,
  update, memory_ops,
}
use saga_bus.Store.{IsOptimistic}
use saga_bus.Prelude.{
  ℕ, String, ◌≡◌, refl, inl, inr, Option, none, some, arith, eq_refl, Option-cases,
}
use saga_bus.Prelude.Dict.{Dict, dict_laws}
use saga_bus.Prelude.Exec.{ok, err}
use saga_bus.Prelude.Dict

module _ {D : Type 0} (dates : DateFormat) (json : D → D) where
  abbrev cloned : Option (SagaState D) → Option (SagaState D)
  cloned none = none
  cloned (some x) = some (clone dates json x)

  abbrev pub shown : MemoryStore D → String → String → Option (SagaState D)
  shown s n i = cloned (Dict.get (get_store_key n i) s.store)

  get-set_self :
      (k : String) (x : SagaState D) (m : Dict (SagaState D)) → Dict.get k (Dict.set k x m) ≡ some x
  get-set_self k x m = simp (dict_laws, eq_refl)

  pub read_by_id_lem :
      (n i : String) (s : MemoryStore D) → get_by_id dates json n i s ≡ (ok (shown s n i), s)
  unfolding get_by_id
  read_by_id_lem n i s = ground arith

  read_pure_lem :
      (n c : String) (s : MemoryStore D) → (get_by_correlation_id dates json n c s).1 ≡ s
  unfolding get_by_correlation_id get_by_id
  read_pure_lem n c s =
      elim (Option-cases (Dict.get (get_correlation_key n c) s.correlation_index)) [
        | inl missing ↦ ground (arith, missing)
        | inr (i, found) ↦ ground (arith, found)
      ]

  read_found_lem :
      (n c : String) (s : MemoryStore D) (x : SagaState D)
      → (get_by_correlation_id dates json n c s).0 ≡ ok (some x)
      → (i : String) × (shown s n i ≡ some x)
  unfolding get_by_correlation_id get_by_id
  read_found_lem n c s x h =
      elim (Option-cases (Dict.get (get_correlation_key n c) s.correlation_index)) [
        | inl missing ↦ absurd (ground (arith, missing))
        | inr (i, found) ↦ (i, ground (arith, found))
      ]

  pub inserted_lem :
      (n c : String) (x : SagaState D) (s : MemoryStore D)
      → (insert dates json n c x s).0 ≡ ok tt
      → (shown s n x.metadata.saga_id ≡ none)
        × (shown (insert dates json n c x s).1 n x.metadata.saga_id
            ≡ some (clone dates json (clone dates json x)))
  unfolding insert
  inserted_lem n c x s h =
      elim (Option-cases (Dict.get (get_store_key n x.metadata.saga_id) s.store)) [
        | inl free ↦ (
          rw free,
          ground (
            arith,
            free,
            get-set_self (get_store_key n x.metadata.saga_id) (clone dates json x) s.store,
          ),
        )
        | inr (y, taken) ↦ absurd (ground (arith, taken))
      ]

  insert_failed_lem :
      (n c : String) (x : SagaState D) (s : MemoryStore D) (e : Error)
      → (insert dates json n c x s).0 ≡ err e
      → (insert dates json n c x s).1 ≡ s
  unfolding insert
  insert_failed_lem n c x s e h = ground arith

  pub updated_lem :
      (n : String) (x : SagaState D) (v : ℕ) (s : MemoryStore D)
      → (update dates json n x v s).0 ≡ ok tt
      → (old : SagaState D) × (shown s n x.metadata.saga_id ≡ some old)
        × (old.metadata.version ≡ v)
        × (shown (update dates json n x v s).1 n x.metadata.saga_id
            ≡ some (clone dates json (clone dates json x)))
  unfolding update clone
  updated_lem n x v s h =
      elim (Option-cases (Dict.get (get_store_key n x.metadata.saga_id) s.store)) [
        | inl free ↦ absurd (ground (arith, free))
        | inr (y, found) ↦ (
          clone dates json y,
          rw found,
          ground (arith, found),
          ground (
            arith,
            found,
            get-set_self (get_store_key n x.metadata.saga_id) (clone dates json x) s.store,
          ),
        )
      ]

  update_failed_lem :
      (n : String) (x : SagaState D) (v : ℕ) (s : MemoryStore D) (e : Error)
      → (update dates json n x v s).0 ≡ err e
      → (update dates json n x v s).1 ≡ s
  unfolding update
  update_failed_lem n x v s e h = ground arith

  -- The in-memory store keeps every promise of a store, for any user data.
  pub memory-IsOptimistic : IsOptimistic (memory_ops dates json)
  unfolding clone get_by_id
  memory-IsOptimistic = record {
    lookup = shown;
    image = λ x. clone dates json (clone dates json x);
    image_id = λ x. refl;
    image_version = λ x. refl;
    image_completed = λ x. refl;
    read_by_id = λ n i s. read_by_id_lem n i s;
    read_pure = λ n c s. read_pure_lem n c s;
    read_found = read_found_lem;
    inserted = inserted_lem;
    updated = updated_lem;
    insert_failed = insert_failed_lem;
    update_failed = update_failed_lem;
  }
