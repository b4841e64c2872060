-- ===== src/Store/Memory/Conflict.antt =====
-- What InMemorySagaStore answers to a stale writer, and how it treats the other sagas.
use saga_bus.State.{SagaState}
use saga_bus.Errors.{concurrency}
use saga_bus.Interfaces.{DateFormat}
use saga_bus.Store.Memory.{
  clone, MemoryStore, get_by_correlation_id, get_correlation_key, get_store_key, get_by_id, insert,
  update, delete,
}
use saga_bus.Prelude.{ℕ, String, ◌≡◌, ◌≢◌, none, some, arith, eq_iff, eq_refl, true, truthy}
use saga_bus.Prelude.Dict.{Dict, dict_laws, get-set}
use saga_bus.Prelude.Exec.{ok, err}
use saga_bus.Prelude.Int.{pos}
use saga_bus.Prelude.Dict

module _ {D : Type 0} (dates : DateFormat) (json : D → D) where
  -- A write from another version than the stored one fails with a ConcurrencyError that names both,
  -- and leaves the store alone.
  pub update-concurrency :
      (n : String) (x old : SagaState D) (v : ℕ) (s : MemoryStore D)
      → Dict.get (get_store_key n x.metadata.saga_id) s.store ≡ some old
      → old.metadata.version ≢ v
      → update dates json n x v s
        ≡ (err (concurrency x.metadata.saga_id v (some (pos old.metadata.version))), s)
  unfolding update
  update-concurrency n x old v s found differs = ground (arith, found)

  -- A write of one saga leaves every saga under another key as it was.
  pub get-update_ne :
      (n m i : String) (x : SagaState D) (v : ℕ) (s : MemoryStore D)
      → get_store_key n x.metadata.saga_id ≢ get_store_key m i
      → (get_by_id dates json m i (update dates json n x v s).1).0 ≡ (get_by_id dates json m i s).0
  unfolding update get_by_id
  get-update_ne n m i x v s differs =
      let k : String = get_store_key n x.metadata.saga_id in
      let j : String = get_store_key m i in
      ground (arith, eq_iff k j, get-set k j (clone dates json x) s.store)

  -- A deleted saga is no longer found by its id.
  pub get-delete :
      (n i : String) (s : MemoryStore D)
      → get_by_id dates json n i (delete dates json n i s).1
        ≡ (ok none, (delete dates json n i s).1)
  unfolding delete get_by_id
  get-delete n i s = simp (dict_laws, eq_refl)

  -- The correlation id guards nothing: with two sagas of different keys that are both new, the second
  -- insert under one correlation id succeeds like the first, and from then on the correlation id
  -- leads to the second saga alone.
  pub insert-insert_shadowed :
      (n c : String) (x y : SagaState D) (s : MemoryStore D)
      → Dict.get (get_store_key n x.metadata.saga_id) s.store ≡ none
      → Dict.get (get_store_key n y.metadata.saga_id) s.store ≡ none
      → get_store_key n x.metadata.saga_id ≢ get_store_key n y.metadata.saga_id
      → truthy y.metadata.saga_id ≡ true
      → let first = insert dates json n c x s in
        let second = insert dates json n c y first.1 in
        (first.0 ≡ ok tt)
        × (second.0 ≡ ok tt)
        × ((get_by_correlation_id dates json n c second.1).0
            ≡ ok (some (clone dates json (clone dates json y))))
  unfolding insert get_by_correlation_id get_by_id
  insert-insert_shadowed n c x y s no_x no_y differ named =
      let k : String = get_store_key n x.metadata.saga_id in
      let j : String = get_store_key n y.metadata.saga_id in
      let apart = get-set k j (clone dates json x) s.store in
      let own = get-set j j (clone dates json y) (Dict.set k (clone dates json x) s.store) in
      let index =
        get-set (get_correlation_key n c) (get_correlation_key n c) y.metadata.saga_id
          (Dict.set (get_correlation_key n c) x.metadata.saga_id s.correlation_index) in
      let same = eq_refl (get_correlation_key n c) in
      (
        ground (arith, no_x),
        ground (arith, no_x, no_y, apart, eq_iff k j),
        ground (arith, no_x, no_y, apart, eq_iff k j, own, index, same, eq_refl j),
      )
