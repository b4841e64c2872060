-- ===== src/Store/Sqlite/Refinement.antt =====
-- SqliteSagaStore keeps the promises of a store, on tables whose rows agree with their JSON.
use mathlib.Core.HLevel.{Σ_prop_path}
use saga_bus.Errors.{Error}
use saga_bus.Interfaces.{DateFormat}
use saga_bus.State.{SagaState, StoreOps}
use saga_bus.Store.{IsOptimistic}
use saga_bus.Store.Memory.{clone}
use saga_bus.Store.Sqlite.{
  Json, Statements, StoredSaga, delete, get_by_correlation_id, get_by_id, insert, parse_row, update,
}
use saga_bus.Store.Sqlite.Database.{IsConsistent, IsTable, RowAgrees}
use saga_bus.Store.Sqlite.Consistency.{
  IsConsistent-IsProp, delete-IsConsistent, insert-IsConsistent, update-IsConsistent,
}
use saga_bus.Store.Sqlite.Laws.{insert-cases, rewritten, row_of, run_update, update-cases}
use saga_bus.Prelude.{ℕ, String, ◌≡◌, refl, sym, ap, ◌∙◌, subst, inl, inr, Option, none, some}
use saga_bus.Prelude.Exec.{Exec, Result, err, ok}

module _ {J D S : Type 0} (dates : DateFormat) (json : Json J D dates) (db : Statements J S)
    (table : IsTable db) where
  -- A database whose table is consistent
  abbrev pub Sound : Type 0
  Sound = (s : S) × IsConsistent json db s

  same-Sound : (a b : Sound) → a.0 ≡ b.0 → a ≡ b
  same-Sound a b h = Σ_prop_path (IsConsistent-IsProp dates json db table) h

  -- An operation on consistent databases, with the proof that it keeps them so
  abbrev pub kept :
      {A : Type 0} (m : Exec Error S A)
      → ((s : S) → IsConsistent json db s → IsConsistent json db (m s).1)
      → Exec Error Sound A
  kept m keeps (s, k) = ((m s).0, ((m s).1, keeps s k))

  unfoldable pub sound_ops : StoreOps D Sound
  unfolding get_by_id get_by_correlation_id
  sound_ops = record {
    get_by_id = λ n i. kept (get_by_id dates json db n i) (λ s k. k);
    get_by_correlation_id = λ n c. kept (get_by_correlation_id dates json db n c) (λ s k. k);
    insert =
        λ n c x. kept (insert dates json db n c x) (insert-IsConsistent dates json db table n c x);
    update =
        λ n x v. kept (update dates json db n x v) (update-IsConsistent dates json db table n x v);
    delete = λ n i. kept (delete dates json db n i) (delete-IsConsistent dates json db table n i);
  }

  abbrev shown : Sound → String → String → Option (SagaState D)
  shown s n i = parse_row dates json db (db.select_by_id n i s.0)

  abbrev image : SagaState D → SagaState D
  image x = clone dates json.data_clone x

  parsed-written :
      (n i : String) (t : S) (row : StoredSaga J) (x : SagaState D)
      → db.select_by_id n i t ≡ some row
      → row.state ≡ json.stringify x
      → parse_row dates json db (db.select_by_id n i t) ≡ some (image x)
  unfolding parse_row
  parsed-written n i t row x here text =
      ap (parse_row dates json db) here
      ∙ ap (λ y. some (json.parse y)) text
      ∙ ap some (json.parse-stringify x)

  abbrev answered : Result Error (Option (SagaState D)) → Option (SagaState D)
  answered (ok o) = o
  answered (err e) = none

  ok≢err : {e : Error} {u : Unit {0}} → ¬ (err e ≡ ok u)
  ok≢err h = cc

  found :
      (n c : String) (s : S) (x : SagaState D) (o : Option (StoredSaga J))
      → db.select_by_correlation_id n c s ≡ o
      → parse_row dates json db o ≡ some x
      → (i : String) × (parse_row dates json db (db.select_by_id n i s) ≡ some x)
  unfolding parse_row
  found n c s x none here shows = cc
  found n c s x (some row) here shows =
      (row.saga_id, ap (parse_row dates json db) (table.keyed n c s row here) ∙ shows)

  updated-promise :
      (n : String) (x : SagaState D) (v : ℕ) (s : Sound)
      → (sound_ops.update n x v s).0 ≡ ok tt
      → (old : SagaState D) × (shown s n x.metadata.saga_id ≡ some old)
        × (old.metadata.version ≡ v)
        × (shown (sound_ops.update n x v s).1 n x.metadata.saga_id ≡ some (image x))
  unfolding parse_row sound_ops update
  updated-promise n x v (s, k) done = elim (update-cases dates json db table n x v s) [
    | inr (e, run) ↦ absurd (ok≢err (sym (ap (λ r. r.0) run) ∙ done))
    | inl (at, row, here, version, run, there) ↦ (
      json.parse row.state,
      ap (parse_row dates json db) here,
      subst (RowAgrees json) here (k n x.metadata.saga_id) ∙ version,
      ap (λ r. parse_row dates json db (db.select_by_id n x.metadata.saga_id r.1)) run
          ∙ parsed-written n x.metadata.saga_id (run_update dates json db table n x v at s).1
              (rewritten dates json db table row x at) x there refl,
    )
  ]

  inserted-promise :
      (n c : String) (x : SagaState D) (s : Sound)
      → (sound_ops.insert n c x s).0 ≡ ok tt
      → (shown s n x.metadata.saga_id ≡ none)
        × (shown (sound_ops.insert n c x s).1 n x.metadata.saga_id ≡ some (image x))
  unfolding parse_row sound_ops insert
  inserted-promise n c x (s, k) done = elim (insert-cases dates json db table n c x s) [
    | inr (e, run) ↦ absurd (ok≢err (sym (ap (λ r. r.0) run) ∙ done))
    | inl (created, updated, wrote, run) ↦
        let row : StoredSaga J = row_of dates json db table n c x created updated in
        (
          ap (parse_row dates json db) (table.inserted row s wrote).0,
          ap (λ r. parse_row dates json db (db.select_by_id n x.metadata.saga_id r.1)) run
              ∙ parsed-written n x.metadata.saga_id (db.insert_row row s).1 row x
                  (table.inserted row s wrote).1 refl,
        )
  ]

  insert_failed-promise :
      (n c : String) (x : SagaState D) (s : Sound) (e : Error)
      → (sound_ops.insert n c x s).0 ≡ err e
      → (sound_ops.insert n c x s).1 ≡ s
  unfolding sound_ops insert
  insert_failed-promise n c x (s, k) e failed = elim (insert-cases dates json db table n c x s) [
    | inr (e', run) ↦ same-Sound _ _ (ap (λ r. r.1) run)
    | inl (created, updated, wrote, run) ↦ absurd (ok≢err (sym failed ∙ ap (λ r. r.0) run))
  ]

  update_failed-promise :
      (n : String) (x : SagaState D) (v : ℕ) (s : Sound) (e : Error)
      → (sound_ops.update n x v s).0 ≡ err e
      → (sound_ops.update n x v s).1 ≡ s
  unfolding sound_ops update
  update_failed-promise n x v (s, k) e failed = elim (update-cases dates json db table n x v s) [
    | inr (e', run) ↦ same-Sound _ _ (ap (λ r. r.1) run)
    | inl (at, row, here, version, run, there) ↦ absurd (ok≢err (sym failed ∙ ap (λ r. r.0) run))
  ]

  -- On databases that execute the statements as documented, and whose rows agree with their JSON,
  -- which every operation keeps so, the SQLite store keeps every promise of a store.
  pub sqlite-IsOptimistic : IsOptimistic sound_ops
  unfolding clone sound_ops get_by_id get_by_correlation_id
  sqlite-IsOptimistic = record {
    lookup = shown;
    image = image;
    image_id = λ x. refl;
    image_version = λ x. refl;
    image_completed = λ x. refl;
    read_by_id = λ n i s. refl;
    read_pure = λ n c s. refl;
    read_found =
        λ n c s x h. found n c s.0 x (db.select_by_correlation_id n c s.0) refl (ap answered h);
    inserted = inserted-promise;
    updated = updated-promise;
    insert_failed = insert_failed-promise;
    update_failed = update_failed-promise;
  }
