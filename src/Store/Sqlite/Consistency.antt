-- ===== src/Store/Sqlite/Consistency.antt =====
-- The operations of SqliteSagaStore keep the version columns in agreement with the JSON.
use saga_bus.Interfaces.{DateFormat}
use saga_bus.State.{SagaState}
use saga_bus.Store.Memory.{clone}
use saga_bus.Store.Sqlite.{Json, Statements, StoredSaga, delete, insert, update}
use saga_bus.Store.Sqlite.Database.{IsConsistent, IsTable, RowAgrees}
use saga_bus.Store.Sqlite.Laws.{insert-cases, row_of, run_update, update-cases}
use saga_bus.Prelude.{
  ℕ, String, ◌≡◌, ◌≢◌, sym, ap, ◌∙◌, subst, ◌⊎◌, inl, inr, Option, none, some, true, false,
  Bool-cases, eq_iff, ◌==◌,
}
use saga_bus.Prelude.Exec.{Result-cases}

text-cases : (a b : String) → (a ≡ b) ⊎ (a ≢ b)
text-cases a b = elim (Bool-cases (a == b)) [
  | inl same ↦ inl ((eq_iff a b).0 same)
  | inr apart ↦ inr (λ p. absurd (true≢false (sym ((eq_iff a b).1 p) ∙ apart)))
]
  where
    true≢false : true ≢ false
    true≢false h = cc

-- Two keys are one, or differ in a part.
key-cases : (n i m j : String) → ((m ≡ n) × (j ≡ i)) ⊎ ((m ≢ n) ⊎ (j ≢ i))
key-cases n i m j = elim (text-cases m n) [
  | inr apart ↦ inr (inl apart)
  | inl name ↦ elim (text-cases j i) [ inl id ↦ inl (name, id) | inr apart ↦ inr (inr apart) ]
]

module _ {J D S : Type 0} (dates : DateFormat) (json : Json J D dates) (db : Statements J S)
    (table : IsTable db) where
  pub stringify-version :
      (x : SagaState D) → (json.parse (json.stringify x)).metadata.version ≡ x.metadata.version
  unfolding clone
  stringify-version x = ap (λ y. y.metadata.version) (json.parse-stringify x)

  -- A change that leaves other keys alone keeps the table consistent, if its own row agrees.
  changed-IsConsistent :
      (n i : String) (s t : S)
      → IsConsistent json db s
      → RowAgrees json (db.select_by_id n i t)
      → ((m j : String) → (m ≢ n) ⊎ (j ≢ i) → db.select_by_id m j t ≡ db.select_by_id m j s)
      → IsConsistent json db t
  changed-IsConsistent n i s t old own others m j = elim (key-cases n i m j) [
    | inl (name, id) ↦
        subst (RowAgrees json)
          (ap (λ k. db.select_by_id k i t) (sym name) ∙ ap (λ k. db.select_by_id m k t) (sym id))
          own
    | inr apart ↦ subst (RowAgrees json) (sym (others m j apart)) (old m j)
  ]

  pub update-IsConsistent :
      (n : String) (x : SagaState D) (v : ℕ) (s : S)
      → IsConsistent json db s
      → IsConsistent json db (update dates json db n x v s).1
  update-IsConsistent n x v s old = elim (update-cases dates json db table n x v s) [
    | inl (at, row, here, version, run, there) ↦
        subst (IsConsistent json db) (sym (ap (λ r. r.1) run)) (
          changed-IsConsistent n x.metadata.saga_id s (run_update dates json db table n x v at s).1
            old (subst (RowAgrees json) (sym there) (stringify-version x))
            (λ m j apart.
              table.update_other (json.stringify x) x.metadata.version at n x.metadata.saga_id v s m
                j apart))
    | inr (e, run) ↦ subst (IsConsistent json db) (sym (ap (λ r. r.1) run)) old
  ]

  pub insert-IsConsistent :
      (n c : String) (x : SagaState D) (s : S)
      → IsConsistent json db s
      → IsConsistent json db (insert dates json db n c x s).1
  insert-IsConsistent n c x s old = elim (insert-cases dates json db table n c x s) [
    | inl (created, updated, done, run) ↦
        let row : StoredSaga J = row_of dates json db table n c x created updated in
        subst (IsConsistent json db) (sym (ap (λ r. r.1) run)) (
          changed-IsConsistent n x.metadata.saga_id s (db.insert_row row s).1 old
            (subst (RowAgrees json) (sym (table.inserted row s done).1) (stringify-version x))
            (λ m j apart. table.insert_other row s m j apart))
    | inr (e, run) ↦ subst (IsConsistent json db) (sym (ap (λ r. r.1) run)) old
  ]

  pub delete-IsConsistent :
      (n i : String) (s : S)
      → IsConsistent json db s
      → IsConsistent json db (delete dates json db n i s).1
  unfolding delete
  delete-IsConsistent n i s old = elim (Result-cases (db.delete_row n i s).0) [
    | inl (e, thrown) ↦ subst (IsConsistent json db) (sym (table.delete_thrown n i s e thrown)) old
    | inr (u, done) ↦
        changed-IsConsistent n i s (db.delete_row n i s).1 old
          (subst (RowAgrees json) (sym (table.deleted n i s done)) tt)
          (λ m j apart. table.delete_other n i s m j apart)
  ]

  RowAgrees-IsProp : (o : Option (StoredSaga J)) → IsProp (RowAgrees json o)
  RowAgrees-IsProp none = hlevel
  RowAgrees-IsProp (some row) = hlevel

  pub IsConsistent-IsProp : (s : S) → IsProp (IsConsistent json db s)
  IsConsistent-IsProp s = hlevel RowAgrees-IsProp
