-- ===== src/Store/Sqlite/Laws.antt =====
-- What the operations of SqliteSagaStore do to the table.
use saga_bus.Errors.{Error}
use saga_bus.Interfaces.{DateFormat}
use saga_bus.State.{DateValue, SagaState, date, iso_text}
use saga_bus.Store.Sqlite.{
  Json, Statements, StoredSaga, check_changes, get_by_id, insert, insert_caught, no_change,
  parse_row, run_insert, to_iso_text, update,
}
use saga_bus.Store.Sqlite.Database.{IsTable}
use saga_bus.Prelude.{ℕ, String, ◌≡◌, refl, ap, ◌∙◌, ◌⊎◌, inl, inr, some}
use saga_bus.Prelude.Exec.{Exec, Result, Result-cases, err, ok, resume, resume-cases}

-- A date is written, or not, without a change of the state.
to_iso_text-cases :
    {S : Type 0} (dates : DateFormat) (field : String) (d : DateValue) (s : S)
    → ((e : Error) × (to_iso_text dates field d s ≡ (err e, s)))
      ⊎ ((at : String) × (to_iso_text dates field d s ≡ (ok at, s)))
unfolding to_iso_text
to_iso_text-cases dates field (date t) s = inr (dates.to_iso t, refl)
to_iso_text-cases dates field (iso_text x) s = inl (_, refl)

module _ {J D S : Type 0} (dates : DateFormat) (json : Json J D dates) (db : Statements J S)
    (table : IsTable db) where
  -- The row of a state that is written over another
  abbrev pub rewritten : StoredSaga J → SagaState D → String → StoredSaga J
  rewritten row x at = record row {
    state = json.stringify x;
    version = x.metadata.version;
    updated_at = at;
  }

  -- The database after an update statement
  abbrev pub run_update : String → SagaState D → ℕ → String → Exec Error S ℕ
  run_update n x v at =
      db.update_row (json.stringify x) x.metadata.version at n x.metadata.saga_id v

  -- An update that succeeds: the row that was there, of the version expected, was rewritten.
  abbrev pub Written : String → SagaState D → ℕ → S → Result Error (Unit {0}) × S → Type 0
  Written n x v s r =
      (at : String) × (row : StoredSaga J) × (db.select_by_id n x.metadata.saga_id s ≡ some row)
      × (row.version ≡ v)
      × (r ≡ (ok tt, (run_update n x v at s).1))
      × (db.select_by_id n x.metadata.saga_id (run_update n x v at s).1 ≡ some (rewritten row x at))

  abbrev pub Failed : S → Result Error (Unit {0}) × S → Type 0
  Failed s r = (e : Error) × (r ≡ (err e, s))

  abbrev pub after_update : String → SagaState D → ℕ → ℕ → Exec Error S (Unit {0})
  after_update n x v changes = check_changes dates json db n x.metadata.saga_id v changes

  -- Why an update without a change fails
  abbrev pub refusal : String → SagaState D → ℕ → S → Error
  refusal n x v s =
      no_change dates json db x.metadata.saga_id v
        (parse_row dates json db (db.select_by_id n x.metadata.saga_id s))

  run-cases :
      (n : String) (x : SagaState D) (v : ℕ) (at : String) (s : S)
      → Written n x v s (resume (run_update n x v at s) (after_update n x v))
        ⊎ Failed s (resume (run_update n x v at s) (after_update n x v))
  unfolding check_changes get_by_id
  run-cases n x v at s =
      let i : String = x.metadata.saga_id in
      let next : S = (run_update n x v at s).1 in
      elim (resume-cases (run_update n x v at s) (after_update n x v)) [
        | inl (e, thrown, run) ↦ inr (
          e,
          run
              ∙ ap (λ t. (err e, t))
                  (table.update_thrown (json.stringify x) x.metadata.version at n i v s e thrown),
        )
        | inr (k, counted, run) ↦
            elim (table.updated (json.stringify x) x.metadata.version at n i v s k counted) [
              | inl (row, here, version, one, there) ↦
                  inl (at, row, here, version, run ∙ ap (λ j. after_update n x v j next) one, there)
              | inr (none_changed, same, why) ↦ inr (
                refusal n x v s,
                run
                    ∙ ap (λ j. after_update n x v j next) none_changed
                    ∙ ap (after_update n x v 0) same,
              )
            ]
      ]

  pub update-cases :
      (n : String) (x : SagaState D) (v : ℕ) (s : S)
      → Written n x v s (update dates json db n x v s) ⊎ Failed s (update dates json db n x v s)
  unfolding update
  update-cases n x v s =
      let go : Result Error String × S → Result Error (Unit {0}) × S =
        λ m. resume m (λ at t. resume (run_update n x v at t) (after_update n x v)) in
      elim (to_iso_text-cases dates "updatedAt.toISOString is not a function" x.metadata.updated_at
        s) [
          | inl (e, thrown) ↦ inr (e, ap go thrown)
          | inr (at, made) ↦ elim (run-cases n x v at s) [
            | inl (at', row, here, version, done, there) ↦
                inl (at', row, here, version, ap go made ∙ done, there)
            | inr (e, failed) ↦ inr (e, ap go made ∙ failed)
          ]
        ]

  -- The row that insert writes
  abbrev pub row_of : String → String → SagaState D → String → String → StoredSaga J
  row_of n c x created updated = record {
    saga_name = n;
    saga_id = x.metadata.saga_id;
    correlation_id = c;
    state = json.stringify x;
    version = x.metadata.version;
    created_at = created;
    updated_at = updated;
  }

  abbrev pub Inserted : String → String → SagaState D → S → Result Error (Unit {0}) × S → Type 0
  Inserted n c x s r =
      (created : String) × (updated : String) × ((db.insert_row (row_of n c x created updated) s).0
        ≡ ok tt)
      × (r ≡ (ok tt, (db.insert_row (row_of n c x created updated) s).1))

  insert_row-cases :
      (n c : String) (x : SagaState D) (created updated : String) (s : S)
      → Inserted n c x s (db.insert_row (row_of n c x created updated) s)
        ⊎ Failed s (db.insert_row (row_of n c x created updated) s)
  insert_row-cases n c x created updated s =
      elim (Result-cases (db.insert_row (row_of n c x created updated) s).0) [
        | inl (e, thrown) ↦ inr (
          e,
          ap (λ r. (r, (db.insert_row (row_of n c x created updated) s).1)) thrown
              ∙ ap (λ t. (err e, t))
                  (table.insert_thrown (row_of n c x created updated) s e thrown),
        )
        | inr (u, done) ↦ inl (
          created,
          updated,
          done,
          ap (λ r. (r, (db.insert_row (row_of n c x created updated) s).1)) done,
        )
      ]

  run_insert-cases :
      (n c : String) (x : SagaState D) (s : S)
      → Inserted n c x s (run_insert dates json db n c x s)
        ⊎ Failed s (run_insert dates json db n c x s)
  unfolding run_insert
  run_insert-cases n c x s =
      let write : String → String → Exec Error S (Unit {0}) =
        λ created updated. db.insert_row (row_of n c x created updated) in
      let finish : String → Result Error String × S → Result Error (Unit {0}) × S =
        λ created m. resume m (write created) in
      let go : Result Error String × S → Result Error (Unit {0}) × S = λ m. resume m (λ created t.
        finish created
          (to_iso_text dates "updatedAt.toISOString is not a function" x.metadata.updated_at t)) in
      elim (to_iso_text-cases dates "createdAt.toISOString is not a function" x.metadata.created_at
        s) [
          | inl (e, thrown) ↦ inr (e, ap go thrown)
          | inr (created, made) ↦
              elim (to_iso_text-cases dates "updatedAt.toISOString is not a function"
                x.metadata.updated_at s) [
                  | inl (e, thrown) ↦ inr (e, ap go made ∙ ap (finish created) thrown)
                  | inr (updated, made') ↦ elim (insert_row-cases n c x created updated s) [
                    | inl (at, at', done, run) ↦
                        inl (at, at', done, ap go made ∙ ap (finish created) made' ∙ run)
                    | inr (e, failed) ↦ inr (e, ap go made ∙ ap (finish created) made' ∙ failed)
                  ]
                ]
        ]

  pub insert-cases :
      (n c : String) (x : SagaState D) (s : S)
      → Inserted n c x s (insert dates json db n c x s) ⊎ Failed s (insert dates json db n c x s)
  unfolding insert insert_caught
  insert-cases n c x s = elim (run_insert-cases n c x s) [
    | inl (created, updated, done, run) ↦
        inl (created, updated, done, ap (insert_caught x.metadata.saga_id) run)
    | inr (e, failed) ↦ inr (_, ap (insert_caught x.metadata.saga_id) failed)
  ]
