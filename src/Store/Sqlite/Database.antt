-- ===== src/Store/Sqlite/Database.antt =====
-- What SqliteSagaStore relies on of the database: the documented behaviour of its statements on the
-- table that createSchema makes, whose primary key is the saga name and the saga id.
use saga_bus.Store.Sqlite.{Json, Statements, StoredSaga}
use saga_bus.Errors.{Error}
use saga_bus.Interfaces.{DateFormat}
use saga_bus.Prelude.{ℕ, String, ◌≡◌, ◌≢◌, ◌⊎◌, Option, none, some}
use saga_bus.Prelude.Exec.{err, ok}

pub record IsTable {J S : Type 0} (db : Statements J S) : Type 0 where
  -- A row that is found by its correlation id is the row of its key.
  pub keyed :
      (n c : String) (s : S) (row : StoredSaga J)
      → db.select_by_correlation_id n c s ≡ some row
      → db.select_by_id n row.saga_id s ≡ some row
  -- An insert that does not throw found no row of the key, and the row is there then.
  pub inserted :
      (row : StoredSaga J) (s : S)
      → (db.insert_row row s).0 ≡ ok tt
      → (db.select_by_id row.saga_name row.saga_id s ≡ none)
        × (db.select_by_id row.saga_name row.saga_id (db.insert_row row s).1 ≡ some row)
  pub insert_thrown :
      (row : StoredSaga J) (s : S) (e : Error)
      → (db.insert_row row s).0 ≡ err e
      → (db.insert_row row s).1 ≡ s
  -- Other keys keep their rows.
  pub insert_other :
      (row : StoredSaga J) (s : S) (n i : String)
      → (n ≢ row.saga_name) ⊎ (i ≢ row.saga_id)
      → db.select_by_id n i (db.insert_row row s).1 ≡ db.select_by_id n i s
  -- An update that does not throw changes the one row of the key, if its version is the one asked
  -- for, and nothing otherwise.
  pub updated :
      (state : J) (v : ℕ) (at n i : String) (w : ℕ) (s : S) (k : ℕ)
      → (db.update_row state v at n i w s).0 ≡ ok k
      → ((row : StoredSaga J) × (db.select_by_id n i s ≡ some row)
          × (row.version ≡ w)
          × (k ≡ 1)
          × (db.select_by_id n i (db.update_row state v at n i w s).1
              ≡ some (record row { state = state; version = v; updated_at = at })))
        ⊎ ((k ≡ 0)
            × ((db.update_row state v at n i w s).1 ≡ s)
            × ((row : StoredSaga J) → db.select_by_id n i s ≡ some row → row.version ≢ w))
  pub update_thrown :
      (state : J) (v : ℕ) (at n i : String) (w : ℕ) (s : S) (e : Error)
      → (db.update_row state v at n i w s).0 ≡ err e
      → (db.update_row state v at n i w s).1 ≡ s
  pub update_other :
      (state : J) (v : ℕ) (at n i : String) (w : ℕ) (s : S) (m j : String)
      → (m ≢ n) ⊎ (j ≢ i)
      → db.select_by_id m j (db.update_row state v at n i w s).1 ≡ db.select_by_id m j s
  pub deleted :
      (n i : String) (s : S)
      → (db.delete_row n i s).0 ≡ ok tt
      → db.select_by_id n i (db.delete_row n i s).1 ≡ none
  pub delete_thrown :
      (n i : String) (s : S) (e : Error)
      → (db.delete_row n i s).0 ≡ err e
      → (db.delete_row n i s).1 ≡ s
  pub delete_other :
      (n i : String) (s : S) (m j : String)
      → (m ≢ n) ⊎ (j ≢ i)
      → db.select_by_id m j (db.delete_row n i s).1 ≡ db.select_by_id m j s

-- The version column of a row is the version in its JSON.
abbrev pub RowAgrees :
    {J D : Type 0} {dates : DateFormat} → Json J D dates → Option (StoredSaga J) → Type 0
RowAgrees json none = Unit {0}
RowAgrees json (some row) = (json.parse row.state).metadata.version ≡ row.version

abbrev pub IsConsistent :
    {J D S : Type 0} {dates : DateFormat} → Json J D dates → Statements J S → S → Type 0
IsConsistent json db s = (n i : String) → RowAgrees json (db.select_by_id n i s)
