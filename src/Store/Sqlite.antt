-- ===== src/Store/Sqlite.antt =====
-- packages/store-sqlite/src/index.ts: SqliteSagaStore over the prepared statements of a database,
-- which are a parameter, as is JSON on the data of the user.
pub mod Database
pub mod Laws
pub mod Consistency
pub mod Refinement
use Prim.Native.Char.{code}
use saga_bus.Errors.{Error, concurrency, is_error, message, other, plain}
use saga_bus.Errors.Patterns.{contains}
use saga_bus.Interfaces.{DateFormat}
use saga_bus.State.{DateValue, SagaState, StoreOps, date, iso_text}
use saga_bus.Store.Memory.{already_exists, clone, not_found}
use saga_bus.Prelude.{
  ℕ, String, ◌≡◌, Bool, ◌&&◌, Option, none, some, List, [], ◌∷◌, nat_eq, if◌then◌else◌,
}
use saga_bus.Prelude.Exec.{Exec, Result, err, ok, pure, throw, ◌>>=◌}
use saga_bus.Prelude.Int.{pos}

-- StoredSaga, a row of the table
pub record StoredSaga (J : Type 0) : Type 0 where
  pub saga_name : String
  pub saga_id : String
  pub correlation_id : String
  pub state : J
  pub version : ℕ
  pub created_at : String
  pub updated_at : String

-- The prepared statements on databases of type S: a select gives the first row, an update the
-- number of rows that it changed.
pub record Statements (J S : Type 0) : Type 0 where
  pub select_by_id : String → String → S → Option (StoredSaga J)
  pub select_by_correlation_id : String → String → S → Option (StoredSaga J)
  pub insert_row : StoredSaga J → Exec Error S (Unit {0})
  -- state, version, updated_at; saga_name, saga_id, the version to be there
  pub update_row : J → ℕ → String → String → String → ℕ → Exec Error S ℕ
  pub delete_row : String → String → Exec Error S (Unit {0})

-- JSON on saga states, whose texts are of the type J: what was written is read as its clone. The
-- store looks at no text.
pub record Json (J D : Type 0) (dates : DateFormat) : Type 0 where
  pub stringify : SagaState D → J
  pub parse : J → SagaState D
  pub data_clone : D → D
  pub parse-stringify : (x : SagaState D) → parse (stringify x) ≡ clone dates data_clone x

-- date.toISOString()
unfoldable pub to_iso_text : {S : Type 0} → DateFormat → String → DateValue → Exec Error S String
to_iso_text dates field (date t) = pure (dates.to_iso t)
to_iso_text dates field (iso_text s) = throw (other "TypeError" field)

unfoldable pub codes : String → List ℕ
codes String.[] = []
codes (String.◌∷◌ c s) = code c ∷ codes s

-- `error instanceof Error && error.message.includes("UNIQUE constraint failed")`
unfoldable pub is_unique_failure : Error → Bool
unfolding codes contains is_error message
is_unique_failure e = is_error e && contains (codes "UNIQUE constraint failed") (codes (message e))

-- The catch of insert
unfoldable pub insert_caught :
    {S : Type 0} → String → Result Error (Unit {0}) × S → Result Error (Unit {0}) × S
unfolding is_unique_failure
insert_caught saga_id (ok u, s) = (ok tt, s)
insert_caught saga_id (err e, s) =
    (err (if is_unique_failure e then already_exists saga_id else e), s)

module _ {J D S : Type 0} (dates : DateFormat) (json : Json J D dates) (db : Statements J S) where
  -- parseRow, where there is a row
  unfoldable pub parse_row : Option (StoredSaga J) → Option (SagaState D)
  parse_row none = none
  parse_row (some row) = some (json.parse row.state)

  unfoldable pub get_by_id : String → String → Exec Error S (Option (SagaState D))
  unfolding parse_row
  get_by_id saga_name saga_id s = (ok (parse_row (db.select_by_id saga_name saga_id s)), s)

  unfoldable pub get_by_correlation_id : String → String → Exec Error S (Option (SagaState D))
  unfolding parse_row
  get_by_correlation_id saga_name correlation_id s =
      (ok (parse_row (db.select_by_correlation_id saga_name correlation_id s)), s)

  -- The body of the try block of insert
  unfoldable pub run_insert : String → String → SagaState D → Exec Error S (Unit {0})
  unfolding to_iso_text
  run_insert saga_name correlation_id state = do
    created_at ←
        to_iso_text dates "createdAt.toISOString is not a function" state.metadata.created_at
    updated_at ←
        to_iso_text dates "updatedAt.toISOString is not a function" state.metadata.updated_at
    db.insert_row (record {
      saga_name = saga_name;
      saga_id = state.metadata.saga_id;
      correlation_id = correlation_id;
      state = json.stringify state;
      version = state.metadata.version;
      created_at = created_at;
      updated_at = updated_at;
    })

  unfoldable pub insert : String → String → SagaState D → Exec Error S (Unit {0})
  unfolding run_insert insert_caught
  insert saga_name correlation_id state s =
      insert_caught state.metadata.saga_id (run_insert saga_name correlation_id state s)

  -- Why no row was changed
  unfoldable pub no_change : String → ℕ → Option (SagaState D) → Error
  no_change saga_id expected none = not_found saga_id
  no_change saga_id expected (some existing) =
      concurrency saga_id expected (some (pos existing.metadata.version))

  -- What the number of changed rows leads to
  unfoldable pub check_changes : String → String → ℕ → ℕ → Exec Error S (Unit {0})
  unfolding get_by_id no_change
  check_changes saga_name saga_id expected changes s =
      if nat_eq changes 0
      then (do existing ← get_by_id saga_name saga_id; throw (no_change saga_id expected existing))
          s
      else (ok tt, s)

  unfoldable pub update : String → SagaState D → ℕ → Exec Error S (Unit {0})
  unfolding to_iso_text check_changes
  update saga_name state expected = do
    updated_at ←
        to_iso_text dates "updatedAt.toISOString is not a function" state.metadata.updated_at
    changes ←
        db.update_row (json.stringify state) state.metadata.version updated_at saga_name
          state.metadata.saga_id expected
    check_changes saga_name state.metadata.saga_id expected changes

  unfoldable pub delete : String → String → Exec Error S (Unit {0})
  delete saga_name saga_id = db.delete_row saga_name saga_id

  abbrev pub sqlite_ops : StoreOps D S
  sqlite_ops = record {
    get_by_id = get_by_id;
    get_by_correlation_id = get_by_correlation_id;
    insert = insert;
    update = update;
    delete = delete;
  }
