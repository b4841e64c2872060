-- ===== src/Store/Memory.antt =====
-- packages/store-inmemory/src/InMemorySagaStore.ts: two maps, one from "sagaName:sagaId" to a state
-- and one from "sagaName:correlationId" to a saga id. `clone` is a JSON round trip: it leaves dates
-- as texts, and what it does to the user's own data is the parameter `json`.
pub mod Keys
pub mod Laws
pub mod Conflict
pub mod Dates
use saga_bus.State.{DateValue, date, iso_text, SagaState, StoreOps}
use saga_bus.Errors.{Error, concurrency, plain}
use saga_bus.Interfaces.{DateFormat}
use saga_bus.Prelude.{
  ℕ, ◌+◌, String, Bool, not, Option, none, some, List, [], map, nat_eq, truthy, if◌then◌else◌,
  length,
}
use saga_bus.Prelude.Dict.{Dict}
use saga_bus.Prelude.Exec.{Result, ok, err, Exec}
use saga_bus.Prelude.Int.{pos}
use saga_bus.Prelude.Texts.{◌<>◌, decimal}
use saga_bus.Prelude.Dict

pub record MemoryStore (D : Type 0) : Type 0 where
  pub store : Dict (SagaState D)
  pub correlation_index : Dict String

abbrev pub empty : {D : Type 0} → MemoryStore D
empty = record { store = []; correlation_index = [] }

unfoldable pub get_correlation_key : String → String → String
unfolding ◌<>◌
get_correlation_key saga_name correlation_id = saga_name <> ":" <> correlation_id

unfoldable pub get_store_key : String → String → String
unfolding ◌<>◌
get_store_key saga_name saga_id = saga_name <> ":" <> saga_id

abbrev pub cloned_date : DateFormat → DateValue → DateValue
cloned_date dates (date t) = iso_text (dates.to_iso t)
cloned_date dates (iso_text s) = iso_text s

abbrev pub cloned_option : DateFormat → Option DateValue → Option DateValue
cloned_option dates none = none
cloned_option dates (some d) = some (cloned_date dates d)

abbrev pub not_found : String → Error
unfolding ◌<>◌
not_found saga_id = plain ("Saga " <> saga_id <> " not found")

abbrev pub already_exists : String → Error
unfolding ◌<>◌
already_exists saga_id = plain ("Saga " <> saga_id <> " already exists")

abbrev pub invalid_version : ℕ → ℕ → Error
unfolding ◌<>◌ decimal
invalid_version expected actual =
    plain
      ("Invalid version: expected " <> decimal (pos expected) <> ", got " <> decimal (pos actual))

module _ {D : Type 0} (dates : DateFormat) (json : D → D) where
  -- JSON.parse(JSON.stringify(state))
  unfoldable pub clone : SagaState D → SagaState D
  clone s = record {
    fields = json s.fields;
    metadata = record (s.metadata) {
      created_at = cloned_date dates s.metadata.created_at;
      updated_at = cloned_date dates s.metadata.updated_at;
      archived_at = cloned_option dates s.metadata.archived_at;
      timeout_expires_at = cloned_option dates s.metadata.timeout_expires_at;
    };
  }

  unfoldable pub get_by_id : String → String → Exec Error (MemoryStore D) (Option (SagaState D))
  get_by_id saga_name saga_id s = (
    ok (elim (Dict.get (get_store_key saga_name saga_id) s.store) [
      | none ↦ none
      | some state ↦ some (clone state)
    ]),
    s,
  )

  -- An id that is missing or empty counts as not found.
  unfoldable pub get_by_correlation_id :
      String → String → Exec Error (MemoryStore D) (Option (SagaState D))
  get_by_correlation_id saga_name correlation_id s =
      elim (Dict.get (get_correlation_key saga_name correlation_id) s.correlation_index) [
        | none ↦ (ok none, s)
        | some saga_id ↦ if truthy saga_id then get_by_id saga_name saga_id s else (ok none, s)
      ]

  unfoldable pub insert : String → String → SagaState D → Exec Error (MemoryStore D) (Unit {0})
  insert saga_name correlation_id state s =
      let saga_id = state.metadata.saga_id in
      let key = get_store_key saga_name saga_id in
      if Dict.has key s.store then (err (already_exists saga_id), s) else (
        ok tt,
        record {
          store = Dict.set key (clone state) s.store;
          correlation_index =
              Dict.set (get_correlation_key saga_name correlation_id) saga_id s.correlation_index;
        },
      )

  -- The tests of update, on the state that is stored under the key.
  unfoldable pub check_update : SagaState D → ℕ → Option (SagaState D) → Result Error (Unit {0})
  check_update state expected none = err (not_found state.metadata.saga_id)
  check_update state expected (some existing) =
      if not (nat_eq existing.metadata.version expected)
      then err (concurrency state.metadata.saga_id expected (some (pos existing.metadata.version)))
      else if not (nat_eq state.metadata.version (expected + 1))
      then err (invalid_version (expected + 1) state.metadata.version)
      else ok tt

  unfoldable pub update : String → SagaState D → ℕ → Exec Error (MemoryStore D) (Unit {0})
  unfolding check_update
  update saga_name state expected s =
      let key = get_store_key saga_name state.metadata.saga_id in
      elim (check_update state expected (Dict.get key s.store)) [
        | err e ↦ (err e, s)
        | ok _ ↦ (ok tt, record s { store = Dict.set key (clone state) s.store })
      ]

  -- The correlation index keeps its entry.
  unfoldable pub delete : String → String → Exec Error (MemoryStore D) (Unit {0})
  delete saga_name saga_id s =
      (ok tt, record s { store = Dict.remove (get_store_key saga_name saga_id) s.store })

  unfoldable pub has : String → String → MemoryStore D → Bool
  has saga_name saga_id s = Dict.has (get_store_key saga_name saga_id) s.store

  unfoldable pub get_all : MemoryStore D → List (SagaState D)
  get_all s = map clone (Dict.values s.store)

  abbrev pub memory_ops : StoreOps D (MemoryStore D)
  memory_ops = record {
    get_by_id = get_by_id;
    get_by_correlation_id = get_by_correlation_id;
    insert = insert;
    update = update;
    delete = delete;
  }

module _ {D : Type 0} where
  unfoldable pub size : MemoryStore D → ℕ
  size s = length s.store

  unfoldable pub clear : MemoryStore D → MemoryStore D
  clear s = empty
