-- ===== src/Examples/Tables.antt =====
-- The SQLite store on a database that has room for one row.
use saga_bus.Examples.{number_dates}
use saga_bus.Errors.{Error, plain}
use saga_bus.State.{SagaState}
use saga_bus.Store.{IsOptimistic}
use saga_bus.Store.Memory.{clone}
use saga_bus.Store.Sqlite.{Json, Statements, StoredSaga}
use saga_bus.Store.Sqlite.Database.{IsTable}
use saga_bus.Store.Sqlite.Refinement.{sound_ops, sqlite-IsOptimistic}
use saga_bus.Prelude.{
  ℕ, String, ◌≡◌, ◌≢◌, refl, sym, ap, ◌∙◌, ◌⊎◌, inl, inr, Bool, true, false, ◌&&◌, Option, none,
  some, nat_eq, ◌==◌, eq_iff, eq_refl, if◌then◌else◌, arith, Bool-cases, nat_eq_iff, eq_refl,
}
use saga_bus.Prelude.Exec.{Exec, Result, err, ok}

-- JSON is kept as the state itself.
abbrev Row : Type 0
Row = StoredSaga (SagaState ℕ)

abbrev Table : Type 0
Table = Option Row

abbrev is_key : String → String → Row → Bool
is_key n i row = n == row.saga_name && i == row.saga_id

abbrev select : String → String → Table → Option Row
select n i none = none
select n i (some row) = if is_key n i row then some row else none

abbrev select_by : String → String → Table → Option Row
select_by n c none = none
select_by n c (some row) = if n == row.saga_name && c == row.correlation_id then some row else none

abbrev insert_into : Row → Exec Error Table (Unit {0})
insert_into row none = (ok tt, some row)
insert_into row (some old) = (err (plain "UNIQUE constraint failed"), some old)

abbrev update_in : SagaState ℕ → ℕ → String → String → String → ℕ → Exec Error Table ℕ
update_in state v at n i w none = (ok 0, none)
update_in state v at n i w (some row) =
    if is_key n i row && nat_eq row.version w
    then (ok 1, some (record row { state = state; version = v; updated_at = at }))
    else (ok 0, some row)

abbrev delete_from : String → String → Exec Error Table (Unit {0})
delete_from n i none = (ok tt, none)
delete_from n i (some row) = if is_key n i row then (ok tt, none) else (ok tt, some row)

abbrev one_row : Statements (SagaState ℕ) Table
one_row = record {
  select_by_id = select;
  select_by_correlation_id = select_by;
  insert_row = insert_into;
  update_row = update_in;
  delete_row = delete_from;
}

keyed :
    (n c : String) (s : Table) (row : Row)
    → select_by n c s ≡ some row
    → select n row.saga_id s ≡ some row
keyed n c none row h = cc
keyed n c (some r) row h = ground (arith, eq_refl r.saga_id)

is_key-own : (row : Row) → is_key row.saga_name row.saga_id row ≡ true
is_key-own row = rw (eq_refl row.saga_name, eq_refl row.saga_id)

is_key-apart :
    (n i : String) (row : Row) → (n ≢ row.saga_name) ⊎ (i ≢ row.saga_id) → is_key n i row ≡ false
is_key-apart n i row (inl h) = ground (arith, eq_iff n row.saga_name)
is_key-apart n i row (inr h) = ground (arith, eq_iff i row.saga_id)

other_key :
    (n i m j : String) (r : Row) → (m ≢ n) ⊎ (j ≢ i) → (is_key n i r && is_key m j r) ≡ false
other_key n i m j r (inl h) = ground (arith, eq_iff n r.saga_name, eq_iff m r.saga_name)
other_key n i m j r (inr h) = ground (arith, eq_iff i r.saga_id, eq_iff j r.saga_id)

inserted :
    (row : Row) (s : Table)
    → (insert_into row s).0 ≡ ok tt
    → (select row.saga_name row.saga_id s ≡ none)
      × (select row.saga_name row.saga_id (insert_into row s).1 ≡ some row)
inserted row none h = (refl, rw (is_key-own row))
inserted row (some r) h = cc

insert_thrown :
    (row : Row) (s : Table) (e : Error) → (insert_into row s).0 ≡ err e → (insert_into row s).1 ≡ s
insert_thrown row none e h = cc
insert_thrown row (some r) e h = refl

insert_other :
    (row : Row) (s : Table) (n i : String)
    → (n ≢ row.saga_name) ⊎ (i ≢ row.saga_id)
    → select n i (insert_into row s).1 ≡ select n i s
insert_other row none n i h = rw (is_key-apart n i row h)
insert_other row (some r) n i h = refl

abbrev version_of : Option Row → ℕ
version_of none = 0
version_of (some row) = row.version

none≢some : {row : Row} → ¬ (none ≡ some row)
none≢some h = cc

ok≢err : {A : Type 0} {a : A} {e : Error} → ¬ (ok a ≡ err e)
ok≢err h = cc

first_row : (n i : String) (r : Row) → is_key n i r ≡ true → some r ≡ select n i (some r)
first_row n i r own = rw own

no_row : (n i : String) (r : Row) → is_key n i r ≡ false → none ≡ select n i (some r)
no_row n i r apart = rw apart

first_count :
    (state : SagaState ℕ) (v : ℕ) (at n i : String) (w : ℕ) (r : Row)
    → (is_key n i r && nat_eq r.version w) ≡ true
    → ok 1 ≡ (update_in state v at n i w (some r)).0
first_count state v at n i w r own = rw own

no_count :
    (state : SagaState ℕ) (v : ℕ) (at n i : String) (w : ℕ) (r : Row)
    → (is_key n i r && nat_eq r.version w) ≡ false
    → (update_in state v at n i w (some r)).0 ≡ ok 0
no_count state v at n i w r apart = rw apart

done_own : (n i : String) (r : Row) → is_key n i r ≡ true → ok tt ≡ (delete_from n i (some r)).0
done_own n i r own = rw own

differ_lem : (a b : ℕ) → nat_eq a b ≡ false → a ≢ b
differ_lem a b h = ground (arith, h)

abbrev count : Result Error ℕ → ℕ
count (ok k) = k
count (err e) = 0

updated :
    (state : SagaState ℕ) (v : ℕ) (at n i : String) (w : ℕ) (s : Table) (k : ℕ)
    → (update_in state v at n i w s).0 ≡ ok k
    → ((row : Row) × (select n i s ≡ some row)
        × (row.version ≡ w)
        × (k ≡ 1)
        × (select n i (update_in state v at n i w s).1
            ≡ some (record row { state = state; version = v; updated_at = at })))
      ⊎ ((k ≡ 0)
          × ((update_in state v at n i w s).1 ≡ s)
          × ((row : Row) → select n i s ≡ some row → row.version ≢ w))
updated state v at n i w none k h = inr (ap count (sym h), refl, λ row here. cc)
updated state v at n i w (some r) k h = elim (Bool-cases (is_key n i r)) [
  | inl own ↦ elim (Bool-cases (nat_eq r.version w)) [
    | inl same ↦ inl (
      r,
      rw own,
      (nat_eq_iff r.version w).0 same,
      ap count (sym h ∙ sym (first_count state v at n i w r (rw (own, same)))),
      rw (own, same) (rw own),
    )
    | inr differs ↦ inr (
      ap count (sym h ∙ no_count state v at n i w r (rw (own, differs))),
      rw (own, differs),
      λ row here v.
          absurd (differ_lem r.version w differs (ap version_of (first_row n i r own ∙ here) ∙ v)),
    )
  ]
  | inr apart ↦ inr (
    ap count (sym h ∙ no_count state v at n i w r (rw apart)),
    rw apart,
    λ row here v. absurd (none≢some (no_row n i r apart ∙ here)),
  )
]

update_thrown :
    (state : SagaState ℕ) (v : ℕ) (at n i : String) (w : ℕ) (s : Table) (e : Error)
    → (update_in state v at n i w s).0 ≡ err e
    → (update_in state v at n i w s).1 ≡ s
update_thrown state v at n i w none e h = cc
update_thrown state v at n i w (some r) e h =
    elim (Bool-cases (is_key n i r && nat_eq r.version w)) [
      | inl own ↦ absurd (ok≢err (first_count state v at n i w r own ∙ h))
      | inr apart ↦ rw apart
    ]

update_other :
    (state : SagaState ℕ) (v : ℕ) (at n i : String) (w : ℕ) (s : Table) (m j : String)
    → (m ≢ n) ⊎ (j ≢ i)
    → select m j (update_in state v at n i w s).1 ≡ select m j s
update_other state v at n i w none m j h = refl
update_other state v at n i w (some r) m j h = ground (
  arith,
  eq_iff n r.saga_name,
  eq_iff i r.saga_id,
  eq_iff m r.saga_name,
  eq_iff j r.saga_id,
  other_key n i m j r h,
)

deleted :
    (n i : String) (s : Table)
    → (delete_from n i s).0 ≡ ok tt
    → select n i (delete_from n i s).1 ≡ none
deleted n i none h = refl
deleted n i (some r) h = elim (Bool-cases (is_key n i r)) [
  | inl own ↦ rw own
  | inr apart ↦ rw (apart, apart)
]

delete_thrown :
    (n i : String) (s : Table) (e : Error)
    → (delete_from n i s).0 ≡ err e
    → (delete_from n i s).1 ≡ s
delete_thrown n i none e h = cc
delete_thrown n i (some r) e h = elim (Bool-cases (is_key n i r)) [
  | inl own ↦ absurd (ok≢err (done_own n i r own ∙ h))
  | inr apart ↦ rw apart
]

delete_other :
    (n i : String) (s : Table) (m j : String)
    → (m ≢ n) ⊎ (j ≢ i)
    → select m j (delete_from n i s).1 ≡ select m j s
delete_other n i none m j h = refl
delete_other n i (some r) m j h = ground (
  arith,
  eq_iff n r.saga_name,
  eq_iff i r.saga_id,
  eq_iff m r.saga_name,
  eq_iff j r.saga_id,
  other_key n i m j r h,
)

abbrev is_table : IsTable one_row
is_table = record {
  keyed = keyed;
  inserted = inserted;
  insert_thrown = insert_thrown;
  insert_other = insert_other;
  updated = updated;
  update_thrown = update_thrown;
  update_other = update_other;
  deleted = deleted;
  delete_thrown = delete_thrown;
  delete_other = delete_other;
}

abbrev json : Json (SagaState ℕ) ℕ number_dates
json = record {
  stringify = clone number_dates (λ x. x);
  parse = λ t. t;
  data_clone = λ x. x;
  parse-stringify = λ x. refl;
}

sqlite-IsOptimistic_example : IsOptimistic (sound_ops number_dates json one_row is_table)
sqlite-IsOptimistic_example = sqlite-IsOptimistic number_dates json one_row is_table
