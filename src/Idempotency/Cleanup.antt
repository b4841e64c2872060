-- ===== src/Idempotency/Cleanup.antt =====
-- The clean-up of the in-memory idempotency store.
use saga_bus.Idempotency.Memory.{Entry, Marks, check, cleanup, has, is_expired, live}
use saga_bus.Prelude.{
  ℕ, ◌+◌, ◌≤◌, String, ◌≡◌, refl, sym, ap, ◌∙◌, Bool, false, not, Option, none, some, [], ◌∷◌,
  arith, eq_iff, ◌==◌, if◌then◌else◌, Bool-cases, Option-cases, inl, inr, ltb,
}
use saga_bus.Prelude.Dict.{Dict}
use saga_bus.Prelude.Exec.{ok}
use saga_bus.Prelude.Dict

-- No key stands twice, as in a Map.
abbrev pub IsMap : Dict Entry → Type 0
IsMap [] = Unit {0}
IsMap ((k, e) ∷ m) = (Dict.get k m ≡ none) × IsMap m

-- An entry counts as long as it has not expired.
abbrev pub counts : ℕ → Option Entry → Bool
counts now none = false
counts now (some e) = not (is_expired now e)

abbrev alive : ℕ → Option Entry → Option Entry
alive now none = none
alive now (some e) = if is_expired now e then none else some e

get-live :
    (message_id : String) (now : ℕ) (m : Dict Entry)
    → IsMap m
    → Dict.get message_id (live now m) ≡ alive now (Dict.get message_id m)
unfolding live Dict.get
get-live message_id now [] h = refl
get-live message_id now ((k, e) ∷ m) h = elim (Bool-cases (k == message_id)) [
  | inl same ↦ elim (Bool-cases (is_expired now e)) [
    | inl out ↦
        rw (same, out)
          (get-live message_id now m h.1
            ∙ ap (alive now) (ap (λ i. Dict.get i m) (sym ((eq_iff k message_id).0 same)) ∙ h.0))
    | inr stays ↦ rw (same, stays, same)
  ]
  | inr apart ↦ elim (Bool-cases (is_expired now e)) [
    | inl out ↦ rw (out, apart) (get-live message_id now m h.1)
    | inr stays ↦ rw (stays, apart) (get-live message_id now m h.1)
  ]
]

check-counts :
    (times : ℕ → ℕ) (message_id : String) (o : Option Entry) (s : Marks)
    → (check times message_id o s).0 ≡ ok (counts (times s.reads) o)
unfolding check is_expired
check-counts times message_id none s = refl
check-counts times message_id (some e) s = elim (Option-cases e.expires_at) [
  | inl never ↦ rw never
  | inr (t, at) ↦
      rw at (elim (Bool-cases (ltb t (times s.reads))) [ inl out ↦ rw out | inr stays ↦ rw stays ])
]

has-counts :
    (times : ℕ → ℕ) (message_id : String) (s : Marks)
    → (has times message_id s).0 ≡ ok (counts (times s.reads) (Dict.get message_id s.entries))
unfolding has
has-counts times message_id s = check-counts times message_id (Dict.get message_id s.entries) s

counts-alive :
    (earlier later : ℕ) (e : Option Entry)
    → earlier ≤ later
    → counts later (alive earlier e) ≡ counts later e
unfolding is_expired
counts-alive earlier later none h = refl
counts-alive earlier later (some e) h = elim (Option-cases e.expires_at) [
  | inl never ↦ rw never
  | inr (t, at) ↦
      rw at (elim (Bool-cases (ltb t earlier)) [
        | inl out ↦ rw out (ground arith)
        | inr stays ↦ rw stays
      ])
]

-- A clean-up changes no later answer: on a map, if the clock does not go back between the reading
-- of the clean-up and the next, the store knows the same messages after it as without it.
pub has-cleanup :
    (times : ℕ → ℕ) (message_id : String) (s : Marks)
    → IsMap s.entries
    → times s.reads ≤ times (s.reads + 1)
    → (has times message_id (cleanup times s)).0
      ≡ (has times message_id (record s { reads = s.reads + 1 })).0
unfolding cleanup
has-cleanup times message_id s h clock =
    has-counts times message_id (cleanup times s)
    ∙ ap (λ e. ok (counts (times (s.reads + 1)) e))
        (get-live message_id (times s.reads) s.entries h)
    ∙ ap ok
        (counts-alive (times s.reads) (times (s.reads + 1)) (Dict.get message_id s.entries) clock)
    ∙ sym (has-counts times message_id (record s { reads = s.reads + 1 }))
