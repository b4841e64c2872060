-- ===== src/Idempotency/Memory.antt =====
-- packages/middleware-idempotency/src/stores/InMemoryIdempotencyStore.ts. The clock is the sequence
-- `times` of its readings; `reads` says how many were taken. The interval that runs cleanup is a
-- caller of it.
use saga_bus.Errors.{Error}
use saga_bus.Idempotency.{IdempotencyStore}
use saga_bus.Prelude.{
  ℕ, ◌+◌, String, Bool, true, false, not, Option, none, some, [], ltb, if◌then◌else◌, length, keep,
}
use saga_bus.Prelude.Dict.{Dict}
use saga_bus.Prelude.Exec.{Exec, Slot, ok, on_slot}
use saga_bus.Prelude.Dict

-- StoreEntry
pub record Entry : Type 0 where
  pub expires_at : Option ℕ

pub record Marks : Type 0 where
  pub entries : Dict Entry
  pub reads : ℕ

-- `entry.expiresAt !== null && now > entry.expiresAt`
unfoldable pub is_expired : ℕ → Entry → Bool
is_expired now e = elim e.expires_at [ none ↦ false | some t ↦ ltb t now ]

-- The entries that have not expired
unfoldable pub live : ℕ → Dict Entry → Dict Entry
unfolding is_expired
live now entries = keep (λ x. not (is_expired now x.1)) entries

module _ (times : ℕ → ℕ) where
  -- The clock is read for an entry that can expire.
  unfoldable pub check : String → Option Entry → Exec Error Marks Bool
  unfolding is_expired
  check message_id none s = (ok false, s)
  check message_id (some e) s = elim e.expires_at [
    | none ↦ (ok true, s)
    | some t ↦
        if is_expired (times s.reads) e
        then (ok false, record { entries = Dict.remove message_id s.entries; reads = s.reads + 1 })
        else (ok true, record s { reads = s.reads + 1 })
  ]

  unfoldable pub has : String → Exec Error Marks Bool
  unfolding check
  has message_id s = check message_id (Dict.get message_id s.entries) s

  unfoldable pub set : String → Option ℕ → Exec Error Marks (Unit {0})
  set message_id none s =
      (ok tt, record s { entries = Dict.set message_id (record { expires_at = none }) s.entries })
  set message_id (some ttl_ms) s = (
    ok tt,
    record {
      entries =
          Dict.set message_id (record { expires_at = some (times s.reads + ttl_ms) }) s.entries;
      reads = s.reads + 1;
    },
  )

  unfoldable pub delete : String → Exec Error Marks (Unit {0})
  delete message_id s = (ok tt, record s { entries = Dict.remove message_id s.entries })

  unfoldable pub clear : Exec Error Marks (Unit {0})
  clear s = (ok tt, record s { entries = [] })

  unfoldable pub cleanup : Marks → Marks
  unfolding live
  cleanup s = record { entries = live (times s.reads) s.entries; reads = s.reads + 1 }

  -- The store inside a larger state
  abbrev pub memory_idempotency_store : {W : Type 0} → Slot W Marks → IdempotencyStore W
  memory_idempotency_store slot = record {
    has = λ message_id. on_slot slot (has message_id);
    set = λ message_id ttl_ms. on_slot slot (set message_id ttl_ms);
    delete = λ message_id. on_slot slot (delete message_id);
    clear = on_slot slot clear;
  }

unfoldable pub size : Marks → ℕ
size s = length s.entries
