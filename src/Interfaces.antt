-- ===== src/Interfaces.antt =====
-- The interfaces of packages/core/src/types/ that the runtime is written against, and what it takes
-- from the JavaScript platform: readings of the clock, random ids and the text form of dates.
use saga_bus.Errors.{Error}
use saga_bus.Messages.{Message, PublishOptions}
use saga_bus.Prelude.{ℕ, ◌+◌, String, ◌≡◌, true, Option, some, truthy}
use saga_bus.Prelude.Exec.{ok, Exec}

-- Date.prototype.toISOString and the Date constructor on a text, in milliseconds; `none` is an
-- invalid date. A valid date is read back, and its text is not empty.
pub record DateFormat : Type 0 where
  pub to_iso : ℕ → String
  pub parse : String → Option ℕ
  pub parse-to_iso : (t : ℕ) → parse (to_iso t) ≡ some t
  pub truthy-to_iso : (t : ℕ) → truthy (to_iso t) ≡ true

-- The n-th reading of the clock and the n-th random id.
pub record Platform : Type 0 where
  pub times : ℕ → ℕ
  pub uuids : ℕ → String
  pub dates : DateFormat

-- What code outside the store acts on: the transport, and how many readings and ids were taken.
pub record Env (T : Type 0) : Type 0 where
  pub transport : T
  pub reads : ℕ
  pub draws : ℕ

-- The operations of Transport that the runtime calls, on transports of type T.
pub record TransportOps (B T : Type 0) : Type 0 where
  pub start : Exec Error T (Unit {0})
  pub stop : Exec Error T (Unit {0})
  pub subscribe : String → ℕ → Exec Error T (Unit {0})
  pub publish : Message B → PublishOptions → Exec Error T (Unit {0})

module _ {T : Type 0} (platform : Platform) where
  -- new Date(), Date.now()
  abbrev pub now : Exec Error (Env T) ℕ
  now env = (ok (platform.times env.reads), record env { reads = env.reads + 1 })

  -- randomUUID()
  abbrev pub random_uuid : Exec Error (Env T) String
  random_uuid env = (ok (platform.uuids env.draws), record env { draws = env.draws + 1 })

-- A call on the transport inside an environment.
abbrev pub on_transport : {T A : Type 0} → Exec Error T A → Exec Error (Env T) A
on_transport m env = let (r, t) = m env.transport in (r, record env { transport = t })
