-- ===== src/Idempotency/Window.antt =====
-- The idempotency middleware on its in-memory store: a message that was handled is not handled
-- again within the window.
use saga_bus.Idempotency.{
  IdempotencyOptions, after, create_idempotency_middleware, duplicate_outcome, id_of, is_excluded,
  mark, skips, timing, window,
}
use saga_bus.Idempotency.Memory.{
  Entry, Marks, check, has, is_expired, memory_idempotency_store, set,
}
use saga_bus.Idempotency.Once.{execute-duplicate, execute-fresh, marked}
use saga_bus.Errors.{Error}
use saga_bus.Messages.{Envelope}
use saga_bus.Pipeline.{Done, Middleware, execute}
use saga_bus.Pipeline.Onion.{CallsOnce}
use saga_bus.Prelude.{
  ℕ, ◌+◌, ◌≤◌, String, ◌≡◌, sym, ap, ◌∙◌, true, false, Option, some, List, ◌∷◌, All, arith, ◌<?>◌,
  le→ltb_false, eq_refl,
}
use saga_bus.Prelude.Exec.{Exec, Slot, err, ok, resume}
use saga_bus.Prelude.Dict

module _ (times : ℕ → ℕ) where
  abbrev until : ℕ → Entry
  until t = record { expires_at = some t }

  -- The state after a look at an entry that can expire
  abbrev pub looked : Marks → Marks
  looked s = record s { reads = s.reads + 1 }

  has-live :
      (message_id : String) (t : ℕ) (s : Marks)
      → Dict.get message_id s.entries ≡ some (until t)
      → times s.reads ≤ t
      → has times message_id s ≡ (ok true, looked s)
  unfolding has check is_expired
  has-live message_id t s here early = rw (here, le→ltb_false t (times s.reads) early)

  get-set_same :
      (message_id : String) (ttl : ℕ) (s : Marks)
      → Dict.get message_id (set times message_id (some ttl) s).1.entries
        ≡ some (until (times s.reads + ttl))
  unfolding set
  get-set_same message_id ttl s = simp (Dict.get-set, eq_refl)

  module _ {B W : Type 0} (slot : Slot W Marks) (settings : IdempotencyOptions B W)
      (envelope_in : W → Envelope B) where
    -- The options with the in-memory store
    abbrev pub options : IdempotencyOptions B W
    options = record settings { store = memory_idempotency_store times slot }

    abbrev idempotency : Middleware W
    idempotency = create_idempotency_middleware options envelope_in

    abbrev pub key : W → String
    key w = id_of options envelope_in w

    abbrev pub entry_in : String → W → Option Entry
    entry_in message_id w = Dict.get message_id (slot.look w).entries

    -- What a duplicate gets
    abbrev pub refused : W → Done × W
    refused w = (
      duplicate_outcome (options.on_duplicate <?> skips) (key w) (envelope_in w).type,
      slot.put (looked (slot.look w)) w,
    )

    pub execute-live :
        (rest : List (Middleware W)) (core : Exec Error W (Unit {0})) (w : W) (t : ℕ)
        → is_excluded options envelope_in w ≡ false
        → entry_in (key w) w ≡ some (until t)
        → times (slot.look w).reads ≤ t
        → execute (idempotency ∷ rest) core w ≡ refused w
    execute-live rest core w t included here early =
        execute-duplicate options envelope_in rest core w (slot.put (looked (slot.look w)) w)
          included (ap (λ r. (r.0, slot.put r.1 w)) (has-live (key w) t (slot.look w) here early))

    -- A mark that is made is in the store, with the window as its time to live.
    mark-entry :
        (message_id : String) (v w : W)
        → mark options envelope_in message_id v ≡ (ok tt, w)
        → ((slot.look w).reads ≡ (slot.look v).reads + 1)
          × (entry_in message_id w
              ≡ some (until (times (slot.look v).reads + window options envelope_in)))
    unfolding set
    mark-entry message_id v w done =
        let left : slot.look w
            ≡ (set times message_id (some (window options envelope_in)) (slot.look v)).1 =
          ap (λ r. slot.look r.1) (sym done)
          ∙ slot.look-put (set times message_id (some (window options envelope_in)) (slot.look v)).1
              v in
        (
          ap (λ s. s.reads) left,
          ap (λ s. Dict.get message_id s.entries) left
              ∙ get-set_same message_id (window options envelope_in) (slot.look v),
        )

    err≢ok : {e : Error} {u : Unit {0}} → ¬ (err e ≡ ok u)
    err≢ok h = cc

    -- What is left of a run that returned with the mark behind it
    run-marked :
        (message_id : String) (x : Done × W) (w : W) (n : ℕ)
        → resume x (λ _. mark options envelope_in message_id) ≡ (ok tt, w)
        → (slot.look w).reads ≡ n + 1
        → entry_in message_id w ≡ some (until (times n + window options envelope_in))
    run-marked message_id (err e, v) w n done reading = absurd (err≢ok (ap (λ r. r.0) done))
    run-marked message_id (ok u, v) w n done reading =
        let (read, here) = mark-entry message_id v w done in
        here
        ∙ ap (λ k. some (until (times k + window options envelope_in)))
            (omega (arith, read, reading))

    -- With the timing "after", and later middlewares that call next at most once: a message that the
    -- store did not know, of a type that is not excluded, and that the pipeline handled without a
    -- throw, was marked at the reading n of the clock. When a message of the same id and
    -- of a type that is not excluded comes in a state that still has the entry, at a reading within
    -- the window, then no middleware behind and no handler gets it, and the state is only looked at.
    pub execute-once :
        (rest later : List (Middleware W)) (core again : Exec Error W (Unit {0})) (w w1 w2 : W)
        (n : ℕ)
        → All (λ m. (v : W) → CallsOnce (m v)) rest
        → timing options envelope_in ≡ after
        → is_excluded options envelope_in w ≡ false
        → (has times (key w) (slot.look w)).0 ≡ ok false
        → execute (idempotency ∷ rest) core w ≡ (ok tt, w1)
        → (slot.look w1).reads ≡ n + 1
        → key w2 ≡ key w
        → is_excluded options envelope_in w2 ≡ false
        → entry_in (key w) w2 ≡ entry_in (key w) w1
        → times (slot.look w2).reads ≤ times n + window options envelope_in
        → execute (idempotency ∷ later) again w2 ≡ refused w2
    execute-once rest later core again w w1 w2 n once late included fresh ran reading same included'
          kept early =
        let message_id : String = key w in
        let w' : W = slot.put (has times message_id (slot.look w)).1 w in
        let shape : marked options envelope_in after message_id (execute rest core) w'
            ≡ (ok tt, w1) =
          ap (λ t. marked options envelope_in t message_id (execute rest core) w') (sym late)
          ∙ sym (
              execute-fresh options envelope_in rest core w w' once included
                (ap (λ r. (r, w')) fresh))
          ∙ ran in
        execute-live later again w2 (times n + window options envelope_in) included'
          (ap (λ k. entry_in k w2) same
            ∙ kept
            ∙ run-marked message_id (execute rest core w') w1 n shape reading)
          early
