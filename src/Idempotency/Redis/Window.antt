-- ===== src/Idempotency/Redis/Window.antt =====
-- The idempotency middleware on its Redis store: how long a mark keeps a message away.
use saga_bus.Idempotency.{
  IdempotencyOptions, create_idempotency_middleware, duplicate_outcome, id_of, is_excluded, mark,
  skips, window,
}
use saga_bus.Idempotency.Once.{execute-duplicate}
use saga_bus.Idempotency.Redis.{
  Redis, ceil_seconds, exists, has, key_of, redis_idempotency_store, set,
}
use saga_bus.Idempotency.Redis.Client.{IsRedis}
use saga_bus.Errors.{Error}
use saga_bus.Messages.{Envelope}
use saga_bus.Pipeline.{Middleware, execute}
use saga_bus.Prelude.{
  ℕ, ◌+◌, ◌*◌, ◌≤◌, String, ◌≡◌, ◌≢◌, refl, subst, sym, ap, ◌∙◌, Bool, true, false, Option, none,
  some, List, ◌∷◌, arith, ◌<?>◌,
}
use saga_bus.Prelude.Exec.{Exec, Result, Slot, Yields, Yields-ok, Yields-resume, Yields-weaken, ok}

-- The seconds are never less than the milliseconds.
ceil_seconds-AtLeast : (t : ℕ) → t ≤ 1000 * ceil_seconds t
unfolding ceil_seconds
ceil_seconds-AtLeast t = omega arith

present-exists : (v : Option String) → v ≢ none → exists v ≡ true
unfolding exists
present-exists none h = absurd (h refl)
present-exists (some text) h = refl

module _ {S : Type 0} (key_prefix : String) (redis : Redis S) (laws : IsRedis redis) where
  -- The key of the message lasts for some more milliseconds than the time to live.
  abbrev pub LastsFrom : String → ℕ → S → Type 0
  LastsFrom message_id t s =
      (until : ℕ) × (t ≤ until) × laws.Lasts (key_of key_prefix redis message_id) until s

  set-LastsFrom :
      (message_id : String) (ttl : ℕ) (s : S)
      → Yields
          (λ u s'. LastsFrom message_id (laws.now s + ttl) s')
          (set key_prefix redis message_id (some ttl) s)
  unfolding set
  set-LastsFrom message_id ttl s =
      Yields-weaken _ _ (redis.setex (key_of key_prefix redis message_id) (ceil_seconds ttl) "1" s)
        (λ u s' kept. (kept.0, omega (arith, kept.1, ceil_seconds-AtLeast ttl), kept.2))
        (laws.expiring (key_of key_prefix redis message_id) (ceil_seconds ttl) "1" s)

  has-LastsFrom :
      (message_id : String) (t : ℕ) (s : S)
      → LastsFrom message_id t s
      → Yields (λ b s'. laws.now s' ≤ t → b ≡ true) (has key_prefix redis message_id s)
  unfolding has
  has-LastsFrom message_id t s (until, late, kept) =
      Yields-resume (λ v s'. laws.now s' ≤ until → v ≢ none) _
        (redis.get (key_of key_prefix redis message_id) s) _
        (laws.got (key_of key_prefix redis message_id) until s kept)
        (λ v s' there early. present-exists v (there (omega (arith, early, late))))

  module _ {B W : Type 0} (slot : Slot W S) (settings : IdempotencyOptions B W)
      (envelope_in : W → Envelope B) where
    -- The options with the Redis store
    abbrev pub options : IdempotencyOptions B W
    options = record settings { store = redis_idempotency_store key_prefix redis slot }

    abbrev idempotency : Middleware W
    idempotency = create_idempotency_middleware options envelope_in

    -- What the store answers about a message
    abbrev pub answer : W → Result Error Bool × S
    answer w = has key_prefix redis (id_of options envelope_in w) (slot.look w)

    -- On a Redis client with the documented SETEX and GET: once the middleware marked the id of a
    -- message in a state v, and no other client took the mark away, a message of that id, of a type
    -- that is not excluded, about which the store answers no later than the window after v, is a
    -- duplicate: it gets what duplicates get, and nothing is run behind the middleware.
    pub execute-lasting :
        (rest : List (Middleware W)) (core : Exec Error W (Unit {0})) (v w : W) {b : Bool}
        → (mark options envelope_in (id_of options envelope_in w) v).0 ≡ ok tt
        → ((t : ℕ)
            → laws.Lasts
                (key_of key_prefix redis (id_of options envelope_in w))
                t
                (slot.look (mark options envelope_in (id_of options envelope_in w) v).1)
            → laws.Lasts (key_of key_prefix redis (id_of options envelope_in w)) t (slot.look w))
        → is_excluded options envelope_in w ≡ false
        → (answer w).0 ≡ ok b
        → laws.now (answer w).1 ≤ laws.now (slot.look v) + window options envelope_in
        → execute (idempotency ∷ rest) core w ≡ (
          duplicate_outcome
              (options.on_duplicate <?> skips)
              (id_of options envelope_in w)
              (envelope_in w).type,
          slot.put (answer w).1 w,
        )
    execute-lasting rest core v w marked stays included answered early =
        let id : String = id_of options envelope_in w in
        let deadline : ℕ = laws.now (slot.look v) + window options envelope_in in
        let lasting : LastsFrom id deadline (slot.look (mark options envelope_in id v).1) =
          subst (LastsFrom id deadline) (sym (slot.look-put _ v)) (
            Yields-ok (λ u s'. LastsFrom id deadline s')
              (set key_prefix redis id (some (window options envelope_in)) (slot.look v))
              (set-LastsFrom id (window options envelope_in) (slot.look v)) marked) in
        let known : (answer w).0 ≡ ok true =
          answered
          ∙ ap ok (
              Yields-ok (λ a s'. laws.now s' ≤ deadline → a ≡ true) (answer w)
                (has-LastsFrom id deadline (slot.look w)
                  (lasting.0, lasting.1, stays lasting.0 lasting.2))
                answered early) in
        execute-duplicate options envelope_in rest core w (slot.put (answer w).1 w) included
          (ap (λ r. (r, slot.put (answer w).1 w)) known)
