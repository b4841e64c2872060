-- ===== src/Pipeline/Onion.antt =====
-- Middleware that calls `next` at most once wraps what stands behind it.
use saga_bus.Pipeline.{Action, Middleware, Done, stop, call_next, drive, next_from, execute}
use saga_bus.Errors.{Error}
use saga_bus.Prelude.{◌≡◌, refl, ap, ◌∙◌, List, [], ◌∷◌, length, All}
use saga_bus.Prelude.Exec.{Exec}
use saga_bus.Prelude.Int.{next}

module _ {W : Type 0} where
  -- The reference: a middleware around an action.
  unfoldable pub around : Exec Error W (Unit {0}) → Action W → Done × W
  around inner (stop r w) = (r, w)
  around inner (call_next w k) = let (r, w') = inner w in around inner (k r w')

  unfoldable pub onion : List (Middleware W) → Exec Error W (Unit {0}) → Exec Error W (Unit {0})
  unfolding around
  onion [] core w = core w
  onion (m ∷ rest) core w = around (onion rest core) (m w)

  abbrev pub Stops : Action W → Type 0
  Stops (stop r w) = Unit {0}
  Stops (call_next w k) = ⊥

  -- next() is called at most once, whatever it gives.
  abbrev pub CallsOnce : Action W → Type 0
  CallsOnce (stop r w) = Unit {0}
  CallsOnce (call_next w k) = (r : Done) (w' : W) → Stops (k r w')

  abbrev front : Done × W × List (Middleware W) → Done × W
  front (r, w, rest) = (r, w)

  drive-Stops :
      (next : List (Middleware W) → W → Done × W × List (Middleware W))
      (inner : Exec Error W (Unit {0})) (a : Action W) (rest : List (Middleware W))
      → Stops a
      → front (drive next a rest) ≡ around inner a
  unfolding drive around
  drive-Stops next inner (stop r w) rest h = refl
  drive-Stops next inner (call_next w k) rest h = absurd h

  drive-around :
      (next : List (Middleware W) → W → Done × W × List (Middleware W))
      (inner : Exec Error W (Unit {0})) (a : Action W) (rest : List (Middleware W))
      → CallsOnce a
      → ((w : W) → front (next rest w) ≡ inner w)
      → front (drive next a rest) ≡ around inner a
  unfolding drive around
  drive-around next inner (stop r w) rest once h = refl
  drive-around next inner (call_next w k) rest once h =
      drive-Stops next inner (k (next rest w).0 (next rest w).1) (next rest w).2
        (once (next rest w).0 (next rest w).1)
      ∙ ap (λ x. around inner (k x.0 x.1)) (h w)

  next_from-onion :
      (core : Exec Error W (Unit {0})) (ms : List (Middleware W)) (w : W)
      → All (λ m. (w : W) → CallsOnce (m w)) ms
      → front (next_from core (length ms) ms w) ≡ onion ms core w
  unfolding next_from onion
  next_from-onion core [] w h = refl
  next_from-onion core (m ∷ ms) w h =
      drive-around (next_from core (length ms)) (onion ms core) (m w) ms (h.0 w)
        (λ v. next_from-onion core ms v h.1)

  -- Where each middleware calls next() at most once, executing the pipeline is nesting it: each
  -- middleware wraps the later ones, and the core handler stands inside them all.
  pub execute-onion :
      (ms : List (Middleware W)) (core : Exec Error W (Unit {0})) (w : W)
      → All (λ m. (w : W) → CallsOnce (m w)) ms
      → execute ms core w ≡ onion ms core w
  unfolding execute
  execute-onion ms core w h = next_from-onion core ms w h
