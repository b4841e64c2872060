-- ===== src/Pipeline.antt =====
-- packages/core/src/runtime/MiddlewarePipeline.ts. A middleware is a program that may call `next`
-- any number of times and act on the state W in between; it ends with an outcome. All calls of
-- `next` in one execution share the index of the next middleware, here the list that is left.
pub mod Fuel
pub mod Onion
use saga_bus.Errors.{Error}
use saga_bus.Prelude.{ℕ, zero, suc, List, [], ◌∷◌, length}
use saga_bus.Prelude.Exec.{Result, Exec}
use saga_bus.Prelude.Int.{next}

abbrev pub Done : Type 0
Done = Result Error (Unit {0})

-- What a middleware does next: return or throw, or await next() and go on with its outcome.
pub data Action (W : Type 0) : Type 0 where
  stop : Done → W → Action W
  call_next : W → (Done → W → Action W) → Action W

abbrev pub Middleware : Type 0 → Type 0
Middleware W = W → Action W

module _ {W : Type 0} where
  -- Runs a middleware; `next` gets what is left of the list and gives back what it leaves.
  unfoldable pub drive :
      (List (Middleware W) → W → Done × W × List (Middleware W))
      → Action W
      → List (Middleware W)
      → Done × W × List (Middleware W)
  drive next (stop r w) rest = (r, w, rest)
  drive next (call_next w k) rest = let (r, w', rest') = next rest w in drive next (k r w') rest'

  -- next(): the first middleware that is left, or the core handler. The fuel bounds how many are
  -- left, since each call takes one away.
  unfoldable pub next_from :
      Exec Error W (Unit {0}) → ℕ → List (Middleware W) → W → Done × W × List (Middleware W)
  unfolding drive
  next_from core zero rest w = let (r, w') = core w in (r, w', rest)
  next_from core (suc n) [] w = let (r, w') = core w in (r, w', [])
  next_from core (suc n) (m ∷ rest) w = drive (next_from core n) (m w) rest

  unfoldable pub execute : List (Middleware W) → Exec Error W (Unit {0}) → Exec Error W (Unit {0})
  unfolding next_from
  execute middleware core w =
      let (r, w', rest) = next_from core (length middleware) middleware w in (r, w')
