-- ===== src/Pipeline/Fuel.antt =====
-- The fuel of the pipeline is enough: more of it changes nothing.
use saga_bus.Pipeline.{execute, Action, Middleware, Done, stop, call_next, drive, next_from}
use saga_bus.Errors.{Error}
use saga_bus.Prelude.{ℕ, zero, suc, ◌≤◌, ◌≡◌, refl, ap, ◌∙◌, List, [], ◌∷◌, arith, length}
use saga_bus.Prelude.Exec.{Exec}
use saga_bus.Prelude.Int.{next}

module _ {W : Type 0} where
  -- next() never leaves more middleware than it found.
  drive-shorter :
      (next : List (Middleware W) → W → Done × W × List (Middleware W))
      → ((rest : List (Middleware W)) (w : W) → length (next rest w).2 ≤ length rest)
      → (a : Action W) (rest : List (Middleware W)) → length (drive next a rest).2 ≤ length rest
  unfolding drive
  drive-shorter next h (stop r w) rest = omega arith
  drive-shorter next h (call_next w k) rest =
      omega
        (arith, h rest w, drive-shorter next h (k (next rest w).0 (next rest w).1) (next rest w).2)

  next_from-shorter :
      (core : Exec Error W (Unit {0})) (n : ℕ) (rest : List (Middleware W)) (w : W)
      → length (next_from core n rest w).2 ≤ length rest
  unfolding next_from
  next_from-shorter core zero rest w = omega arith
  next_from-shorter core (suc n) [] w = omega arith
  next_from-shorter core (suc n) (m ∷ rest) w =
      omega (arith, drive-shorter (next_from core n) (next_from-shorter core n) (m w) rest)

  -- Two ways to go on that agree on short lists drive a middleware alike.
  drive_agree :
      (f g : List (Middleware W) → W → Done × W × List (Middleware W)) (n : ℕ)
      → ((rest : List (Middleware W)) (w : W) → length rest ≤ n → f rest w ≡ g rest w)
      → ((rest : List (Middleware W)) (w : W) → length (f rest w).2 ≤ length rest)
      → (a : Action W) (rest : List (Middleware W)) → length rest ≤ n
      → drive f a rest ≡ drive g a rest
  unfolding drive
  drive_agree f g n same shorter (stop r w) rest h = refl
  drive_agree f g n same shorter (call_next w k) rest h =
      drive_agree f g n same shorter (k (f rest w).0 (f rest w).1) (f rest w).2
        (omega (arith, shorter rest w))
      ∙ ap (λ x. drive g (k x.0 x.1) x.2) (same rest w h)

  next_from-enough :
      (core : Exec Error W (Unit {0})) (n k : ℕ) (rest : List (Middleware W)) (w : W)
      → length rest ≤ n
      → length rest ≤ k
      → next_from core n rest w ≡ next_from core k rest w
  unfolding next_from
  next_from-enough core zero zero rest w p q = refl
  next_from-enough core zero (suc k) [] w p q = refl
  next_from-enough core (suc n) zero [] w p q = refl
  next_from-enough core (suc n) (suc k) [] w p q = refl
  next_from-enough core zero k (m ∷ rest) w p q = absurd (omega arith)
  next_from-enough core (suc n) zero (m ∷ rest) w p q = absurd (omega arith)
  next_from-enough core (suc n) (suc k) (m ∷ rest) w p q =
      drive_agree (next_from core n) (next_from core k) (length rest)
        (λ later v h. next_from-enough core n k later v (omega arith) (omega arith))
        (next_from-shorter core n) (m w) rest (omega arith)

  -- With any fuel from the number of middlewares on, next() gives the outcome and the state of
  -- execute, however often a middleware calls it.
  pub execute_fuel :
      (core : Exec Error W (Unit {0})) (ms : List (Middleware W)) (n : ℕ) (w : W)
      → length ms ≤ n
      → ((next_from core n ms w).0 ≡ (execute ms core w).0)
        × ((next_from core n ms w).1 ≡ (execute ms core w).1)
  unfolding execute
  execute_fuel core ms n w h =
      let same : next_from core n ms w ≡ next_from core (length ms) ms w =
        next_from-enough core n (length ms) ms w h (omega arith) in
      (ap (λ x. x.0) same, ap (λ x. x.1) same)
