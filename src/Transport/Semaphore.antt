-- ===== src/Transport/Semaphore.antt =====
-- packages/transport-inmemory/src/Semaphore.ts: the permits of one subscription. A waiting acquirer
-- is known by a number.
use saga_bus.Prelude.{
  ℕ, suc, ◌+◌, ◌-◌, ◌≡◌, refl, subst, Bool, true, false, Option, none, some, List, [], ◌∷◌, ◌++◌,
  arith, ltb, if◌then◌else◌, is_some, length,
}

pub record Semaphore : Type 0 where
  pub permits : ℕ
  pub waiting : List ℕ

unfoldable pub new_semaphore : ℕ → Semaphore
new_semaphore permits = record { permits = permits; waiting = [] }

-- True: the permit is there at once; false: the acquirer waits.
unfoldable pub acquire : ℕ → Semaphore → Bool × Semaphore
acquire id s =
    if ltb 0 s.permits
    then (true, record s { permits = s.permits - 1 })
    else (false, record s { waiting = s.waiting ++ id ∷ [] })

-- `waiting.shift()`, and what the one that comes out of it leads to
unfoldable wake : Semaphore → List ℕ → Option ℕ × Semaphore
wake s [] = (none, record s { permits = s.permits + 1 })
wake s (woken ∷ rest) = (some woken, record s { waiting = rest })

-- The acquirer that is woken, if any
unfoldable pub release : Semaphore → Option ℕ × Semaphore
unfolding wake
release s = wake s s.waiting

-- The semaphores that calls of acquire and release lead to, with the number of callers that hold a
-- permit. Only a holder releases, as in withPermit.
pub data Reached (n : ℕ) : Semaphore → ℕ → Type 0 where
  made : Reached n (new_semaphore n) 0
  acquired :
      {s : Semaphore} {h : ℕ} (id : ℕ)
      → Reached n s h
      → Reached n (acquire id s).1 (if (acquire id s).0 then h + 1 else h)
  released :
      {s : Semaphore} {h : ℕ}
      → Reached n s (suc h)
      → Reached n (release s).1 (if is_some (release s).0 then h + 1 else h)

-- Holders and free permits make up the permits of the start, and nobody waits beside a free permit.
abbrev pub IsSound : ℕ → Semaphore → ℕ → Type 0
IsSound n s h = (s.permits + h ≡ n) × (ltb 0 (length s.waiting) ≡ true → s.permits ≡ 0)

acquire-IsSound :
    (n h id : ℕ) (s : Semaphore)
    → IsSound n s h
    → IsSound n (acquire id s).1 (if (acquire id s).0 then h + 1 else h)
unfolding acquire
acquire-IsSound n h id s (sum, idle) =
    (ground (arith, sum), λ waits. ground (arith, sum, idle, waits))

wake-IsSound :
    (n h : ℕ) (s : Semaphore) (w : List ℕ)
    → s.waiting ≡ w
    → s.permits + suc h ≡ n
    → (ltb 0 (length w) ≡ true → s.permits ≡ 0)
    → IsSound n (wake s w).1 (if is_some (wake s w).0 then h + 1 else h)
unfolding wake
wake-IsSound n h s [] here sum idle =
    (ground (arith, sum), λ waits. ground (arith, subst (λ w. ltb 0 (length w) ≡ true) here waits))
wake-IsSound n h s (woken ∷ rest) here sum idle =
    (ground (arith, sum), λ waits. idle (ground arith))

-- Whatever the order in which permits are acquired and released: the holders and the free permits
-- are as many as the semaphore was made with, and nobody waits while a permit is free.
pub Reached-IsSound : {n h : ℕ} {s : Semaphore} → Reached n s h → IsSound n s h
unfolding new_semaphore acquire release
Reached-IsSound made = (ground arith, λ waits. ground (arith, waits))
Reached-IsSound (acquired id r) = acquire-IsSound _ _ id _ (Reached-IsSound r)
Reached-IsSound (released r) = wake-IsSound _ _ _ _ refl (Reached-IsSound r).0 (Reached-IsSound r).1
