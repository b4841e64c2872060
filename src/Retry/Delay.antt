-- ===== src/Retry/Delay.antt =====
-- The delays of calculateDelay in packages/core/src/runtime/RetryHandler.ts.
use native.Mathlib.Nat.{pow-le-pow_right, mul-le-mul_left}
use saga_bus.Messages.{Number, whole}
use saga_bus.Retry.{RetryPolicy, Backoff, linear, exponential, uncapped, cap, calculate_delay}
use saga_bus.Prelude.{
  ℕ, suc, ◌*◌, ◌^◌, ◌≤◌, min, ◌≡◌, refl, ap, ◌∙◌, inl, inr, arith, ltb, ltb→lt, ltb_false→le,
  Bool-cases,
}
use saga_bus.Prelude.Int.{ℤ, pos, negsuc}

-- num / 2 ^ exp is at most m.
abbrev pub AtMost : Number → ℕ → Type 0
AtMost d m = elim d.num [ pos n ↦ n ≤ m * 2 ^ d.exp | negsuc n ↦ Unit ]

cap-AtMost : (num : ℤ) (exp m : ℕ) → AtMost (cap (record { num = num; exp = exp }) m) m
unfolding cap
cap-AtMost (negsuc n) exp m = tt
cap-AtMost (pos n) exp m = elim (Bool-cases (ltb (m * 2 ^ exp) n)) [
  | inl above ↦ rw above (omega arith)
  | inr below ↦ rw below (ltb_false→le (m * 2 ^ exp) n below)
]

-- Whatever the attempt, also one that a header gives as zero or negative, the delay stays under
-- the policy's maximum.
pub calculate_delay-AtMost :
    (p : RetryPolicy) (attempt : ℤ) → AtMost (calculate_delay p attempt) p.max_delay_ms
unfolding calculate_delay
calculate_delay-AtMost p attempt =
    cap-AtMost (uncapped p p.backoff attempt).num (uncapped p p.backoff attempt).exp p.max_delay_ms

-- The delay of the n-th attempt, n at least 1, before the cap.
abbrev pub growth : Backoff → ℕ → ℕ → ℕ
growth linear base n = base * suc n
growth exponential base n = base * 2 ^ n

cap-whole : (n m : ℕ) → cap (whole n) m ≡ whole (min n m)
unfolding cap
cap-whole n m = elim (Bool-cases (ltb (m * 2 ^ 0) n)) [
  | inl above ↦ rw above (ap whole (omega (arith, ltb→lt (m * 2 ^ 0) n above)))
  | inr below ↦ rw below (ap whole (omega (arith, ltb_false→le (m * 2 ^ 0) n below)))
]

uncapped-growth :
    (p : RetryPolicy) (b : Backoff) (n : ℕ)
    → uncapped p b (pos (suc n)) ≡ whole (growth b p.base_delay_ms n)
unfolding uncapped
uncapped-growth p linear n = refl
uncapped-growth p exponential n = refl

-- From the first attempt on, delays are whole: base times the attempt, or base doubled at each
-- further attempt, cut at the maximum.
pub calculate_delay-growth :
    (p : RetryPolicy) (n : ℕ)
    → calculate_delay p (pos (suc n))
      ≡ whole (min (growth p.backoff p.base_delay_ms n) p.max_delay_ms)
unfolding calculate_delay
calculate_delay-growth p n =
    ap (λ d. cap d p.max_delay_ms) (uncapped-growth p p.backoff n)
    ∙ cap-whole (growth p.backoff p.base_delay_ms n) p.max_delay_ms

growth_mono : (b : Backoff) (base : ℕ) {n m : ℕ} → n ≤ m → growth b base n ≤ growth b base m
growth_mono linear base {n} {m} h = grind arith
growth_mono exponential base {n} {m} h = mul-le-mul_left base (pow-le-pow_right (omega arith) h)

-- A later attempt never waits for less time than an earlier one.
pub calculate_delay_mono :
    (p : RetryPolicy) (n m : ℕ)
    → n ≤ m
    → (a : ℕ) × (b : ℕ) × (calculate_delay p (pos (suc n)) ≡ whole a)
      × (calculate_delay p (pos (suc m)) ≡ whole b)
      × (a ≤ b)
calculate_delay_mono p n m h = (
  min (growth p.backoff p.base_delay_ms n) p.max_delay_ms,
  min (growth p.backoff p.base_delay_ms m) p.max_delay_ms,
  calculate_delay-growth p n,
  calculate_delay-growth p m,
  omega (arith, growth_mono p.backoff p.base_delay_ms {n = n} {m = m} h),
)
