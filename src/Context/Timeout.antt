-- ===== src/Context/Timeout.antt =====
-- setTimeout, clearTimeout and getTimeoutRemaining of SagaContextImpl.ts.
use saga_bus.Context.{
  Context, TimeoutBounds, check_delay, set_timeout, remaining, get_timeout_remaining, clear_timeout,
  not_positive, stored_expiry, present_date, remaining_from, remaining_by,
}
use saga_bus.Interfaces.{Platform, Env}
use saga_bus.Errors.{Error, other}
use saga_bus.State.{iso_text}
use saga_bus.Prelude.{
  ℕ, ◌+◌, ◌-◌, ◌≤◌, ◌<◌, String, ◌≡◌, refl, ap, ◌∙◌, ◌↔◌, none, some, arith, ltb, nat_eq,
  if◌then◌else◌, true, truthy,
}
use saga_bus.Prelude.Exec.{Result, ok, err}
use saga_bus.Prelude.Int.{pos}

-- The checks with the texts of their errors left open.
checks : Error → Error → ℕ → ℕ → ℕ → Result Error ℕ
checks low high min_ms max_ms n =
    if nat_eq n 0
    then err not_positive
    else if ltb n min_ms
    then err low
    else if ltb max_ms n
    then err high
    else ok n

checks_iff :
    (low high : Error) (min_ms max_ms n : ℕ)
    → (checks low high min_ms max_ms n ≡ ok n) ↔ ((0 < n) × (min_ms ≤ n) × (n ≤ max_ms))
unfolding checks
checks_iff low high min_ms max_ms n = ground arith

checks-ok :
    (low high : Error) (min_ms max_ms n k : ℕ) → checks low high min_ms max_ms n ≡ ok k → n ≡ k
unfolding checks
checks-ok low high min_ms max_ms n k h = ground arith

-- A delay is accepted exactly if it is positive and within the bounds.
pub check_delay_iff :
    (bounds : TimeoutBounds) (n : ℕ)
    → (check_delay bounds (pos n) ≡ ok n) ↔ ((0 < n) × (bounds.min_ms ≤ n) × (n ≤ bounds.max_ms))
unfolding check_delay checks
check_delay_iff bounds n = checks_iff _ _ bounds.min_ms bounds.max_ms n

module _ {B V T : Type 0} (platform : Platform) (ctx : Context B V) (env : Env T) where
  -- setTimeout with a delay within the bounds succeeds, and getTimeoutRemaining then gives the
  -- delay less the time between the two readings of the clock, or 0 when more time has passed.
  pub set_timeout-remaining :
      (n : ℕ)
      → 0 < n
      → ctx.timeout_bounds.min_ms ≤ n
      → n ≤ ctx.timeout_bounds.max_ms
      → let r = set_timeout platform (pos n) (ctx, env) in
        (r.0 ≡ ok tt)
        × ((get_timeout_remaining platform r.1).0
            ≡ ok (some (platform.times env.reads + n - platform.times (env.reads + 1))))
  unfolding set_timeout get_timeout_remaining remaining
  set_timeout-remaining n p q r =
      rw ((check_delay_iff ctx.timeout_bounds n).1 (p, q, r), set_timeout) (refl, refl)

  -- After clearTimeout nothing remains, whatever the stored metadata says, and no time is read.
  pub clear_timeout-remaining :
      get_timeout_remaining platform (clear_timeout ctx, env) ≡ (ok none, (clear_timeout ctx, env))
  unfolding clear_timeout get_timeout_remaining
  clear_timeout-remaining = refl

  -- Where no change is pending and the stored date is a text, not empty, getTimeoutRemaining throws.
  pub remaining-iso_text :
      (s : String)
      → ctx.pending_timeout_change ≡ none
      → stored_expiry ctx.current_metadata ≡ some (iso_text s)
      → truthy s ≡ true
      → (e : Error) × (get_timeout_remaining platform (ctx, env) ≡ (err e, (ctx, env)))
  unfolding get_timeout_remaining remaining
  remaining-iso_text s p x there = (
    other "TypeError" "timeoutExpiresAt.getTime is not a function",
    ap (λ c. remaining_by platform c (ctx, env)) p
        ∙ ap (λ d. remaining_from platform (present_date d) (ctx, env)) x
        ∙ ap (λ b. remaining_from platform (if b then some (iso_text s) else none) (ctx, env))
            there,
  )
