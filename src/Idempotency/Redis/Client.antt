-- ===== src/Idempotency/Redis/Client.antt =====
-- What RedisIdempotencyStore relies on of Redis: the documented behaviour of SETEX and GET.
use saga_bus.Idempotency.Redis.{Redis}
use saga_bus.Prelude.{ℕ, ◌+◌, ◌*◌, ◌≤◌, String, ◌≢◌, none}
use saga_bus.Prelude.Exec.{Yields}

pub record IsRedis {S : Type 0} (redis : Redis S) : Type 1 where
  -- The time in milliseconds when the last call was answered
  pub now : S → ℕ
  -- The key has a value that expires at the given time or later.
  pub Lasts : String → ℕ → S → Type 0
  pub expiring :
      (k : String) (seconds : ℕ) (v : String) (s : S)
      → Yields
          (λ u s'. (t : ℕ) × (now s + 1000 * seconds ≤ t) × Lasts k t s')
          (redis.setex k seconds v s)
  pub got :
      (k : String) (t : ℕ) (s : S)
      → Lasts k t s
      → Yields (λ v s'. now s' ≤ t → v ≢ none) (redis.get k s)
