-- ===== src/Examples/Guards.antt =====
-- The idempotency and tenant middleware on small inputs.
use saga_bus.Examples.{order_envelope}
use saga_bus.Dsl.{includes}
use saga_bus.Errors.{Error}
use saga_bus.Idempotency.{IdempotencyOptions, create_idempotency_middleware}
use saga_bus.Idempotency.Memory.{Marks, check, has, memory_idempotency_store, set}
use saga_bus.Idempotency.Window.{execute-once, options, refused}
use saga_bus.Messages.{Envelope}
use saga_bus.Pipeline.{Middleware, execute, next_from, drive}
use saga_bus.Prelude.{ℕ, ◌+◌, ◌*◌, ◌≡◌, refl, none, some, [], ◌∷◌, arith}
use saga_bus.Prelude.Exec.{Exec, Slot, ok}
use saga_bus.Prelude.Dict

-- An envelope, the marks, and how often the handler ran
abbrev Small : Type 0
Small = Envelope ℕ × Marks × ℕ

abbrev slot : Slot Small Marks
slot = record { look = λ w. w.1; put = λ a w. (w.0, a, w.2); look-put = λ a w. refl }

abbrev clock : ℕ → ℕ
clock n = 5000 + 10 * n

abbrev settings : IdempotencyOptions ℕ Small
settings = record {
  store = memory_idempotency_store clock slot;
  window_ms = some 500;
  get_message_id = none;
  on_duplicate = none;
  exclude_types = none;
  mark_timing = none;
}

abbrev guard : Middleware Small
guard = create_idempotency_middleware (options clock slot settings (λ w. w.0)) (λ w. w.0)

abbrev counting : Exec Error Small (Unit {0})
counting w = (ok tt, (w.0, w.1, w.2 + 1))

abbrev start : Small
start = (order_envelope, record { entries = []; reads = 0 }, 0)

abbrev handled : Small
handled = (
  order_envelope,
  record { entries = ("m1", record { expires_at = some 5500 }) ∷ []; reads = 1 },
  1,
)

-- Later, after other messages
abbrev redelivered : Small
redelivered = (
  order_envelope,
  record {
    entries = ("m1", record { expires_at = some 5500 }) ∷ ("m2", record { expires_at = none }) ∷ [];
    reads = 9;
  },
  4,
)

execute-once_example :
    execute (guard ∷ []) counting redelivered ≡ refused clock slot settings (λ w. w.0) redelivered
unfolding has check Dict.get includes execute next_from drive create_idempotency_middleware set
    Dict.set
execute-once_example =
    execute-once clock slot settings (λ w. w.0) [] [] counting counting start handled redelivered 0
      tt refl refl refl refl refl refl refl refl (omega arith)

abbrev crowded : Marks
crowded = record {
  entries =
      ("m0", record { expires_at = some 4000 }) ∷ ("m1", record { expires_at = some 5500 }) ∷ [];
  reads = 3;
}
