-- ===== src/Examples/Sagas.antt =====
-- The builder of sagas and the pipeline on small inputs.
use saga_bus.Examples.{order_builder, order_definition}
use saga_bus.Dsl.{Builder, build, definition_of}
use saga_bus.Dsl.Build.{IsBuilt, build_sound}
use saga_bus.Pipeline.{Middleware, call_next, execute, stop}
use saga_bus.Pipeline.Onion.{execute-onion, onion}
use saga_bus.Retry.Exhaust.{Outbox}
use saga_bus.Errors.{Error}
use saga_bus.Prelude.{ℕ, ◌+◌, ◌≡◌, refl, true, [], ◌∷◌}
use saga_bus.Prelude.Exec.{ok, Exec}

abbrev orders : Builder ℕ ℕ ℕ (Outbox ℕ)
orders = order_builder true

build_sound_example : IsBuilt orders (order_definition true)
unfolding build definition_of
build_sound_example = build_sound orders refl

-- Adds a number before the rest and another behind it.
abbrev adding : ℕ → ℕ → Middleware ℕ
adding before behind w = call_next (w + before) (λ r w'. stop r (w' + behind))

abbrev twice : Middleware ℕ
twice w = call_next w (λ r w'. call_next w' stop)

abbrev core : Exec Error ℕ (Unit {0})
core w = (ok tt, w + w)

execute-onion_example :
    execute (adding 1 2 ∷ adding 3 4 ∷ []) core 5 ≡ onion (adding 1 2 ∷ adding 3 4 ∷ []) core 5
execute-onion_example =
    execute-onion (adding 1 2 ∷ adding 3 4 ∷ []) core 5 ((λ w r w'. tt), ((λ w r w'. tt), tt))
