-- ===== src/Dsl/Dispatch.antt =====
-- Which handler SagaDefinitionImpl.handle runs, in terms of the order of the .handle() calls.
use saga_bus.Dsl.{
  HandlerBuilder, Guard, when, passes, handle, admits, Registration, Builder, Guard, HandlerBuilder,
  register_handler, admits, handle,
}
use saga_bus.State.{SagaState}
use saga_bus.Prelude.{String, ◌≡◌, inl, inr, Bool, ◌&&◌, List, [], ◌∷◌, arith, ◌==◌, Option-cases}
use saga_bus.Prelude.Dict.{Dict}
use saga_bus.Prelude.Dict

module _ {B D V T : Type 0} where
  -- Registrations made in this order.
  unfoldable pub register_all : List (Registration B D V T) → Builder B D V T → Builder B D V T
  unfolding register_handler
  register_all [] b = b
  register_all (r ∷ rs) b = register_all rs (register_handler r b)

  abbrev of_type : String → Registration B D V T → Bool
  of_type t r = r.message_type == t

-- A guard that `when` adds is asked beside those that are there.
pub passes-when :
    {D : Type 0} (g : Guard D) (h : HandlerBuilder D) (state : SagaState D)
    → passes (when g h).guard state ≡ (passes h.guard state && g state)
unfolding when passes
passes-when g h state = elim (Option-cases h.guard) [
  | inl e ↦ ground (arith, e)
  | inr (k, e) ↦ ground (arith, e)
]
