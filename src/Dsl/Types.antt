-- ===== src/Dsl/Types.antt =====
-- handledMessageTypes of SagaDefinitionImpl.ts.
use saga_bus.Dsl.{Builder, includes, add, add_all, definition_of}
use saga_bus.Prelude.{
  String, ◌≡◌, refl, ap, ◌∙◌, inl, inr, Bool, true, false, ◌||◌, List, [], ◌∷◌, ◌++◌, arith, eq_iff,
  ◌==◌, Bool-cases,
}
use saga_bus.Prelude.Dict.{Dict}
use saga_bus.Prelude.Dict

includes-append :
    (xs ys : List String) (t : String) → includes (xs ++ ys) t ≡ (includes xs t || includes ys t)
unfolding includes
includes-append [] ys t = refl
includes-append (x ∷ xs) ys t = ground (arith, includes-append xs ys t)

or_comm : (a b : Bool) → (a || (b || false)) ≡ (b || a)
or_comm a b = ground arith

there_already :
    (x : String) (xs : List String) (t : String)
    → includes xs x ≡ true
    → includes xs t ≡ (x == t || includes xs t)
unfolding includes
there_already x [] t h = cc
there_already x (y ∷ xs) t h =
    ground (arith, there_already x xs t, eq_iff x t, eq_iff y x, eq_iff y t)

includes-add :
    (x : String) (xs : List String) (t : String) → includes (add x xs) t ≡ (x == t || includes xs t)
unfolding add includes
includes-add x xs t = elim (Bool-cases (includes xs x)) [
  | inl there ↦ rw there (there_already x xs t there)
  | inr absent ↦ rw absent (includes-append xs (x ∷ []) t ∙ or_comm (includes xs t) (x == t))
]

includes-add_all :
    (ts xs : List String) (t : String)
    → includes (add_all ts xs) t ≡ (includes ts t || includes xs t)
unfolding add_all includes
includes-add_all [] xs t = refl
includes-add_all (x ∷ ts) xs t =
    ground (arith, includes-add_all ts (add x xs) t, includes-add x xs t)

includes-keys : {V : Type 0} (m : Dict V) (t : String) → includes (Dict.keys m) t ≡ Dict.has t m
unfolding includes Dict.get
includes-keys [] t = refl
includes-keys ((k, v) ∷ m) t = ground (arith, includes-keys m t)

-- A definition handles exactly the message types that it correlates or has a handler for.
pub handled_message_types-includes :
    {B D V T : Type 0} (name : String) (b : Builder B D V T) (t : String)
    → includes (definition_of name b).handled_message_types t
      ≡ (Dict.has t b.handlers || Dict.has t b.correlations)
unfolding definition_of includes
handled_message_types-includes name b t =
    includes-add_all (Dict.keys b.handlers) (add_all (Dict.keys b.correlations) []) t
    ∙ ap (λ c. includes (Dict.keys b.handlers) t || c)
        (includes-add_all (Dict.keys b.correlations) [] t)
    ∙ ground (arith, includes-keys b.handlers t, includes-keys b.correlations t)
