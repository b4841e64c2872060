-- ===== src/Dsl/Build.antt =====
-- SagaMachineBuilder.build: which builders give a definition, and what it can rely on.
use saga_bus.Dsl.{
  Builder, Correlation, Definition, Factory, build, create_initial_state, definition_of,
  has_starting, run_factory,
}
use saga_bus.Messages.{Message}
use saga_bus.Prelude.{
  String, ◌≡◌, refl, sym, ap, ◌∙◌, ◌⊎◌, inl, inr, Bool, Bool-cases, true, Option, none, some, List,
  [], ◌∷◌, ◌++◌, ◌||◌, any, arith, truthy, ◌<?>◌, Option-cases,
}
use saga_bus.Prelude.Dict
use saga_bus.Prelude.Exec.{ok}

-- The value stands somewhere in the list.
abbrev pub StandsIn : {A : Type 0} → A → List A → Type 0
StandsIn {A} x xs = (before : List A) × (after : List A) × (xs ≡ before ++ x ∷ after)

any-StandsIn :
    {A : Type 0} (p : A → Bool) (xs : List A)
    → any p xs ≡ true
    → (x : A) × (p x ≡ true) × StandsIn x xs
any-StandsIn p [] h = absurd (ground (arith, h))
any-StandsIn {A} p (x ∷ xs) h = elim (Bool-cases (p x)) [
  | inl here ↦ (x, here, ([], xs, refl))
  | inr not_here ↦ step (any-StandsIn p xs (ap (λ b. b || any p xs) (sym not_here) ∙ h))
]
  where
    step : (y : A) × (p y ≡ true) × StandsIn y xs → (y : A) × (p y ≡ true) × StandsIn y (x ∷ xs)
    step (y, there, (before, after, split)) = (y, there, (x ∷ before, after, ap (λ l. x ∷ l) split))

named_by : (name : Option String) → truthy (name <?> "") ≡ true → name ≡ some (name <?> "")
named_by none h = absurd (ground (arith, h))
named_by (some s) h = refl

module _ {B D V T : Type 0} where
  -- A correlation that may start the saga, for a type of message or as the wildcard
  abbrev pub Starts : Builder B D V T → Type 0
  Starts b =
      (c : Correlation B) × (c.can_start ≡ true)
      × (StandsIn c (Dict.values b.correlations) ⊎ (b.wildcard_correlation ≡ some c))

  -- What a definition has of its builder
  pub record IsBuilt (b : Builder B D V T) (d : Definition B D V T) : Type 0 where
    pub has_name : truthy d.name ≡ true
    pub same_name : b.saga_name ≡ some d.name
    pub starts : Starts b
    pub same_correlations : d.correlations ≡ b.correlations
    pub same_wildcard : d.wildcard_correlation ≡ b.wildcard_correlation
    pub same_handlers : d.handlers ≡ b.handlers
    pub runs_factory :
        (factory : Factory B D V T) × (b.initial_factory ≡ some factory)
        × ((m : Message B) → create_initial_state d m ≡ factory m)

  has_starting-Starts : (b : Builder B D V T) → has_starting b ≡ true → Starts b
  unfolding has_starting
  has_starting-Starts b h =
      elim (Bool-cases (any (λ c. c.can_start) (Dict.values b.correlations))) [
        | inl found ↦
            (let (c, starts, at) =
                any-StandsIn (λ c. c.can_start) (Dict.values b.correlations) found in
              (c, starts, inl at))
        | inr missing ↦ elim (Option-cases b.wildcard_correlation) [
          | inl e ↦ absurd (ground (arith, h, e, missing))
          | inr (c, e) ↦ (c, ground (arith, h, e, missing), inr e)
        ]
      ]

  -- A builder that gives a definition has a name that is not empty, a correlation that may start the
  -- saga, for a type of message or as the wildcard, and a factory. The definition has its name, its
  -- correlations and its handlers, and creating the initial state runs that factory.
  pub build_sound : (b : Builder B D V T) {d : Definition B D V T} → build b ≡ ok d → IsBuilt b d
  unfolding build create_initial_state definition_of
  build_sound b {d} h = elim (Option-cases b.initial_factory) [
    | inl e ↦ absurd (ground (arith, h, e))
    | inr (f, e) ↦
        (let named : truthy (b.saga_name <?> "") ≡ true = ground (arith, e) in
          let starting : has_starting b ≡ true = ground (arith, e) in
          record {
            has_name = ap (λ x. truthy x.name) made ∙ named;
            same_name = named_by b.saga_name named ∙ ap (λ x. some x.name) (sym made);
            starts = has_starting-Starts b starting;
            same_correlations = ap (λ x. x.correlations) made;
            same_wildcard = ap (λ x. x.wildcard_correlation) made;
            same_handlers = ap (λ x. x.handlers) made;
            runs_factory = (
              f,
              e,
              λ m.
                  ap (λ x. create_initial_state x m) made
                  ∙ ap (λ o. run_factory (b.saga_name <?> "") o m) e,
            );
          })
  ]
    where
      made : d ≡ definition_of (b.saga_name <?> "") b
      made = ground arith
