-- ===== src/Bus/Create.antt =====
-- The constructor of BusImpl: which configurations give a bus, and which sagas it runs.
use saga_bus.Bus.{
  Bus, BusConfig, Saga, SagaRegistration, bus_of, create_bus, new_orchestrator, no_store,
  orchestrators, resolve,
}
use saga_bus.Errors.{Error}
use saga_bus.Interfaces.{Platform}
use saga_bus.Prelude.{
  String, ◌≡◌, refl, ◌⊎◌, inl, inr, Bool, true, false, List, [], ◌∷◌, map, is_some, ◌<|>◌, all,
  Option-cases,
}
use saga_bus.Prelude.Exec.{Result, ok, err}

module _ {B D V S T : Type 0} (platform : Platform) (config : BusConfig B D V S T) where
  -- A store of its own, or the default store
  abbrev pub has_store : SagaRegistration B D V S T → Bool
  has_store r = is_some (r.store <|> config.store)

  abbrev pub names : List (Saga B S T) → List String
  names = map (λ saga. saga.name)

  abbrev pub registered_names : List (SagaRegistration B D V S T) → List String
  registered_names = map (λ r. r.definition.name)

  -- All registrations have a store and give their sagas in order, or one has none.
  abbrev Resolved : List (SagaRegistration B D V S T) → Result Error (List (Saga B S T)) → Type 0
  Resolved rs r =
      ((sagas : List (Saga B S T)) × (r ≡ ok sagas)
        × (all has_store rs ≡ true)
        × (names sagas ≡ registered_names rs))
      ⊎ ((e : Error) × (r ≡ err e) × (all has_store rs ≡ false))

  resolve-cases :
      (r : SagaRegistration B D V S T)
      → ((saga : Saga B S T) × (resolve platform config r ≡ ok saga)
          × (has_store r ≡ true)
          × (saga.name ≡ r.definition.name))
        ⊎ ((e : Error) × (resolve platform config r ≡ err e) × (has_store r ≡ false))
  unfolding resolve new_orchestrator
  resolve-cases r = elim (Option-cases (r.store <|> config.store)) [
    | inl missing ↦
        inr (no_store platform config r.definition.name, rw (missing, resolve), rw missing)
    | inr (store, there) ↦
        inl (new_orchestrator platform config r store, rw (there, resolve), rw there, refl)
  ]

  orchestrators-Resolved :
      (rs : List (SagaRegistration B D V S T)) → Resolved rs (orchestrators platform config rs)
  unfolding orchestrators
  orchestrators-Resolved [] = inl ([], refl, refl, refl)
  orchestrators-Resolved (r ∷ rs) = elim (resolve-cases r) [
    | inr (e, failed, without) ↦ inr (e, rw (failed, orchestrators), rw without)
    | inl (saga, made, with_store, named) ↦ elim (orchestrators-Resolved rs) [
      | inr (e, failed, without) ↦
          inr (e, rw (made, failed, orchestrators), rw (with_store, without))
      | inl (sagas, others, stores, same) ↦ inl (
        saga ∷ sagas,
        rw (made, others, orchestrators),
        rw (with_store, stores),
        cc (named, same),
      )
    ]
  ]

  -- A bus is made exactly if each registered saga has a store of its own or the default store; it
  -- then runs one saga for each registration, in the order of registration.
  pub create_bus-Resolved :
      ((bus : Bus B S T) × (create_bus platform config ≡ ok bus)
        × (all has_store config.sagas ≡ true)
        × (names bus.sagas ≡ registered_names config.sagas))
      ⊎ ((e : Error) × (create_bus platform config ≡ err e) × (all has_store config.sagas ≡ false))
  unfolding create_bus
  create_bus-Resolved = elim (orchestrators-Resolved config.sagas) [
    | inl (sagas, made, stores, same) ↦
        inl (bus_of platform config sagas, rw (made, create_bus), stores, same)
    | inr (e, failed, without) ↦ inr (e, rw (failed, create_bus), without)
  ]
