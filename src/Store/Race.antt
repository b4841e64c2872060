-- ===== src/Store/Race.antt =====
-- Two writers of one saga against any store that keeps the promises of `IsOptimistic`.
use saga_bus.State.{SagaState, StoreOps}
use saga_bus.Errors.{Error}
use saga_bus.Store.{IsOptimistic}
use saga_bus.Prelude.{ℕ, ◌+◌, String, ◌≡◌, refl, sym, ap, ◌∙◌, Option, none, some, arith}
use saga_bus.Prelude.Exec.{Result, ok, err}

shown_version : {D : Type 0} → Option (SagaState D) → ℕ
shown_version none = 0
shown_version (some x) = x.metadata.version

module _ {D S : Type 0} (ops : StoreOps D S) (laws : IsOptimistic ops) where
  -- Two states of one saga, both made from version v: when the first is written, with version
  -- v + 1 as the orchestrator writes it, the second is refused and the first stays.
  pub update-update_stale :
      (n : String) (x y : SagaState D) (v : ℕ) (s : S)
      → x.metadata.saga_id ≡ y.metadata.saga_id
      → x.metadata.version ≡ v + 1
      → (ops.update n x v s).0 ≡ ok tt
      → (e : Error) × ((ops.update n y v (ops.update n x v s).1).0 ≡ err e)
        × ((ops.update n y v (ops.update n x v s).1).1 ≡ (ops.update n x v s).1)
  unfolding shown_version
  update-update_stale n x y v s same bumped first_ok =
      refused (ops.update n y v (ops.update n x v s).1).0 refl
    where
      refused :
          (r : Result Error (Unit {0}))
          → (ops.update n y v (ops.update n x v s).1).0 ≡ r
          → (e : Error) × ((ops.update n y v (ops.update n x v s).1).0 ≡ err e)
            × ((ops.update n y v (ops.update n x v s).1).1 ≡ (ops.update n x v s).1)
      refused (err e) h = (e, h, laws.update_failed n y v _ e h)
      refused (ok u) h =
          let (o, f, ov, seen) = laws.updated n x v s first_ok in
          let (p, g, pv, seen') = laws.updated n y v (ops.update n x v s).1 h in
          let one : some (laws.image x) ≡ some p =
            sym seen ∙ ap (λ i. laws.lookup (ops.update n x v s).1 n i) same ∙ g in
          absurd (omega (arith, ap shown_version one, laws.image_version x, bumped, pv))
