-- ===== src/Tenant/Isolation.antt =====
-- The tenant middleware around the orchestrator.
use saga_bus.Tenant.{
  TenantInfo, TenantOptions, TenantView, enter_tenant, for_tenant, is_allowed, not_allowed,
  prefixed, resolve_tenant, run_with_tenant, tenant_middleware,
}
use saga_bus.Errors.{Error}
use saga_bus.Interfaces.{Env, Platform, TransportOps}
use saga_bus.Messages.{Envelope}
use saga_bus.Orchestrator.{CorrelationFailure, Orchestrator, Work}
use saga_bus.Orchestrator.Loaded.{
  correlation_key, core, opened_work, process_message-loaded, read_first,
}
use saga_bus.Orchestrator.Process.{finished, opened, process_message}
use saga_bus.Pipeline.{Done, Middleware, drive, execute, next_from}
use saga_bus.State.{SagaState, StoreOps}
use saga_bus.Prelude.{
  String, ◌≡◌, refl, ap, ◌∙◌, ◌⊎◌, inl, inr, sym, Bool-cases, Bool, true, false, Option, none, some,
  [], ◌∷◌, truthy, ◌<?>◌,
}
use saga_bus.Prelude.Exec.{Result, Slot, err, ok}

-- The middleware in the orchestrator: the tenant is a part of the world outside.
abbrev pub work_view : {B D S T : Type 0} → Slot T (Option TenantInfo) → TenantView B (Work B D S T)
work_view slot = record {
  envelope_in = λ w. w.ctx.envelope;
  saga_id_in = λ w. w.ctx.saga_id;
  with_saga_id = λ saga_id w. record w { ctx = record (w.ctx) { saga_id = some saga_id } };
  tenant_info = record {
    look = λ w. slot.look w.env.transport;
    put = λ a w. record w { env = record (w.env) { transport = slot.put a w.env.transport } };
    look-put = λ a w. slot.look-put a w.env.transport;
  };
}

module _ {B D V S T : Type 0} (platform : Platform) (store : StoreOps D S)
    (transport : TransportOps B T) (o : Orchestrator B D V T) (envelope : Envelope B) (s : S) where
  abbrev key : String
  key = correlation_key platform store transport o envelope s

  abbrev loaded : Result Error (Option (SagaState D)) × S
  loaded = read_first platform store transport o envelope s

  abbrev handling : Option (SagaState D) → Work B D S T → Done × Work B D S T
  handling existing = core platform store transport o envelope s existing

  abbrev opening : Option (SagaState D) → Env T → Work B D S T
  opening existing env = opened_work platform store transport o envelope s existing env

  module _ (slot : Slot T (Option TenantInfo)) (options : TenantOptions B)
      (resolver : Envelope B → Option String) (env : Env T) where
    abbrev tenancy : Middleware (Work B D S T)
    tenancy = tenant_middleware options (work_view slot) resolver

    -- The environment with another tenant for the running code
    abbrev pub with_tenant : Option TenantInfo → Env T → Env T
    with_tenant info e = record e { transport = slot.put info e.transport }

    -- The tenant of before comes back.
    abbrev pub restored :
        Result Error (Option CorrelationFailure) × S × Env T
        → Result Error (Option CorrelationFailure) × S × Env T
    restored (r, t, e) = (r, t, with_tenant (slot.look env.transport) e)

    abbrev left : Done × Work B D S T → Done × Work B D S T
    left (r, w) = (r, record w { env = with_tenant (slot.look env.transport) w.env })

    finished-left :
        (x : Done × Work B D S T)
        → finished o envelope key (left x) ≡ restored (finished o envelope key x)
    unfolding finished
    finished-left (ok u, w) = refl
    finished-left (err e, w) = refl

    -- What the code inside is told
    abbrev pub told : String → TenantInfo
    told tenant_id = record { tenant_id = tenant_id; original_saga_id = none }

    -- The pipeline starts without a saga id: whatever prefixSagaId says, nothing is prefixed.
    prefixed-opened :
        (tenant_id : String) (existing : Option (SagaState D))
        → prefixed options (work_view slot) tenant_id (opening existing env)
          ≡ (none, opening existing env)
    unfolding prefixed opened
    prefixed-opened tenant_id existing = elim (Bool-cases (options.prefix_saga_id <?> true)) [
      | inl set ↦ rw set
      | inr unset ↦ rw unset
    ]

    abbrev pub resolution : Result Error String
    resolution = resolve_tenant options (work_view {D = D} {S = S} slot) (resolver envelope)

    abbrev pub allows : String → Bool
    allows tenant_id = is_allowed options (work_view {D = D} {S = S} slot) tenant_id

    execute-tenancy :
        (tenant_id : String) (existing : Option (SagaState D))
        → resolution ≡ ok tenant_id
        → truthy tenant_id ≡ true
        → allows tenant_id ≡ true
        → execute (tenancy ∷ []) (handling existing) (opening existing env)
          ≡ left (
              execute []
                (handling existing)
                (opening existing (with_tenant (some (told tenant_id)) env)))
    unfolding tenant_middleware execute for_tenant enter_tenant run_with_tenant next_from drive
        opened
    execute-tenancy tenant_id existing resolved present allowed =
        rw (resolved, present, prefixed-opened tenant_id existing, allowed)

    -- A message whose tenant is resolved and allowed, with the tenant middleware alone in the
    -- pipeline, is processed exactly as without it in an environment where that tenant is current,
    -- and the tenant of before comes back: the same saga of the same store is read and written
    -- whichever the tenant is, and whatever prefixSagaId says.
    pub process_message-tenancy :
        {existing : Option (SagaState D)} (tenant_id : String)
        → truthy key ≡ true
        → loaded.0 ≡ ok existing
        → resolution ≡ ok tenant_id
        → truthy tenant_id ≡ true
        → allows tenant_id ≡ true
        → process_message platform store transport (tenancy ∷ []) o envelope s env
          ≡ restored (
              process_message platform store transport [] o envelope s
                (with_tenant (some (told tenant_id)) env))
    process_message-tenancy {existing} tenant_id correlated found resolved present allowed =
        process_message-loaded platform store transport o envelope s (tenancy ∷ []) env correlated
          found
        ∙ ap (finished o envelope key) (execute-tenancy tenant_id existing resolved present allowed)
        ∙ finished-left (
            execute [] (handling existing)
              (opening existing (with_tenant (some (told tenant_id)) env)))
        ∙ ap restored (
            sym (
              process_message-loaded platform store transport o envelope s []
                (with_tenant (some (told tenant_id)) env) correlated found))

    -- Why a message is refused: no tenant where one is required, or one that is not on the list.
    abbrev pub Refused : Error → Type 0
    Refused e =
        (resolution ≡ err e)
        ⊎ ((tenant_id : String) × (resolution ≡ ok tenant_id)
            × (truthy tenant_id ≡ true)
            × (allows tenant_id ≡ false)
            × (e ≡ not_allowed options (work_view {D = D} {S = S} slot) tenant_id))
