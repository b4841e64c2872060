-- ===== src/Orchestrator/Message.antt =====
-- One message through SagaOrchestrator.processMessage with no middleware, over any store that keeps
-- the promises of a store.
use saga_bus.Orchestrator.{Orchestrator, Work, CorrelationFailure, entered}
use saga_bus.Orchestrator.Process.{
  opened, wrapped, process_message, process_correlated, process_uncorrelated, process_read,
  process_loaded, finished,
}
use saga_bus.Orchestrator.Handle.{run_handler, create_saga, handle_message, process_state}
use saga_bus.Messages.{Envelope}
use saga_bus.Errors.{Error}
use saga_bus.Interfaces.{Platform, Env, TransportOps}
use saga_bus.State.{SagaState, StoreOps}
use saga_bus.Store.{IsOptimistic}
use saga_bus.Dsl.{get_correlation}
use saga_bus.Pipeline.{Done, execute}
use saga_bus.Orchestrator.Persist.{process_state-Persisted}
use saga_bus.Prelude.{
  ◌+◌, String, ◌≡◌, refl, ap, ◌∙◌, ◌⊎◌, inl, inr, Bool, true, false, Option, none, some, [], truthy,
  if◌then◌else◌, ◌<?>◌,
}
use saga_bus.Prelude.Exec.{Result, ok, err, pure, ◌>>=◌}

module _ {B D V S T : Type 0} (platform : Platform) (store : StoreOps D S)
    (transport : TransportOps B T) (o : Orchestrator B D V T) (laws : IsOptimistic store)
    (envelope : Envelope B) (s : S) (env : Env T) where
  abbrev pub message_key : String
  message_key =
      (get_correlation o.definition envelope.payload).get_correlation_id envelope.payload <?> ""

  abbrev pub may_start : Bool
  may_start = (get_correlation o.definition envelope.payload).can_start

  abbrev pub read : Result Error (Option (SagaState D)) × S
  read = store.get_by_correlation_id o.definition.name message_key s

  abbrev pub processed : Result Error (Option CorrelationFailure) × S × Env T
  processed = process_message platform store transport [] o envelope s env

  pub processed-loaded :
      {existing : Option (SagaState D)}
      → truthy message_key ≡ true
      → read.0 ≡ ok existing
      → processed
        ≡ process_loaded platform store transport [] o envelope message_key may_start existing s env
  unfolding process_message
  processed-loaded {existing} correlated found =
      ap
        (λ b.
          if b
          then process_correlated platform store transport [] o envelope message_key may_start s env
          else process_uncorrelated platform store transport [] o envelope s env)
        correlated
      ∙ ap
          (λ r.
            process_read platform store transport [] o envelope message_key may_start r read.1 env)
          found
      ∙ ap
          (λ t.
            process_loaded platform store transport [] o envelope message_key may_start existing t
              env)
          (laws.read_pure o.definition.name message_key s)

  -- A message for a saga that has completed is accepted and changes neither the store nor the
  -- transport.
  pub process_message-completed :
      (x : SagaState D)
      → truthy message_key ≡ true
      → read.0 ≡ ok (some x)
      → x.metadata.is_completed ≡ true
      → processed ≡ (ok none, s, env)
  unfolding process_loaded handle_message execute
  process_message-completed x correlated found done =
      processed-loaded correlated found
      ∙ ap (λ b. finished o envelope message_key (completed_or b)) done
    where
      completed_or : Bool → Done × Work B D S T
      completed_or b =
          if b
          then (
            ok tt,
            entered x
                (record { ctx = opened o envelope message_key (some x); store = s; env = env }),
          )
          else run_handler platform store transport o envelope message_key x (
              entered x
                (record { ctx = opened o envelope message_key (some x); store = s; env = env }))

  -- So is a message that finds no saga and cannot start one.
  pub process_message-not_started :
      truthy message_key ≡ true
      → read.0 ≡ ok none
      → may_start ≡ false
      → processed ≡ (ok none, s, env)
  unfolding process_loaded handle_message execute
  process_message-not_started correlated found refused =
      processed-loaded correlated found
      ∙ ap (λ b. finished o envelope message_key (started_or b)) refused
    where
      started_or : Bool → Done × Work B D S T
      started_or b =
          (if b
              then (do
                state ← create_saga platform store transport o envelope message_key
                process_state platform store transport o envelope message_key state)
              else pure tt)
            (record { ctx = opened o envelope message_key none; store = s; env = env })

  pub finished-store : (d : Done × Work B D S T) → (finished o envelope message_key d).1 ≡ d.1.store
  unfolding finished
  finished-store (ok u, w) = refl
  finished-store (err e, w) = refl

  finished-err :
      (d : Done × Work B D S T) {e : Error}
      → d.0 ≡ err e
      → (finished o envelope message_key d).0
        ≡ err (wrapped o envelope message_key d.1.ctx.saga_id e)
  unfolding finished
  finished-err (r, w) h = ap (λ q. (finished o envelope message_key (q, w)).0) h

  -- A message for a saga that goes on: either the stored state of the version that was read is
  -- replaced by one of the next version, or processing throws and the store stays as it was.
  pub process_message-advances :
      (x : SagaState D)
      → truthy message_key ≡ true
      → read.0 ≡ ok (some x)
      → x.metadata.is_completed ≡ false
      → ((y : SagaState D) × (old : SagaState D) × (laws.lookup s o.definition.name
              y.metadata.saga_id
            ≡ some old)
          × (old.metadata.version ≡ x.metadata.version)
          × (y.metadata.version ≡ x.metadata.version + 1)
          × (laws.lookup processed.1 o.definition.name y.metadata.saga_id ≡ some (laws.image y)))
        ⊎ ((e : Error) × (processed.0 ≡ err e) × (processed.1 ≡ s))
  unfolding process_loaded handle_message execute
  process_message-advances x correlated found active =
      let w : Work B D S T = record {
        ctx = opened o envelope message_key (some x);
        store = s;
        env = env;
      } in
      let run : Done × Work B D S T =
        process_state platform store transport o envelope message_key x w in
      let shape : processed ≡ finished o envelope message_key run =
        processed-loaded correlated found in
      let left : processed.1 ≡ run.1.store = ap (λ r. r.1) shape ∙ finished-store run in
      elim (process_state-Persisted platform store transport o laws envelope message_key x w
        active) [
          | inl (y, next_version, done, written) ↦
              let (old, seen, version, shown) =
                laws.updated o.definition.name y x.metadata.version s done in
              inl (
                y,
                old,
                seen,
                version,
                next_version,
                ap (λ t. laws.lookup t o.definition.name y.metadata.saga_id) (left ∙ written)
                    ∙ shown,
              )
          | inr (e, failed, kept) ↦ inr (
            wrapped o envelope message_key run.1.ctx.saga_id e,
            ap (λ r. r.0) shape ∙ finished-err run failed,
            left ∙ kept,
          )
        ]
