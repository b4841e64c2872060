-- ===== src/Idempotency/Sagas.antt =====
-- The idempotency middleware in the orchestrator, with the marks in the world outside.
use saga_bus.Dsl.{includes}
use saga_bus.Idempotency.{
  IdempotencyOptions, create_idempotency_middleware, duplicate_outcome, skips,
}
use saga_bus.Idempotency.Memory.{Entry, Marks}
use saga_bus.Idempotency.Window.{execute-live, options}
use saga_bus.Interfaces.{Env, Platform, TransportOps}
use saga_bus.Messages.{Envelope}
use saga_bus.Orchestrator.{Orchestrator, Work}
use saga_bus.Orchestrator.Loaded.{
  correlation_key, core, opened_work, process_message-loaded, read_first,
}
use saga_bus.Orchestrator.Process.{finished, opened, process_message}
use saga_bus.Pipeline.{Middleware}
use saga_bus.State.{SagaState, StoreOps}
use saga_bus.Prelude.{
  ℕ, ◌+◌, ◌≤◌, String, ◌≡◌, ap, ◌∙◌, true, false, Option, none, some, List, [], ◌∷◌, truthy, ◌<?>◌,
}
use saga_bus.Prelude.Dict.{Dict}
use saga_bus.Prelude.Exec.{Slot, ok}
use saga_bus.Prelude.Dict

-- The marks and the clock as parts of the state of the orchestrator
abbrev pub marks_in : {B D S T : Type 0} → Slot T (Dict Entry) → Slot (Work B D S T) Marks
marks_in slot = record {
  look = λ w. record { entries = slot.look w.env.transport; reads = w.env.reads };
  put = λ a w. record w {
    env = record (w.env) { transport = slot.put a.entries w.env.transport; reads = a.reads };
  };
  look-put = λ a w.
      ap (λ e. record { entries = e; reads = a.reads }) (slot.look-put a.entries w.env.transport);
}

module _ {B D S T : Type 0} (platform : Platform) (slot : Slot T (Dict Entry))
    (settings : IdempotencyOptions B (Work B D S T)) where
  abbrev pub guard : Middleware (Work B D S T)
  guard =
      create_idempotency_middleware
        (options platform.times (marks_in slot) settings (λ w. w.ctx.envelope))
        (λ w. w.ctx.envelope)

  abbrev pub message_id : Envelope B → String
  message_id envelope = (settings.get_message_id <?> (λ e. e.id)) envelope

  -- The idempotency middleware stands first in the pipeline, on its in-memory store, and skips
  -- duplicates; the store of the saga can be read. While the mark of a message stands and has not run out, no saga whatever handles a
  -- correlated message of that id, of a type that is not excluded: it is accepted, and the store is
  -- only read.
  pub process_message-skipped :
      {V : Type 0} (store : StoreOps D S) (transport : TransportOps B T) (o : Orchestrator B D V T)
      (envelope : Envelope B) (s : S) (env : Env T) (rest : List (Middleware (Work B D S T)))
      {existing : Option (SagaState D)} (t : ℕ)
      → truthy (correlation_key platform store transport o envelope s) ≡ true
      → (read_first platform store transport o envelope s).0 ≡ ok existing
      → settings.on_duplicate <?> skips ≡ skips
      → includes (settings.exclude_types <?> []) envelope.type ≡ false
      → Dict.get (message_id envelope) (slot.look env.transport)
        ≡ some (record { expires_at = some t })
      → platform.times env.reads ≤ t
      → process_message platform store transport (guard ∷ rest) o envelope s env ≡ (
        ok none,
        (read_first platform store transport o envelope s).1,
        record env {
          transport = slot.put (slot.look env.transport) env.transport;
          reads = env.reads + 1;
        },
      )
  unfolding opened finished duplicate_outcome
  process_message-skipped store transport o envelope s env rest {existing} t correlated found
        skipping included here early =
      let key : String = correlation_key platform store transport o envelope s in
      let w : Work B D S T = opened_work platform store transport o envelope s existing env in
      process_message-loaded platform store transport o envelope s (guard ∷ rest) env correlated
        found
      ∙ ap (finished o envelope key) (
          execute-live platform.times (marks_in slot) settings (λ v. v.ctx.envelope) rest
            (core platform store transport o envelope s existing) w t included here early)
      ∙ ap
          (λ a. finished o envelope key (
            duplicate_outcome a (message_id envelope) envelope.type,
            (marks_in slot).put
                (record { entries = slot.look env.transport; reads = env.reads + 1 }) w,
          ))
          skipping
