-- ===== src/Orchestrator/Success.antt =====
-- What SagaOrchestrator leaves when the handler returns and the store takes the new state.
use saga_bus.Orchestrator.{Orchestrator, Work, advanced_state, entered, timeout_to_schedule}
use saga_bus.Orchestrator.Handle.{
  handle_message, persist, process_state, run_handler, schedule_if_set, schedule_timeout_message,
}
use saga_bus.Orchestrator.Next.{IsNext, Quiet, advanced_state-IsNext, timeout_to_schedule-Quiet}
use saga_bus.Orchestrator.Persist.{schedule-store}
use saga_bus.Orchestrator.Message.{finished-store, message_key, processed, processed-loaded, read}
use saga_bus.Orchestrator.Process.{finished, opened, process_loaded}
use saga_bus.Context.{Context, Session, new_context}
use saga_bus.Dsl.{handle}
use saga_bus.Errors.{Error}
use saga_bus.Interfaces.{Env, Platform, TransportOps}
use saga_bus.Messages.{Envelope, saga_timeout_message_type, timeout_expired, whole}
use saga_bus.Pipeline.{Done, execute}
use saga_bus.State.{HandlerResult, SagaState, StoreOps, date}
use saga_bus.Store.{IsOptimistic}
use saga_bus.Prelude.{
  ℕ, ◌+◌, ◌-◌, String, ◌≡◌, ap, ◌∙◌, Bool, true, false, none, some, truthy, if◌then◌else◌, ◌<?>◌,
}
use saga_bus.Prelude.Exec.{Exec, Result, ok, pure, resume, resume-ok}

module _ {B D V S T : Type 0} (platform : Platform) (store : StoreOps D S)
    (transport : TransportOps B T) (o : Orchestrator B D V T) (laws : IsOptimistic store)
    (envelope : Envelope B) (s : S) (env : Env T) where
  -- The context that the handler is given.
  abbrev pub handler_context : SagaState D → Context B V
  handler_context x =
      new_context o.definition.name x.metadata.saga_id
        (message_key platform store transport o laws envelope s env) envelope o.default_endpoint
        (some x.metadata) o.timeout_bounds

  -- The handler returned `result`, and left its context as `c` and the environment as `left`.
  abbrev pub Returned : SagaState D → HandlerResult D → Context B V → Env T → Type 0
  Returned x result c left =
      handle o.definition envelope.payload x (handler_context x, env) ≡ (ok result, (c, left))

  abbrev pub completes : HandlerResult D → Context B V → Bool
  completes result c = result.is_completed <?> c.is_completed

  -- The state that is to be stored.
  abbrev pub stored : SagaState D → HandlerResult D → Context B V → Env T → SagaState D
  stored x result c left =
      advanced_state x result (completes result c) c.pending_timeout_change
        (platform.times left.reads)

  -- The environment after the time of the update was read.
  abbrev pub stamped : Env T → Env T
  stamped left = record left { reads = left.reads + 1 }

  -- The call that publishes the timeout message, in the transport that the handler left.
  abbrev pub timeout_sent : SagaState D → Env T → ℕ → ℕ → Done × T
  timeout_sent x left ms expires =
      transport.publish
        (timeout_expired (record {
          saga_id = x.metadata.saga_id;
          saga_name = o.definition.name;
          correlation_id = message_key platform store transport o laws envelope s env;
          timeout_ms = ms;
          timeout_set_at = expires - ms;
        }))
        (record {
          endpoint = o.default_endpoint <?> saga_timeout_message_type;
          key = some (message_key platform store transport o laws envelope s env);
          headers = none;
          delay_ms = some (whole ms);
        })
        left.transport

  abbrev start_work : SagaState D → Work B D S T
  start_work x = entered x (record {
    ctx = opened o envelope (message_key platform store transport o laws envelope s env) (some x);
    store = s;
    env = env;
  })

  -- Where the steps stand once the new state is stored.
  abbrev written : SagaState D → HandlerResult D → Context B V → Env T → Work B D S T
  written x result c left =
      let w = start_work x in
      let y = stored x result c left in
      record {
        ctx = record (w.ctx) { post_state = some y; handler_result = some result };
        store = (store.update o.definition.name y x.metadata.version s).1;
        env = stamped left;
      }

  module _ (x : SagaState D) (result : HandlerResult D) (c : Context B V) (left : Env T)
      (correlated : truthy (message_key platform store transport o laws envelope s env) ≡ true)
      (found : (read platform store transport o laws envelope s env).0 ≡ ok (some x))
      (active : x.metadata.is_completed ≡ false) (returned : Returned x result c left)
      (accepted : (store.update o.definition.name (stored x result c left) x.metadata.version s).0
        ≡ ok tt) where
    abbrev key : String
    key = message_key platform store transport o laws envelope s env

    abbrev rest : Exec Error (Work B D S T) (Unit {0})
    rest =
        schedule_if_set platform store transport o x.metadata.saga_id key
          (timeout_to_schedule (completes result c) c.pending_timeout_change)

    persist-written :
        persist platform store transport o key x result c (record (start_work x) { env = left })
        ≡ rest (written x result c left)
    unfolding persist
    persist-written = resume-ok _ _ accepted

    -- What run_handler does with the outcome of the handler.
    abbrev go_on : Result Error (HandlerResult D) × Session B V T → Done × Work B D S T
    go_on (r, (c', e)) =
        let back : Result Error (HandlerResult D × Context B V) × Work B D S T =
          resume (r, record (start_work x) { env = e }) (λ a. pure (a, c')) in
        resume back (λ handled. persist platform store transport o key x handled.0 handled.1)

    run_handler-written :
        run_handler platform store transport o envelope key x (start_work x)
        ≡ rest (written x result c left)
    unfolding run_handler
    run_handler-written = ap go_on returned ∙ persist-written

    process_state-written :
        process_state platform store transport o envelope key x
          (record { ctx = opened o envelope key (some x); store = s; env = env })
        ≡ rest (written x result c left)
    unfolding process_state
    process_state-written =
        ap
          (λ b.
            if b
            then (ok tt, start_work x)
            else run_handler platform store transport o envelope key x (start_work x))
          active
        ∙ run_handler-written

    processed-written :
        processed platform store transport o laws envelope s env
        ≡ finished o envelope key (rest (written x result c left))
    unfolding process_loaded handle_message execute
    processed-written =
        processed-loaded platform store transport o laws envelope s env correlated found
        ∙ ap (finished o envelope key) process_state-written

    -- Whatever becomes of the timeout, the new state is in the store.
    pub processed-stored :
        (processed platform store transport o laws envelope s env).1
        ≡ (store.update o.definition.name (stored x result c left) x.metadata.version s).1
    processed-stored =
        ap (λ r. r.1) processed-written
        ∙ finished-store platform store transport o laws envelope s env
            (rest (written x result c left))
        ∙ schedule-store platform store transport o x.metadata.saga_id key
            (timeout_to_schedule (completes result c) c.pending_timeout_change)
            (written x result c left)

    -- A message for a saga that goes on: when its handler returns and the store takes the new state,
    -- the store holds what `update` makes of a state with the handler's fields, the version after the
    -- one that was read, the time of the update, whether the saga is completed, and the timeout that
    -- the handler left pending, or else the one that was read. If no timeout message is due, the
    -- message is accepted, and the environment is the one that the handler left, with one reading of
    -- the clock more.
    pub process_message-handled :
        Quiet (completes result c) c.pending_timeout_change
        → (y : SagaState D) × IsNext x result
            (completes result c)
            c.pending_timeout_change
            (platform.times left.reads)
            y
          × (processed platform store transport o laws envelope s env
              ≡ (ok none, (store.update o.definition.name y x.metadata.version s).1, stamped left))
    unfolding schedule_if_set finished
    process_message-handled quiet = (
      stored x result c left,
      advanced_state-IsNext x result (completes result c) c.pending_timeout_change
          (platform.times left.reads),
      processed-written
          ∙ ap
              (λ due. finished o envelope key (
                schedule_if_set platform store transport o x.metadata.saga_id key due
                  (written x result c left)))
              (timeout_to_schedule-Quiet (completes result c) c.pending_timeout_change quiet),
    )

    -- The run with a timeout message that is due
    pub processed-scheduled :
        (ms expires : ℕ)
        → timeout_to_schedule (completes result c) c.pending_timeout_change
          ≡ some (ms, some (date expires))
        → (timeout_sent x left ms expires).0 ≡ ok tt
        → processed platform store transport o laws envelope s env ≡ (
          ok none,
          (store.update o.definition.name (stored x result c left) x.metadata.version s).1,
          record (stamped left) { transport = (timeout_sent x left ms expires).1 },
        )
    unfolding schedule_if_set schedule_timeout_message finished
    processed-scheduled ms expires due sent =
        processed-written
        ∙ ap
            (λ d. finished o envelope key (
              schedule_if_set platform store transport o x.metadata.saga_id key d
                (written x result c left)))
            due
        ∙ ap
            (λ (r : Done). finished o envelope key (
              r,
              record (written x result c left) {
                env = record (stamped left) { transport = (timeout_sent x left ms expires).1 };
              },
            ))
            sent
