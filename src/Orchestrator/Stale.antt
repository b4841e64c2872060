-- ===== src/Orchestrator/Stale.antt =====
-- Two messages for one saga that are loaded before either is stored. What processMessage does after
-- the load is `process_loaded`, so an interleaving is a load, another message, and the rest.
use saga_bus.Context.{Context, Session, new_context}
use saga_bus.Dsl.{handle}
use saga_bus.Errors.{Error}
use saga_bus.Interfaces.{Env, Platform, TransportOps}
use saga_bus.Messages.{Envelope}
use saga_bus.Orchestrator.{CorrelationFailure, Orchestrator, Work, advanced_state, entered}
use saga_bus.Orchestrator.Handle.{handle_message, persist, process_state, run_handler}
use saga_bus.Orchestrator.Message.{message_key, processed, read}
use saga_bus.Orchestrator.Process.{finished, opened, process_loaded, wrapped}
use saga_bus.Orchestrator.Success.{Returned, processed-stored, stored}
use saga_bus.Pipeline.{Done, execute}
use saga_bus.State.{HandlerResult, SagaState, StoreOps}
use saga_bus.Store.{IsOptimistic}
use saga_bus.Store.Race.{update-update_stale}
use saga_bus.Prelude.{
  ℕ, ◌+◌, String, ◌≡◌, refl, sym, ap, ◌∙◌, Bool, true, false, Option, some, [], truthy,
  if◌then◌else◌, ◌<?>◌,
}
use saga_bus.Prelude.Exec.{Result, err, ok, pure, resume, resume-err}

module _ {B D V S T : Type 0} (platform : Platform) (store : StoreOps D S)
    (transport : TransportOps B T) (o : Orchestrator B D V T) where
  -- A message that is loaded: its saga, and where the rest of its processing starts
  module _ (envelope : Envelope B) (key : String) (can_start : Bool) (x : SagaState D) (s : S)
      (env : Env T) where
    abbrev pub rest_of : Result Error (Option CorrelationFailure) × S × Env T
    rest_of = process_loaded platform store transport [] o envelope key can_start (some x) s env

    abbrev start_work : Work B D S T
    start_work = entered x (record { ctx = opened o envelope key (some x); store = s; env = env })

    abbrev pub given_context : Context B V
    given_context =
        new_context o.definition.name x.metadata.saga_id key envelope o.default_endpoint
          (some x.metadata) o.timeout_bounds

    -- The state that the handler's result is to be stored as
    abbrev pub made : HandlerResult D → Context B V → Env T → SagaState D
    made result c left =
        advanced_state x result (result.is_completed <?> c.is_completed) c.pending_timeout_change
          (platform.times left.reads)

    abbrev pub stamped : Env T → Env T
    stamped left = record left { reads = left.reads + 1 }

    module _ (result : HandlerResult D) (c : Context B V) (left : Env T)
        (active : x.metadata.is_completed ≡ false)
        (returned : handle o.definition envelope.payload x (given_context, env)
          ≡ (ok result, (c, left)))
        {e : Error}
        (rejected : (store.update o.definition.name (made result c left) x.metadata.version s).0
          ≡ err e) where
      -- What the store's refusal leaves
      abbrev refused_work : Work B D S T
      refused_work = record {
        ctx = record (start_work.ctx) {
          post_state = some (made result c left);
          handler_result = some result;
        };
        store = (store.update o.definition.name (made result c left) x.metadata.version s).1;
        env = stamped left;
      }

      persist-rejected :
          persist platform store transport o key x result c (record start_work { env = left })
          ≡ (err e, refused_work)
      unfolding persist
      persist-rejected = resume-err _ _ rejected

      abbrev go_on : Result Error (HandlerResult D) × Session B V T → Done × Work B D S T
      go_on (r, (c', e')) =
          let back : Result Error (HandlerResult D × Context B V) × Work B D S T =
            resume (r, record start_work { env = e' }) (λ a. pure (a, c')) in
          resume back (λ handled. persist platform store transport o key x handled.0 handled.1)

      run_handler-rejected :
          run_handler platform store transport o envelope key x start_work ≡ (err e, refused_work)
      unfolding run_handler
      run_handler-rejected = ap go_on returned ∙ persist-rejected

      pub rest_of-rejected : rest_of ≡ (
        err (wrapped o envelope key (some x.metadata.saga_id) e),
        (store.update o.definition.name (made result c left) x.metadata.version s).1,
        stamped left,
      )
      unfolding process_loaded handle_message execute process_state finished
      rest_of-rejected =
          ap
            (λ b. finished o envelope key (
              if b
              then (ok tt, start_work)
              else run_handler platform store transport o envelope key x start_work))
            active
          ∙ ap (finished o envelope key) run_handler-rejected

  -- A message is processed and its new state stored, for a saga that goes on. A second message that
  -- had loaded the same state, and whose handler returns too, with a state of the same saga id: its
  -- processing throws the error with which the store refuses its new state, in its wrapping, and
  -- leaves the store as the first message left it.
  pub process_loaded-stale :
      (laws : IsOptimistic store) (envelope envelope' : Envelope B) (s : S) (env env' : Env T)
      (key : String) (can_start : Bool) (x : SagaState D) (result result' : HandlerResult D)
      (c c' : Context B V) (left left' : Env T)
      → truthy (message_key platform store transport o laws envelope s env) ≡ true
      → (read platform store transport o laws envelope s env).0 ≡ ok (some x)
      → x.metadata.is_completed ≡ false
      → Returned platform store transport o laws envelope s env x result c left
      → (store.update o.definition.name
          (stored platform store transport o laws envelope s env x result c left)
          x.metadata.version
          s).0
        ≡ ok tt
      → handle o.definition envelope'.payload x (
        given_context envelope' key can_start x
            (processed platform store transport o laws envelope s env).1
            env',
        env',
      )
        ≡ (ok result', (c', left'))
      → result.new_state.metadata.saga_id ≡ result'.new_state.metadata.saga_id
      → (e : Error) × ((store.update o.definition.name
            (made envelope' key can_start x
              (processed platform store transport o laws envelope s env).1
              env'
              result'
              c'
              left')
            x.metadata.version
            (processed platform store transport o laws envelope s env).1).0
          ≡ err e)
        × (rest_of envelope' key can_start x
              (processed platform store transport o laws envelope s env).1
              env'
            ≡ (
              err (wrapped o envelope' key (some x.metadata.saga_id) e),
              (processed platform store transport o laws envelope s env).1,
              stamped envelope' key can_start x
                  (processed platform store transport o laws envelope s env).1
                  env'
                  left',
            ))
  unfolding advanced_state
  process_loaded-stale laws envelope envelope' s env env' key can_start x result result' c c' left
        left' correlated found active returned accepted returned' same =
      let s1 : S = (processed platform store transport o laws envelope s env).1 in
      let y : SagaState D = stored platform store transport o laws envelope s env x result c left in
      let y' : SagaState D = made envelope' key can_start x s1 env' result' c' left' in
      let n : String = o.definition.name in
      let v : ℕ = x.metadata.version in
      let here : s1 ≡ (store.update n y v s).1 =
        processed-stored platform store transport o laws envelope s env x result c left correlated
          found active returned accepted in
      let (e, failed, kept) = update-update_stale store laws n y y' v s same refl accepted in
      (
        e,
        ap (λ t. (store.update n y' v t).0) here ∙ failed,
        rest_of-rejected envelope' key can_start x s1 env' result' c' left' active returned'
              (ap (λ t. (store.update n y' v t).0) here ∙ failed)
            ∙ ap
                (λ t. (
                  err (wrapped o envelope' key (some x.metadata.saga_id) e),
                  t,
                  stamped envelope' key can_start x s1 env' left',
                ))
                (ap (λ t. (store.update n y' v t).1) here ∙ kept ∙ sym here),
      )
