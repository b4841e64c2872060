-- ===== src/Orchestrator.antt =====
-- packages/core/src/runtime/SagaOrchestrator.ts: one message through one saga. The state that a
-- step acts on is the pipeline context beside the store and the environment; logging is left out.
pub mod Handle
pub mod Process
pub mod Persist
pub mod Message
pub mod Next
pub mod Success
pub mod Scheduled
pub mod Stale
pub mod Loaded
use saga_bus.Messages.{Envelope}
use saga_bus.Errors.{Error, other}
use saga_bus.Interfaces.{Env}
use saga_bus.State.{DateValue, date, iso_text, Metadata, SagaState, HandlerResult}
use saga_bus.Context.{Context, Session, PartialBounds, TimeoutChange, set, clear}
use saga_bus.Dsl.{Definition}
use saga_bus.Prelude.{ℕ, ◌+◌, String, Bool, false, ◌||◌, Option, none, some, nat_eq, if◌then◌else◌}
use saga_bus.Prelude.Exec.{ok, Exec, pure, throw, resume}

pub data FailureAction : Type 0 where
  drop_message to_dlq : FailureAction

-- CorrelationFailureResult
pub record CorrelationFailure : Type 0 where
  pub action : FailureAction
  pub message_type : String

-- SagaPipelineContext without its free-form metadata
pub record PipelineContext (B D : Type 0) : Type 0 where
  pub envelope : Envelope B
  pub saga_name : String
  pub correlation_id : String
  pub saga_id : Option String
  pub existing_state : Option (SagaState D)
  pub pre_state : Option (SagaState D)
  pub post_state : Option (SagaState D)
  pub handler_result : Option (HandlerResult D)
  pub error : Option Error
  -- traceParent and traceState
  pub trace_context : Option (String × Option String)

unfoldable pub set_trace_context :
    {B D : Type 0} → String → Option String → PipelineContext B D → PipelineContext B D
set_trace_context trace_parent trace_state ctx = record ctx {
  trace_context = some (trace_parent, trace_state);
}

-- What the steps of one message act on
pub record Work (B D S T : Type 0) : Type 0 where
  pub ctx : PipelineContext B D
  pub store : S
  pub env : Env T

-- SagaOrchestrator
pub record Orchestrator (B D V T : Type 0) : Type 0 where
  pub definition : Definition B D V T
  pub default_endpoint : Option String
  pub timeout_bounds : Option PartialBounds
  pub on_correlation_failure :
      Option (Envelope B → String → String → Exec Error (Env T) FailureAction)

module _ {B D S T A : Type 0} where
  abbrev pub on_store : Exec Error S A → Exec Error (Work B D S T) A
  on_store m w = let (r, s) = m w.store in (r, record w { store = s })

  abbrev pub on_env : Exec Error (Env T) A → Exec Error (Work B D S T) A
  on_env m w = let (r, e) = m w.env in (r, record w { env = e })

  -- User code runs on a context of its own and comes back with what it left in it.
  abbrev pub with_context :
      {V : Type 0}
      → Exec Error (Session B V T) A
      → Context B V
      → Exec Error (Work B D S T) (A × Context B V)
  with_context m c w =
      let (r, (c', e)) = m (c, w.env) in resume (r, record w { env = e }) (λ a. pure (a, c'))

-- The timeout fields after a handler: a pending change replaces them.
unfoldable pub next_timeout : Metadata → Option TimeoutChange → Option ℕ × Option DateValue
next_timeout m none = (m.timeout_ms, m.timeout_expires_at)
next_timeout m (some c) = elim c.change [
  | clear ↦ (none, none)
  | set ↦ (c.timeout_ms, c.timeout_expires_at)
]

-- The delay of the timeout message, if one is to be sent: a set timeout that is not 0 on a saga
-- that goes on.
unfoldable pub timeout_to_schedule : Bool → Option TimeoutChange → Option (ℕ × Option DateValue)
timeout_to_schedule is_completed none = none
timeout_to_schedule is_completed (some c) = elim c.change [
  | clear ↦ none
  | set ↦ elim c.timeout_ms [
    | none ↦ none
    | some ms ↦ if is_completed || nat_eq ms 0 then none else some (ms, c.timeout_expires_at)
  ]
]

-- date.getTime()
abbrev pub get_time : {W : Type 0} → DateValue → Exec Error W ℕ
get_time (date t) = pure t
get_time (iso_text s) = throw (other "TypeError" "timeoutExpiresAt.getTime is not a function")

-- createInitialState, then the metadata that the orchestrator fixes.
unfoldable pub created_state :
    {D : Type 0} → SagaState D → String → ℕ → ℕ → Option (String × Option String) → SagaState D
created_state state saga_id created updated trace = record state {
  metadata = record (state.metadata) {
    saga_id = saga_id;
    version = 0;
    created_at = date created;
    updated_at = date updated;
    is_completed = false;
    trace_parent = elim trace [ none ↦ none | some t ↦ some t.0 ];
    trace_state = elim trace [ none ↦ none | some t ↦ t.1 ];
  };
}

-- The state that a handler's result is stored as.
unfoldable pub advanced_state :
    {D : Type 0} → SagaState D → HandlerResult D → Bool → Option TimeoutChange → ℕ → SagaState D
unfolding next_timeout
advanced_state state result is_completed change updated =
    let new_state = result.new_state in
    record new_state {
      metadata = record (new_state.metadata) {
        version = state.metadata.version + 1;
        updated_at = date updated;
        is_completed = is_completed;
        timeout_ms = (next_timeout state.metadata change).0;
        timeout_expires_at = (next_timeout state.metadata change).1;
      };
    }

module _ {B D S T : Type 0} where
  -- `pipelineCtx.sagaId = sagaId; pipelineCtx.preState = state`
  abbrev pub entered : SagaState D → Work B D S T → Work B D S T
  entered state w = record w {
    ctx = record (w.ctx) { saga_id = some state.metadata.saga_id; pre_state = some state };
  }

  -- `pipelineCtx.postState = newState; pipelineCtx.handlerResult = result`
  abbrev pub noted : SagaState D → HandlerResult D → Exec Error (Work B D S T) (Unit {0})
  noted new_state result w = (
    ok tt,
    record w { ctx = record (w.ctx) { post_state = some new_state; handler_result = some result } },
  )
