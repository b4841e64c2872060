-- ===== src/Idempotency.antt =====
-- packages/middleware-idempotency/src/IdempotencyMiddleware.ts and types.ts: a middleware that keeps
-- messages with a known id from the rest of the pipeline. It acts on any state W that has the
-- envelope of the message; the warning of the action "log" is left out.
pub mod Memory
pub mod Redis
pub mod Once
pub mod Window
pub mod Sagas
pub mod Cleanup
use saga_bus.Dsl.{includes}
use saga_bus.Errors.{Error, other}
use saga_bus.Messages.{Envelope}
use saga_bus.Pipeline.{Action, Done, Middleware, call_next, stop}
use saga_bus.Prelude.{
  ℕ, String, Bool, true, false, Option, none, some, List, [], if◌then◌else◌, ◌<?>◌,
}
use saga_bus.Prelude.Exec.{Exec, Result, err, ok}
use saga_bus.Prelude.Texts.{◌<>◌}

pub data DuplicateAction : Type 0 where
  skips logs throws : DuplicateAction

pub data MarkTiming : Type 0 where
  before after : MarkTiming

-- IdempotencyStore on a state W
pub record IdempotencyStore (W : Type 0) : Type 0 where
  pub has : String → Exec Error W Bool
  pub set : String → Option ℕ → Exec Error W (Unit {0})
  pub delete : String → Exec Error W (Unit {0})
  pub clear : Exec Error W (Unit {0})

-- IdempotencyMiddlewareOptions without the logger
pub record IdempotencyOptions (B W : Type 0) : Type 0 where
  pub store : IdempotencyStore W
  pub window_ms : Option ℕ
  pub get_message_id : Option (Envelope B → String)
  pub on_duplicate : Option DuplicateAction
  pub exclude_types : Option (List String)
  pub mark_timing : Option MarkTiming

-- new DuplicateMessageError(messageId, messageType)
unfoldable pub duplicate_message_error : String → String → Error
unfolding ◌<>◌
duplicate_message_error message_id message_type =
    other "DuplicateMessageError"
      ("Duplicate message detected: " <> message_id <> " (type: " <> message_type <> ")")

-- What a duplicate leads to
unfoldable pub duplicate_outcome : DuplicateAction → String → String → Done
unfolding duplicate_message_error
duplicate_outcome skips message_id message_type = ok tt
duplicate_outcome logs message_id message_type = ok tt
duplicate_outcome throws message_id message_type =
    err (duplicate_message_error message_id message_type)

module _ {B W : Type 0} (options : IdempotencyOptions B W) (envelope_in : W → Envelope B) where
  abbrev pub window : ℕ
  window = options.window_ms <?> 60000

  abbrev pub timing : MarkTiming
  timing = options.mark_timing <?> after

  abbrev pub id_of : W → String
  id_of w = (options.get_message_id <?> (λ envelope. envelope.id)) (envelope_in w)

  abbrev pub is_excluded : W → Bool
  is_excluded w = includes (options.exclude_types <?> []) (envelope_in w).type

  abbrev pub mark : String → Exec Error W (Unit {0})
  mark message_id = options.store.set message_id (some window)

  -- What stands behind `await next()` when messages are marked after it
  unfoldable pub mark_after : String → Done → W → Action W
  mark_after message_id (err e) w = stop (err e) w
  mark_after message_id (ok u) w = let (r, w') = mark message_id w in stop r w'

  -- The rest of the pipeline, behind the mark that is made before it
  unfoldable pub then_next : Result Error (Unit {0}) × W → Action W
  then_next (err e, w) = stop (err e) w
  then_next (ok u, w) = call_next w stop

  unfoldable pub run_new : MarkTiming → String → W → Action W
  unfolding mark_after then_next
  run_new before message_id w = then_next (mark message_id w)
  run_new after message_id w = call_next w (mark_after message_id)

  -- What an answer of the store leads to
  unfoldable pub run_known : String → String → Result Error Bool × W → Action W
  unfolding run_new duplicate_outcome
  run_known message_id message_type (err e, w) = stop (err e) w
  run_known message_id message_type (ok true, w) =
      stop (duplicate_outcome (options.on_duplicate <?> skips) message_id message_type) w
  run_known message_id message_type (ok false, w) = run_new timing message_id w

  unfoldable pub create_idempotency_middleware : Middleware W
  unfolding run_known includes
  create_idempotency_middleware w =
      if is_excluded w
      then call_next w stop
      else run_known (id_of w) (envelope_in w).type (options.store.has (id_of w) w)
