-- ===== src/Context.antt =====
-- packages/core/src/runtime/SagaContextImpl.ts: what a handler calls. The context is a record that
-- each method returns anew; delays given to `setTimeout` are whole milliseconds. A missing option
-- and an option that is `undefined` are not told apart.
pub mod Timeout
pub mod Publishing
use saga_bus.Messages.{Message, Envelope, Number, PartialOptions, type_of}
use saga_bus.Errors.{Error, plain, other}
use saga_bus.Interfaces.{Platform, Env, TransportOps, on_transport}
use saga_bus.State.{DateValue, date, iso_text, Metadata}
use saga_bus.Prelude.{
  ℕ, ◌+◌, ◌-◌, String, Bool, true, false, Option, none, some, [], ltb, nat_eq, if◌then◌else◌, ◌<?>◌,
  ◌<|>◌, truthy,
}
use saga_bus.Prelude.Dict.{Dict}
use saga_bus.Prelude.Exec.{Result, ok, err, Exec, pure, throw}
use saga_bus.Prelude.Int.{ℤ, pos, negsuc}
use saga_bus.Prelude.Texts.{◌<>◌, decimal}
use saga_bus.Prelude.Dict

-- TimeoutBounds, both present
pub record TimeoutBounds : Type 0 where
  pub min_ms : ℕ
  pub max_ms : ℕ

abbrev pub default_timeout_bounds : TimeoutBounds
default_timeout_bounds = record { min_ms = 1000; max_ms = 604800000 }

-- TimeoutBounds as an option of the bus
pub record PartialBounds : Type 0 where
  pub min_ms : Option ℕ
  pub max_ms : Option ℕ

unfoldable pub resolve_bounds : Option PartialBounds → TimeoutBounds
resolve_bounds none = default_timeout_bounds
resolve_bounds (some b) = record {
  min_ms = b.min_ms <?> default_timeout_bounds.min_ms;
  max_ms = b.max_ms <?> default_timeout_bounds.max_ms;
}

pub data ChangeType : Type 0 where
  set clear : ChangeType

-- PendingTimeoutChange
pub record TimeoutChange : Type 0 where
  pub change : ChangeType
  pub timeout_ms : Option ℕ
  pub timeout_expires_at : Option DateValue

-- SagaContextImpl; the handler's own `metadata` maps keys to values of type V.
pub record Context (B V : Type 0) : Type 0 where
  pub saga_name : String
  pub saga_id : String
  pub correlation_id : String
  pub envelope : Envelope B
  pub metadata : Dict V
  pub default_endpoint : Option String
  pub timeout_bounds : TimeoutBounds
  pub is_completed : Bool
  pub current_metadata : Option Metadata
  pub pending_timeout_change : Option TimeoutChange

-- new SagaContextImpl({...})
unfoldable pub new_context :
    {B V : Type 0}
    → String
    → String
    → String
    → Envelope B
    → Option String
    → Option Metadata
    → Option PartialBounds
    → Context B V
unfolding resolve_bounds
new_context saga_name saga_id correlation_id envelope default_endpoint current bounds = record {
  saga_name = saga_name;
  saga_id = saga_id;
  correlation_id = correlation_id;
  envelope = envelope;
  metadata = [];
  default_endpoint = default_endpoint;
  timeout_bounds = resolve_bounds bounds;
  is_completed = false;
  current_metadata = current;
  pending_timeout_change = none;
}

-- What a handler acts on.
abbrev pub Session : Type 0 → Type 0 → Type 0 → Type 0
Session B V T = Context B V × Env T

module _ {B V T : Type 0} (ops : TransportOps B T) where
  -- `options?.endpoint ?? this.defaultEndpoint ?? message.type`, and the spread of the options over
  -- the endpoint: an endpoint that is given wins both times.
  unfoldable pub endpoint_for : Message B → PartialOptions → Context B V → String
  endpoint_for m options ctx = options.endpoint <?> ctx.default_endpoint <?> type_of m

  -- The call of the transport, with the delay that the options or the caller gave.
  unfoldable pub send :
      Message B → PartialOptions → Option Number → Exec Error (Session B V T) (Unit {0})
  unfolding endpoint_for
  send m options delay_ms (ctx, env) =
      let (r, env') =
        on_transport
          (ops.publish m (record {
            endpoint = endpoint_for m options ctx;
            key = options.key;
            headers = options.headers;
            delay_ms = delay_ms;
          }))
          env in
      (r, (ctx, env'))

  unfoldable pub publish : Message B → PartialOptions → Exec Error (Session B V T) (Unit {0})
  unfolding send
  publish m options = send m options options.delay_ms

  -- `{ endpoint, delayMs, ...options }`: a delay among the options wins.
  unfoldable pub schedule :
      Message B → Number → PartialOptions → Exec Error (Session B V T) (Unit {0})
  unfolding send
  schedule m delay_ms options = send m options (options.delay_ms <|> some delay_ms)

module _ {B V : Type 0} where
  unfoldable pub complete : Context B V → Context B V
  complete ctx = record ctx { is_completed = true }

  unfoldable pub set_metadata : String → V → Context B V → Context B V
  set_metadata key value ctx = record ctx { metadata = Dict.set key value ctx.metadata }

  unfoldable pub get_metadata : String → Context B V → Option V
  get_metadata key ctx = Dict.get key ctx.metadata

  unfoldable pub clear_timeout : Context B V → Context B V
  clear_timeout ctx = record ctx {
    pending_timeout_change =
        some (record { change = clear; timeout_ms = none; timeout_expires_at = none });
  }

  unfoldable pub update_current_metadata : Metadata → Context B V → Context B V
  update_current_metadata m ctx = record ctx { current_metadata = some m }

below_minimum : ℕ → ℕ → Error
unfolding ◌<>◌ decimal
below_minimum n min_ms = plain (
    "Timeout delay "
    <> decimal (pos n)
    <> "ms is below minimum allowed ("
    <> decimal (pos min_ms)
    <> "ms)")

above_maximum : ℕ → ℕ → Error
unfolding ◌<>◌ decimal
above_maximum n max_ms = plain (
    "Timeout delay "
    <> decimal (pos n)
    <> "ms exceeds maximum allowed ("
    <> decimal (pos max_ms)
    <> "ms)")

abbrev pub not_positive : Error
not_positive = plain "Timeout delay must be positive"

-- The three checks of setTimeout: the whole number of milliseconds, or the error.
unfoldable pub check_delay : TimeoutBounds → ℤ → Result Error ℕ
unfolding below_minimum above_maximum
check_delay bounds (negsuc n) = err not_positive
check_delay bounds (pos n) =
    if nat_eq n 0
    then err not_positive
    else if ltb n bounds.min_ms
    then err (below_minimum n bounds.min_ms)
    else if ltb bounds.max_ms n
    then err (above_maximum n bounds.max_ms)
    else ok n

abbrev pub stored_expiry : Option Metadata → Option DateValue
stored_expiry none = none
stored_expiry (some m) = m.timeout_expires_at

-- A date that is no empty text counts as there.
abbrev pub present_date : Option DateValue → Option DateValue
present_date none = none
present_date (some (date t)) = some (date t)
present_date (some (iso_text s)) = if truthy s then some (iso_text s) else none

module _ {B V T : Type 0} (platform : Platform) where
  -- The reading of the clock is taken only when the checks pass.
  unfoldable pub set_timeout : ℤ → Exec Error (Session B V T) (Unit {0})
  unfolding check_delay
  set_timeout delay_ms (ctx, env) = elim (check_delay ctx.timeout_bounds delay_ms) [
    | err e ↦ (err e, (ctx, env))
    | ok n ↦ (
      ok tt,
      (
        record ctx {
          pending_timeout_change = some (record {
            change = set;
            timeout_ms = some n;
            timeout_expires_at = some (date (platform.times env.reads + n));
          });
        },
        record env { reads = env.reads + 1 },
      ),
    )
  ]

  -- Math.max(0, expires.getTime() - Date.now()): a text has no getTime. Subtraction stops at 0.
  unfoldable pub remaining : DateValue → Exec Error (Session B V T) (Option ℕ)
  remaining (date t) (ctx, env) =
      (ok (some (t - platform.times env.reads)), (ctx, record env { reads = env.reads + 1 }))
  remaining (iso_text s) session =
      throw (other "TypeError" "timeoutExpiresAt.getTime is not a function") session

  unfoldable pub remaining_from : Option DateValue → Exec Error (Session B V T) (Option ℕ)
  unfolding remaining
  remaining_from none = pure none
  remaining_from (some d) = remaining d

  -- A pending change decides; one that is set with no date falls back to the stored date.
  unfoldable pub remaining_by : Option TimeoutChange → Exec Error (Session B V T) (Option ℕ)
  unfolding remaining_from
  remaining_by none (ctx, env) =
      remaining_from (present_date (stored_expiry ctx.current_metadata)) (ctx, env)
  remaining_by (some c) (ctx, env) = elim c.change [
    | clear ↦ (ok none, (ctx, env))
    | set ↦
        remaining_from
          (present_date c.timeout_expires_at <|> present_date (stored_expiry ctx.current_metadata))
          (ctx, env)
  ]

  unfoldable pub get_timeout_remaining : Exec Error (Session B V T) (Option ℕ)
  unfolding remaining_by
  get_timeout_remaining (ctx, env) = remaining_by ctx.pending_timeout_change (ctx, env)
