-- ===== src/Messages.antt =====
use saga_bus.Prelude.{ℕ, String, Bool, Option, none}
use saga_bus.Prelude.Dict.{Dict}
use saga_bus.Prelude.Int.{ℤ, pos, nat_lt}

-- packages/core/src/types/messages.ts and transport.ts: messages, envelopes and publish options.
-- A message is the user's own, with a `type` and a body of any type, or the timeout message that
-- the orchestrator schedules. A missing optional field and `undefined` are one value, `none`.

-- A finite number of JavaScript: `num` / 2 ^ `exp`.
pub record Number : Type 0 where
  pub num : ℤ
  pub exp : ℕ

abbrev pub whole : ℕ → Number
whole n = record { num = pos n; exp = 0 }

-- Greater than zero; 0 is falsy too, so this is also `delayMs && delayMs > 0`.
abbrev pub is_positive : Number → Bool
is_positive n = nat_lt 0 n.num

pub record TimeoutExpired : Type 0 where
  pub saga_id : String
  pub saga_name : String
  pub correlation_id : String
  pub timeout_ms : ℕ
  pub timeout_set_at : ℕ

abbrev pub saga_timeout_message_type : String
saga_timeout_message_type = "SagaTimeoutExpired"

pub data Message (B : Type 0) : Type 0 where
  user : String → B → Message B
  timeout_expired : TimeoutExpired → Message B

abbrev pub type_of : {B : Type 0} → Message B → String
type_of (user t b) = t
type_of (timeout_expired e) = saga_timeout_message_type

pub record Envelope (B : Type 0) : Type 0 where
  pub id : String
  pub type : String
  pub payload : Message B
  pub headers : Dict String
  pub timestamp : ℕ
  pub partition_key : Option String

-- TransportPublishOptions
pub record PublishOptions : Type 0 where
  pub endpoint : String
  pub key : Option String
  pub headers : Option (Dict String)
  pub delay_ms : Option Number

-- Partial<TransportPublishOptions>
pub record PartialOptions : Type 0 where
  pub endpoint : Option String
  pub key : Option String
  pub headers : Option (Dict String)
  pub delay_ms : Option Number

abbrev pub no_options : PartialOptions
no_options = record { endpoint = none; key = none; headers = none; delay_ms = none }
