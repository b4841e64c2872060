-- ===== src/Store/Redis/Text.antt =====
-- packages/store-redis/src/RedisSagaStore.ts: serializeState and deserializeState.
use saga_bus.Errors.{Error, other}
use saga_bus.Interfaces.{DateFormat}
use saga_bus.State.{DateValue, SagaState, date, iso_text}
use saga_bus.Prelude.{String, Option, none, some, truthy, if◌then◌else◌}
use saga_bus.Prelude.Exec.{Exec, Result, pure, throw, ok, err, ◌>>=◌}

-- JSON.stringify, and JSON.parse, which may throw, on saga states whose dates are texts
pub record JsonText (D : Type 0) : Type 0 where
  pub stringify : SagaState D → String
  pub parse : String → Result Error (SagaState D)

-- date.toISOString()
unfoldable pub date_text : {S : Type 0} → DateFormat → DateValue → Exec Error S DateValue
date_text dates (date t) = pure (iso_text (dates.to_iso t))
date_text dates (iso_text s) = throw (other "TypeError" "toISOString is not a function")

-- date?.toISOString() ?? null
unfoldable pub date_text_or_null :
    {S : Type 0} → DateFormat → Option DateValue → Exec Error S (Option DateValue)
date_text_or_null dates none = pure none
date_text_or_null dates (some d) = do t ← date_text dates d; pure (some t)

-- new Date(text). A text that is no date gives an Invalid Date, which is kept as the text.
unfoldable pub date_of : DateFormat → DateValue → DateValue
date_of dates (date t) = date t
date_of dates (iso_text s) = elim (dates.parse s) [ none ↦ iso_text s | some t ↦ date t ]

-- `text ? new Date(text) : null`
unfoldable pub date_or_null : DateFormat → Option DateValue → Option DateValue
unfolding date_of
date_or_null dates none = none
date_or_null dates (some (date t)) = some (date t)
date_or_null dates (some (iso_text s)) =
    if truthy s then some (date_of dates (iso_text s)) else none

module _ {D : Type 0} (dates : DateFormat) (json : JsonText D) where
  unfoldable pub serialize_state : {S : Type 0} → SagaState D → Exec Error S String
  serialize_state state = do
    created_at ← date_text dates state.metadata.created_at
    updated_at ← date_text dates state.metadata.updated_at
    archived_at ← date_text_or_null dates state.metadata.archived_at
    timeout_expires_at ← date_text_or_null dates state.metadata.timeout_expires_at
    pure (
        json.stringify (record state {
          metadata = record (state.metadata) {
            created_at = created_at;
            updated_at = updated_at;
            archived_at = archived_at;
            timeout_expires_at = timeout_expires_at;
          };
        }))

  -- What deserializeState makes of the parsed object
  unfoldable pub revive : SagaState D → SagaState D
  unfolding date_of date_or_null
  revive parsed = record parsed {
    metadata = record (parsed.metadata) {
      created_at = date_of dates parsed.metadata.created_at;
      updated_at = date_of dates parsed.metadata.updated_at;
      archived_at = date_or_null dates parsed.metadata.archived_at;
      timeout_expires_at = date_or_null dates parsed.metadata.timeout_expires_at;
    };
  }

  -- What the parsed object, or the error of JSON.parse, leads to
  unfoldable pub revived : {S : Type 0} → Result Error (SagaState D) → Exec Error S (SagaState D)
  revived (err e) = throw e
  revived (ok parsed) = pure (revive parsed)

  unfoldable pub deserialize_state : {S : Type 0} → String → Exec Error S (SagaState D)
  deserialize_state text = revived (json.parse text)
