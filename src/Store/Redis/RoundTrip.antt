-- ===== src/Store/Redis/RoundTrip.antt =====
-- What RedisSagaStore writes is what it reads: serializeState and deserializeState of
-- packages/store-redis/src/RedisSagaStore.ts.
use saga_bus.Interfaces.{DateFormat}
use saga_bus.State.{DateValue, SagaState, date, iso_text}
use saga_bus.Store.Memory.{clone, cloned_date, cloned_option}
use saga_bus.Store.Redis.Text.{
  JsonText, date_of, date_or_null, date_text, date_text_or_null, deserialize_state, revive, revived,
  serialize_state,
}
use saga_bus.Prelude.{ℕ, String, ◌≡◌, refl, ap, ◌∙◌, true, Option, none, some, truthy}
use saga_bus.Prelude.Exec.{Yields, Yields-ok, Yields-resume, ok}

-- JSON: what was written is read as its clone, and the text of an object is not empty.
pub record IsJson {D : Type 0} (dates : DateFormat) (json : JsonText D) (data_clone : D → D)
    : Type 0 where
  pub parse-stringify :
      (x : SagaState D) → json.parse (json.stringify x) ≡ ok (clone dates data_clone x)
  pub truthy-stringify : (x : SagaState D) → truthy (json.stringify x) ≡ true

date_of-to_iso : (dates : DateFormat) (t : ℕ) → date_of dates (iso_text (dates.to_iso t)) ≡ date t
unfolding date_of
date_of-to_iso dates t = rw (dates.parse-to_iso t, date_of) refl

-- A state as it is read back, with what JSON does to the data of the user
abbrev pub read_back : {D : Type 0} → (D → D) → SagaState D → SagaState D
read_back data_clone x = record x { fields = data_clone x.fields }

module _ {S : Type 0} (dates : DateFormat) where
  -- A date that has a text is read back from it.
  date_of-date_text :
      (d : DateValue) (s : S)
      → Yields (λ a w. date_of dates (cloned_date dates a) ≡ d) (date_text dates d s)
  unfolding date_text
  date_of-date_text (date t) s = date_of-to_iso dates t
  date_of-date_text (iso_text t) s = tt

  date_or_null-date_text :
      (d : DateValue) (s : S)
      → Yields
          (λ a w. date_or_null dates (some (cloned_date dates a)) ≡ some d)
          (date_text dates d s)
  unfolding date_text date_or_null
  date_or_null-date_text (date t) s = rw (dates.truthy-to_iso t) (ap some (date_of-to_iso dates t))
  date_or_null-date_text (iso_text t) s = tt

  date_or_null-date_text_or_null :
      (d : Option DateValue) (s : S)
      → Yields (λ a w. date_or_null dates (cloned_option dates a) ≡ d) (date_text_or_null dates d s)
  unfolding date_text_or_null date_or_null
  date_or_null-date_text_or_null none s = refl
  date_or_null-date_text_or_null (some d) s =
      Yields-resume (λ a w. date_or_null dates (some (cloned_date dates a)) ≡ some d) _
        (date_text dates d s) _ (date_or_null-date_text d s) (λ a w h. h)

module _ {D S : Type 0} (dates : DateFormat) (json : JsonText D) (data_clone : D → D)
    (laws : IsJson dates json data_clone) where
  serialize_state-Yields :
      (x : SagaState D) (s : S)
      → Yields
          (λ text w.
            (z : S) → deserialize_state dates json text z ≡ (ok (read_back data_clone x), z))
          (serialize_state dates json x s)
  unfolding serialize_state deserialize_state revived revive clone
  serialize_state-Yields x s =
      Yields-resume (λ a w. date_of dates (cloned_date dates a) ≡ x.metadata.created_at) _
        (date_text dates x.metadata.created_at s) _ (date_of-date_text dates _ s)
        (λ a w p.
          Yields-resume (λ b w'. date_of dates (cloned_date dates b) ≡ x.metadata.updated_at) _
            (date_text dates x.metadata.updated_at w) _ (date_of-date_text dates _ w)
            (λ b w' q.
              Yields-resume
                (λ c w''. date_or_null dates (cloned_option dates c) ≡ x.metadata.archived_at) _
                (date_text_or_null dates x.metadata.archived_at w') _
                (date_or_null-date_text_or_null dates _ w')
                (λ c w'' r.
                  Yields-resume
                    (λ d v.
                      date_or_null dates (cloned_option dates d) ≡ x.metadata.timeout_expires_at)
                    _ (date_text_or_null dates x.metadata.timeout_expires_at w'') _
                    (date_or_null-date_text_or_null dates _ w'')
                    (λ d v t z.
                      ap (λ r'. revived dates json r' z) (laws.parse-stringify _)
                      ∙ rw (p, q, r, t) refl))))

  -- If JSON gives back the clone of what it wrote, a state that was serialized is read back as it is,
  -- its dates as dates, but for what JSON does to the data of the user.
  pub deserialize-serialize :
      (x : SagaState D) (s z : S) {text : String}
      → (serialize_state dates json x s).0 ≡ ok text
      → deserialize_state dates json text z ≡ (ok (read_back data_clone x), z)
  deserialize-serialize x s z h =
      Yields-ok
        (λ text w. (z : S) → deserialize_state dates json text z ≡ (ok (read_back data_clone x), z))
        (serialize_state dates json x s) (serialize_state-Yields x s) h z
