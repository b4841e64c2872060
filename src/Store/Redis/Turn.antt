-- ===== src/Store/Redis/Turn.antt =====
-- One turn of the loop of RedisSagaStore.update: packages/store-redis/src/RedisSagaStore.ts.
use saga_bus.Errors.{Error}
use saga_bus.Interfaces.{DateFormat}
use saga_bus.State.{DateValue, SagaState, date, iso_text}
use saga_bus.Store.Redis.{Redis, Settings, present, writes}
use saga_bus.Store.Redis.Client.{Content, IsRedis, apply}
use saga_bus.Store.Redis.Operations.{after_exec, caught, check_version, replace, try_replace}
use saga_bus.Store.Redis.Text.{
  revived, JsonText, date_text, date_text_or_null, deserialize_state, serialize_state,
}
use saga_bus.Prelude.{
  ℕ, zero, suc, String, ◌≡◌, refl, subst, sym, ap, ◌∙◌, inl, inr, Bool, Bool-cases, true, false,
  Option, none, some, [], ◌∷◌, ◌++◌, if◌then◌else◌, nat_eq, nat_eq_iff, truthy,
}
use saga_bus.Prelude.Exec.{
  Stays, Yields-any, Yields-both, Yields-pure_step, resume, Stays-resume, Result, err, ok, Yields,
  Yields-resume,
}

module _ {D S : Type 0} (dates : DateFormat) (json : JsonText D) where
  date_text-Stays : (d : DateValue) (s : S) → Stays s (date_text dates d s)
  unfolding date_text
  date_text-Stays (date t) s = refl
  date_text-Stays (iso_text t) s = refl

  date_text_or_null-Stays : (d : Option DateValue) (s : S) → Stays s (date_text_or_null dates d s)
  unfolding date_text_or_null
  date_text_or_null-Stays none s = refl
  date_text_or_null-Stays (some d) s =
      Stays-resume (date_text dates d s) s _ (date_text-Stays d s) (λ t. refl)

  -- Serializing touches no server.
  serialize_state-Stays : (x : SagaState D) (s : S) → Stays s (serialize_state dates json x s)
  unfolding serialize_state
  serialize_state-Stays x s = Stays-resume (date_text dates _ s) s _ (date_text-Stays _ s) (λ a.
      Stays-resume (date_text dates _ s) s _ (date_text-Stays _ s) (λ b.
        Stays-resume (date_text_or_null dates _ s) s _ (date_text_or_null-Stays _ s) (λ c.
          Stays-resume (date_text_or_null dates _ s) s _ (date_text_or_null-Stays _ s)
            (λ d. refl))))

  revived-Stays : (r : Result Error (SagaState D)) (s : S) → Stays s (revived dates json r s)
  unfolding revived
  revived-Stays (ok x) s = refl
  revived-Stays (err e) s = refl

  deserialize_state-Stays : (text : String) (s : S) → Stays s (deserialize_state dates json text s)
  unfolding deserialize_state
  deserialize_state-Stays text s = revived-Stays (json.parse text) s

-- One transaction of this client replaced the state of the expected version: right before it the
-- key held a text that reads as a state of that version, right after it both keys are written.
pub record Replaced {D S : Type 0} (dates : DateFormat) (json : JsonText D) (settings : Settings)
    (redis : Redis S) (laws : IsRedis redis) (key index_key correlation_id : String)
    (state : SagaState D) (expected : ℕ) (s s' : S) : Type 0 where
  pub before : Content
  pub text : String
  pub old : SagaState D
  pub serialized : String
  pub at : S
  pub held : before key ≡ some text
  pub reads : (deserialize_state dates json text at).0 ≡ ok old
  pub current : old.metadata.version ≡ expected
  pub serializes : (serialize_state dates json state at).0 ≡ ok serialized
  pub written :
      laws.content s'
      ≡ apply (writes settings key index_key state.metadata serialized correlation_id) before
  pub once :
      laws.log s'
      ≡ laws.log s ++ writes settings key index_key state.metadata serialized correlation_id ∷ []

module _ {D S : Type 0} (dates : DateFormat) (json : JsonText D) (settings : Settings)
    (redis : Redis S) (laws : IsRedis redis) (key index_key correlation_id : String)
    (state : SagaState D) (expected : ℕ) where
  -- A turn of the loop that is done replaced the state; one that is not wrote nothing, and is not
  -- the last.
  abbrev pub Turn : ℕ → S → Bool → S → Type 0
  Turn left s done s' =
      if done
      then Replaced dates json settings redis laws key index_key correlation_id state expected s s'
      else ((m : ℕ) × (left ≡ suc m) × (laws.log s' ≡ laws.log s))

  replace-missing :
      (left : ℕ) (s t : S)
      → Yields (Turn left t) (
          replace dates json settings redis key index_key correlation_id state expected left none s)
  unfolding replace
  replace-missing left s t =
      Yields-resume (λ a w. Unit) (Turn left t) (redis.unwatch s) _ (Yields-any (redis.unwatch s))
        (λ a w u. tt)

  -- Past the check, the versions agree.
  checked :
      (id : String) (version : ℕ) (s : S)
      → Yields (λ u s'. (version ≡ expected) × (s' ≡ s)) (check_version redis id expected version s)
  unfolding check_version
  checked id version s = elim (Bool-cases (nat_eq version expected)) [
    | inl same ↦ rw same ((nat_eq_iff version expected).0 same, refl)
    | inr differs ↦ rw differs (
        Yields-resume (λ a w. Unit) _ (redis.unwatch s) _ (Yields-any (redis.unwatch s))
          (λ a w u. tt))
  ]

  -- What the transaction of a turn comes to
  committed :
      (left : ℕ) (text serialized : String) (old : SagaState D) (s t : S)
      → laws.Watching key (some text) s
      → laws.log s ≡ laws.log t
      → (deserialize_state dates json text s).0 ≡ ok old
      → old.metadata.version ≡ expected
      → (serialize_state dates json state s).0 ≡ ok serialized
      → Yields (Turn left t) (
          resume
            (redis.multi_exec
              (writes settings key index_key state.metadata serialized correlation_id)
              s)
            (after_exec redis state.metadata.saga_id expected left))
  unfolding after_exec
  committed left text serialized old s t watching same reads current serializes =
      let commands = writes settings key index_key state.metadata serialized correlation_id in
      Yields-resume _ (Turn left t) (redis.multi_exec commands s)
        (after_exec redis state.metadata.saga_id expected left)
        (laws.executed commands key (some text) s watching)
        (λ done w found. decide left done w found)
    where
      decide :
          (n : ℕ) (done : Bool) (w : S)
          → (if done
              then ((before : Content) × (before key ≡ some text)
                  × (laws.content w
                      ≡ apply
                          (writes settings key index_key state.metadata serialized correlation_id)
                          before)
                  × (laws.log w
                      ≡ laws.log s
                        ++ writes settings key index_key state.metadata serialized correlation_id
                          ∷ []))
              else (laws.log w ≡ laws.log s))
          → Yields (Turn n t) (after_exec redis state.metadata.saga_id expected n done w)
      decide n true w (before, held, written, once) = record {
        before = before;
        text = text;
        old = old;
        serialized = serialized;
        at = s;
        held = held;
        reads = reads;
        current = current;
        serializes = serializes;
        written = written;
        once =
            once
            ∙ ap
                (λ l.
                  l ++ writes settings key index_key state.metadata serialized correlation_id ∷ [])
                same;
      }
      decide zero false w kept = tt
      decide (suc n) false w kept = (n, refl, kept ∙ same)

  replace-found :
      (left : ℕ) (text : String) (s t : S)
      → laws.Watching key (some text) s
      → laws.log s ≡ laws.log t
      → Yields (Turn left t) (
          replace dates json settings redis key index_key correlation_id state expected left
            (some text)
            s)
  unfolding replace
  replace-found left text s t watching same =
      Yields-pure_step (Turn left t) (deserialize_state dates json text s) s _
        (deserialize_state-Stays dates json text s)
        (λ old reads.
          Yields-resume (λ u s'. (old.metadata.version ≡ expected) × (s' ≡ s)) (Turn left t)
            (check_version redis state.metadata.saga_id expected old.metadata.version s) _
            (checked state.metadata.saga_id old.metadata.version s)
            (λ u w known. write old w (sym known.1) reads known.0))
    where
      write :
          (old : SagaState D) (w : S)
          → s ≡ w
          → (deserialize_state dates json text s).0 ≡ ok old
          → old.metadata.version ≡ expected
          → Yields (Turn left t) (
              resume (serialize_state dates json state w) (λ serialized. (λ z.
                resume
                  (redis.multi_exec
                    (writes settings key index_key state.metadata serialized correlation_id)
                    z)
                  (after_exec redis state.metadata.saga_id expected left))))
      write old w here reads current =
          subst
            (λ z. Yields (Turn left t) (
              resume (serialize_state dates json state z) (λ serialized z'.
                resume
                  (redis.multi_exec
                    (writes settings key index_key state.metadata serialized correlation_id) z')
                  (after_exec redis state.metadata.saga_id expected left))))
            here
            (Yields-pure_step (Turn left t) (serialize_state dates json state s) s _
              (serialize_state-Stays dates json state s)
              (λ serialized serializes.
                committed left text serialized old s t watching same reads current serializes))

  -- A turn, from right after the key is watched
  pub try_replace-Turn :
      (left : ℕ) (s t : S)
      → laws.Fresh key s
      → laws.log s ≡ laws.log t
      → Yields
          (Turn left t)
          (try_replace dates json settings redis key index_key correlation_id state expected left s)
  unfolding try_replace caught present
  try_replace-Turn left s t fresh same = caught-Yields _ (
      Yields-resume (λ v w. laws.Watching key v w × (laws.log w ≡ laws.log s)) (Turn left t)
        (redis.get key s) _
        (Yields-both (λ v w. laws.Watching key v w) (λ v w. laws.log w ≡ laws.log s)
          (redis.get key s) (laws.got_watched key s fresh) (laws.got key s))
        (λ v w known. on_value v w known.0 (known.1 ∙ same)))
    where
      caught-Yields :
          (x : Result Error Bool × S)
          → Yields (Turn left t) x
          → Yields (Turn left t) (caught redis x)
      caught-Yields (ok done, w) h = h
      caught-Yields (err e, w) h =
          Yields-resume (λ a z. Unit) (Turn left t) (redis.unwatch w) _
            (Yields-any (redis.unwatch w)) (λ a z u. tt)

      on_value :
          (v : Option String) (w : S)
          → laws.Watching key v w
          → laws.log w ≡ laws.log t
          → Yields (Turn left t) (
              replace dates json settings redis key index_key correlation_id state expected left
                (present v)
                w)
      on_value none w watching kept = replace-missing left w t
      on_value (some text) w watching kept = elim (Bool-cases (truthy text)) [
        | inl there ↦ rw there (replace-found left text w t watching kept)
        | inr empty ↦ rw empty (replace-missing left w t)
      ]
