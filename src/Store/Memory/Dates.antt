-- ===== src/Store/Memory/Dates.antt =====
-- What a saga context makes of dates that went through InMemorySagaStore.
use saga_bus.Context.{Context, get_timeout_remaining, stored_expiry}
use saga_bus.Context.Timeout.{remaining-iso_text}
use saga_bus.Errors.{Error}
use saga_bus.Interfaces.{DateFormat, Env, Platform}
use saga_bus.State.{DateValue, Metadata, SagaState, date, iso_text}
use saga_bus.Store.Memory.{MemoryStore, clone, cloned_date, cloned_option, get_by_id, update}
use saga_bus.Store.Memory.Laws.{read_by_id_lem, shown, updated_lem}
use saga_bus.Prelude.{ℕ, String, ◌≡◌, refl, sym, ap, ◌∙◌, Bool, true, none, some, truthy}
use saga_bus.Prelude.Exec.{ok, err}

-- A date that is no empty text
abbrev pub is_there : DateValue → Bool
is_there (date n) = true
is_there (iso_text t) = truthy t

-- A date that went through JSON is a text.
as_text :
    (dates : DateFormat) (d : DateValue)
    → is_there d ≡ true
    → (t : String) × (cloned_date dates d ≡ iso_text t) × (truthy t ≡ true)
as_text dates (date n) there = (dates.to_iso n, refl, dates.truthy-to_iso n)
as_text dates (iso_text t) there = (t, refl, there)

module _ {B D V T : Type 0} (platform : Platform) (json : D → D) where
  -- A saga with a timeout, no empty text, that was written to the in-memory store and read back: a handler of its
  -- next message that calls getTimeoutRemaining, with no timeout set or cleared before, gets a
  -- TypeError, since the stored date has become a text.
  pub remaining-stored :
      (n : String) (x y : SagaState D) (v : ℕ) (s : MemoryStore D) (d : DateValue)
      (ctx : Context B V) (env : Env T)
      → (update platform.dates json n x v s).0 ≡ ok tt
      → x.metadata.timeout_expires_at ≡ some d
      → is_there d ≡ true
      → (get_by_id platform.dates json n x.metadata.saga_id
          (update platform.dates json n x v s).1).0
        ≡ ok (some y)
      → ctx.pending_timeout_change ≡ none
      → ctx.current_metadata ≡ some y.metadata
      → (e : Error) × (get_timeout_remaining platform (ctx, env) ≡ (err e, (ctx, env)))
  unfolding clone
  remaining-stored n x y v s d ctx env done timed there back quiet current =
      let (old, before, version, seen) = updated_lem platform.dates json n x v s done in
      let (t, text, truthy_text) = as_text platform.dates d there in
      let written : MemoryStore D = (update platform.dates json n x v s).1 in
      let shown_y : ok (shown platform.dates json written n x.metadata.saga_id) ≡ ok (some y) =
        ap (λ r. r.0) (sym (read_by_id_lem platform.dates json n x.metadata.saga_id written))
        ∙ back in
      let same : y.metadata ≡ (clone platform.dates json (clone platform.dates json x)).metadata =
        cc (shown_y, seen) in
      remaining-iso_text platform ctx env t quiet
        (ap stored_expiry current
          ∙ ap (λ (m : Metadata). m.timeout_expires_at) same
          ∙ ap (λ o. cloned_option platform.dates (cloned_option platform.dates o)) timed
          ∙ ap (λ z. some (cloned_date platform.dates z)) text)
        truthy_text
