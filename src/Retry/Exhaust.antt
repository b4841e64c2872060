-- ===== src/Retry/Exhaust.antt =====
-- The life of a message that fails each time, under DefaultErrorHandler: a transient error has
-- RetryHandler.handleFailure publish it again, a transport delivers what was published under a fresh
-- id, and so on until the dead-letter endpoint; another error sends it there at once.
use saga_bus.Messages.{Message, Envelope, PublishOptions}
use saga_bus.Interfaces.{DateFormat, TransportOps}
use saga_bus.Transport.{envelope_of}
use saga_bus.Retry.{
  attempt_header, first_seen_header, original_endpoint_header, get_attempt_count, get_first_seen,
  tracking_headers, attempt_of, first_seen_of, RetryPolicy, handle_failure, send_to_dlq,
  calculate_delay, dlq_headers, error_message_header, error_type_header,
}
use saga_bus.Retry.Headers.{
  get-tracking_attempt, get-tracking_first_seen, get-tracking_origin, attempt_of-decimal,
  first_seen_of-to_iso,
}
use saga_bus.Errors.{Error, name, message, original}
use saga_bus.Errors.Classify.{Action, default_handle, drop, dlq, is_transient_error, retry}
use saga_bus.Prelude.{
  if◌then◌else◌, ℕ, zero, suc, ◌+◌, ◌-◌, ◌≤◌, ◌<◌, String, ◌≡◌, refl, ap, ◌∙◌, subst, Bool, true,
  false, none, some, List, [], ◌∷◌, ◌++◌, arith, ◌<?>◌, lt→ltb, le→ltb_false,
}
use saga_bus.Prelude.Dict.{Dict, dict_laws}
use saga_bus.Prelude.Exec.{Exec, Result, ok, pure, ◌>>◌}
use saga_bus.Prelude.Int.{pos}
use saga_bus.Prelude.Texts.{decimal}
use saga_bus.Prelude.Dict

-- A transport that keeps what is published, and never fails.
abbrev pub Outbox : Type 0 → Type 0
Outbox B = List (Message B × PublishOptions)

abbrev pub recorder : {B : Type 0} → TransportOps B (Outbox B)
recorder = record {
  start = pure tt;
  stop = pure tt;
  subscribe = λ endpoint concurrency. pure tt;
  publish = λ m o sent. (ok tt, sent ++ (m, o) ∷ []);
}

module _ {B : Type 0} (dates : DateFormat) where
  -- What the headers say: this is attempt k, first seen at t, first sent to the endpoint.
  pub record Tracks (k t : ℕ) (endpoint : String) (envelope : Envelope B) : Type 0 where
    pub attempt : get_attempt_count envelope ≡ pos k
    pub first_seen : get_first_seen dates envelope ≡ some t
    pub origin : (Dict.get original_endpoint_header envelope.headers <?> endpoint) ≡ endpoint

  -- A message that was never retried.
  pub record IsFresh (envelope : Envelope B) : Type 0 where
    pub no_attempt : Dict.get attempt_header envelope.headers ≡ none
    pub no_first_seen : Dict.get first_seen_header envelope.headers ≡ none
    pub no_origin : Dict.get original_endpoint_header envelope.headers ≡ none

  IsFresh-Tracks :
      (envelope : Envelope B) (endpoint : String)
      → IsFresh envelope
      → Tracks 1 envelope.timestamp endpoint envelope
  unfolding get_attempt_count get_first_seen
  IsFresh-Tracks envelope endpoint f = record {
    attempt = ap attempt_of f.no_attempt;
    first_seen = ap (first_seen_of dates envelope.timestamp) f.no_first_seen;
    origin = ap (λ o. o <?> endpoint) f.no_origin;
  }

  abbrev kept_headers : Envelope B → String → ℕ → ℕ → Dict String
  kept_headers envelope endpoint k t =
      tracking_headers envelope endpoint (pos (k + 1)) (dates.to_iso t)

  -- The next delivery counts one attempt more, and keeps the time and the endpoint.
  tracking-Tracks :
      (envelope : Envelope B) (endpoint id : String) (k t time : ℕ) (options : PublishOptions)
      → Tracks k t endpoint envelope
      → options.headers ≡ some (kept_headers envelope endpoint k t)
      → Tracks (k + 1) t endpoint (envelope_of id time envelope.payload options)
  unfolding get_attempt_count get_first_seen envelope_of
  tracking-Tracks envelope endpoint id k t time options h e = record {
    attempt =
        ap (λ o. attempt_of (Dict.get attempt_header (o <?> []))) e
        ∙ ap attempt_of (get-tracking_attempt envelope endpoint (pos (k + 1)) (dates.to_iso t))
        ∙ attempt_of-decimal (pos (k + 1));
    first_seen =
        ap (λ o. first_seen_of dates time (Dict.get first_seen_header (o <?> []))) e
        ∙ ap (first_seen_of dates time)
            (get-tracking_first_seen envelope endpoint (pos (k + 1)) (dates.to_iso t))
        ∙ first_seen_of-to_iso dates time t;
    origin =
        ap (λ o. Dict.get original_endpoint_header (o <?> []) <?> endpoint) e
        ∙ ap (λ o. o <?> endpoint)
            (get-tracking_origin envelope endpoint (pos (k + 1)) (dates.to_iso t))
        ∙ h.origin;
  }

-- What a failed delivery leads to.
pub data Outcome (B : Type 0) : Type 0 where
  again parked : Message B → PublishOptions → Outcome B
  fault : Outcome B

unfoldable pub outcome : {B : Type 0} → Result Error Bool × Outbox B → Outcome B
outcome (ok true, (m, o) ∷ []) = again m o
outcome (ok false, (m, o) ∷ []) = parked m o
outcome _ = fault

-- The life of a message: how often it was delivered, and what reached the dead-letter endpoint.
pub data Fate (B : Type 0) : Type 0 where
  dead : ℕ → Message B → PublishOptions → Fate B
  lost alive : Fate B

unfoldable pub follow :
    {B : Type 0} → (Message B → PublishOptions → Fate B) → ℕ → Outcome B → Fate B
follow continue n (again m o) = continue m o
follow continue n (parked m o) = dead n m o
follow continue n fault = lost

module _ {B : Type 0} (dates : DateFormat) (dlq_naming : String → Result Error String)
    (endpoint : String) (policy : RetryPolicy) where
  -- What the bus does with an error, by the action of the error handler
  unfoldable pub respond : Envelope B → Error → Action → Exec Error (Outbox B) Bool
  respond envelope e retry = handle_failure dates recorder dlq_naming envelope endpoint e policy
  respond envelope e dlq = do send_to_dlq dates recorder dlq_naming envelope endpoint e; pure false
  respond envelope e drop = pure false

  module _ (errors : ℕ → Error) (ids : ℕ → String) (times : ℕ → ℕ) where
    abbrev redelivered : ℕ → Message B → PublishOptions → Envelope B
    redelivered n m o = envelope_of (ids n) (times n) m o

    -- The n-th delivery, from 0 on, fails with the n-th error, which is classified by what was thrown
    -- first; n is the number of deliveries so far.
    unfoldable pub fate : ℕ → ℕ → Envelope B → Fate B
    unfolding follow respond
    fate zero n envelope = alive
    fate (suc fuel) n envelope =
        follow (λ m o. fate fuel (n + 1) (redelivered n m o)) (n + 1)
          (outcome (respond envelope (errors n) (default_handle (original (errors n))) []))

-- The message at the dead-letter endpoint says how often and since when it was tried, from where it
-- came and which error it met last.
pub record Buried {B : Type 0} (dates : DateFormat) (dlq_endpoint endpoint : String)
    (envelope : Envelope B) (t attempts : ℕ) (error : Error) (o : PublishOptions) : Type 0 where
  pub endpoint_named : o.endpoint ≡ dlq_endpoint
  pub key_kept : o.key ≡ envelope.partition_key
  pub at_once : o.delay_ms ≡ none
  pub attempt : Dict.get attempt_header (o.headers <?> []) ≡ some (decimal (pos attempts))
  pub first_seen : Dict.get first_seen_header (o.headers <?> []) ≡ some (dates.to_iso t)
  pub origin : Dict.get original_endpoint_header (o.headers <?> []) ≡ some endpoint
  pub error_message : Dict.get error_message_header (o.headers <?> []) ≡ some (message error)
  pub error_type : Dict.get error_type_header (o.headers <?> []) ≡ some (name error)

-- A transient error is to be retried.
transient-retry :
    (e : Error) → is_transient_error (original e) ≡ true → default_handle (original e) ≡ retry
unfolding default_handle
transient-retry e h = ap (λ b. if b then retry else dlq) h

module _ {B : Type 0} (dates : DateFormat) (dlq_naming : String → Result Error String)
    (endpoint dlq_endpoint : String) (named : dlq_naming endpoint ≡ ok dlq_endpoint)
    (policy : RetryPolicy) where
  abbrev retry_options : Envelope B → ℕ → ℕ → PublishOptions
  retry_options envelope k t = record {
    endpoint = endpoint;
    key = envelope.partition_key;
    headers = some (tracking_headers envelope endpoint (pos (k + 1)) (dates.to_iso t));
    delay_ms = some (calculate_delay policy (pos k));
  }

  abbrev dlq_options : Envelope B → Error → ℕ → PublishOptions
  dlq_options envelope error t = record {
    endpoint = dlq_endpoint;
    key = envelope.partition_key;
    headers = some (dlq_headers envelope endpoint (dates.to_iso t) error);
    delay_ms = none;
  }

  retry-step :
      (envelope : Envelope B) (e : Error) (k t : ℕ)
      → Tracks dates k t endpoint envelope
      → is_transient_error (original e) ≡ true
      → k < policy.max_attempts
      → respond dates dlq_naming endpoint policy envelope e (default_handle (original e)) []
        ≡ (ok true, (envelope.payload, retry_options envelope k t) ∷ [])
  unfolding handle_failure respond
  retry-step envelope e k t h transient lt =
      rw (transient-retry e transient, h.attempt, h.first_seen, lt→ltb k policy.max_attempts lt)

  dlq-step :
      (envelope : Envelope B) (e : Error) (k t : ℕ)
      → Tracks dates k t endpoint envelope
      → is_transient_error (original e) ≡ true
      → policy.max_attempts ≤ k
      → respond dates dlq_naming endpoint policy envelope e (default_handle (original e)) []
        ≡ (ok false, (envelope.payload, dlq_options envelope e t) ∷ [])
  unfolding handle_failure respond
  dlq-step envelope e k t h transient le = rw (
    transient-retry e transient,
    h.attempt,
    named,
    h.first_seen,
    le→ltb_false k policy.max_attempts le,
  )

  dlq-Buried :
      (envelope : Envelope B) (e : Error) (k t : ℕ)
      → Tracks dates k t endpoint envelope
      → Buried dates dlq_endpoint endpoint envelope t k e (dlq_options envelope e t)
  unfolding dlq_headers
  dlq-Buried envelope e k t h = record {
    endpoint_named = refl;
    key_kept = refl;
    at_once = refl;
    attempt = simp dict_laws (
        get-tracking_attempt envelope endpoint (get_attempt_count envelope) (dates.to_iso t)
        ∙ ap (λ z. some (decimal z)) h.attempt);
    first_seen =
        simp dict_laws
          (get-tracking_first_seen envelope endpoint (get_attempt_count envelope) (dates.to_iso t));
    origin = simp dict_laws (
        get-tracking_origin envelope endpoint (get_attempt_count envelope) (dates.to_iso t)
        ∙ ap some h.origin);
    error_message = simp dict_laws;
    error_type = simp dict_laws;
  }

  module _ (errors : ℕ → Error) (ids : ℕ → String) (times : ℕ → ℕ) where
    abbrev lived : ℕ → ℕ → Envelope B → Fate B
    lived = fate dates dlq_naming endpoint policy errors ids times

    abbrev later : ℕ → Message B → PublishOptions → Envelope B
    later n m o = envelope_of (ids n) (times n) m o

    -- From attempt k on, with g attempts to go.
    fate-Buried :
        (g n k t : ℕ) (envelope : Envelope B)
        → Tracks dates k t endpoint envelope
        → k + g ≡ policy.max_attempts
        → ((i : ℕ) → i ≤ n + g → is_transient_error (original (errors i)) ≡ true)
        → (o : PublishOptions) × (lived (suc g) n envelope ≡ dead (n + g + 1) envelope.payload o)
          × Buried dates dlq_endpoint endpoint envelope t policy.max_attempts (errors (n + g)) o
    unfolding fate outcome envelope_of
    fate-Buried zero n k t envelope h e transient = (
      dlq_options envelope (errors n) t,
      ap (λ x. follow (λ m o. lived 0 (n + 1) (later n m o)) (n + 1) (outcome x))
            (dlq-step envelope (errors n) k t h (transient n (omega arith)) (omega arith))
          ∙ ap (λ j. dead j envelope.payload (dlq_options envelope (errors n) t)) (omega arith),
      subst
          (λ e'.
            Buried dates dlq_endpoint endpoint envelope t policy.max_attempts e'
              (dlq_options envelope (errors n) t))
          (ap errors (omega arith))
          (subst
            (λ j.
              Buried dates dlq_endpoint endpoint envelope t j (errors n)
                (dlq_options envelope (errors n) t))
            (omega arith) (dlq-Buried envelope (errors n) k t h)),
    )
    fate-Buried (suc g) n k t envelope h e transient =
        let o : PublishOptions = retry_options envelope k t in
        let again' : Envelope B = later n envelope.payload o in
        let tracked : Tracks dates (k + 1) t endpoint again' =
          tracking-Tracks dates envelope endpoint (ids n) k t (times n) o h refl in
        let (o', run, buried) =
          fate-Buried g (n + 1) (k + 1) t again' tracked (omega arith)
            (λ i below. transient i (omega (arith, below))) in
        (
          o',
          ap (λ x. follow (λ m p. lived (suc g) (n + 1) (later n m p)) (n + 1) (outcome x))
                (retry-step envelope (errors n) k t h (transient n (omega arith)) (omega arith))
              ∙ run
              ∙ ap (λ j. dead j envelope.payload o') (omega arith),
          subst (λ e'. Buried dates dlq_endpoint endpoint envelope t policy.max_attempts e' o')
              (ap errors (omega arith))
              (record {
                endpoint_named = buried.endpoint_named;
                key_kept = buried.key_kept;
                at_once = buried.at_once;
                attempt = buried.attempt;
                first_seen = buried.first_seen;
                origin = buried.origin;
                error_message = buried.error_message;
                error_type = buried.error_type;
              }),
        )

    -- Under the default error handler: a message without retry headers that fails at every delivery
    -- with an error that is transient is delivered exactly `max_attempts` times (at least once), and
    -- then its payload reaches the dead-letter endpoint with its history and the last error, if the
    -- naming of dead-letter endpoints does not throw and publishing never fails.
    pub fate-exhausts :
        (envelope : Envelope B)
        → IsFresh dates envelope
        → 0 < policy.max_attempts
        → ((i : ℕ) → i < policy.max_attempts → is_transient_error (original (errors i)) ≡ true)
        → (o : PublishOptions) × (lived policy.max_attempts 0 envelope
            ≡ dead policy.max_attempts envelope.payload o)
          × Buried dates dlq_endpoint endpoint envelope envelope.timestamp policy.max_attempts
              (errors (policy.max_attempts - 1))
              o
    fate-exhausts envelope f h transient =
        let (o, run, buried) =
          fate-Buried (policy.max_attempts - 1) 0 1 envelope.timestamp envelope
            (IsFresh-Tracks dates envelope endpoint f) (omega arith)
            (λ i below. transient i (omega (arith, below, h))) in
        (
          o,
          ap (λ k. lived k 0 envelope) (omega arith)
              ∙ run
              ∙ ap (λ j. dead j envelope.payload o) (omega arith),
          subst
              (λ e'.
                Buried dates dlq_endpoint endpoint envelope envelope.timestamp policy.max_attempts
                  e' o)
              (ap errors (omega arith)) buried,
        )
