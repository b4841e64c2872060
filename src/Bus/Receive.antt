-- ===== src/Bus/Receive.antt =====
-- The callback of BusImpl.start: what the bus does with a message that a saga throws on.
use saga_bus.Errors.Classify.{Action, retry, dlq, drop}
use saga_bus.Bus.{
  handles, receive, act, caught, attempt, run_saga, recover, Bus, World, bury, Saga, try_again,
  in_env, dlq_naming_of, run_saga, run_each,
}
use saga_bus.Errors.{Error, ErrorContext, extract_context, original}
use saga_bus.Interfaces.{Env}
use saga_bus.Messages.{Envelope, Message, PublishOptions}
use saga_bus.Retry.{
  handle_failure, get_attempt_count, get_first_seen, send_to_dlq, RetryPolicy, publish_again,
  handle_failure,
}
use saga_bus.Prelude.{
  ℕ, String, ◌≡◌, refl, sym, ap, ◌∙◌, inl, inr, Bool, true, false, Option, some, List, [], ◌∷◌,
  ◌++◌, Bool-cases, keep,
}
use saga_bus.Prelude.Exec.{Result, ok, err, resume-ok}
use saga_bus.Prelude.Int.{lt_nat}

module _ {B S T : Type 0} (bus : Bus B S T) (endpoint : String) (envelope : Envelope B) where
  -- Publishing never throws.
  abbrev pub Publishes : Type 0
  Publishes = (m : Message B) (o : PublishOptions) (t : T) → (bus.transport.publish m o t).0 ≡ ok tt

  -- The message has no first-seen header, or one that is a date.
  abbrev pub HasDate : Type 0
  HasDate = (seen : ℕ) × (get_first_seen bus.platform.dates envelope ≡ some seen)

  -- The user's naming function gives the endpoint a dead-letter endpoint.
  abbrev pub Names : Type 0
  Names = (dlq : String) × (dlq_naming_of bus.worker endpoint ≡ ok dlq)

  -- The user's error handler returns an action for each error.
  abbrev pub Classifies : Type 0
  Classifies =
      (e : Error) (name : String) (known : Option ErrorContext) (env : Env T)
      → (action : Action) × ((bus.error_handler e envelope name known env).0 ≡ ok action)

  module _ (publishes : Publishes) (has_date : HasDate) (names : Names)
      (classifies : Classifies) where
    send_to_dlq-ok :
        (naming : String → Result Error String) (e : Error) (t : T) {dlq : String}
        → naming endpoint ≡ ok dlq
        → (send_to_dlq bus.platform.dates bus.transport naming envelope endpoint e t).0 ≡ ok tt
    unfolding send_to_dlq
    send_to_dlq-ok naming e t named = rw (named, has_date.1) (publishes _ _ t)

    bury-ok : (e : Error) (w : World S T) → (bury bus endpoint envelope e w).0 ≡ ok tt
    unfolding bury
    bury-ok e w = send_to_dlq-ok _ e w.env.transport names.1

    publish_again-ok :
        (naming : String → Result Error String) (policy : RetryPolicy) (t : T)
        → (publish_again bus.platform.dates bus.transport naming envelope endpoint policy t).0
          ≡ ok true
    unfolding publish_again
    publish_again-ok naming policy t =
        rw has_date.1 (ap (λ r. r.0) (resume-ok _ _ (publishes _ _ t)))

    handle_failure-ok :
        (naming : String → Result Error String) (e : Error) (policy : RetryPolicy) (t : T)
        {dlq : String}
        → naming endpoint ≡ ok dlq
        → (b : Bool) × ((handle_failure bus.platform.dates bus.transport naming envelope endpoint e
              policy t).0
            ≡ ok b)
    unfolding handle_failure
    handle_failure-ok naming e policy t named =
        elim (Bool-cases (lt_nat (get_attempt_count envelope) policy.max_attempts)) [
          | inl again ↦ (true, rw again (publish_again-ok naming policy t))
          | inr last ↦
              (false, rw last (ap (λ r. r.0) (resume-ok _ _ (send_to_dlq-ok naming e t named))))
        ]

    try_again-ok :
        (policy : RetryPolicy) (e : Error) (w : World S T)
        → (try_again bus endpoint envelope policy e w).0 ≡ ok tt
    unfolding try_again
    try_again-ok policy e w =
        ap (λ r. r.0) (resume-ok _ _ (handle_failure-ok _ e policy w.env.transport names.1).1)

    act-ok :
        (name : String) (e : Error) (action : Action) (w : World S T)
        → (act bus endpoint envelope name e action w).0 ≡ ok tt
    unfolding act
    act-ok name e retry w = try_again-ok _ e w
    act-ok name e dlq w = bury-ok e w
    act-ok name e drop w = refl

    caught-ok :
        (name : String) (r : Result Error (Unit {0}) × World S T)
        → (caught bus endpoint envelope name r).0 ≡ ok tt
    unfolding caught recover
    caught-ok name (ok u, w) = refl
    caught-ok name (err e, w) =
        let (action, answered) = classifies (original e) name (extract_context e) w.env in
        ap (λ r. r.0)
          (resume-ok (in_env (bus.error_handler (original e) envelope name (extract_context e)) w)
            (λ a. act bus endpoint envelope name e a) answered)
        ∙ act-ok name e action _

    run_saga-ok :
        (saga : Saga B S T) (w : World S T) → (run_saga bus endpoint envelope saga w).0 ≡ ok tt
    unfolding run_saga
    run_saga-ok saga w = caught-ok saga.name (attempt bus endpoint envelope saga w)

    -- If publishing never throws, the message's first-seen header, if any, is a date, and the user's
    -- error handler and naming of dead-letter endpoints do not throw, then
    -- whatever one saga does with a message, the sagas after it get the message too, each in the
    -- world that those before it left: the loop over two lists of sagas is the two loops in turn.
    pub run_each-append :
        (xs ys : List (Saga B S T)) (w : World S T)
        → run_each bus endpoint envelope (xs ++ ys) w
          ≡ run_each bus endpoint envelope ys (run_each bus endpoint envelope xs w).1
    unfolding run_each
    run_each-append [] ys w = refl
    run_each-append (x ∷ xs) ys w =
        resume-ok _ _ (run_saga-ok x w)
        ∙ run_each-append xs ys (run_saga bus endpoint envelope x w).1
        ∙ ap (λ r. run_each bus endpoint envelope ys r.1) (sym (resume-ok _ _ (run_saga-ok x w)))

    run_each-ok :
        (xs : List (Saga B S T)) (w : World S T) → (run_each bus endpoint envelope xs w).0 ≡ ok tt
    unfolding run_each
    run_each-ok [] w = refl
    run_each-ok (x ∷ xs) w =
        ap (λ r. r.0) (resume-ok _ _ (run_saga-ok x w))
        ∙ run_each-ok xs (run_saga bus endpoint envelope x w).1

    -- If publishing never throws, the message's first-seen header, if any, is a date, and the user's
    -- error handler and naming of dead-letter endpoints do not throw, then the callback never throws at the transport, whatever the sagas do.
    pub receive-ok : (w : World S T) → (receive bus endpoint envelope w).0 ≡ ok tt
    unfolding receive
    receive-ok w = run_each-ok (keep (handles envelope) bus.sagas) w
