-- ===== src/Bus/Recovery.antt =====
-- The catch block of BusImpl.start on a conflict of two messages for one saga.
use saga_bus.Bus.{
  Bus, Saga, SagaWorker, World, act, attempt, caught, in_env, recover, retry_policy_of, run_saga,
  try_again,
}
use saga_bus.Errors.{Error, ErrorContext, concurrency, extract_context, original, processing}
use saga_bus.Errors.Classify.{default_handle, is_transient_error}
use saga_bus.Messages.{Envelope}
use saga_bus.Pipeline.{Done}
use saga_bus.Retry.{
  RetryPolicy, calculate_delay, get_attempt_count, get_first_seen, handle_failure, tracking_headers,
}
use saga_bus.Prelude.{ℕ, ◌+◌, ◌<◌, String, ◌≡◌, refl, ap, ◌∙◌, Option, some, lt→ltb}
use saga_bus.Prelude.Dict
use saga_bus.Prelude.Exec.{err, ok, pure, resume, resume-err}
use saga_bus.Prelude.Int.{ℤ, pos}

module _ {B S T : Type 0} (bus : Bus B S T) (endpoint : String) (envelope : Envelope B)
    (saga : Saga B S T) (w : World S T) where
  -- The world that the saga left
  abbrev pub failed_world : World S T
  failed_world = (saga.process envelope w).1

  -- The call that publishes the message again, as attempt k + 1, first seen at t
  abbrev pub published_again : RetryPolicy → ℕ → ℕ → Done × T
  published_again policy k t =
      bus.transport.publish envelope.payload
        (record {
          endpoint = endpoint;
          key = envelope.partition_key;
          headers =
              some (tracking_headers envelope endpoint (pos (k + 1)) (bus.platform.dates.to_iso t));
          delay_ms = some (calculate_delay policy (pos k));
        })
        failed_world.env.transport

  own_policy :
      (entry : SagaWorker) (policy : RetryPolicy)
      → Dict.get saga.name bus.worker.sagas ≡ some entry
      → entry.retry_policy ≡ some policy
      → retry_policy_of bus.worker saga.name ≡ policy
  unfolding retry_policy_of
  own_policy entry policy own given = rw (own, given) refl

  again :
      (policy : RetryPolicy) (k t : ℕ) (e : Error)
      → get_attempt_count envelope ≡ pos k
      → k < policy.max_attempts
      → get_first_seen bus.platform.dates envelope ≡ some t
      → (published_again policy k t).0 ≡ ok tt
      → try_again bus endpoint envelope policy e failed_world ≡ (
        ok tt,
        record failed_world {
          env = record (failed_world.env) { transport = (published_again policy k t).1 };
        },
      )
  unfolding try_again handle_failure
  again policy k t e count more seen sent =
      rw (count, lt→ltb k policy.max_attempts more, seen, sent) refl

  -- On a bus with the default error handler: a saga that throws the error of a conflict with another
  -- message, on a delivery that is not the last of the policy that the bus has for this saga, has the
  -- message published again by one call of the transport, to its endpoint, as the next attempt and
  -- after the delay of that policy. If that call does not throw, the error is not thrown on, and
  -- nothing else is done.
  pub run_saga-conflict :
      (saga_id : String) (expected : ℕ) (actual : Option ℤ) (known : ErrorContext)
      (entry : SagaWorker) (policy : RetryPolicy) (k t : ℕ)
      → bus.error_handler ≡ (λ e envelope name context. pure (default_handle e))
      → (saga.process envelope w).0 ≡ err (processing (concurrency saga_id expected actual) known)
      → Dict.get saga.name bus.worker.sagas ≡ some entry
      → entry.retry_policy ≡ some policy
      → get_attempt_count envelope ≡ pos k
      → k < policy.max_attempts
      → get_first_seen bus.platform.dates envelope ≡ some t
      → (published_again policy k t).0 ≡ ok tt
      → run_saga bus endpoint envelope saga w ≡ (
        ok tt,
        record failed_world {
          env = record (failed_world.env) { transport = (published_again policy k t).1 };
        },
      )
  unfolding run_saga attempt caught recover original extract_context act default_handle
      is_transient_error
  run_saga-conflict saga_id expected actual known entry policy k t standard failed own given count
        more seen sent =
      ap (caught bus endpoint envelope saga.name) (resume-err (saga.process envelope w) _ failed)
      ∙ ap
          (λ h.
            resume
              (in_env (h (concurrency saga_id expected actual) envelope saga.name (some known))
                failed_world)
              (λ a.
                act bus endpoint envelope saga.name
                  (processing (concurrency saga_id expected actual) known) a))
          standard
      ∙ ap
          (λ q.
            try_again bus endpoint envelope q
              (processing (concurrency saga_id expected actual) known) failed_world)
          (own_policy entry policy own given)
      ∙ again policy k t _ count more seen sent
