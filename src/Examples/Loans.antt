-- ===== src/Examples/Loans.antt =====
-- An application for a small loan, at a bank that counts in whole numbers.
use saga_bus.Context.{Context, new_context, check_delay, set_timeout, publish, send}
use saga_bus.Dsl.{definition_of}
use saga_bus.Messages.{saga_timeout_message_type}
use saga_bus.Orchestrator.{drop_message}
use saga_bus.Orchestrator.Process.{process_message}
use saga_bus.Prelude.Dict
use saga_bus.Prelude.Texts.{decimal, decimal_ℕ}
use saga_bus.Sagas.Loan.Expiry.{loan_orchestrator, process_message-timeout_dropped}
use saga_bus.Sagas.Loan.Handlers.Screening.{on_submitted}
use saga_bus.Sagas.Loan.Machine.{loan_builder}
use saga_bus.Sagas.Loan.Messages.{loan_type_of}
use saga_bus.Sagas.Loan.Steps.{going}
use saga_bus.State.{StoreOps}
use saga_bus.Store.Memory.{MemoryStore, memory_ops}
use saga_bus.Dsl.{handle}
use saga_bus.Examples.{number_dates, ticking_platform}
use saga_bus.Interfaces.{Env}
use saga_bus.Messages.{Envelope, timeout_expired}
use saga_bus.Retry.Exhaust.{Outbox, recorder}
use saga_bus.Sagas.Loan.Application.{Application}
use saga_bus.Sagas.Loan.Completion.{started-IsCompletable}
use saga_bus.Sagas.Loan.Ended.{handle-terminal}
use saga_bus.Sagas.Loan.Messages.{LoanMessage, sent, loan_application_submitted}
use saga_bus.Sagas.Loan.Messages.Checks.{LoanApplicationSubmitted}
use saga_bus.Sagas.Loan.Platform.{Calendar, Numbers, iso_now, read_clock}
use saga_bus.Sagas.Loan.Progress.{Advances, IsSound}
use saga_bus.Sagas.Loan.Reachable.{started, reachable-IsSound}
use saga_bus.Sagas.Loan.Returning.{IsQuiet}
use saga_bus.Sagas.Loan.Soundness.{handle-Advances, unchanged}
use saga_bus.Sagas.Loan.Stages.{IsCompletable}
use saga_bus.Sagas.Loan.Start.{start_application}
use saga_bus.Sagas.Loan.Status.{Status, Status-discrete}
use saga_bus.Sagas.Loan.Steps.{Host, Loaned}
use saga_bus.Sagas.Loan.Turn.{saga}
use saga_bus.Sagas.Loan.Types.{employed, personal}
use saga_bus.State.{HandlerResult, date}
use saga_bus.Prelude.{ℕ, ◌+◌, ◌-◌, ◌*◌, ◌/◌, ◌^◌, ◌≡◌, refl, ◌⊎◌, false, none, some, [], ◌∷◌, ltb}
use saga_bus.Prelude.Exec.{ok}

abbrev whole_numbers : Numbers ℕ
whole_numbers = record {
  literal = λ n. n;
  plus = λ a b. a + b;
  minus = λ a b. a - b;
  times = λ a b. a * b;
  over = λ a b. a / b;
  pow = λ a b. a ^ b;
  round = λ a. a;
  is_below = λ a b. ltb a b;
  text = λ a. "n";
}

-- A calendar of thirty days a month
abbrev thirty_days : Calendar
thirty_days = record {
  get_month = λ t. t / 2592000000;
  set_month = λ t m. m * 2592000000;
  set_date = λ t d. t;
}

abbrev bank : Host ℕ (Outbox (LoanMessage ℕ))
bank = record {
  platform = ticking_platform;
  transport = recorder;
  numbers = whole_numbers;
  calendar = thirty_days;
}

abbrev application : LoanApplicationSubmitted ℕ
application = record {
  application_id = "a1";
  applicant_id = "p1";
  loan_type = personal;
  requested_amount = 9000;
  term_months = 36;
  applicant_info = record {
    first_name = "Ada";
    last_name = "Byron";
    email = "ada@example.com";
    phone = "1";
    ssn = "2";
    date_of_birth = "1815-12-10";
    annual_income = 50000;
    employment_status = employed;
    employer_name = some "Engine";
  };
  property_info = none;
}

abbrev letter : LoanMessage ℕ → Envelope (LoanMessage ℕ)
letter m = record {
  id = "m1";
  type = "LoanApplicationSubmitted";
  payload = sent m;
  headers = [];
  timestamp = 1;
  partition_key = none;
}

abbrev context : LoanMessage ℕ → Context (LoanMessage ℕ) ℕ
context m = new_context "LoanApplicationSaga" "s1" "a1" (letter m) none none none

abbrev env : Env (Outbox (LoanMessage ℕ))
env = record { transport = []; reads = 0; draws = 0 }

bank-IsQuiet : (m : LoanMessage ℕ) → IsQuiet bank (context m)
unfolding new_context check_delay
bank-IsQuiet m = record { published = λ q options t. tt; in_bounds = refl }

abbrev submission : LoanMessage ℕ
submission = loan_application_submitted application

-- The application that is started.
abbrev opened : Loaned ℕ
opened = record {
  metadata = record {
    saga_id = "s1";
    version = 0;
    created_at = date 5000;
    updated_at = date 5010;
    is_completed = false;
    archived_at = none;
    trace_parent = none;
    trace_state = none;
    timeout_ms = none;
    timeout_expires_at = none;
  };
  fields = record {
    application_id = "a1";
    applicant_id = "p1";
    loan_type = personal;
    requested_amount = 9000;
    term_months = 36;
    status = Status.submitted;
    applicant_info = application.applicant_info;
    property_info = none;
    identity_verification = none;
    credit_check = none;
    employment_verification = none;
    documents = [];
    required_documents = [];
    appraisal = none;
    underwriting = none;
    loan = none;
    disbursement = none;
    status_history = record { status = Status.submitted; timestamp = "5020"; reason = none } ∷ [];
    cancellation = none;
    submitted_at = "5030";
    last_updated_at = "5040";
    completed_at = none;
  };
}

opened-start :
    (start_application {V = ℕ} bank "s1" application (context submission, env)).0 ≡ ok opened
unfolding start_application iso_now read_clock decimal decimal_ℕ
opened-start = refl

started-IsCompletable_example : IsCompletable bank context opened.fields
unfolding new_context
started-IsCompletable_example =
    started-IsCompletable bank context bank-IsQuiet 700 refl "s1" application
      (context submission, env) opened-start

reachable-IsSound_shared : IsSound opened.fields
reachable-IsSound_shared =
    reachable-IsSound ℕ bank opened.fields
      (started "s1" application (context submission, env) opened-start)

reachable-IsSound_example : IsSound opened.fields
reachable-IsSound_example =
    reachable-IsSound ℕ bank opened.fields
      (started "s1" application (context submission, env) opened-start)

-- The state after the submission was handled, and its result
abbrev identifying : HandlerResult (Application ℕ)
identifying = record {
  new_state = record opened {
    fields = record (opened.fields) {
      status = Status.identity_verification_pending;
      status_history =
          record { status = Status.submitted; timestamp = "5020"; reason = none }
          ∷ record {
            status = Status.identity_verification_pending;
            timestamp = "5010";
            reason = none;
          }
          ∷ [];
      last_updated_at = "5020";
    };
  };
  is_completed = none;
}

handle-Advances_example :
    (identifying ≡ unchanged opened) ⊎ Advances "LoanApplicationSubmitted" opened identifying
unfolding Status-discrete loan_type_of handle saga definition_of loan_builder sent Dict.set Dict.get
    on_submitted going set_timeout publish send iso_now decimal decimal_ℕ check_delay new_context
handle-Advances_example =
    handle-Advances bank submission opened (context submission, env) {r = identifying}
      reachable-IsSound_shared refl

-- An application that was cancelled
abbrev over : Loaned ℕ
over = record opened { fields = record (opened.fields) { status = Status.cancelled } }

handle-terminal_example :
    handle (saga bank) (sent submission) over (context submission, env)
    ≡ (ok (unchanged over), (context submission, env))
handle-terminal_example = handle-terminal bank submission over (context submission, env) refl

abbrev loan_store : StoreOps (Application ℕ) (MemoryStore (Application ℕ))
loan_store = memory_ops number_dates (λ x. x)

abbrev no_loans : MemoryStore (Application ℕ)
no_loans = record { store = []; correlation_index = [] }

process_message-timeout_dropped_example :
    process_message ticking_platform loan_store recorder []
      (loan_orchestrator ℕ bank loan_store none none)
      (record (letter submission) {
        payload = timeout_expired (record {
          saga_id = "s1";
          saga_name = "LoanApplicationSaga";
          correlation_id = "a1";
          timeout_ms = 604800000;
          timeout_set_at = 5000;
        });
      })
      no_loans
      env
    ≡ (
      ok (some (record { action = drop_message; message_type = saga_timeout_message_type })),
      no_loans,
      env,
    )
process_message-timeout_dropped_example =
    process_message-timeout_dropped ℕ bank loan_store none none [] (letter submission)
      (record {
        saga_id = "s1";
        saga_name = "LoanApplicationSaga";
        correlation_id = "a1";
        timeout_ms = 604800000;
        timeout_set_at = 5000;
      })
      no_loans env
