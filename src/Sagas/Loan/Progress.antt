-- ===== src/Sagas/Loan/Progress.antt =====
-- What the common steps of packages/examples-shared/src/sagas/LoanApplicationSaga.ts leave.
pub mod Screening
pub mod Documents
pub mod Decisions
use saga_bus.Context.{Session}
use saga_bus.Sagas.Loan.Application.{Application, Loan, LoanTerms, StatusEntry}
use saga_bus.Sagas.Loan.Flow.{Flow, is_financed, is_terminal}
use saga_bus.Sagas.Loan.Messages.{LoanMessage}
use saga_bus.Sagas.Loan.Platform.{iso_now}
use saga_bus.Sagas.Loan.Status.{Status}
use saga_bus.Sagas.Loan.Steps.{Host, Loaned, advance, ending, going, stamp}
use saga_bus.State.{HandlerResult}
use saga_bus.Prelude.{
  subst, sym, ◌+◌, String, ◌≡◌, refl, ap, ◌∙◌, Bool, true, false, Option, none, some, List, [], ◌∷◌,
  ◌++◌, map, ◌<?>◌, if◌then◌else◌,
}
use mathlib.Core.List.{map-append}
use saga_bus.Prelude.Exec.{resume, pure, Ensures, Ensures-resume}

abbrev pub last_status : List Status → Option Status
last_status [] = none
last_status (s ∷ ss) = some (last_status ss <?> s)

abbrev pub statuses : List StatusEntry → List Status
statuses entries = map (λ e. e.status) entries

pub last_status-append :
    (xs ys : List Status) {s : Status} → last_status ys ≡ some s → last_status (xs ++ ys) ≡ some s
last_status-append [] ys h = h
last_status-append (x ∷ xs) ys h = ap (λ o. some (o <?> x)) (last_status-append xs ys h)

-- The terms of an approved loan
abbrev pub terms_of : {N : Type 0} → Option (Loan N) → Option (LoanTerms N)
terms_of none = none
terms_of (some loan) = loan.terms

-- What holds of an application between two messages: its history ends with its status, and from the
-- approval on it has the terms of its loan.
pub record IsSound {N : Type 0} (a : Application N) : Type 0 where
  pub logged : last_status (statuses a.status_history) ≡ some a.status
  pub financed : is_financed a.status ≡ true → (t : LoanTerms N) × (terms_of a.loan ≡ some t)

-- `isCompleted` of a result with a status: an end, or nothing
abbrev pub end_mark : Status → Option Bool
end_mark s = if is_terminal s then some true else none

-- What a handler leaves: a step of the flow, a sound state, the metadata and the ids as they were,
-- and the end of the saga reported exactly at the end of the flow.
pub record Advances {N : Type 0} (type : String) (x : Loaned N) (r : HandlerResult (Application N))
    : Type 0 where
  pub flow : Flow x.fields.status type r.new_state.fields.status
  pub sound : IsSound r.new_state.fields
  pub ended : r.is_completed ≡ end_mark r.new_state.fields.status
  pub metadata_kept : r.new_state.metadata ≡ x.metadata
  pub id_kept : r.new_state.fields.application_id ≡ x.fields.application_id

-- A step of the flow to a status, with the entries that the history gets.
pub record IsMove {N : Type 0} (type : String) (x : Loaned N) (fields : Application N)
    (status : Status) (entries : List (Status × Option String)) : Type 0 where
  pub same_id : fields.application_id ≡ x.fields.application_id
  pub flow : Flow x.fields.status type status
  pub last : last_status (map (λ e. e.0) entries) ≡ some status
  pub financed : is_financed status ≡ true → (t : LoanTerms N) × (terms_of fields.loan ≡ some t)

pub at : {s t u : Status} {type : String} → s ≡ t → Flow t type u → Flow s type u
at {s} {t} {u} {type} h flow = subst (λ q. Flow q type u) (sym h) flow

pub unfinanced : {A : Type 0} → false ≡ true → A
unfinanced h = absurd (cc h)

logged_last :
    {N : Type 0} (fields : Application N) (status : Status)
    (entries : List (Status × Option String))
    → last_status (map (λ e. e.0) entries) ≡ some status
    → (history : List StatusEntry) → statuses history ≡ map (λ e. e.0) entries
    → last_status (statuses (fields.status_history ++ history)) ≡ some status
logged_last fields status entries last history same =
    ap last_status (map-append (λ e. e.status) fields.status_history history)
    ∙ last_status-append (statuses fields.status_history) (statuses history)
        (ap last_status same ∙ last)

module _ {N V T : Type 0} (host : Host N T) where
  -- The new entries have the statuses that were asked for.
  statuses-stamp :
      (entries : List (Status × Option String)) (session : Session (LoanMessage N) V T)
      → Ensures (λ history. statuses history ≡ map (λ e. e.0) entries) (stamp host entries session)
  unfolding stamp iso_now
  statuses-stamp [] session = refl
  statuses-stamp ((s, reason) ∷ entries) (ctx, env) =
      Ensures-resume _ _ (stamp host entries (ctx, record env { reads = env.reads + 1 })) _
        (statuses-stamp entries (ctx, record env { reads = env.reads + 1 }))
        (λ rest session same. ap (λ ss. s ∷ ss) same)

  module _ (type : String) (x : Loaned N) (fields : Application N) (status : Status)
      (entries : List (Status × Option String)) (move : IsMove type x fields status entries)
      (session : Session (LoanMessage N) V T) where
    -- A handler that returns with the mark of its status advances the application.
    advanced :
        (mark : Option Bool)
        → mark ≡ end_mark status
        → Ensures (Advances type x) (
            resume
              (advance host x fields status entries session)
              (λ y. pure (record { new_state = y; is_completed = mark })))
    unfolding advance iso_now
    advanced mark marked =
        Ensures-resume (λ y. Advances type x (record { new_state = y; is_completed = mark }))
          (Advances type x) (advance host x fields status entries session) _
          (Ensures-resume _ _ (stamp host entries session) _ (statuses-stamp entries session)
            (λ history s same. record {
              flow = move.flow;
              sound = record {
                logged = logged_last fields status entries move.last history same;
                financed = move.financed;
              };
              ended = marked;
              metadata_kept = refl;
              id_kept = move.same_id;
            }))
          (λ y s h. h)

    pub going-Advances :
        is_terminal status ≡ false
        → Ensures (Advances type x) (going host x fields status entries session)
    unfolding going
    going-Advances goes_on = advanced none (rw goes_on refl)

    pub ending-Advances :
        is_terminal status ≡ true
        → Ensures (Advances type x) (ending host x fields status entries session)
    unfolding ending
    ending-Advances ends = advanced (some true) (rw ends refl)
