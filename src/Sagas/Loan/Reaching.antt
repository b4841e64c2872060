-- ===== src/Sagas/Loan/Reaching.antt =====
-- Which statuses the messages of the straight way lead to, in
-- packages/examples-shared/src/sagas/LoanApplicationSaga.ts.
use saga_bus.Context.{Session}
use saga_bus.State.{HandlerResult}
use saga_bus.Sagas.Loan.Application.{Application, DocumentRecord}
use saga_bus.Sagas.Loan.Flow.{Flow}
use saga_bus.Sagas.Loan.Handlers.Screening.{
  ask_documents, ask_employer, is_employed, on_credit_check_completed,
}
use saga_bus.Sagas.Loan.Handlers.Documents.{
  accept_or_reject, ask_appraisal, ask_underwriter, is_mortgage, on_documents_verified, proceed,
  reviewed,
}
use saga_bus.Sagas.Loan.Messages.{LoanMessage}
use saga_bus.Sagas.Loan.Messages.Checks.{CreditCheckCompleted}
use saga_bus.Sagas.Loan.Platform.{iso_now}
use saga_bus.Sagas.Loan.Status.{Status, Status-discrete, is_status}
use saga_bus.Sagas.Loan.Steps.{Handled, Host, Loaned, advance, going, publish_loan, stamp}
use saga_bus.Sagas.Loan.Turn.{guarded}
use saga_bus.Sagas.Loan.Types.{PropertyInfo}
use saga_bus.Prelude.{
  String, ◌≡◌, ◌⊎◌, inl, inr, refl, sym, subst, Bool, Bool-cases, true, false, ◌&&◌, Option, none,
  some, List, [], map, truthy, ◌<?>◌, arith,
}
use saga_bus.Prelude.Exec.{Ensures, Ensures-after, Ensures-resume}

pub is_status-same : (s t : Status) → s ≡ t → is_status s t ≡ true
is_status-same s t h = elim (Status-discrete s t) [
  | yes same ↦ ground arith
  | no differs ↦ absurd (differs h)
]

-- Where the messages of the straight way lead
pub on_submitted_only :
    {t : Status}
    → Flow Status.submitted "LoanApplicationSubmitted" t
    → t ≡ Status.identity_verification_pending
on_submitted_only Flow.identify = refl

pub on_identity_verified_only :
    {t : Status}
    → Flow Status.identity_verification_pending "IdentityVerified" t
    → t ≡ Status.credit_check_pending
on_identity_verified_only Flow.check_credit = refl

pub on_employment_verified_only :
    {t : Status}
    → Flow Status.employment_verification_pending "EmploymentVerified" t
    → t ≡ Status.documents_requested
on_employment_verified_only Flow.employed = refl

pub on_documents_received_only :
    {t : Status}
    → Flow Status.documents_requested "DocumentsReceived" t
    → t ≡ Status.documents_received
on_documents_received_only Flow.upload = refl

pub on_appraisal_completed_only :
    {t : Status}
    → Flow Status.appraisal_pending "AppraisalCompleted" t
    → t ≡ Status.underwriting_pending
on_appraisal_completed_only Flow.appraised = refl

pub on_underwriting_approved_only :
    {t : Status} → Flow Status.underwriting_pending "UnderwritingApproved" t → t ≡ Status.approved
on_underwriting_approved_only Flow.approve = refl

pub on_loan_approved_only :
    {t : Status} → Flow Status.approved "LoanApproved" t → t ≡ Status.offer_sent
on_loan_approved_only Flow.offer = refl

pub on_loan_offer_accepted_only :
    {t : Status} → Flow Status.offer_sent "LoanOfferAccepted" t → t ≡ Status.disbursement_pending
on_loan_offer_accepted_only Flow.accept = refl

pub on_disbursement_completed_only :
    {t : Status} → Flow Status.disbursement_pending "DisbursementCompleted" t → t ≡ Status.completed
on_disbursement_completed_only Flow.disburse = refl

-- A status reached from another by a message, of several that the message can lead to
abbrev pub Reaches : {N : Type 0} → (Status → Type 0) → HandlerResult (Application N) → Type 0
Reaches P r = P r.new_state.fields.status

abbrev pub AfterCredit : Status → Type 0
AfterCredit s = (s ≡ Status.employment_verification_pending) ⊎ (s ≡ Status.documents_requested)

abbrev pub AfterDocuments : Status → Type 0
AfterDocuments s = (s ≡ Status.appraisal_pending) ⊎ (s ≡ Status.underwriting_pending)

module _ {N V T : Type 0} (host : Host N T) where
  -- `going` returns a state of the status that it was given.
  going-Reaches :
      (P : Status → Type 0) (x : Loaned N) (fields : Application N) (status : Status)
      (entries : List (Status × Option String)) (session : Session (LoanMessage N) V T)
      → P status
      → Ensures (Reaches P) (going host x fields status entries session)
  unfolding going advance iso_now
  going-Reaches P x fields status entries session p =
      Ensures-resume (λ y. P y.fields.status) (Reaches P)
        (advance host x fields status entries session) _
        (Ensures-after (λ y. P y.fields.status) (stamp host entries session) _ (λ history s. p))
        (λ y s q. q)

  -- A score that is high enough leads on.
  pub credit-Reaches :
      (msg : CreditCheckCompleted N) (x : Loaned N) (session : Session (LoanMessage N) V T)
      → host.numbers.is_below msg.credit_score (host.numbers.literal 580) ≡ false
      → Ensures (Reaches AfterCredit) (on_credit_check_completed host msg x session)
  unfolding on_credit_check_completed ask_employer ask_documents iso_now
  credit-Reaches msg x session fine =
      rw fine
        (elim (Bool-cases (
          is_employed x.fields.applicant_info.employment_status
          && truthy (x.fields.applicant_info.employer_name <?> ""))) [
            | inl asked ↦ rw asked (
                Ensures-after _ (publish_loan host _ session) _
                  (λ u s. going-Reaches AfterCredit x _ _ _ _ (inl refl)))
            | inr skipped ↦ rw skipped (
                Ensures-after _ (publish_loan host _ session) _
                  (λ u s. going-Reaches AfterCredit x _ _ _ _ (inr refl)))
          ])

  proceed-Reaches :
      (id : String) (info : Option (PropertyInfo N)) (updated : List DocumentRecord) (x : Loaned N)
      (session : Session (LoanMessage N) V T)
      → Ensures (Reaches AfterDocuments) (proceed host id info updated x session)
  unfolding proceed ask_appraisal ask_underwriter
  proceed-Reaches id none updated x session =
      Ensures-after _ (publish_loan host _ session) _
        (λ u s. going-Reaches AfterDocuments x _ _ _ _ (inr refl))
  proceed-Reaches id (some info) updated x session =
      elim (Bool-cases (is_mortgage x.fields.loan_type)) [
        | inl mortgaged ↦ rw mortgaged (
            Ensures-after _ (publish_loan host _ session) _
              (λ u s. going-Reaches AfterDocuments x _ _ _ _ (inl refl)))
        | inr free ↦ rw free (
            Ensures-after _ (publish_loan host _ session) _
              (λ u s. going-Reaches AfterDocuments x _ _ _ _ (inr refl)))
      ]

  -- With no result there is no rejection.
  pub documents-Reaches :
      (id : String) (x : Loaned N) (session : Session (LoanMessage N) V T)
      → Ensures (Reaches AfterDocuments) (
          on_documents_verified host
            (record { application_id = id; verification_results = [] })
            x
            session)
  unfolding on_documents_verified accept_or_reject
  documents-Reaches id x session =
      proceed-Reaches id x.fields.property_info (map (reviewed []) x.fields.documents) x session

  pub passed :
      (P : HandlerResult (Application N) → Type 0) {b : Bool} (handler : Handled N V T)
      (x : Loaned N) (session : Session (LoanMessage N) V T)
      → b ≡ true
      → Ensures P (handler session)
      → Ensures P (guarded host b handler x session)
  unfolding guarded
  passed P handler x session h p =
      subst (λ c. Ensures P (guarded host c handler x session)) (sym h) p
