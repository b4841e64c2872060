-- ===== src/Sagas/Loan/Progress/Documents.antt =====
-- The handlers of packages/examples-shared/src/sagas/LoanApplicationSaga.ts for documents and the
-- appraisal follow the flow.
use saga_bus.Context.{Session}
use saga_bus.Sagas.Loan.Flow.{Flow}
use saga_bus.Sagas.Loan.Handlers.Documents.{
  is_mortgage, is_rejected, reviewed, reject_documents, ask_appraisal, ask_underwriter, proceed,
  accept_or_reject, on_documents_received, on_documents_verified, on_document_verification_failed,
  on_appraisal_completed, on_appraisal_failed,
}
use saga_bus.Sagas.Loan.Messages.{LoanMessage}
use saga_bus.Sagas.Loan.Messages.Checks.{
  DocumentsReceived, DocumentsVerified, DocumentVerificationFailed, VerificationResult,
}
use saga_bus.Sagas.Loan.Messages.Offers.{AppraisalCompleted, AppraisalFailed}
use saga_bus.Sagas.Loan.Progress.{Advances, going-Advances, at, unfinanced}
use saga_bus.Sagas.Loan.Status.{Status}
use saga_bus.Sagas.Loan.Steps.{Host, Loaned, publish_loan}
use saga_bus.Sagas.Loan.Types.{PropertyInfo}
use saga_bus.Sagas.Loan.Application.{DocumentRecord}
use saga_bus.Prelude.{
  String, ◌≡◌, refl, Bool-cases, inl, inr, Option, none, some, List, [], ◌∷◌, keep, map, ◌⊎◌,
}
use saga_bus.Prelude.Exec.{Ensures, Ensures-after}
use saga_bus.Sagas.Loan.Progress.Screening.{cancel_for-Advances}

module _ {N V T : Type 0} (host : Host N T) where
  pub on_documents_received-Advances :
      (msg : DocumentsReceived) (x : Loaned N) (session : Session (LoanMessage N) V T)
      → x.fields.status ≡ Status.documents_requested
      → Ensures (Advances "DocumentsReceived" x) (on_documents_received host msg x session)
  unfolding on_documents_received
  on_documents_received-Advances msg x session h =
      going-Advances host "DocumentsReceived" x _ _ _
        (record { same_id = refl; flow = at h Flow.upload; last = refl; financed = unfinanced }) _
        refl

  reject_documents-Advances :
      (id : String) (types : List String) (updated : List DocumentRecord) (x : Loaned N)
      (session : Session (LoanMessage N) V T)
      → x.fields.status ≡ Status.documents_received
      → Ensures (Advances "DocumentsVerified" x) (reject_documents host id types updated x session)
  unfolding reject_documents
  reject_documents-Advances id types updated x session h =
      Ensures-after _ (publish_loan host _ session) _ (λ u s.
        going-Advances host "DocumentsVerified" x _ _ _
          (record { same_id = refl; flow = at h Flow.reject; last = refl; financed = unfinanced }) _
          refl)

  ask_appraisal-Advances :
      (id : String) (info : PropertyInfo N) (updated : List DocumentRecord) (x : Loaned N)
      (session : Session (LoanMessage N) V T)
      → x.fields.status ≡ Status.documents_received
      → Ensures (Advances "DocumentsVerified" x) (ask_appraisal host id info updated x session)
  unfolding ask_appraisal
  ask_appraisal-Advances id info updated x session h =
      Ensures-after _ (publish_loan host _ session) _ (λ u s.
        going-Advances host "DocumentsVerified" x _ _ _
          (record { same_id = refl; flow = at h Flow.appraise; last = refl; financed = unfinanced })
          _ refl)

  ask_underwriter-Advances :
      (id : String) (updated : List DocumentRecord) (x : Loaned N)
      (session : Session (LoanMessage N) V T)
      → x.fields.status ≡ Status.documents_received
      → Ensures (Advances "DocumentsVerified" x) (ask_underwriter host id updated x session)
  unfolding ask_underwriter
  ask_underwriter-Advances id updated x session h =
      Ensures-after _ (publish_loan host _ session) _ (λ u s.
        going-Advances host "DocumentsVerified" x _ _ _
          (record {
            same_id = refl;
            flow = at h Flow.skip_appraisal;
            last = refl;
            financed = unfinanced;
          })
          _ refl)

  proceed-Advances :
      (id : String) (info : Option (PropertyInfo N)) (updated : List DocumentRecord) (x : Loaned N)
      (session : Session (LoanMessage N) V T)
      → x.fields.status ≡ Status.documents_received
      → Ensures (Advances "DocumentsVerified" x) (proceed host id info updated x session)
  unfolding proceed
  proceed-Advances id none updated x session h = ask_underwriter-Advances id updated x session h
  proceed-Advances id (some info) updated x session h =
      elim (Bool-cases (is_mortgage x.fields.loan_type)) [
        | inl mortgaged ↦ rw mortgaged (ask_appraisal-Advances id info updated x session h)
        | inr free ↦ rw free (ask_underwriter-Advances id updated x session h)
      ]

  accept_or_reject-Advances :
      (id : String) (results : List VerificationResult) (updated : List DocumentRecord)
      (x : Loaned N) (session : Session (LoanMessage N) V T)
      → x.fields.status ≡ Status.documents_received
      → Ensures
          (Advances "DocumentsVerified" x)
          (accept_or_reject host id results updated x session)
  unfolding accept_or_reject
  accept_or_reject-Advances id [] updated x session h =
      proceed-Advances id x.fields.property_info updated x session h
  accept_or_reject-Advances id (r ∷ rs) updated x session h =
      reject_documents-Advances id _ updated x session h

  pub on_documents_verified-Advances :
      (msg : DocumentsVerified) (x : Loaned N) (session : Session (LoanMessage N) V T)
      → x.fields.status ≡ Status.documents_received
      → Ensures (Advances "DocumentsVerified" x) (on_documents_verified host msg x session)
  unfolding on_documents_verified
  on_documents_verified-Advances msg x session h =
      accept_or_reject-Advances msg.application_id (keep is_rejected msg.verification_results)
        (map (reviewed msg.verification_results) x.fields.documents) x session h

  pub on_document_verification_failed-Advances :
      (msg : DocumentVerificationFailed) (x : Loaned N) (session : Session (LoanMessage N) V T)
      → (x.fields.status ≡ Status.documents_received)
        ⊎ (x.fields.status ≡ Status.documents_verification_failed)
      → Ensures
          (Advances "DocumentVerificationFailed" x)
          (on_document_verification_failed host msg x session)
  unfolding on_document_verification_failed
  on_document_verification_failed-Advances msg x session h =
      Ensures-after _ (publish_loan host _ session) _ (λ u s.
        going-Advances host "DocumentVerificationFailed" x _ _ _
          (record {
            same_id = refl;
            flow = elim h [ inl e ↦ at e Flow.refuse_documents | inr e ↦ at e Flow.upload_again ];
            last = refl;
            financed = unfinanced;
          })
          _ refl)

  pub on_appraisal_completed-Advances :
      (msg : AppraisalCompleted N) (x : Loaned N) (session : Session (LoanMessage N) V T)
      → x.fields.status ≡ Status.appraisal_pending
      → Ensures (Advances "AppraisalCompleted" x) (on_appraisal_completed host msg x session)
  unfolding on_appraisal_completed
  on_appraisal_completed-Advances msg x session h =
      Ensures-after _ (publish_loan host _ session) _ (λ u s.
        going-Advances host "AppraisalCompleted" x _ _ _
          (record {
            same_id = refl;
            flow = at h Flow.appraised;
            last = refl;
            financed = unfinanced;
          })
          _ refl)

  pub on_appraisal_failed-Advances :
      (msg : AppraisalFailed) (x : Loaned N) (session : Session (LoanMessage N) V T)
      → x.fields.status ≡ Status.appraisal_pending
      → Ensures (Advances "AppraisalFailed" x) (on_appraisal_failed host msg x session)
  unfolding on_appraisal_failed
  on_appraisal_failed-Advances msg x session h =
      cancel_for-Advances host "AppraisalFailed" _ _ _ _ x session (at h Flow.no_appraisal)
