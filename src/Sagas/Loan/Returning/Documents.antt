-- ===== src/Sagas/Loan/Returning/Documents.antt =====
-- The handlers of packages/examples-shared/src/sagas/LoanApplicationSaga.ts for the documents return.
use saga_bus.Sagas.Loan.Returning.{IsQuiet, publish-Returns, going-Returns}
use saga_bus.Sagas.Loan.Returning.Screening.{cancel_for-Returns}
use saga_bus.Context.{Context}
use saga_bus.Interfaces.{Env}
use saga_bus.Prelude.Exec.{Returns, Returns-resume}
use saga_bus.Sagas.Loan.Handlers.Documents.{
  is_mortgage, is_rejected, reviewed, reject_documents, ask_appraisal, ask_underwriter, proceed,
  accept_or_reject, on_documents_received, on_documents_verified, on_document_verification_failed,
  on_appraisal_completed, on_appraisal_failed,
}
use saga_bus.Sagas.Loan.Messages.{LoanMessage}
use saga_bus.Sagas.Loan.Messages.Checks.{
  DocumentsReceived, DocumentsVerified, DocumentVerificationFailed, VerificationResult,
}
use saga_bus.Sagas.Loan.Messages.Offers.{AppraisalCompleted, AppraisalFailed}
use saga_bus.Sagas.Loan.Steps.{Host, Loaned, publish_loan}
use saga_bus.Sagas.Loan.Types.{PropertyInfo}
use saga_bus.Sagas.Loan.Application.{DocumentRecord}
use saga_bus.Prelude.{String, Bool-cases, inl, inr, Option, none, some, List, [], ◌∷◌, keep, map}

module _ {N V T : Type 0} (host : Host N T) (ctx : Context (LoanMessage N) V) (env : Env T)
    (quiet : IsQuiet host ctx) where
  pub on_documents_received-Returns :
      (msg : DocumentsReceived) (x : Loaned N)
      → Returns (on_documents_received host msg x (ctx, env))
  unfolding on_documents_received
  on_documents_received-Returns msg x = going-Returns host x _ _ _ _

  pub reject_documents-Returns :
      (id : String) (types : List String) (updated : List DocumentRecord) (x : Loaned N)
      → Returns (reject_documents host id types updated x (ctx, env))
  unfolding reject_documents
  reject_documents-Returns id types updated x =
      Returns-resume (publish_loan host _ (ctx, _)) _ (publish-Returns host ctx env quiet _ _)
        (λ u. going-Returns host x _ _ _ _)

  pub ask_appraisal-Returns :
      (id : String) (info : PropertyInfo N) (updated : List DocumentRecord) (x : Loaned N)
      → Returns (ask_appraisal host id info updated x (ctx, env))
  unfolding ask_appraisal
  ask_appraisal-Returns id info updated x =
      Returns-resume (publish_loan host _ (ctx, _)) _ (publish-Returns host ctx env quiet _ _)
        (λ u. going-Returns host x _ _ _ _)

  pub ask_underwriter-Returns :
      (id : String) (updated : List DocumentRecord) (x : Loaned N)
      → Returns (ask_underwriter host id updated x (ctx, env))
  unfolding ask_underwriter
  ask_underwriter-Returns id updated x =
      Returns-resume (publish_loan host _ (ctx, _)) _ (publish-Returns host ctx env quiet _ _)
        (λ u. going-Returns host x _ _ _ _)

  pub proceed-Returns :
      (id : String) (info : Option (PropertyInfo N)) (updated : List DocumentRecord) (x : Loaned N)
      → Returns (proceed host id info updated x (ctx, env))
  unfolding proceed
  proceed-Returns id none updated x = ask_underwriter-Returns id updated x
  proceed-Returns id (some info) updated x = elim (Bool-cases (is_mortgage x.fields.loan_type)) [
    | inl mortgaged ↦ rw mortgaged (ask_appraisal-Returns id info updated x)
    | inr free ↦ rw free (ask_underwriter-Returns id updated x)
  ]

  pub accept_or_reject-Returns :
      (id : String) (results : List VerificationResult) (updated : List DocumentRecord)
      (x : Loaned N)
      → Returns (accept_or_reject host id results updated x (ctx, env))
  unfolding accept_or_reject
  accept_or_reject-Returns id [] updated x = proceed-Returns id x.fields.property_info updated x
  accept_or_reject-Returns id (r ∷ rs) updated x = reject_documents-Returns id _ updated x

  pub on_documents_verified-Returns :
      (msg : DocumentsVerified) (x : Loaned N)
      → Returns (on_documents_verified host msg x (ctx, env))
  unfolding on_documents_verified
  on_documents_verified-Returns msg x =
      accept_or_reject-Returns msg.application_id (keep is_rejected msg.verification_results)
        (map (reviewed msg.verification_results) x.fields.documents) x

  pub on_document_verification_failed-Returns :
      (msg : DocumentVerificationFailed) (x : Loaned N)
      → Returns (on_document_verification_failed host msg x (ctx, env))
  unfolding on_document_verification_failed
  on_document_verification_failed-Returns msg x =
      Returns-resume (publish_loan host _ (ctx, _)) _ (publish-Returns host ctx env quiet _ _)
        (λ u. going-Returns host x _ _ _ _)

  pub on_appraisal_completed-Returns :
      (msg : AppraisalCompleted N) (x : Loaned N)
      → Returns (on_appraisal_completed host msg x (ctx, env))
  unfolding on_appraisal_completed
  on_appraisal_completed-Returns msg x =
      Returns-resume (publish_loan host _ (ctx, _)) _ (publish-Returns host ctx env quiet _ _)
        (λ u. going-Returns host x _ _ _ _)

  pub on_appraisal_failed-Returns :
      (msg : AppraisalFailed) (x : Loaned N) → Returns (on_appraisal_failed host msg x (ctx, env))
  unfolding on_appraisal_failed
  on_appraisal_failed-Returns msg x = cancel_for-Returns host ctx env quiet _ _ _ _ x
