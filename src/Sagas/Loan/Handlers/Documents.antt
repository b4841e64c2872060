-- ===== src/Sagas/Loan/Handlers/Documents.antt =====
-- packages/examples-shared/src/sagas/LoanApplicationSaga.ts: documents and the appraisal.
use saga_bus.Sagas.Loan.Application.{CreditCheck, DocumentRecord}
use saga_bus.Sagas.Loan.Handlers.Screening.{cancel_for}
use saga_bus.Sagas.Loan.Messages.{
  appraisal_requested, document_verification_failed, documents_requested, underwriting_requested,
}
use saga_bus.Sagas.Loan.Messages.Checks.{
  DocumentVerificationFailed, DocumentsReceived, DocumentsVerified, UploadedDocument,
  VerificationResult,
}
use saga_bus.Sagas.Loan.Messages.Offers.{AppraisalCompleted, AppraisalFailed}
use saga_bus.Sagas.Loan.Status.{Status}
use saga_bus.Sagas.Loan.Steps.{Handled, Host, Loaned, going, publish_loan}
use saga_bus.Sagas.Loan.Types.{LoanType, PropertyInfo, mortgage, pending, rejected}
use saga_bus.Prelude.{
  String, Bool, true, false, Option, none, some, List, [], ◌∷◌, ◌++◌, map, if◌then◌else◌, ◌==◌,
  first, keep,
}
use saga_bus.Prelude.Exec.{◌>>◌}
use saga_bus.Prelude.Texts.{◌<>◌}

-- texts.join(", ")
unfoldable pub join : List String → String
unfolding ◌<>◌
join [] = ""
join (t ∷ []) = t
join (t ∷ ts) = t <> ", " <> join ts

unfoldable pub received : UploadedDocument → DocumentRecord
received doc = record {
  document_type = doc.document_type;
  document_id = doc.document_id;
  uploaded_at = doc.uploaded_at;
  status = pending;
  notes = none;
}

-- r.status === "rejected"
abbrev pub is_rejected : VerificationResult → Bool
is_rejected r = elim r.status [ rejected ↦ true | _ ↦ false ]

abbrev pub is_mortgage : LoanType → Bool
is_mortgage mortgage = true
is_mortgage _ = false

-- The first result for a document decides its status.
unfoldable pub reviewed : List VerificationResult → DocumentRecord → DocumentRecord
reviewed results doc = elim (first (λ r. r.document_type == doc.document_type) results) [
  | none ↦ doc
  | some result ↦ record doc { status = result.status; notes = result.notes }
]

-- state.creditCheck?.creditScore ?? 0
unfoldable pub score_of : {N : Type 0} → N → Option (CreditCheck N) → N
score_of zero none = zero
score_of zero (some c) = c.credit_score

-- state.creditCheck?.debtToIncomeRatio ?? 0
unfoldable pub ratio_of : {N : Type 0} → N → Option (CreditCheck N) → N
ratio_of zero none = zero
ratio_of zero (some c) = c.debt_to_income_ratio

module _ {N V T : Type 0} (host : Host N T) where
  unfoldable pub on_documents_received : DocumentsReceived → Loaned N → Handled N V T
  on_documents_received msg state =
      going host state
        (record (state.fields) { documents = state.fields.documents ++ map received msg.documents })
        Status.documents_received ((Status.documents_received, none) ∷ [])

  unfoldable pub reject_documents :
      String → List String → List DocumentRecord → Loaned N → Handled N V T
  reject_documents application_id rejected_types updated state = do
    publish_loan host (
        document_verification_failed (record {
          application_id = application_id;
          reason = "Some documents were rejected";
          failed_documents = rejected_types;
        }))
    going host state (record (state.fields) { documents = updated })
        Status.documents_verification_failed
        ((Status.documents_verification_failed, some ("Rejected: " <> join rejected_types)) ∷ [])

  unfoldable pub ask_appraisal :
      String → PropertyInfo N → List DocumentRecord → Loaned N → Handled N V T
  ask_appraisal application_id property_info updated state = do
    publish_loan host (
        appraisal_requested (record {
          application_id = application_id;
          property_address = property_info.address;
          estimated_value = property_info.estimated_value;
        }))
    going host state (record (state.fields) { documents = updated }) Status.appraisal_pending
        ((Status.documents_verified, none) ∷ (Status.appraisal_pending, none) ∷ [])

  unfoldable pub ask_underwriter : String → List DocumentRecord → Loaned N → Handled N V T
  ask_underwriter application_id updated state = do
    publish_loan host (
        underwriting_requested (record {
          application_id = application_id;
          credit_score = score_of (host.numbers.literal 0) state.fields.credit_check;
          debt_to_income_ratio = ratio_of (host.numbers.literal 0) state.fields.credit_check;
          requested_amount = state.fields.requested_amount;
          loan_to_value_ratio = none;
        }))
    going host state (record (state.fields) { documents = updated }) Status.underwriting_pending
        ((Status.documents_verified, none) ∷ (Status.underwriting_pending, none) ∷ [])

  -- `state.loanType === "mortgage" && state.propertyInfo`
  unfoldable pub proceed :
      String → Option (PropertyInfo N) → List DocumentRecord → Loaned N → Handled N V T
  proceed application_id none updated state = ask_underwriter application_id updated state
  proceed application_id (some property_info) updated state =
      if is_mortgage state.fields.loan_type
      then ask_appraisal application_id property_info updated state
      else ask_underwriter application_id updated state

  -- Whether any result was a rejection
  unfoldable pub accept_or_reject :
      String → List VerificationResult → List DocumentRecord → Loaned N → Handled N V T
  accept_or_reject application_id [] updated state =
      proceed application_id state.fields.property_info updated state
  accept_or_reject application_id (r ∷ rs) updated state =
      reject_documents application_id (map (λ d. d.document_type) (r ∷ rs)) updated state

  unfoldable pub on_documents_verified : DocumentsVerified → Loaned N → Handled N V T
  on_documents_verified msg state =
      accept_or_reject msg.application_id (keep is_rejected msg.verification_results)
        (map (reviewed msg.verification_results) state.fields.documents) state

  unfoldable pub on_document_verification_failed :
      DocumentVerificationFailed → Loaned N → Handled N V T
  on_document_verification_failed msg state = do
    publish_loan host (
        documents_requested (record {
          application_id = msg.application_id;
          required_documents = msg.failed_documents;
        }))
    going host state (record (state.fields) { required_documents = msg.failed_documents })
        Status.documents_requested
        ((Status.documents_requested, some ("Re-upload required: " <> join msg.failed_documents))
          ∷ [])

  unfoldable pub on_appraisal_completed : AppraisalCompleted N → Loaned N → Handled N V T
  on_appraisal_completed msg state = do
    publish_loan host (
        underwriting_requested (record {
          application_id = msg.application_id;
          credit_score = score_of (host.numbers.literal 0) state.fields.credit_check;
          debt_to_income_ratio = ratio_of (host.numbers.literal 0) state.fields.credit_check;
          requested_amount = state.fields.requested_amount;
          loan_to_value_ratio = some msg.loan_to_value_ratio;
        }))
    going host state
        (record (state.fields) {
          appraisal = some (record {
            appraisal_id = msg.appraisal_id;
            appraised_value = msg.appraised_value;
            appraisal_date = msg.appraisal_date;
            appraiser_name = msg.appraiser_name;
            loan_to_value_ratio = msg.loan_to_value_ratio;
          });
        })
        Status.underwriting_pending
        ((Status.appraisal_completed, none) ∷ (Status.underwriting_pending, none) ∷ [])

  unfoldable pub on_appraisal_failed : AppraisalFailed → Loaned N → Handled N V T
  on_appraisal_failed msg state =
      cancel_for host msg.application_id ("Appraisal failed: " <> msg.reason)
        Status.appraisal_failed msg.reason state
