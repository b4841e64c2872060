-- ===== src/Sagas/Loan/Handlers.antt =====
-- packages/examples-shared/src/sagas/LoanApplicationSaga.ts: the handlers, by the part of the
-- application that they are about.
pub mod Screening
pub mod Employment
pub mod Documents
pub mod Decisions
