-- ===== src/Sagas/Loan.antt =====
-- packages/examples-shared/src/sagas/LoanApplicationSaga.ts: the saga of a loan application.
pub mod Types
pub mod Status
pub mod Messages
pub mod Application
pub mod Platform
pub mod Steps
pub mod Handlers
pub mod Kinds
pub mod Start
pub mod Machine
pub mod Turn
pub mod Flow
pub mod Progress
pub mod Soundness
pub mod Reachable
pub mod Ended
pub mod Returning
pub mod Answers
pub mod Reaching
pub mod Stages
pub mod Completion
pub mod Expiry
