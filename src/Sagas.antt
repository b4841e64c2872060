-- ===== src/Sagas.antt =====
-- packages/examples-shared/src/sagas/: the sagas that the examples of the repository share, built with
-- the builder of packages/core/src/dsl/.
pub mod Loan
pub mod Order
