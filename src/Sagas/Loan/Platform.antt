-- ===== src/Sagas/Loan/Platform.antt =====
-- What packages/examples-shared/src/sagas/LoanApplicationSaga.ts takes from JavaScript: arithmetic on
-- numbers of a type N, and the local calendar. Its functions getRequiredDocuments,
-- calculateMonthlyPayment and calculateFirstPaymentDate.
use Prim.Native.Char.{code}
use saga_bus.Context.{Session}
use saga_bus.Errors.{Error}
use saga_bus.Interfaces.{Platform}
use saga_bus.Sagas.Loan.Types.{
  EmploymentStatus, LoanType, auto, business, employed, mortgage, self_employed,
}
use saga_bus.Prelude.{ℕ, ◌+◌, String, Bool, List, [], ◌∷◌, ◌++◌, nat_eq, if◌then◌else◌}
use saga_bus.Prelude.Exec.{Exec, ok}

-- The operators of JavaScript on numbers, Math.pow, Math.round, and the text of a number
pub record Numbers (N : Type 0) : Type 0 where
  pub literal : ℕ → N
  pub plus : N → N → N
  pub minus : N → N → N
  pub times : N → N → N
  pub over : N → N → N
  pub pow : N → N → N
  pub round : N → N
  pub is_below : N → N → Bool
  pub text : N → String

-- The methods of Date on a time in milliseconds: getMonth, setMonth and setDate, in local time
pub record Calendar : Type 0 where
  pub get_month : ℕ → ℕ
  pub set_month : ℕ → ℕ → ℕ
  pub set_date : ℕ → ℕ → ℕ

unfoldable pub income_documents : EmploymentStatus → List String
income_documents self_employed =
    "tax_returns_2_years" ∷ "bank_statements_6_months" ∷ "profit_loss_statement" ∷ []
income_documents employed = "w2_forms" ∷ "pay_stubs_2_months" ∷ []
income_documents _ = "social_security_statement" ∷ "pension_statement" ∷ []

unfoldable pub loan_type_documents : LoanType → List String
loan_type_documents mortgage = "purchase_agreement" ∷ "homeowners_insurance" ∷ []
loan_type_documents auto = "vehicle_info" ∷ "purchase_agreement" ∷ []
loan_type_documents business =
    "business_license" ∷ "business_tax_returns" ∷ "business_bank_statements" ∷ []
loan_type_documents _ = []

unfoldable pub get_required_documents : LoanType → EmploymentStatus → List String
unfolding income_documents loan_type_documents
get_required_documents loan_type employment_status =
    ("government_id" ∷ "proof_of_address" ∷ [])
    ++ income_documents employment_status
    ++ loan_type_documents loan_type

unfoldable pub calculate_monthly_payment : {N : Type 0} → Numbers N → N → N → N → N
calculate_monthly_payment num principal annual_rate term_months =
    let monthly_rate = over (over annual_rate (literal 100)) (literal 12) in
    let grown = pow (plus (literal 1) monthly_rate) term_months in
    let payment = over (times (times principal monthly_rate) grown) (minus grown (literal 1)) in
    over (round (times payment (literal 100))) (literal 100)
  where
    open num use {over, literal, pow, plus, times, minus, round}

-- text.split("T")[0]
unfoldable pub before_t : String → String
before_t String.[] = String.[]
before_t (String.◌∷◌ c s) =
    let rest = before_t s in if nat_eq (code c) 84 then String.[] else String.◌∷◌ c rest

module _ {B V T : Type 0} (platform : Platform) where
  -- Date.now(), in a handler
  unfoldable pub read_clock : Exec Error (Session B V T) ℕ
  read_clock (ctx, env) =
      (ok (platform.times env.reads), (ctx, record env { reads = env.reads + 1 }))

  -- new Date().toISOString()
  unfoldable pub iso_now : Exec Error (Session B V T) String
  iso_now (ctx, env) = (
    ok (platform.dates.to_iso (platform.times env.reads)),
    (ctx, record env { reads = env.reads + 1 }),
  )

  unfoldable pub calculate_first_payment_date : Calendar → Exec Error (Session B V T) String
  unfolding before_t
  calculate_first_payment_date calendar (ctx, env) =
      let date = platform.times env.reads in
      let later = calendar.set_month date (calendar.get_month date + 2) in
      (
        ok (before_t (platform.dates.to_iso (calendar.set_date later 1))),
        (ctx, record env { reads = env.reads + 1 }),
      )
