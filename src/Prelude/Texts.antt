-- ===== src/Prelude/Texts.antt =====
-- Text: joining strings, and the decimal numbers of `String(n)` and `parseInt(s, 10)`.
use Prim.Native.String.{◌++◌ as str_append, String}
use Prim.Native.Char.{Char, code}
use Prim.Native.Nat.{ℕ, zero, suc, ◌+◌, ◌-◌, ◌*◌, ◌/◌, ◌%◌, ◌<◌}
use mathlib.Core.Bool.{Bool, true, false, ◌&&◌, ◌||◌}
use mathlib.Core.Logic.{◌⊎◌, inl, inr}
use mathlib.Core.Option.{Option, none, some}
use mathlib.Core.Path.{◌≡◌, refl, ap, ◌∙◌}
use native.Mathlib.Omega.{arith}
use saga_bus.Prelude.Int.{ℤ, pos, negsuc, minus}
use saga_bus.Prelude.Tests.{
  ltb, leb, nat_eq, truthy, if◌then◌else◌, ltb→lt, ltb_false→le, Bool-cases,
}

-- Template strings.
infixr 66 ◌<>◌
unfoldable pub ◌<>◌ : String → String → String
s <> t = str_append s t

-- The ten digits, as one-character strings in front of a text.
digit_then : ℕ → String → String
digit_then zero s = String.◌∷◌ "0" s
digit_then (suc zero) s = String.◌∷◌ "1" s
digit_then (suc (suc zero)) s = String.◌∷◌ "2" s
digit_then (suc (suc (suc zero))) s = String.◌∷◌ "3" s
digit_then (suc (suc (suc (suc zero)))) s = String.◌∷◌ "4" s
digit_then (suc (suc (suc (suc (suc zero))))) s = String.◌∷◌ "5" s
digit_then (suc (suc (suc (suc (suc (suc zero)))))) s = String.◌∷◌ "6" s
digit_then (suc (suc (suc (suc (suc (suc (suc zero))))))) s = String.◌∷◌ "7" s
digit_then (suc (suc (suc (suc (suc (suc (suc (suc zero)))))))) s = String.◌∷◌ "8" s
digit_then _ s = String.◌∷◌ "9" s

-- Decimal digits of `n` in front of `s`; the fuel is the number of digits left, and `n` is enough.
digits_then : ℕ → ℕ → String → String
digits_then zero n s = s
digits_then (suc f) n s =
    let more = digits_then f (n / 10) (digit_then (n % 10) s) in
    if ltb n 10 then digit_then n s else more

-- String(n)
unfoldable pub decimal_ℕ : ℕ → String
unfolding digits_then digit_then
decimal_ℕ n = digits_then (suc n) n String.[]

unfoldable pub decimal : ℤ → String
unfolding decimal_ℕ
decimal (pos n) = decimal_ℕ n
decimal (negsuc n) = String.◌∷◌ "-" (decimal_ℕ (suc n))

is_digit : Char → Bool
is_digit c = leb 48 (code c) && leb (code c) 57

-- The whitespace that `parseInt` skips, as far as it is ASCII.
is_space : Char → Bool
is_space c = nat_eq (code c) 32 || (leb 9 (code c) && leb (code c) 13)

-- The number that a run of digits at the front extends `acc` to.
scan : ℕ → String → ℕ
scan acc String.[] = acc
scan acc (String.◌∷◌ c s) =
    let more = scan (acc * 10 + (code c - 48)) s in if is_digit c then more else acc

-- No digit at the front: NaN.
unsigned : String → Option ℕ
unsigned String.[] = none
unsigned (String.◌∷◌ c s) = if is_digit c then some (scan 0 (String.◌∷◌ c s)) else none

signed : String → Option ℤ
signed String.[] = none
signed (String.◌∷◌ c s) =
    if nat_eq (code c) 45
    then (elim (unsigned s) [ none ↦ none | some n ↦ some (minus n) ])
    else if nat_eq (code c) 43
    then (elim (unsigned s) [ none ↦ none | some n ↦ some (pos n) ])
    else (elim (unsigned (String.◌∷◌ c s)) [ none ↦ none | some n ↦ some (pos n) ])

skip_spaces : String → String
skip_spaces String.[] = String.[]
skip_spaces (String.◌∷◌ c s) =
    let rest = skip_spaces s in if is_space c then rest else String.◌∷◌ c s

-- parseInt(s, 10); `none` is NaN.
unfoldable pub parse_int : String → Option ℤ
unfolding signed unsigned scan is_digit is_space skip_spaces
parse_int s = signed (skip_spaces s)

parse_int_tests :
    (parse_int " -12x" ≡ some (negsuc 11))
    × (parse_int "007" ≡ some (pos 7))
    × (parse_int "x" ≡ none)
unfolding parse_int
parse_int_tests = (refl, refl, refl)

decimal_test : decimal (negsuc 1019) ≡ "-1020"
unfolding decimal
decimal_test = refl

-- Reading back: a digit in front multiplies by ten.
scan-digit_then :
    (d acc : ℕ) (s : String) → d < 10 → scan acc (digit_then d s) ≡ scan (acc * 10 + d) s
unfolding scan digit_then is_digit
scan-digit_then zero acc s h = refl
scan-digit_then (suc zero) acc s h = refl
scan-digit_then (suc (suc zero)) acc s h = refl
scan-digit_then (suc (suc (suc zero))) acc s h = refl
scan-digit_then (suc (suc (suc (suc zero)))) acc s h = refl
scan-digit_then (suc (suc (suc (suc (suc zero))))) acc s h = refl
scan-digit_then (suc (suc (suc (suc (suc (suc zero)))))) acc s h = refl
scan-digit_then (suc (suc (suc (suc (suc (suc (suc zero))))))) acc s h = refl
scan-digit_then (suc (suc (suc (suc (suc (suc (suc (suc zero)))))))) acc s h = refl
scan-digit_then (suc (suc (suc (suc (suc (suc (suc (suc (suc zero))))))))) acc s h = refl
scan-digit_then (suc (suc (suc (suc (suc (suc (suc (suc (suc (suc d)))))))))) acc s h =
    absurd (omega arith)

scan-digits_then : (f n : ℕ) (s : String) → n < f → scan 0 (digits_then f n s) ≡ scan n s
unfolding digits_then
scan-digits_then zero n s h = absurd (omega arith)
scan-digits_then (suc f) n s h = elim (Bool-cases (ltb n 10)) [
  | inl small ↦
      rw small (scan-digit_then n 0 s (ltb→lt n 10 small) ∙ ap (λ k. scan k s) (omega arith))
  | inr large ↦ rw large (
      scan-digits_then f (n / 10) (digit_then (n % 10) s) (omega (arith, ltb_false→le n 10 large))
      ∙ scan-digit_then (n % 10) (n / 10) s (omega arith)
      ∙ ap (λ k. scan k s) (omega arith))
]

-- The text begins with a digit.
leads : String → Bool
leads String.[] = false
leads (String.◌∷◌ c s) = is_digit c

leads-digit_then : (d : ℕ) (s : String) → leads (digit_then d s) ≡ true
unfolding leads digit_then is_digit
leads-digit_then zero s = refl
leads-digit_then (suc zero) s = refl
leads-digit_then (suc (suc zero)) s = refl
leads-digit_then (suc (suc (suc zero))) s = refl
leads-digit_then (suc (suc (suc (suc zero)))) s = refl
leads-digit_then (suc (suc (suc (suc (suc zero))))) s = refl
leads-digit_then (suc (suc (suc (suc (suc (suc zero)))))) s = refl
leads-digit_then (suc (suc (suc (suc (suc (suc (suc zero))))))) s = refl
leads-digit_then (suc (suc (suc (suc (suc (suc (suc (suc zero)))))))) s = refl
leads-digit_then _ s = refl

leads-digits_then :
    (f n : ℕ) (s : String) → leads s ≡ true ⊎ n < f → leads (digits_then f n s) ≡ true
unfolding digits_then
leads-digits_then zero n s (inl h) = h
leads-digits_then zero n s (inr h) = absurd (omega arith)
leads-digits_then (suc f) n s h = elim (Bool-cases (ltb n 10)) [
  | inl small ↦ rw small (leads-digit_then n s)
  | inr large ↦
      rw large
        (leads-digits_then f (n / 10) (digit_then (n % 10) s) (inl (leads-digit_then (n % 10) s)))
]

digit_no_space : (c : Char) → is_digit c ≡ true → is_space c ≡ false
unfolding is_digit is_space
digit_no_space c h = ground arith

skip_spaces-leads : (s : String) → leads s ≡ true → skip_spaces s ≡ s
unfolding leads skip_spaces
skip_spaces-leads String.[] h = cc
skip_spaces-leads (String.◌∷◌ c s) h = rw (digit_no_space c h)

unsigned-leads : (s : String) → leads s ≡ true → unsigned s ≡ some (scan 0 s)
unfolding leads unsigned
unsigned-leads String.[] h = cc
unsigned-leads (String.◌∷◌ c s) h = rw h

digit_no_sign :
    (c : Char) → is_digit c ≡ true → (nat_eq (code c) 45 ≡ false) × (nat_eq (code c) 43 ≡ false)
unfolding is_digit
digit_no_sign c h = ground arith

signed-leads : (s : String) → leads s ≡ true → signed s ≡ some (pos (scan 0 s))
unfolding leads signed
signed-leads String.[] h = cc
signed-leads (String.◌∷◌ c s) h =
    rw ((digit_no_sign c h).0, (digit_no_sign c h).1, unsigned-leads (String.◌∷◌ c s) h)

scan-decimal : (n : ℕ) → scan 0 (decimal_ℕ n) ≡ n
unfolding decimal_ℕ scan
scan-decimal n = scan-digits_then (suc n) n String.[] (omega arith)

leads-decimal : (n : ℕ) → leads (decimal_ℕ n) ≡ true
unfolding decimal_ℕ
leads-decimal n = leads-digits_then (suc n) n String.[] (inr (omega arith))

-- `parseInt` reads back what `String` wrote.
pub parse_int-decimal : (z : ℤ) → parse_int (decimal z) ≡ some z
unfolding parse_int decimal
parse_int-decimal (pos n) = rw (
  skip_spaces-leads (decimal_ℕ n) (leads-decimal n),
  signed-leads (decimal_ℕ n) (leads-decimal n),
  scan-decimal n,
)
parse_int-decimal (negsuc n) =
    rw (unsigned-leads (decimal_ℕ (suc n)) (leads-decimal (suc n)), scan-decimal (suc n))

truthy-leads : (s : String) → leads s ≡ true → truthy s ≡ true
unfolding leads
truthy-leads String.[] h = h
truthy-leads (String.◌∷◌ c s) h = refl

-- A printed number is not the empty string.
pub truthy-decimal : (z : ℤ) → truthy (decimal z) ≡ true
unfolding decimal
truthy-decimal (pos n) = truthy-leads (decimal_ℕ n) (leads-decimal n)
truthy-decimal (negsuc n) = refl
