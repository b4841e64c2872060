-- ===== src/Prelude/Exec.antt =====
use mathlib.Core.Logic.{◌⊎◌, inl, inr}
use mathlib.Core.Path.{◌≡◌, refl, ap, subst, sym}

-- Code that changes state and may throw. What was written before a throw stays written, so the
-- state comes back beside the error too. `Result` is over any type of errors.

pub data Result {ℓ} (E A : Type ℓ) : Type ℓ where
  ok : A → Result E A
  err : E → Result E A

-- A pending promise over the state `S`, and its outcome.
abbrev pub Exec {ℓ} : Type ℓ → Type ℓ → Type ℓ → Type ℓ
Exec E S A = S → Result E A × S

module _ {ℓ} {E S A : Type ℓ} where
  abbrev pub pure : A → Exec E S A
  pure a s = (ok a, s)

  abbrev pub throw : E → Exec E S A
  throw e s = (err e, s)

module _ {ℓ} {E S A B : Type ℓ} where
  abbrev pub resume : Result E A × S → (A → Exec E S B) → Result E B × S
  resume (ok a, s) f = f a s
  resume (err e, s) f = (err e, s)

  infixl 5 ◌>>=◌ ◌>>◌
  -- `await`
  abbrev pub ◌>>=◌ : Exec E S A → (A → Exec E S B) → Exec E S B
  ◌>>=◌ m f s = resume (m s) f

  abbrev pub ◌>>◌ : Exec E S A → Exec E S B → Exec E S B
  ◌>>◌ m n s = resume (m s) (λ _. n)

pub Result-cases {ℓ} :
    {E A : Type ℓ} (r : Result E A) → ((e : E) × (r ≡ err e)) ⊎ ((a : A) × (r ≡ ok a))
Result-cases (ok a) = inr (a, refl)
Result-cases (err e) = inl (e, refl)

-- The two ways in which a step that follows another can go.
module _ {ℓ} {E S A B : Type ℓ} where
  pub resume-cases :
      (x : Result E A × S) (f : A → Exec E S B)
      → ((e : E) × (x.0 ≡ err e) × (resume x f ≡ (err e, x.1)))
        ⊎ ((a : A) × (x.0 ≡ ok a) × (resume x f ≡ f a x.1))
  resume-cases (ok a, s) f = inr (a, refl, refl)
  resume-cases (err e, s) f = inl (e, refl, refl)

  pub resume-err :
      (x : Result E A × S) (f : A → Exec E S B) {e : E} → x.0 ≡ err e → resume x f ≡ (err e, x.1)
  resume-err (r, s) f h = ap (λ y. resume (y, s) f) h

  pub resume-ok :
      (x : Result E A × S) (f : A → Exec E S B) {a : A} → x.0 ≡ ok a → resume x f ≡ f a x.1
  resume-ok (r, s) f h = ap (λ y. resume (y, s) f) h

-- A part A of a larger state W: what is put there is what is found.
pub record Slot {ℓ} (W A : Type ℓ) : Type ℓ where
  pub look : W → A
  pub put : A → W → W
  pub look-put : (a : A) (w : W) → look (put a w) ≡ a

-- Code on the part, in the larger state
abbrev pub on_slot {ℓ} : {E W A R : Type ℓ} → Slot W A → Exec E A R → Exec E W R
on_slot slot m w = let (r, a) = m (slot.look w) in (r, slot.put a w)

-- If the code returns, then with a result that has the property P.
abbrev pub Ensures {ℓ} : {E S A : Type ℓ} → (A → Type ℓ) → Result E A × S → Type ℓ
Ensures P (ok a, s) = P a
Ensures P (err e, s) = Unit

pub Ensures-ok {ℓ} :
    {E S A : Type ℓ} (P : A → Type ℓ) (x : Result E A × S) {a : A} → Ensures P x → x.0 ≡ ok a → P a
Ensures-ok P (ok b, s) p h = subst P (cc h) p
Ensures-ok P (err e, s) p h = absurd (cc h)

pub Ensures-resume {ℓ} :
    {E S A B : Type ℓ} (P : A → Type ℓ) (Q : B → Type ℓ) (x : Result E A × S) (f : A → Exec E S B)
    → Ensures P x
    → ((a : A) (s : S) → P a → Ensures Q (f a s))
    → Ensures Q (resume x f)
Ensures-resume P Q (ok a, s) f p q = q a s p
Ensures-resume P Q (err e, s) f p q = tt

-- A first step of which nothing is known
pub Ensures-after {ℓ} :
    {E S A B : Type ℓ} (Q : B → Type ℓ) (x : Result E A × S) (f : A → Exec E S B)
    → ((a : A) (s : S) → Ensures Q (f a s))
    → Ensures Q (resume x f)
Ensures-after Q (ok a, s) f q = q a s
Ensures-after Q (err e, s) f q = tt

pub Ensures-weaken {ℓ} :
    {E S A : Type ℓ} (P Q : A → Type ℓ) (x : Result E A × S)
    → ((a : A) → P a → Q a)
    → Ensures P x
    → Ensures Q x
Ensures-weaken P Q (ok a, s) f p = f a p
Ensures-weaken P Q (err e, s) f p = tt

-- The code returns.
abbrev pub Returns {ℓ} : {E S A : Type ℓ} → Result E A × S → Type 0
Returns (ok a, s) = Unit
Returns (err e, s) = ⊥

pub Returns-ok {ℓ} : {E S A : Type ℓ} (x : Result E A × S) → Returns x → (a : A) × (x.0 ≡ ok a)
Returns-ok (ok a, s) h = (a, refl)
Returns-ok (err e, s) h = absurd h

pub Returns-resume {ℓ} :
    {E S A B : Type ℓ} (x : Result E A × S) (f : A → Exec E S B)
    → Returns x
    → ((a : A) → Returns (f a x.1))
    → Returns (resume x f)
Returns-resume (ok a, s) f h k = k a
Returns-resume (err e, s) f h k = absurd h

pub Returns-of {ℓ} : {E S A : Type ℓ} (x : Result E A × S) {a : A} → x.0 ≡ ok a → Returns x
Returns-of (ok b, s) h = tt
Returns-of (err e, s) h = absurd (cc h)

-- If the code returns, then with a result and a state that are so related.
abbrev pub Yields {ℓ} : {E S A : Type ℓ} → (A → S → Type ℓ) → Result E A × S → Type ℓ
Yields P (ok a, s) = P a s
Yields P (err e, s) = Unit

pub Yields-resume {ℓ} :
    {E S A B : Type ℓ} (P : A → S → Type ℓ) (Q : B → S → Type ℓ) (x : Result E A × S)
    (f : A → Exec E S B)
    → Yields P x
    → ((a : A) (s : S) → P a s → Yields Q (f a s))
    → Yields Q (resume x f)
Yields-resume P Q (ok a, s) f p q = q a s p
Yields-resume P Q (err e, s) f p q = tt

pub Yields-ok {ℓ} :
    {E S A : Type ℓ} (P : A → S → Type ℓ) (x : Result E A × S) {a : A}
    → Yields P x
    → x.0 ≡ ok a
    → P a x.1
Yields-ok P (ok b, s) p h = subst (λ c. P c s) (cc h) p
Yields-ok P (err e, s) p h = absurd (cc h)

module _ {ℓ} {E S A : Type ℓ} where
  pub Yields-any : (x : Result E A × S) → Yields (λ a s. Unit) x
  Yields-any (ok a, s) = tt
  Yields-any (err e, s) = tt

  pub Yields-both :
      (P Q : A → S → Type ℓ) (x : Result E A × S)
      → Yields P x
      → Yields Q x
      → Yields (λ a s. P a s × Q a s) x
  Yields-both P Q (ok a, s) p q = (p, q)
  Yields-both P Q (err e, s) p q = tt

-- The code leaves the state as it was.
abbrev pub Stays {ℓ} : {E S A : Type ℓ} → S → Result E A × S → Type ℓ
Stays s (ok a, t) = t ≡ s
Stays s (err e, t) = t ≡ s

-- A first step that leaves the state, and keeps its result
pub Yields-pure_step {ℓ} :
    {E S A B : Type ℓ} (Q : B → S → Type ℓ) (x : Result E A × S) (s : S) (f : A → Exec E S B)
    → Stays s x
    → ((a : A) → x.0 ≡ ok a → Yields Q (f a s))
    → Yields Q (resume x f)
Yields-pure_step Q (ok a, t) s f same q = subst (λ u. Yields Q (f a u)) (sym same) (q a refl)
Yields-pure_step Q (err e, t) s f same q = tt

pub Stays-resume {ℓ} :
    {E S A B : Type ℓ} (x : Result E A × S) (s : S) (f : A → Exec E S B)
    → Stays s x
    → ((a : A) → Stays s (f a s))
    → Stays s (resume x f)
Stays-resume (ok a, t) s f same q = subst (λ u. Stays s (f a u)) (sym same) (q a)
Stays-resume (err e, t) s f same q = same

pub Yields-weaken {ℓ} :
    {E S A : Type ℓ} (P Q : A → S → Type ℓ) (x : Result E A × S)
    → ((a : A) (s : S) → P a s → Q a s)
    → Yields P x
    → Yields Q x
Yields-weaken P Q (ok a, s) f p = f a s p
Yields-weaken P Q (err e, s) f p = tt

pub Yields-known {ℓ} : {E S A : Type ℓ} (x : Result E A × S) → Yields (λ a s. x.0 ≡ ok a) x
Yields-known (ok a, s) = refl
Yields-known (err e, s) = tt
