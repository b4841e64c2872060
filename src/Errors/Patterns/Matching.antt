-- ===== src/Errors/Patterns/Matching.antt =====
-- What a pattern of DefaultErrorHandler.ts matches, said by splitting the text.
use saga_bus.Errors.Patterns.{
  Pattern, literal, spread, folded, ends_line, strip, later_in_line, matches_here, contains,
  contains_spread, test,
}
use saga_bus.Prelude.{
  ℕ, String, ◌≡◌, refl, ap, ◌∙◌, ◌↔◌, inl, inr, true, false, some, List, [], ◌∷◌, ◌++◌, arith,
  is_some, Bool-cases, Option-cases, All,
}

-- No line terminator.
abbrev pub OneLine : List ℕ → Type 0
OneLine mid = All (λ c. ends_line c ≡ false) mid

-- The text holds the literal, or both parts in this order on one line, whatever the case.
abbrev pub Matches : Pattern → String → Type 0
Matches (literal a) s = (pre : List ℕ) × (post : List ℕ) × (folded s ≡ pre ++ (folded a ++ post))
Matches (spread a b) s =
    (pre : List ℕ) × (mid : List ℕ) × (post : List ℕ) × (folded s
      ≡ pre ++ (folded a ++ (mid ++ (folded b ++ post))))
    × OneLine mid

strip-append : (p r : List ℕ) → strip p (p ++ r) ≡ some r
unfolding strip
strip-append [] r = refl
strip-append (c ∷ p) r = ground (arith, strip-append p r)

strip-some : (p s : List ℕ) {r : List ℕ} → strip p s ≡ some r → s ≡ p ++ r
unfolding strip
strip-some [] s h = ground arith
strip-some (c ∷ p) [] h = cc
strip-some (c ∷ p) (d ∷ s) {r} h = ground (arith, strip-some p s {r = r})

is_some-strip : (p s : List ℕ) → is_some (strip p s) ≡ true → (r : List ℕ) × (s ≡ p ++ r)
is_some-strip p s h = elim (Option-cases (strip p s)) [
  | inl e ↦ absurd (ground (arith, e))
  | inr (r, e) ↦ (r, strip-some p s e)
]

contains-split :
    (a s : List ℕ)
    → contains a s ≡ true
    → (pre : List ℕ) × (post : List ℕ) × (s ≡ pre ++ (a ++ post))
unfolding contains
contains-split a [] h = let (r, e) = is_some-strip a [] h in ([], r, e)
contains-split a (c ∷ s) h = elim (Bool-cases (is_some (strip a (c ∷ s)))) [
  | inl here ↦ let (r, e) = is_some-strip a (c ∷ s) here in ([], r, e)
  | inr later ↦
      let (pre, post, e) = contains-split a s (ground (arith, later)) in
      (c ∷ pre, post, ap (λ l. c ∷ l) e)
]

is_some-strip-append : (p r : List ℕ) → is_some (strip p (p ++ r)) ≡ true
is_some-strip-append p r = rw strip-append

contains-append : (a pre post : List ℕ) → contains a (pre ++ (a ++ post)) ≡ true
unfolding contains
contains-append a [] post = contains_front (a ++ post) (is_some-strip-append a post)
  where
    contains_front : (s : List ℕ) → is_some (strip a s) ≡ true → contains a s ≡ true
    contains_front [] h = h
    contains_front (c ∷ s) h = rw h
contains-append a (c ∷ pre) post = ground (arith, contains-append a pre post)

later-split :
    (b s : List ℕ)
    → later_in_line b s ≡ true
    → (mid : List ℕ) × (post : List ℕ) × (s ≡ mid ++ (b ++ post)) × OneLine mid
unfolding later_in_line
later-split b [] h = let (r, e) = is_some-strip b [] h in ([], r, e, tt)
later-split b (c ∷ s) h = elim (Bool-cases (is_some (strip b (c ∷ s)))) [
  | inl here ↦ let (r, e) = is_some-strip b (c ∷ s) here in ([], r, e, tt)
  | inr later ↦
      let (mid, post, e, line) = later-split b s (ground (arith, later)) in
      (c ∷ mid, post, ap (λ l. c ∷ l) e, (ground (arith, later), line))
]

later_front : (b s : List ℕ) → is_some (strip b s) ≡ true → later_in_line b s ≡ true
unfolding later_in_line
later_front b [] h = h
later_front b (c ∷ s) h = rw h

later-append : (b mid post : List ℕ) → OneLine mid → later_in_line b (mid ++ (b ++ post)) ≡ true
unfolding later_in_line
later-append b [] post line = later_front b (b ++ post) (is_some-strip-append b post)
later-append b (c ∷ mid) post line = ground (arith, later-append b mid post line.1)

abbrev Spread : List ℕ → List ℕ → List ℕ → Type 0
Spread a b s =
    (pre : List ℕ) × (mid : List ℕ) × (post : List ℕ) × (s ≡ pre ++ (a ++ (mid ++ (b ++ post))))
    × OneLine mid

here-split : (a b s : List ℕ) → matches_here a b s ≡ true → Spread a b s
unfolding matches_here
here-split a b s h = elim (Option-cases (strip a s)) [
  | inl e ↦ absurd (ground (arith, e))
  | inr (rest, e) ↦
      let (mid, post, f, line) = later-split b rest (ground (arith, e)) in
      ([], mid, post, strip-some a s e ∙ ap (λ l. a ++ l) f, line)
]

Spread-split : (a b s : List ℕ) → contains_spread a b s ≡ true → Spread a b s
unfolding contains_spread
Spread-split a b [] h = here-split a b [] h
Spread-split a b (c ∷ s) h = elim (Bool-cases (matches_here a b (c ∷ s))) [
  | inl here ↦ here-split a b (c ∷ s) here
  | inr later ↦
      let (pre, mid, post, e, line) = Spread-split a b s (ground (arith, later)) in
      (c ∷ pre, mid, post, ap (λ l. c ∷ l) e, line)
]

here-append :
    (a b mid post : List ℕ) → OneLine mid → matches_here a b (a ++ (mid ++ (b ++ post))) ≡ true
unfolding matches_here
here-append a b mid post line =
    rw (strip-append a (mid ++ (b ++ post)), matches_here) (later-append b mid post line)

spread_front : (a b s : List ℕ) → matches_here a b s ≡ true → contains_spread a b s ≡ true
unfolding contains_spread
spread_front a b [] h = h
spread_front a b (c ∷ s) h = rw h

spread-append :
    (a b pre mid post : List ℕ)
    → OneLine mid
    → contains_spread a b (pre ++ (a ++ (mid ++ (b ++ post)))) ≡ true
unfolding contains_spread
spread-append a b [] mid post line = spread_front a b _ (here-append a b mid post line)
spread-append a b (c ∷ pre) mid post line = ground (arith, spread-append a b pre mid post line)

-- A pattern tests true on exactly the texts that it matches.
pub test_iff-Matches : (p : Pattern) (s : String) → (test p s ≡ true) ↔ Matches p s
unfolding test
test_iff-Matches (literal a) s = (
  contains-split (folded a) (folded s),
  λ (pre, post, e). rw e (contains-append (folded a) pre post),
)
test_iff-Matches (spread a b) s = (
  Spread-split (folded a) (folded b) (folded s),
  λ (pre, mid, post, e, line). rw e (spread-append (folded a) (folded b) pre mid post line),
)
