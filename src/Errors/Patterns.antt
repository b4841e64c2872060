-- ===== src/Errors/Patterns.antt =====
-- The transient error patterns of packages/core/src/runtime/DefaultErrorHandler.ts: literal texts
-- and `a.*b`, both with the flag `i`. A text is read as its code points with ASCII letters in lower
-- case, since the patterns are ASCII; `.` does not match a line terminator.
pub mod Matching
use Prim.Native.Char.{code}
use saga_bus.Prelude.{
  ℕ, ◌+◌, String, Bool, false, not, ◌&&◌, ◌||◌, Option, none, some, List, [], ◌∷◌, leb, nat_eq,
  if◌then◌else◌, is_some,
}

pub data Pattern : Type 0 where
  -- /a/i
  literal : String → Pattern
  -- /a.*b/i
  spread : String → String → Pattern

abbrev pub lower : ℕ → ℕ
lower c = if leb 65 c && leb c 90 then c + 32 else c

unfoldable pub folded : String → List ℕ
folded String.[] = []
folded (String.◌∷◌ c s) = lower (code c) ∷ folded s

abbrev pub ends_line : ℕ → Bool
ends_line c = nat_eq c 10 || nat_eq c 13 || nat_eq c 8232 || nat_eq c 8233

-- What is left behind a prefix.
unfoldable pub strip : List ℕ → List ℕ → Option (List ℕ)
strip [] s = some s
strip (p ∷ ps) [] = none
strip (p ∷ ps) (c ∷ s) = if nat_eq p c then strip ps s else none

-- `b` begins at this place or further on in the same line.
unfoldable pub later_in_line : List ℕ → List ℕ → Bool
unfolding strip
later_in_line b [] = is_some (strip b [])
later_in_line b (c ∷ s) = is_some (strip b (c ∷ s)) || (not (ends_line c) && later_in_line b s)

unfoldable pub matches_here : List ℕ → List ℕ → List ℕ → Bool
unfolding strip later_in_line
matches_here a b s = elim (strip a s) [ none ↦ false | some rest ↦ later_in_line b rest ]

unfoldable pub contains : List ℕ → List ℕ → Bool
unfolding strip
contains a [] = is_some (strip a [])
contains a (c ∷ s) = is_some (strip a (c ∷ s)) || contains a s

unfoldable pub contains_spread : List ℕ → List ℕ → List ℕ → Bool
unfolding matches_here
contains_spread a b [] = matches_here a b []
contains_spread a b (c ∷ s) = matches_here a b (c ∷ s) || contains_spread a b s

-- pattern.test(message)
unfoldable pub test : Pattern → String → Bool
unfolding contains contains_spread folded
test (literal a) s = contains (folded a) (folded s)
test (spread a b) s = contains_spread (folded a) (folded b) (folded s)
