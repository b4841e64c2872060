-- ===== src/Store/Memory/Keys.antt =====
-- The keys of InMemorySagaStore.ts join two names by a colon.
use Prim.Native.Char.{code, Char}
use text.Mathlib.TextLemmas.{append_assoc, cons-append, nil-append}
use text.Mathlib.TextEquality.{Char-path}
use saga_bus.Store.Memory.{get_store_key}
use saga_bus.Prelude.{ℕ, String, ◌≡◌, refl, sym, ap, ◌∙◌, ◌≢◌}
use saga_bus.Prelude.Texts.{◌<>◌}

-- No character of the text is a colon.
abbrev pub NoColon : String → Type 0
NoColon String.[] = Unit {0}
NoColon (String.◌∷◌ c s) = (code c ≢ 58) × NoColon s

rest_of : String → String
rest_of String.[] = String.[]
rest_of (String.◌∷◌ c s) = s

head_code : String → ℕ
head_code String.[] = 0
head_code (String.◌∷◌ c s) = code c

rest-eq : (c d : Char) (s t : String) → Path String (String.◌∷◌ c s) (String.◌∷◌ d t) → s ≡ t
unfolding rest_of
rest-eq c d s t e = ap rest_of e

code-eq :
    (c d : Char) (s t : String) → Path String (String.◌∷◌ c s) (String.◌∷◌ d t) → code c ≡ code d
unfolding head_code
code-eq c d s t e = ap head_code e

key-nil : (i : String) → get_store_key String.[] i ≡ String.◌∷◌ ":" i
unfolding get_store_key
key-nil i = nil-append (":" <> i) ∙ cons-append ":" String.[] i ∙ ap (String.◌∷◌ ":") (nil-append i)

key-cons :
    (c : Char) (n i : String) → get_store_key (String.◌∷◌ c n) i ≡ String.◌∷◌ c (get_store_key n i)
unfolding get_store_key
key-cons c n i = cons-append c n (":" <> i)

-- Saga names without a colon keep the keys of different sagas apart.
pub get_store_key-injective :
    (n m i j : String)
    → NoColon n
    → NoColon m
    → get_store_key n i ≡ get_store_key m j
    → (n ≡ m) × (i ≡ j)
get_store_key-injective String.[] String.[] i j p q e =
    (refl, rest-eq ":" ":" i j (sym (key-nil i) ∙ e ∙ key-nil j))
get_store_key-injective String.[] (String.◌∷◌ d m) i j p q e =
    absurd (q.0 (sym (code-eq ":" d i (get_store_key m j) (sym (key-nil i) ∙ e ∙ key-cons d m j))))
get_store_key-injective (String.◌∷◌ c n) String.[] i j p q e =
    absurd (p.0 (code-eq c ":" (get_store_key n i) j (sym (key-cons c n i) ∙ e ∙ key-nil j)))
get_store_key-injective (String.◌∷◌ c n) (String.◌∷◌ d m) i j p q e =
    let same : Path String (String.◌∷◌ c (get_store_key n i)) (String.◌∷◌ d (get_store_key m j)) =
      sym (key-cons c n i) ∙ e ∙ key-cons d m j in
    let (names, ids) = get_store_key-injective n m i j p.1 q.1 (rest-eq c d _ _ same) in
    (cons_path c d n m (Char-path c d (code-eq c d _ _ same)) names, ids)
  where
    cons_path : (c d : Char) (s t : String) → c ≡ d → s ≡ t → String.◌∷◌ c s ≡ String.◌∷◌ d t
    cons_path c d s t p q = cc

-- A colon in a saga name lets two sagas share a key.
pub get_store_key_shared :
    (n m i : String) → get_store_key (n <> ":" <> m) i ≡ get_store_key n (m <> ":" <> i)
unfolding get_store_key
get_store_key_shared n m i =
    append_assoc n (":" <> m) (":" <> i) ∙ ap (λ t. n <> t) (append_assoc ":" m (":" <> i))
