-- ===== src/Tenant/Prefix.antt =====
-- The strategy "correlation-prefix" of createResolver.
use Prim.Native.Char.{Char, code}
use Prim.Native.String.append
use saga_bus.Messages.{Envelope}
use saga_bus.Tenant.{before_separator, behind, by_correlation_prefix, create_resolver, from_prefix}
use saga_bus.Prelude.{
  String, ◌≡◌, refl, ap, ◌∙◌, ℕ, Bool, true, false, not, ◌&&◌, Option, some, truthy, nat_eq, arith,
}
use saga_bus.Prelude.Exec.{ok}
use saga_bus.Prelude.Texts.{◌<>◌}

-- The character does not stand in the text.
abbrev pub lacks : Char → String → Bool
lacks c String.[] = true
lacks c (String.◌∷◌ d s) = not (nat_eq (code c) (code d)) && lacks c s

nat_eq_refl : (n : ℕ) → nat_eq n n ≡ true
nat_eq_refl n = ground arith

behind-append : (p s : String) → behind p (p <> s) ≡ some s
unfolding behind ◌<>◌
behind-append String.[] s = ap some (append.nil s)
behind-append (String.◌∷◌ c p) s = rw (append.cons c p s, nat_eq_refl (code c)) (behind-append p s)

apart-head :
    (c d : Char) (t : String) → lacks c (String.◌∷◌ d t) ≡ true → nat_eq (code c) (code d) ≡ false
apart-head c d t h = ground (arith, h)

apart-tail : (c d : Char) (t : String) → lacks c (String.◌∷◌ d t) ≡ true → lacks c t ≡ true
apart-tail c d t h = ground (arith, h)

before_separator-append :
    (c : Char) (p t s : String)
    → lacks c t ≡ true
    → before_separator (String.◌∷◌ c p) (t <> (String.◌∷◌ c p <> s)) ≡ some t
unfolding before_separator ◌<>◌
before_separator-append c p String.[] s h =
    ap (before_separator (String.◌∷◌ c p)) (append.nil (String.◌∷◌ c p <> s) ∙ append.cons c p s)
    ∙ rw (nat_eq_refl (code c), behind-append p s)
before_separator-append c p (String.◌∷◌ d t) s h =
    ap (before_separator (String.◌∷◌ c p)) (append.cons d t (String.◌∷◌ c p <> s))
    ∙ rw (apart-head c d t h, before_separator-append c p t s (apart-tail c d t h))

-- The envelope with another partition key
abbrev pub keyed : {B : Type 0} → String → Envelope B → Envelope B
keyed key envelope = record envelope { partition_key = some key }

truthy-joined : (c : Char) (p t s : String) → truthy (t <> (String.◌∷◌ c p <> s)) ≡ true
unfolding ◌<>◌
truthy-joined c p String.[] s = ap truthy (append.nil (String.◌∷◌ c p <> s) ∙ append.cons c p s)
truthy-joined c p (String.◌∷◌ d t) s = ap truthy (append.cons d t (String.◌∷◌ c p <> s))

-- The strategy "correlation-prefix" finds the tenant that stands in front of the separator in the
-- partition key, whatever follows, if the first character of the separator does not stand in it.
pub create_resolver_prefix :
    {B : Type 0} (header : String) (c : Char) (p tenant rest : String) (envelope : Envelope B)
    → lacks c tenant ≡ true
    → (resolver : Envelope B → Option String) × (create_resolver {B = B} by_correlation_prefix
          header
          (String.◌∷◌ c p)
        ≡ ok resolver)
      × (resolver (keyed (tenant <> (String.◌∷◌ c p <> rest)) envelope) ≡ some tenant)
unfolding create_resolver from_prefix
create_resolver_prefix header c p tenant rest envelope apart =
    (_, refl, rw (truthy-joined c p tenant rest, before_separator-append c p tenant rest apart))
