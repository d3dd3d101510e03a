-- ===== src/Json/Characters/Scalars.antt =====
-- The characters of a text, and the text of its characters.
use Prim.Native.Nat.{compare, Ordering}
use Prim.Native.Char.{Char, char, code, IsScalar, IsLt}
use Prim.Native.String.{[] as []ˢ, ◌∷◌ as ◌∷ˢ◌}
use gardener_extension_netwo.Prelude.{◌≡◌, refl, ap, ℕ, String, none, some, ◌∷◌}
use gardener_extension_netwo.Json.Characters.{
  codes, of_codes, join, join_step, to_char, is_scalar, is_outside, is_above, is_less,
  AboveSurrogates, OutsideSurrogates,
}

is_less_complete : (o : Ordering) (p : IsLt o) → is_less o ≡ some p
unfolding is_less
is_less_complete Ordering.lt p = refl
is_less_complete Ordering.eq p = absurd p
is_less_complete Ordering.gt p = absurd p

is_above_complete : (o q : Ordering) (p : AboveSurrogates o q) → is_above o q ≡ some p
unfolding is_above
is_above_complete Ordering.lt q p = is_less_complete q p
is_above_complete Ordering.eq q p = absurd p
is_above_complete Ordering.gt q p = absurd p

is_outside_complete : (o q r : Ordering) (p : OutsideSurrogates o q r) → is_outside o q r ≡ some p
unfolding is_outside
is_outside_complete Ordering.lt q r p = refl
is_outside_complete Ordering.eq q r p = is_above_complete q r p
is_outside_complete Ordering.gt q r p = is_above_complete q r p

is_scalar_complete : (n : ℕ) (p : IsScalar n) → is_scalar n ≡ some p
unfolding is_scalar
is_scalar_complete n p =
    is_outside_complete (compare n 55296) (compare 57343 n) (compare n 1114112) p

to_char-code : (c : Char) → to_char (code c) ≡ c
unfolding to_char
to_char-code (char n p) = rw (to_char, is_scalar_complete n p) refl

pub of_codes-codes : (s : String) → of_codes (codes s) ≡ s
unfolding of_codes codes
of_codes-codes []ˢ = refl
of_codes-codes (c ∷ˢ s) = rw (to_char-code c, of_codes-codes s) refl

-- A text has no halves of characters to join.
pub join-codes : (s : String) → join none (codes s) ≡ codes s
unfolding join join_step codes
join-codes []ˢ = refl
join-codes (char n p ∷ˢ s) =
    rw (codes, join, join_step, is_scalar_complete n p) (ap (λ ns. n ∷ ns) (join-codes s))
