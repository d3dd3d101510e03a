-- ===== src/Json/Characters/Quoted.antt =====
-- Reading back what was written between quotes.
use Prim.Native.Nat.{◌/◌, ◌%◌}
use gardener_extension_netwo.Prelude.{
  ◌≡◌, ℕ, ◌<◌, ◌+◌, ◌*◌, true, false, some, none, List, [], ◌∷◌, ◌++◌, arith,
}
use gardener_extension_netwo.Json.Characters.{
  short_escape, is_unsafe, hex_digit, hex_value, short_unescape, in_string, in_string_esc, quoting,
}

pub quoting-plain :
    (ns : List ℕ) (n : ℕ)
    → short_escape n ≡ none
    → is_unsafe n ≡ false
    → quoting (in_string ns) n ≡ some (in_string (ns ++ n ∷ []))
unfolding quoting
quoting-plain ns n plain safe = ground arith

short_unescape-short_escape : (n l : ℕ) → short_escape n ≡ some l → short_unescape l ≡ some n
short_unescape-short_escape n l h = ground arith

pub quoting-short :
    (ns : List ℕ) (n l : ℕ)
    → short_escape n ≡ some l
    → quoting (in_string_esc ns) l ≡ some (in_string (ns ++ n ∷ []))
unfolding quoting
quoting-short ns n l h = ground arith

pub hex_value-hex_digit : (d : ℕ) → d < 16 → hex_value (hex_digit d) ≡ some d
hex_value-hex_digit d h = ground arith

pub is_unsafe-lt : (n : ℕ) → is_unsafe n ≡ true → n < 65536
is_unsafe-lt n h = ground arith

pub of_digits :
    (n : ℕ)
    → n < 65536
    → (((0 * 16 + n / 4096 % 16) * 16 + n / 256 % 16) * 16 + n / 16 % 16) * 16 + n % 16 ≡ n
of_digits n h = omega arith
