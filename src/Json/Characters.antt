-- ===== src/Json/Characters.antt =====
-- The characters of Go's texts, as their numbers, and how encoding/json writes them between quotes.
pub mod Scalars
pub mod Quoted
use Prim.Native.Nat.{compare, Ordering, ◌/◌, ◌%◌}
use Prim.Native.Char.{Char, char, code, IsScalar, IsLt}
use Prim.Native.String.{[] as []ˢ, ◌∷◌ as ◌∷ˢ◌}
use gardener_extension_netwo.Prelude.{
  ℕ, zero, suc, ◌+◌, ◌-◌, ◌*◌, String, Bool, true, false, ◌||◌, ◌&&◌, Option, none, some, List, [],
  ◌∷◌, ◌++◌, if◌then◌else◌,
}

abbrev pub ltb : ℕ → ℕ → Bool
ltb a b = elim (compare a b) [ Ordering.lt ↦ true | _ ↦ false ]

abbrev pub leb : ℕ → ℕ → Bool
leb a b = elim (compare a b) [ Ordering.gt ↦ false | _ ↦ true ]

abbrev pub eqb : ℕ → ℕ → Bool
eqb a b = elim (compare a b) [ Ordering.eq ↦ true | _ ↦ false ]

unfoldable pub codes : String → List ℕ
codes []ˢ = []
codes (c ∷ˢ s) = code c ∷ codes s

unfoldable pub is_less : (o : Ordering) → Option (IsLt o)
is_less Ordering.lt = some tt
is_less Ordering.eq = none
is_less Ordering.gt = none

-- `IsScalar` by its comparisons, and a decision of it.
abbrev pub AboveSurrogates : Ordering → Ordering → Type 0
AboveSurrogates Ordering.lt o = IsLt o
AboveSurrogates Ordering.eq _ = ⊥
AboveSurrogates Ordering.gt _ = ⊥

abbrev pub OutsideSurrogates : Ordering → Ordering → Ordering → Type 0
OutsideSurrogates Ordering.lt _ _ = Unit
OutsideSurrogates Ordering.eq o p = AboveSurrogates o p
OutsideSurrogates Ordering.gt o p = AboveSurrogates o p

unfoldable pub is_above : (o p : Ordering) → Option (AboveSurrogates o p)
unfolding is_less
is_above Ordering.lt o = is_less o
is_above Ordering.eq o = none
is_above Ordering.gt o = none

unfoldable pub is_outside : (o p q : Ordering) → Option (OutsideSurrogates o p q)
unfolding is_above
is_outside Ordering.lt p q = some tt
is_outside Ordering.eq p q = is_above p q
is_outside Ordering.gt p q = is_above p q

unfoldable pub is_scalar : (n : ℕ) → Option (IsScalar n)
unfolding is_outside
is_scalar n = is_outside (compare n 55296) (compare 57343 n) (compare n 1114112)

-- `unicode.ReplacementChar`
abbrev pub replacement_char : Char
replacement_char = char 65533 tt

-- `string(rune(n))`, for one character
unfoldable pub to_char : ℕ → Char
unfolding is_scalar
to_char n = elim (is_scalar n) [ none ↦ replacement_char | some p ↦ char n p ]

unfoldable pub of_codes : List ℕ → String
unfolding to_char
of_codes [] = []ˢ
of_codes (n ∷ ns) = to_char n ∷ˢ of_codes ns

-- Two halves of one character, as `\u` escapes give them.
abbrev pub is_pair : ℕ → ℕ → Bool
is_pair h l = leb 55296 h && ltb h 56320 && leb 56320 l && ltb l 57344

-- What is held back, and what is passed on, after a number with these held back before it.
unfoldable pub join_step : Option ℕ → ℕ → Option ℕ × List ℕ
unfolding is_scalar
join_step none n = elim (is_scalar n) [ none ↦ (some n, []) | some _ ↦ (none, n ∷ []) ]
join_step (some h) n =
    if is_pair h n
    then (none, ((h - 55296) * 1024 + (n - 56320) + 65536) ∷ [])
    else elim (is_scalar n) [ none ↦ (some n, h ∷ []) | some _ ↦ (none, h ∷ n ∷ []) ]

-- The numbers with such halves joined.
unfoldable pub join : Option ℕ → List ℕ → List ℕ
unfolding join_step
join none [] = []
join (some h) [] = h ∷ []
join held (n ∷ ns) = let (held, passed) = join_step held n in passed ++ join held ns

-- The letter after the backslash.
abbrev pub short_escape : ℕ → Option ℕ
short_escape n =
    if eqb n 34
    then some 34
    else if eqb n 92
    then some 92
    else if eqb n 10
    then some 110
    else if eqb n 13
    then some 114
    else if eqb n 9
    then some 116
    else none

-- Control characters, `&`, `<`, `>`, and the line separators U+2028 and U+2029.
abbrev pub is_unsafe : ℕ → Bool
is_unsafe n = ltb n 32 || eqb n 38 || eqb n 60 || eqb n 62 || eqb n 8232 || eqb n 8233

abbrev pub hex_digit : ℕ → ℕ
hex_digit d = if ltb d 10 then d + 48 else d + 87

abbrev pub unicode_escape : ℕ → List ℕ → List ℕ
unicode_escape n rest =
    92
    ∷ 117
    ∷ hex_digit (n / 4096 % 16)
    ∷ hex_digit (n / 256 % 16)
    ∷ hex_digit (n / 16 % 16)
    ∷ hex_digit (n % 16)
    ∷ rest

-- A character between quotes, in front of what follows it.
unfoldable pub escape : ℕ → List ℕ → List ℕ
escape n rest = elim (short_escape n) [
  | some letter ↦ 92 ∷ letter ∷ rest
  | none ↦ if is_unsafe n then unicode_escape n rest else n ∷ rest
]

unfoldable pub escape_all : List ℕ → List ℕ → List ℕ
unfolding escape
escape_all [] rest = rest
escape_all (n ∷ ns) rest = escape n (escape_all ns rest)

-- What a letter after a backslash stands for.
abbrev pub short_unescape : ℕ → Option ℕ
short_unescape n =
    if eqb n 34 || eqb n 92 || eqb n 47
    then some n
    else if eqb n 98
    then some 8
    else if eqb n 102
    then some 12
    else if eqb n 110
    then some 10
    else if eqb n 114
    then some 13
    else if eqb n 116
    then some 9
    else none

abbrev pub hex_value : ℕ → Option ℕ
hex_value n =
    if leb 48 n && leb n 57
    then some (n - 48)
    else if leb 97 n && leb n 102
    then some (n - 87)
    else if leb 65 n && leb n 70
    then some (n - 55)
    else none

-- Where the scanner is between quotes, behind the numbers it has read: after a backslash, or after
-- `\u` and digits of this value with this many more to read after the next.
pub data Quoting : Type 0 where
  in_string in_string_esc : List ℕ → Quoting
  in_string_esc_u : List ℕ → ℕ → ℕ → Quoting
  closed : List ℕ → Quoting

abbrev pub hex_read : List ℕ → ℕ → ℕ → Quoting
hex_read ns zero value = in_string (ns ++ value ∷ [])
hex_read ns (suc more) value = in_string_esc_u ns more value

unfoldable pub quoting : Quoting → ℕ → Option Quoting
quoting (in_string ns) n =
    if eqb n 34
    then some (closed ns)
    else if eqb n 92
    then some (in_string_esc ns)
    else if ltb n 32
    then none
    else some (in_string (ns ++ n ∷ []))
quoting (in_string_esc ns) n =
    if eqb n 117
    then some (in_string_esc_u ns 3 0)
    else elim (short_unescape n) [ none ↦ none | some m ↦ some (in_string (ns ++ m ∷ [])) ]
quoting (in_string_esc_u ns more value) n = elim (hex_value n) [
  | none ↦ none
  | some d ↦ some (hex_read ns more (value * 16 + d))
]
quoting (closed ns) n = none
