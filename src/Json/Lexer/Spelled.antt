-- ===== src/Json/Lexer/Spelled.antt =====
-- Reading back what was spelled.
use Prim.Native.Nat.{◌/◌, ◌%◌}
use mathlib.Core.List.{append_assoc, append-nil}
use gardener_extension_netwo.Prelude.{
  ◌≡◌, refl, sym, ap, ◌∙◌, String, ℕ, zero, suc, ◌<◌, ◌+◌, ◌*◌, true, false, some, none, List, [],
  ◌∷◌, ◌++◌, arith, inl, inr, Bool-cases, Option-cases,
}
use gardener_extension_netwo.Prelude.Result.{Result, ok, err, panic, ◌>>=◌}
use gardener_extension_netwo.Json.Characters.{
  short_escape, is_unsafe, hex_digit, unicode_escape, escape, escape_all, Quoting, in_string,
  in_string_esc, in_string_esc_u, hex_read, quoting, codes, eqb,
}
use gardener_extension_netwo.Json.Characters.Scalars.{of_codes-codes, join-codes}
use gardener_extension_netwo.Json.Characters.Quoted.{
  quoting-plain, quoting-short, hex_value-hex_digit, is_unsafe-lt, of_digits,
}
use gardener_extension_netwo.Json.Documents.{
  Token, quoted, boolean_word, brace_open, brace_close, colon, comma, null_word,
}
use gardener_extension_netwo.Json.Lexer.{
  Lexer, between, between_quotes, in_word, spell, spell_all, lex, lex_step, quoting_token,
}

>>=-ok : {A : Type 0} (r : Result A) → (r >>= ok) ≡ r
>>=-ok (ok a) = refl
>>=-ok (err e) = refl
>>=-ok (panic e) = refl

-- A character that ends no token.
lex-silent :
    (l l' : Lexer) (n : ℕ) (ns : List ℕ) → lex_step l n ≡ some (l', []) → lex l (n ∷ ns) ≡ lex l' ns
unfolding lex
lex-silent l l' n ns step = rw (lex, step) (>>=-ok (lex l' ns))

lex-skip :
    (q q' : Quoting) (n : ℕ) (ns : List ℕ)
    → quoting_token (quoting q n) ≡ some (between_quotes q', [])
    → lex (between_quotes q) (n ∷ ns) ≡ lex (between_quotes q') ns
unfolding lex_step
lex-skip q q' n ns step = lex-silent (between_quotes q) (between_quotes q') n ns step

lex-plain :
    (acc : List ℕ) (n : ℕ) (rest : List ℕ)
    → short_escape n ≡ none
    → is_unsafe n ≡ false
    → lex (between_quotes (in_string acc)) (n ∷ rest)
      ≡ lex (between_quotes (in_string (acc ++ n ∷ []))) rest
lex-plain acc n rest plain safe =
    lex-skip _ _ n rest (ap quoting_token (quoting-plain acc n plain safe))

lex-short :
    (acc : List ℕ) (n l : ℕ) (rest : List ℕ)
    → short_escape n ≡ some l
    → lex (between_quotes (in_string acc)) (92 ∷ l ∷ rest)
      ≡ lex (between_quotes (in_string (acc ++ n ∷ []))) rest
unfolding quoting
lex-short acc n l rest short =
    lex-skip (in_string acc) (in_string_esc acc) 92 (l ∷ rest) refl
    ∙ lex-skip _ _ l rest (ap quoting_token (quoting-short acc n l short))

quoting-digit :
    (acc : List ℕ) (more value d : ℕ)
    → d < 16
    → quoting (in_string_esc_u acc more value) (hex_digit d)
      ≡ some (hex_read acc more (value * 16 + d))
unfolding quoting
quoting-digit acc more value d h = rw (quoting, hex_value-hex_digit d h) refl

lex-digit :
    (acc : List ℕ) (more value d : ℕ) (rest : List ℕ)
    → d < 16
    → lex (between_quotes (in_string_esc_u acc more value)) (hex_digit d ∷ rest)
      ≡ lex (between_quotes (hex_read acc more (value * 16 + d))) rest
lex-digit acc zero value d rest h =
    lex-skip _ _ _ rest (ap quoting_token (quoting-digit acc zero value d h))
lex-digit acc (suc more) value d rest h =
    lex-skip _ _ _ rest (ap quoting_token (quoting-digit acc (suc more) value d h))

lex-unicode :
    (acc : List ℕ) (n : ℕ) (rest : List ℕ)
    → n < 65536
    → lex (between_quotes (in_string acc)) (unicode_escape n rest)
      ≡ lex (between_quotes (in_string (acc ++ n ∷ []))) rest
unfolding quoting
lex-unicode acc n rest h =
    lex-skip (in_string acc) (in_string_esc acc) 92 _ refl
    ∙ lex-skip (in_string_esc acc) (in_string_esc_u acc 3 0) 117 _ refl
    ∙ lex-digit acc 3 0 (n / 4096 % 16) _ (omega arith)
    ∙ lex-digit acc 2 _ (n / 256 % 16) _ (omega arith)
    ∙ lex-digit acc 1 _ (n / 16 % 16) _ (omega arith)
    ∙ lex-digit acc 0 _ (n % 16) rest (omega arith)
    ∙ ap (λ m. lex (between_quotes (in_string (acc ++ m ∷ []))) rest) (of_digits n h)

lex-escape :
    (acc : List ℕ) (n : ℕ) (rest : List ℕ)
    → lex (between_quotes (in_string acc)) (escape n rest)
      ≡ lex (between_quotes (in_string (acc ++ n ∷ []))) rest
unfolding escape
lex-escape acc n rest = elim (Option-cases (short_escape n)) [
  | inl plain ↦ elim (Bool-cases (is_unsafe n)) [
    | inl unsafe ↦ rw (escape, plain, unsafe) (lex-unicode acc n rest (is_unsafe-lt n unsafe))
    | inr safe ↦ rw (escape, plain, safe) (lex-plain acc n rest plain safe)
  ]
  | inr (l, short) ↦ rw (escape, short) (lex-short acc n l rest short)
]

lex-escape_all :
    (acc ns : List ℕ) (rest : List ℕ)
    → lex (between_quotes (in_string acc)) (escape_all ns rest)
      ≡ lex (between_quotes (in_string (acc ++ ns))) rest
unfolding escape_all
lex-escape_all acc [] rest =
    ap (λ ns. lex (between_quotes (in_string ns)) rest) (sym (append-nil acc))
lex-escape_all acc (n ∷ ns) rest =
    lex-escape acc n (escape_all ns rest)
    ∙ lex-escape_all (acc ++ n ∷ []) ns rest
    ∙ ap (λ ms. lex (between_quotes (in_string ms)) rest) (append_assoc acc (n ∷ []) ns)

lex-closing :
    (s : String) (rest : List ℕ)
    → lex (between_quotes (in_string (codes s))) (34 ∷ rest)
      ≡ (do ts ← lex between rest; ok (quoted s ∷ ts))
unfolding lex lex_step quoting
lex-closing s rest = rw (join-codes s, of_codes-codes s) refl

eqb_self : (m : ℕ) → eqb m m ≡ true
eqb_self m = ground arith

lex-word :
    (m : ℕ) (ms : List ℕ) (t : Token) (rest : List ℕ)
    → lex (in_word m ms t) (m ∷ ms ++ rest) ≡ (do ts ← lex between rest; ok (t ∷ ts))
unfolding lex lex_step
lex-word m [] t rest = rw (eqb_self m) refl
lex-word m (n ∷ ns) t rest =
    lex-silent (in_word m (n ∷ ns) t) (in_word n ns t) m (n ∷ ns ++ rest) (rw (eqb_self m) refl)
    ∙ lex-word n ns t rest

-- The word behind its first character.
lex-begin_word :
    (l m : ℕ) (ms : List ℕ) (t : Token) (rest : List ℕ)
    → lex_step between l ≡ some (in_word m ms t, [])
    → lex between (l ∷ m ∷ ms ++ rest) ≡ (do ts ← lex between rest; ok (t ∷ ts))
lex-begin_word l m ms t rest step =
    lex-silent between (in_word m ms t) l (m ∷ ms ++ rest) step ∙ lex-word m ms t rest

lex-spell :
    (t : Token) (rest : List ℕ)
    → lex between (spell t rest) ≡ (do ts ← lex between rest; ok (t ∷ ts))
unfolding spell lex lex_step
lex-spell brace_open rest = refl
lex-spell brace_close rest = refl
lex-spell colon rest = refl
lex-spell comma rest = refl
lex-spell null_word rest = lex-begin_word 110 117 (108 ∷ 108 ∷ []) null_word rest refl
lex-spell (boolean_word true) rest =
    lex-begin_word 116 114 (117 ∷ 101 ∷ []) (boolean_word true) rest refl
lex-spell (boolean_word false) rest =
    lex-begin_word 102 97 (108 ∷ 115 ∷ 101 ∷ []) (boolean_word false) rest refl
lex-spell (quoted s) rest =
    lex-silent between (between_quotes (in_string [])) 34 (escape_all (codes s) (34 ∷ rest)) refl
    ∙ lex-escape_all [] (codes s) (34 ∷ rest)
    ∙ lex-closing s rest

pub lex-spell_all : (ts : List Token) → lex between (spell_all ts) ≡ ok ts
unfolding spell_all lex
lex-spell_all [] = refl
lex-spell_all (t ∷ ts) = lex-spell t (spell_all ts) ∙ rw (lex-spell_all ts) refl
