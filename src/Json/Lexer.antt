-- ===== src/Json/Lexer.antt =====
-- The characters of JSON documents: how encoding/json spells its tokens, and how it reads them.
pub mod Spelled
use gardener_extension_netwo.Prelude.{
  ℕ, Bool, true, false, ◌||◌, Option, none, some, List, [], ◌∷◌, ◌++◌, if◌then◌else◌,
}
use gardener_extension_netwo.Prelude.Result.{Result, ok, err, errorf, ◌>>=◌}
use gardener_extension_netwo.Json.Characters.{
  eqb, codes, of_codes, join, escape_all, Quoting, in_string, closed, quoting,
}
use gardener_extension_netwo.Json.Documents.{
  Token, brace_open, brace_close, colon, comma, null_word, boolean_word, quoted,
}

-- A token, in front of what follows it.
unfoldable pub spell : Token → List ℕ → List ℕ
unfolding codes escape_all
spell brace_open rest = 123 ∷ rest
spell brace_close rest = 125 ∷ rest
spell colon rest = 58 ∷ rest
spell comma rest = 44 ∷ rest
spell null_word rest = 110 ∷ 117 ∷ 108 ∷ 108 ∷ rest
spell (boolean_word true) rest = 116 ∷ 114 ∷ 117 ∷ 101 ∷ rest
spell (boolean_word false) rest = 102 ∷ 97 ∷ 108 ∷ 115 ∷ 101 ∷ rest
spell (quoted s) rest = 34 ∷ escape_all (codes s) (34 ∷ rest)

unfoldable pub spell_all : List Token → List ℕ
unfolding spell
spell_all [] = []
spell_all (t ∷ ts) = spell t (spell_all ts)

-- Between tokens, between quotes, or in a word of which a character and then others are to come.
pub data Lexer : Type 0 where
  between : Lexer
  between_quotes : Quoting → Lexer
  in_word : ℕ → List ℕ → Token → Lexer

-- Where a character leaves the scanner, with the token that it ends.
abbrev pub begin_token : ℕ → Option (Lexer × List Token)
begin_token n =
    if eqb n 32 || eqb n 9 || eqb n 10 || eqb n 13
    then some (between, [])
    else if eqb n 123
    then some (between, brace_open ∷ [])
    else if eqb n 125
    then some (between, brace_close ∷ [])
    else if eqb n 58
    then some (between, colon ∷ [])
    else if eqb n 44
    then some (between, comma ∷ [])
    else if eqb n 34
    then some (between_quotes (in_string []), [])
    else if eqb n 110
    then some (in_word 117 (108 ∷ 108 ∷ []) null_word, [])
    else if eqb n 116
    then some (in_word 114 (117 ∷ 101 ∷ []) (boolean_word true), [])
    else if eqb n 102
    then some (in_word 97 (108 ∷ 115 ∷ 101 ∷ []) (boolean_word false), [])
    else none

abbrev pub quoting_token : Option Quoting → Option (Lexer × List Token)
quoting_token none = none
quoting_token (some (closed ns)) = some (between, quoted (of_codes (join none ns)) ∷ [])
quoting_token (some q) = some (between_quotes q, [])

abbrev pub word_token : List ℕ → Token → Lexer × List Token
word_token [] t = (between, t ∷ [])
word_token (m ∷ ms) t = (in_word m ms t, [])

unfoldable pub lex_step : Lexer → ℕ → Option (Lexer × List Token)
unfolding quoting of_codes join
lex_step between n = begin_token n
lex_step (between_quotes q) n = quoting_token (quoting q n)
lex_step (in_word m ms t) n = if eqb n m then some (word_token ms t) else none

abbrev pub accepted : Option (Lexer × List Token) → Result (Lexer × List Token)
accepted none = err (errorf "invalid character")
accepted (some step) = ok step

unfoldable pub lex : Lexer → List ℕ → Result (List Token)
unfolding lex_step
lex between [] = ok []
lex _ [] = err (errorf "unexpected end of JSON input")
lex l (n ∷ ns) = do (l, read) ← accepted (lex_step l n); ts ← lex l ns; ok (read ++ ts)
