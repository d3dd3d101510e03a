-- ===== src/Json/Documents.antt =====
-- JSON documents, as the encoder of encoding/json writes them and its decoder reads them, by their
-- tokens. Documents have no arrays and no numbers.
pub mod RoundTrip
use gardener_extension_netwo.Prelude.{String, Bool, List, [], ◌∷◌}
use gardener_extension_netwo.Prelude.Result.{Result, ok, err, errorf, ◌>>=◌}
use gardener_extension_netwo.Json.{Value, null, boolean, text, object, Members, end, member, insert}

pub data Token : Type 0 where
  brace_open brace_close colon comma null_word : Token
  boolean_word : Bool → Token
  quoted : String → Token

-- A value, in front of what follows it.
unfoldable mutual
  pub print : Value → List Token → List Token
  print null rest = null_word ∷ rest
  print (boolean b) rest = boolean_word b ∷ rest
  print (text s) rest = quoted s ∷ rest
  print (object m) rest = brace_open ∷ print_first m rest

  -- The members and the brace behind them.
  pub print_first : Members → List Token → List Token
  print_first end rest = brace_close ∷ rest
  print_first (member k v m) rest = quoted k ∷ colon ∷ print v (print_next m rest)

  -- The same behind a member.
  pub print_next : Members → List Token → List Token
  print_next end rest = brace_close ∷ rest
  print_next (member k v m) rest = comma ∷ quoted k ∷ colon ∷ print v (print_next m rest)

-- An object that is being read, with the key whose value is read.
pub record Frame : Type 0 where
  pub map : Members
  pub key : String

-- What the scanner waits for, with the objects around it.
pub data Scanner : Type 0 where
  begin_value : List Frame → Scanner
  begin_key_or_end : Members → List Frame → Scanner
  begin_key : Members → List Frame → Scanner
  key_read : Members → String → List Frame → Scanner
  value_read : Members → List Frame → Scanner
  finished : Value → Scanner

-- A value that was read, as the member of the object around it.
unfoldable pub give : Value → List Frame → Scanner
give v [] = finished v
give v (f ∷ fs) = value_read (insert f.key v f.map) fs

abbrev pub invalid : Result Scanner
invalid = err (errorf "invalid character")

unfoldable pub scan : Scanner → Token → Result Scanner
unfolding give
scan (begin_value fs) null_word = ok (give null fs)
scan (begin_value fs) (boolean_word b) = ok (give (boolean b) fs)
scan (begin_value fs) (quoted s) = ok (give (text s) fs)
scan (begin_value fs) brace_open = ok (begin_key_or_end end fs)
scan (begin_key_or_end m fs) brace_close = ok (give (object m) fs)
scan (begin_key_or_end m fs) (quoted k) = ok (key_read m k fs)
scan (begin_key m fs) (quoted k) = ok (key_read m k fs)
scan (key_read m k fs) colon = ok (begin_value (record { map = m; key = k } ∷ fs))
scan (value_read m fs) comma = ok (begin_key m fs)
scan (value_read m fs) brace_close = ok (give (object m) fs)
scan _ _ = invalid

abbrev pub scanned : Scanner → Result Value
scanned (finished v) = ok v
scanned _ = err (errorf "unexpected end of JSON input")

unfoldable pub scan_all : Scanner → List Token → Result Value
unfolding scan
scan_all s [] = scanned s
scan_all s (t ∷ ts) = do s ← scan s t; scan_all s ts

unfoldable pub parse : List Token → Result Value
unfolding scan_all
parse ts = scan_all (begin_value []) ts
