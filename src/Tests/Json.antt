-- ===== src/Tests/Json.antt =====
-- Documents of encoding/json: what is written, what is read, and what is refused.
use mathlib.Core.Quot
use gardener_extension_netwo.Prelude.{◌≡◌, ◌≢◌, refl, true, [], ◌∷◌}
use gardener_extension_netwo.Prelude.Result.{ok, err, errorf, ◌>>=◌}
use gardener_extension_netwo.Json.{Value, null, boolean, text, object, Members, end, member}
use gardener_extension_netwo.Json.Maps.{Covers-Agree, same, ◌◂◌, go_map, go_map-Agree}
use gardener_extension_netwo.Json.Characters.{codes}
use gardener_extension_netwo.Json.Documents.{quoted, print, parse}
use gardener_extension_netwo.Json.Lexer.{between, spell_all, lex}

abbrev value : Value
value = object (
    member "name" (text "a\"<b>\n")
      (member "on" (boolean true) (member "in" (object (member "x" null end)) end)))

written_lem :
    spell_all (print value [])
    ≡ codes "{\"name\":\"a\\\"\\u003cb\\u003e\\n\",\"on\":true,\"in\":{\"x\":null}}"
unfolding spell_all print codes
written_lem = refl

read_lem :
    (lex between (codes "{ \"on\" : true ,\n \"name\": \"\\u00FC\\/\" }") >>= parse)
    ≡ ok (object (member "on" (boolean true) (member "name" (text "ü/") end)))
unfolding lex codes parse
read_lem = refl

-- Two escapes are the halves of one character; a half alone is not a character.
halves_lem : lex between (codes "\"\\ud83d\\ude00\"") ≡ ok (quoted "😀" ∷ [])
unfolding lex codes
halves_lem = refl

half_lem : lex between (codes "\"\\ude00!\"") ≡ ok (quoted "�!" ∷ [])
unfolding lex codes
half_lem = refl

-- Of two members with one key, the later one is kept.
twice_lem :
    (lex between (codes "{\"a\":null,\"a\":true}") >>= parse)
    ≡ ok (object (member "a" (boolean true) end))
unfolding lex codes parse
twice_lem = refl

open_lem :
    (lex between (codes "{\"a\":null") >>= parse) ≡ err (errorf "unexpected end of JSON input")
unfolding lex codes parse
open_lem = refl

comma_lem : (lex between (codes "{\"a\":null,:") >>= parse) ≡ err (errorf "invalid character")
unfolding lex codes parse
comma_lem = refl

line_lem : lex between (codes "\"a\nb\"") ≡ err (errorf "invalid character")
unfolding lex codes
line_lem = refl

-- The order of the entries is no part of a map, but the values are, however deep.
abbrev in_order : Members
in_order = member "a" (object (member "x" null end)) (member "b" (text "y") end)

abbrev out_of_order : Members
out_of_order = member "b" (text "y") (member "a" (object (member "x" null end)) end)

abbrev deeper : Members
deeper = member "a" (object (member "x" (text "") end)) (member "b" (text "y") end)

order_lem : go_map in_order ≡ go_map out_of_order
order_lem =
    Quot.sound
      (Covers-Agree in_order out_of_order (same refl ◂ same refl ◂ tt) (same refl ◂ same refl ◂ tt))

deeper_lem : go_map in_order ≢ go_map deeper
deeper_lem h = let e = go_map-Agree in_order deeper h ("a" ∷ "x" ∷ []) in cc
