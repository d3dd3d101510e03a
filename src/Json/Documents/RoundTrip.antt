-- ===== src/Json/Documents/RoundTrip.antt =====
-- What is read back from a document that was written.
use gardener_extension_netwo.Prelude.{◌≡◌, refl, ◌∙◌, List, [], ◌∷◌}
use gardener_extension_netwo.Prelude.Result.{ok}
use gardener_extension_netwo.Json.{Value, null, boolean, text, object, Members, end, member, insert}
use gardener_extension_netwo.Json.Documents.{
  Token, print, print_next, Frame, begin_value, value_read, give, scan, scan_all, parse,
}

-- A value as a map of maps: of two members with one key, the later one is kept.
unfoldable mutual
  pub as_map : Value → Value
  as_map null = null
  as_map (boolean b) = boolean b
  as_map (text s) = text s
  as_map (object m) = object (insert_all m end)

  pub insert_all : Members → Members → Members
  insert_all end into = into
  insert_all (member k v m) into = insert_all m (insert k (as_map v) into)

mutual
  unfolding print scan_all scan give as_map

  scan_all-print :
      (v : Value) (fs : List Frame) (rest : List Token)
      → scan_all (begin_value fs) (print v rest) ≡ scan_all (give (as_map v) fs) rest
  scan_all-print null fs rest = refl
  scan_all-print (boolean b) fs rest = refl
  scan_all-print (text s) fs rest = refl
  scan_all-print (object end) fs rest = refl
  scan_all-print (object (member k v m)) fs rest =
      scan_all-print v (record { map = end; key = k } ∷ fs) (print_next m rest)
      ∙ scan_all-print_next m (insert k (as_map v) end) fs rest

  scan_all-print_next :
      (m into : Members) (fs : List Frame) (rest : List Token)
      → scan_all (value_read into fs) (print_next m rest)
        ≡ scan_all (give (object (insert_all m into)) fs) rest
  scan_all-print_next end into fs rest = refl
  scan_all-print_next (member k v m) into fs rest =
      scan_all-print v (record { map = into; key = k } ∷ fs) (print_next m rest)
      ∙ scan_all-print_next m (insert k (as_map v) into) fs rest

pub parse-print : (v : Value) → parse (print v []) ≡ ok (as_map v)
unfolding parse scan_all give
parse-print v = scan_all-print v [] []
