-- ===== src/Bridge/Codec.antt =====
-- A codec that keeps to what `JsonCodec` asks for: values in postfix order, one character for each
-- step, read back with a stack.
use Prim.Native.Char.{Char, code}
use Prim.Native.String.{[], ◌∷◌}
use one_crew.Common.{
  ℕ, zero, suc, ◌≡◌, ◌≢◌, refl, sym, ap, ◌∙◌, String, Bool, true, false, Option, none, some, ◌==◌,
  if◌then◌else◌,
}
use one_crew.Common.Json.{
  Json, null, boolean, number, text, array, object, Items, nil, cons, Fields, end, field,
}
use one_crew.Bridge.{JsonCodec}

abbrev bump : Items → Items
bump (cons (number n) st) = cons (number (suc n)) st
bump st = st

abbrev prepend : Char → Items → Items
prepend c (cons (text s) st) = cons (text (c ∷ s)) st
prepend c st = st

abbrev add_item : Items → Items
add_item (cons v (cons (array xs) st)) = cons (array (cons v xs)) st
add_item st = st

abbrev add_field : Items → Items
add_field (cons v (cons (text k) (cons (object fs) st))) = cons (object (field k v fs)) st
add_field st = st

abbrev step : Char → Items → Items
step c st =
    if code c == b'n'
    then cons null st
    else if code c == b't'
    then cons (boolean true) st
    else if code c == b'f'
    then cons (boolean false) st
    else if code c == b'z'
    then cons (number 0) st
    else if code c == b's'
    then bump st
    else if code c == b'e'
    then cons (text "") st
    else if code c == b'a'
    then cons (array nil) st
    else if code c == b'i'
    then add_item st
    else if code c == b'o'
    then cons (object end) st
    else add_field st

-- The flag says whether the next character is quoted.
abbrev run : Bool → String → Items → Items
run quoted [] st = st
run true (c ∷ s) st = run false s (prepend c st)
run false (c ∷ s) st = run (code c == b'q') s (if code c == b'q' then st else step c st)

abbrev write_number : ℕ → String → String
write_number zero k = "z" ∷ k
write_number (suc n) k = write_number n ("s" ∷ k)

abbrev write_text : String → String → String
write_text [] k = "e" ∷ k
write_text (c ∷ s) k = write_text s ("q" ∷ c ∷ k)

abbrev mutual
  write : Json → String → String
  write null k = "n" ∷ k
  write (boolean true) k = "t" ∷ k
  write (boolean false) k = "f" ∷ k
  write (number n) k = write_number n k
  write (text s) k = write_text s k
  write (array xs) k = write_items xs k
  write (object fs) k = write_fields fs k

  write_items : Items → String → String
  write_items nil k = "a" ∷ k
  write_items (cons v xs) k = write_items xs (write v ("i" ∷ k))

  write_fields : Fields → String → String
  write_fields end k = "o" ∷ k
  write_fields (field name v fs) k = write_fields fs (write_text name (write v ("m" ∷ k)))

number_read :
    (n : ℕ) (k : String) (st : Items)
    → run false (write_number n k) st ≡ run false k (cons (number n) st)
number_read zero k st = refl
number_read (suc n) k st = number_read n ("s" ∷ k) st

text_read :
    (s k : String) (st : Items) → run false (write_text s k) st ≡ run false k (cons (text s) st)
text_read [] k st = refl
text_read (c ∷ s) k st = text_read s ("q" ∷ c ∷ k) st

mutual
  value_read :
      (v : Json) (k : String) (st : Items) → run false (write v k) st ≡ run false k (cons v st)
  value_read null k st = refl
  value_read (boolean true) k st = refl
  value_read (boolean false) k st = refl
  value_read (number n) k st = number_read n k st
  value_read (text s) k st = text_read s k st
  value_read (array xs) k st = items_read xs k st
  value_read (object fs) k st = fields_read fs k st

  items_read :
      (xs : Items) (k : String) (st : Items)
      → run false (write_items xs k) st ≡ run false k (cons (array xs) st)
  items_read nil k st = refl
  items_read (cons v xs) k st =
      items_read xs (write v ("i" ∷ k)) st ∙ value_read v ("i" ∷ k) (cons (array xs) st)

  fields_read :
      (fs : Fields) (k : String) (st : Items)
      → run false (write_fields fs k) st ≡ run false k (cons (object fs) st)
  fields_read end k st = refl
  fields_read (field name v fs) k st =
      fields_read fs (write_text name (write v ("m" ∷ k))) st
      ∙ text_read name (write v ("m" ∷ k)) (cons (object fs) st)
      ∙ value_read v ("m" ∷ k) (cons (text name) (cons (object fs) st))

abbrev only : Items → Option Json
only (cons v nil) = some v
only st = none

abbrev parse : String → Option Json
parse s = only (run false s nil)

abbrev stringify : Json → String
stringify v = write v ""

pub parse-stringify : (v : Json) → parse (stringify v) ≡ some v
parse-stringify v = rw (value_read v "" nil) refl

pub stringify_ne : (v : Json) → stringify v ≢ ""
stringify_ne v e = let p : none ≡ some v = sym (ap parse e) ∙ parse-stringify v in cc

abbrev pub codec : JsonCodec
codec = record {
  stringify = stringify;
  parse = parse;
  parse_stringify = parse-stringify;
  stringify_ne = stringify_ne;
}
