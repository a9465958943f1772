-- ===== src/Cookies.antt =====
-- lib/cookie-parser.ts: the `Cookie` header as a map, and the session token that NextAuth splits into
-- numbered chunks. `trim` and `decodeURIComponent` are parameters; `decode` is nothing where the call
-- throws. A record with text keys is the list of its entries in the order of insertion (a name that is
-- read is never an array index, whose entries JavaScript would move to the front), and a write to
-- `__proto__`, which JavaScript ignores for a text, adds none. The value of a chunk's number is exact,
-- where the source rounds what is above 2^53.
pub mod Chunks
pub mod First
mod Tests
use one_crew.Common.{
  ℕ, suc, ◌+◌, ◌-◌, ◌*◌, String, Bool, true, false, ◌&&◌, ◌||◌, Option, none, some, List, [], ◌∷◌,
  ◌++◌, map, leb, ltb, ◌==◌, str_eq, if◌then◌else◌,
}
use one_crew.Common.Dict.{Dict, get, set}
use one_crew.Common.Split.{split_at}
use one_crew.Common.Texts.{◌&◌, join_with}
use Prim.Native.Char.{Char, code}
use Prim.Native.String

-- A header as the runtime exposes it.
pub data Header : Type 0 where
  absent : Header
  one : String → Header
  several : List String → Header

pub record Scripting : Type 0 where
  pub trim : String → String
  pub decode : String → Option String

abbrev pub join_texts : List String → String
join_texts = join_with ""

abbrev pub flatten_header : Header → String
flatten_header absent = ""
flatten_header (one h) = h
flatten_header (several hs) = join_with "; " hs

-- `pair.slice(0, i)` and `pair.slice(i + 1)` at the first `=`, if there is one.
abbrev grow_name : Char → Option (String × String) → Option (String × String)
grow_name c none = none
grow_name c (some (n, v)) = some (String.◌∷◌ c n, v)

unfoldable pub cut_at_equals : String → Option (String × String)
cut_at_equals String.[] = none
cut_at_equals (String.◌∷◌ c s) =
    let rest = cut_at_equals s in if code c == b'=' then some ("", s) else grow_name c rest

-- The text before a closing quote that ends it.
abbrev grow_quoted : Char → Option String → Option String
grow_quoted c none = none
grow_quoted c (some s) = some (String.◌∷◌ c s)

unfoldable pub before_closing : String → Option String
before_closing String.[] = none
before_closing (String.◌∷◌ c String.[]) = if code c == b'"' then some "" else none
before_closing (String.◌∷◌ c (String.◌∷◌ d s)) = grow_quoted c (before_closing (String.◌∷◌ d s))

abbrev or_itself : String → Option String → String
or_itself s none = s
or_itself s (some t) = t

-- A single pair of surrounding double quotes is taken off.
unfoldable pub unquoted : String → String
unfolding before_closing
unquoted String.[] = ""
unquoted (String.◌∷◌ c s) =
    if code c == b'"' then or_itself (String.◌∷◌ c s) (before_closing s) else String.◌∷◌ c s

module _ (js : Scripting) where
  open js use {trim, decode}

  abbrev pub cookie_value : String → String
  cookie_value raw = or_itself (unquoted (trim raw)) (decode (unquoted (trim raw)))

  abbrev named_pair : String → String → Option (String × String)
  named_pair name raw = if str_eq name "" then none else some (name, cookie_value raw)

  abbrev cut_pair : Option (String × String) → Option (String × String)
  cut_pair none = none
  cut_pair (some (n, raw)) = if str_eq n "" then none else named_pair (trim n) raw

  -- The name and the value of a pair, unless the loop skips it.
  unfoldable pub parse_pair : String → Option (String × String)
  unfolding cut_at_equals unquoted
  parse_pair pair = cut_pair (cut_at_equals pair)

  abbrev store_new : Option String → String → String → Dict String → Dict String
  store_new (some old) name value cookies = cookies
  store_new none name value cookies =
      if str_eq name "__proto__" then cookies else set name value cookies

  abbrev store : Option (String × String) → Dict String → Dict String
  store none cookies = cookies
  store (some (name, value)) cookies = store_new (get name cookies) name value cookies

  -- The loop over the pairs.
  unfoldable pub parse_pairs : List String → Dict String → Dict String
  unfolding parse_pair
  parse_pairs [] cookies = cookies
  parse_pairs (pair ∷ pairs) cookies = parse_pairs pairs (store (parse_pair pair) cookies)

  unfoldable pub parse_cookie_header : Header → Dict String
  unfolding parse_pairs split_at
  parse_cookie_header header =
      let flat = flatten_header header in
      if str_eq flat "" then [] else parse_pairs (split_at b';' flat) []

-- `name.slice(prefix.length)`, if the name starts with the prefix.
unfoldable pub after_prefix : String → String → Option String
after_prefix String.[] s = some s
after_prefix (String.◌∷◌ c p) String.[] = none
after_prefix (String.◌∷◌ c p) (String.◌∷◌ d s) =
    let rest = after_prefix p s in if code c == code d then rest else none

abbrev is_digit : ℕ → Bool
is_digit c = leb b'0' c && leb c b'9'

-- The number that digits stand for; nothing if some other character is among them.
unfoldable pub digits_value : ℕ → String → Option ℕ
digits_value n String.[] = some n
digits_value n (String.◌∷◌ c s) =
    let rest = digits_value (n * 10 + (code c - b'0')) s in if is_digit (code c) then rest else none

-- `/^\d+$/.test(suffix)` and `Number.parseInt(suffix, 10)`.
unfoldable pub index_of : String → Option ℕ
unfolding digits_value
index_of suffix = if str_eq suffix "" then none else digits_value 0 suffix

abbrev pub suffix_index : Option String → Option ℕ
suffix_index none = none
suffix_index (some suffix) = elim (index_of suffix) [ none ↦ none | some n ↦ some (suc n) ]

-- The sort key of a cookie, plus one: nothing for a cookie that is no chunk.
unfoldable pub chunk_index : String → String → Option ℕ
unfolding after_prefix index_of
chunk_index cookie_name name =
    if str_eq name cookie_name then some 0 else suffix_index (after_prefix (cookie_name & ".") name)

abbrev pub Chunk : Type 0
Chunk = ℕ × String

abbrev pub entry : Option ℕ → String → List Chunk → List Chunk
entry none value chunks = chunks
entry (some i) value chunks = (i, value) ∷ chunks

unfoldable pub ordered : String → Dict String → List Chunk
unfolding chunk_index
ordered cookie_name [] = []
ordered cookie_name ((name, value) ∷ cookies) =
    entry (chunk_index cookie_name name) value (ordered cookie_name cookies)

-- `ordered.sort((a, b) => a.index - b.index)`, which is stable.
unfoldable pub insert : Chunk → List Chunk → List Chunk
insert x [] = x ∷ []
insert (i, v) ((j, u) ∷ chunks) =
    let rest = insert (i, v) chunks in if leb i j then (i, v) ∷ (j, u) ∷ chunks else (j, u) ∷ rest

unfoldable pub sort : List Chunk → List Chunk
unfolding insert
sort [] = []
sort (x ∷ chunks) = insert x (sort chunks)

abbrev pub value_of : Chunk → String
value_of (i, v) = v

abbrev pub joined : List Chunk → Option String
joined [] = none
joined (x ∷ chunks) = some (join_texts (map value_of (sort (x ∷ chunks))))

unfoldable pub read_chunked_cookie : Dict String → String → Option String
unfolding ordered sort
read_chunked_cookie cookies cookie_name = joined (ordered cookie_name cookies)
