-- ===== src/Cookies/Tests.antt =====
-- Runs of the cookie parser, with a `trim` that takes off leading blanks and no percent-decoding.
use one_crew.Common.{◌≡◌, refl, String, some, [], ◌∷◌, arith, ◌==◌, if◌then◌else◌}
use one_crew.Common.Dict.{get, set}
use one_crew.Cookies.{
  chunk_index, index_of, Scripting, one, parse_cookie_header, read_chunked_cookie, join_texts,
}
use one_crew.Cookies.Chunks.{Piece, Ascends, IsOther, chunks_read_back}
use mathlib.Core.List.{Permᴰ}
use Prim.Native.Char.{code}

abbrev left_trim : String → String
left_trim String.[] = ""
left_trim (String.◌∷◌ c s) = let rest = left_trim s in if code c == 32 then rest else String.◌∷◌ c s

abbrev js : Scripting
js = record { trim = left_trim; decode = λ s. some s }

abbrev header : String
header = "s.10=c; theme=dark; s.9=b; s=\"a\"; s.9=x"

parsed :
    parse_cookie_header js (one header)
    ≡ ("s.10", "c") ∷ ("theme", "dark") ∷ ("s.9", "b") ∷ ("s", "a") ∷ []
unfolding parse_cookie_header get set
parsed = refl

read :
    read_chunked_cookie (("s.10", "c") ∷ ("theme", "dark") ∷ ("s.9", "b") ∷ ("s", "a") ∷ []) "s"
    ≡ some "abc"
unfolding read_chunked_cookie
read = refl

abbrev ninth : Piece
ninth = record { index = 9; suffix = "9"; value = "b" }

abbrev tenth : Piece
tenth = record { index = 10; suffix = "10"; value = "c" }

theme-IsOther : IsOther "s" ("theme", "dark")
unfolding chunk_index
theme-IsOther = refl

ascending : Ascends 0 (ninth ∷ tenth ∷ [])
unfolding index_of
ascending = (refl, omega arith, (refl, omega arith, tt))

chunks_read_back_example :
    read_chunked_cookie (("s.10", "c") ∷ ("s.9", "b") ∷ ("theme", "dark") ∷ []) "s"
    ≡ some (join_texts ("b" ∷ "c" ∷ []))
chunks_read_back_example =
    chunks_read_back "s" ninth (tenth ∷ []) (("theme", "dark") ∷ [])
      (("s.10", "c") ∷ ("s.9", "b") ∷ ("theme", "dark") ∷ []) ascending (theme-IsOther, tt)
      (Permᴰ.swap refl refl)
