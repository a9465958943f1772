-- ===== src/Cookies/First.antt =====
-- What the map of a header holds under a name.
use one_crew.Common.{
  ◌≡◌, ◌≢◌, refl, sym, ◌∙◌, inl, inr, String, false, Option, none, some, List, [], ◌∷◌, arith,
  str_eq, if◌then◌else◌, eq_iff, eq_refl, str_eq_of_ne, str-cases,
}
use one_crew.Common.Dict.{Dict, get, get-set}
use one_crew.Common.Split.{split_at}
use one_crew.Cookies.{
  Scripting, Header, flatten_header, parse_pair, parse_pairs, store, store_new, parse_cookie_header,
}

module _ (js : Scripting) where
  -- The value of the first pair with a name.
  abbrev pair_or : String → Option (String × String) → Option String → Option String
  pair_or k none rest = rest
  pair_or k (some (name, value)) rest = if str_eq name k then some value else rest

  abbrev pub first_named : String → List String → Option String
  first_named k [] = none
  first_named k (pair ∷ pairs) = pair_or k (parse_pair js pair) (first_named k pairs)

  abbrev or_later : Option String → Option String → Option String
  or_later none o = o
  or_later (some v) o = some v

  store_new-get :
      (k name value : String) (old : Option String) (m : Dict String)
      → get name m ≡ old
      → k ≢ "__proto__"
      → get k (store_new js old name value m)
        ≡ or_later (get k m) (if str_eq name k then some value else none)
  store_new-get k name value (some v) m e n = elim (str-cases name k) [
    | inl q ↦ rw (← q, e) refl
    | inr q ↦ ground (arith, str_eq_of_ne name k q)
  ]
  store_new-get k name value none m e n = elim (str-cases name "__proto__") [
    | inl q ↦
        let other : str_eq name k ≡ false = str_eq_of_ne name k (λ r. n (sym r ∙ q)) in
        ground (arith, other, eq_iff name "__proto__")
    | inr q ↦ elim (str-cases name k) [
      | inl r ↦ rw (str_eq_of_ne name "__proto__" q, get-set name k value m, ← r, e, eq_refl name)
      | inr r ↦
          rw (str_eq_of_ne name "__proto__" q, get-set name k value m, str_eq_of_ne name k r)
            (ground arith)
    ]
  ]

  store-get :
      (k : String) (p : Option (String × String)) (m : Dict String)
      → k ≢ "__proto__"
      → get k (store js p m) ≡ or_later (get k m) (pair_or k p none)
  store-get k none m n = ground arith
  store-get k (some (name, value)) m n = store_new-get k name value (get name m) m refl n

  parse_pairs-get :
      (k : String) (pairs : List String) (m : Dict String)
      → k ≢ "__proto__"
      → get k (parse_pairs js pairs m) ≡ or_later (get k m) (first_named k pairs)
  unfolding parse_pairs
  parse_pairs-get k [] m n = ground arith
  parse_pairs-get k (pair ∷ pairs) m n = ground (
    arith,
    parse_pairs-get k pairs (store js (parse_pair js pair) m) n,
    store-get k (parse_pair js pair) m n,
  )

  -- `__proto__` is never a key of the map.
  store_new-proto :
      (name value : String) (old : Option String) (m : Dict String)
      → get "__proto__" m ≡ none
      → get "__proto__" (store_new js old name value m) ≡ none
  store_new-proto name value (some v) m h = h
  store_new-proto name value none m h = ground (arith, get-set name "__proto__" value m)

  store-proto :
      (p : Option (String × String)) (m : Dict String)
      → get "__proto__" m ≡ none
      → get "__proto__" (store js p m) ≡ none
  store-proto none m h = h
  store-proto (some (name, value)) m h = store_new-proto name value (get name m) m h

  parse_pairs-proto :
      (pairs : List String) (m : Dict String)
      → get "__proto__" m ≡ none
      → get "__proto__" (parse_pairs js pairs m) ≡ none
  unfolding parse_pairs
  parse_pairs-proto [] m h = h
  parse_pairs-proto (pair ∷ pairs) m h =
      parse_pairs-proto pairs (store js (parse_pair js pair) m)
        (store-proto (parse_pair js pair) m h)

  empty_header : (k : String) → first_named k (split_at b';' "") ≡ none
  unfolding parse_pair split_at
  empty_header k = refl

  -- Whatever the header is, absent and malformed ones included, the map holds under a name other than
  -- `__proto__` what the first of the header's pairs with that name says, and nothing if there is
  -- none; and `__proto__` is never a key of it.
  pub parse-first :
      (h : Header) (k : String)
      → k ≢ "__proto__"
      → (get k (parse_cookie_header js h) ≡ first_named k (split_at b';' (flatten_header h)))
        × (get "__proto__" (parse_cookie_header js h) ≡ none)
  unfolding parse_cookie_header get
  parse-first h k n = elim (str-cases (flatten_header h) "") [
    | inl e ↦ rw e (sym (empty_header k), refl)
    | inr q ↦ rw (str_eq_of_ne (flatten_header h) "" q) (
      parse_pairs-get k (split_at b';' (flatten_header h)) [] n,
      parse_pairs-proto (split_at b';' (flatten_header h)) [] refl,
    )
  ]
