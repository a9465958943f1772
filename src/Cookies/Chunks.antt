-- ===== src/Cookies/Chunks.antt =====
-- The chunks of a token are put together in the order of their numbers.
use one_crew.Common.{
  ℕ, suc, ◌≤◌, ◌<◌, ◌≡◌, ◌≢◌, refl, sym, ap, subst, ◌∙◌, String, false, Option, none, some, List,
  [], ◌∷◌, ◌++◌, map, All, arith, str_eq, str_eq_of_ne,
}
use one_crew.Common.Dict.{Dict}
use one_crew.Common.Texts.{◌&◌}
use one_crew.Cookies.{
  Chunk, join_texts, after_prefix, index_of, chunk_index, ordered, insert, sort, value_of,
  read_chunked_cookie, entry, joined, suffix_index,
}
use mathlib.Core.List.{Permᴰ}
use mathlib.Core.List.Permᴰ.{refl as perm_refl}
use Prim.Native.String.append
use native.Mathlib.Decide.{dec_lt, dec_le}

-- No chunk of the list has this number.
abbrev Differs : Chunk → List Chunk → Type 0
Differs x = All (λ (c : Chunk). x.0 ≢ c.0)

abbrev Distinct : List Chunk → Type 0
Distinct [] = Unit
Distinct (x ∷ xs) = Differs x xs × Distinct xs

insert_le :
    (i j : ℕ) (v u : String) (l : List Chunk)
    → i ≤ j
    → insert (i, v) ((j, u) ∷ l) ≡ (i, v) ∷ (j, u) ∷ l
unfolding insert
insert_le i j v u l h = ground arith

insert_gt :
    (i j : ℕ) (v u : String) (l : List Chunk)
    → j < i
    → insert (i, v) ((j, u) ∷ l) ≡ (j, u) ∷ insert (i, v) l
unfolding insert
insert_gt i j v u l h = ground arith

insert_nil : (x : Chunk) → insert x [] ≡ x ∷ []
unfolding insert
insert_nil x = refl

-- Smaller first; where the list begins with a chunk that is after the one and before the other.
insert_comm_lt :
    (i j : ℕ) (v u : String) (l : List Chunk)
    → i < j
    → insert (i, v) (insert (j, u) l) ≡ insert (j, u) (insert (i, v) l)
insert_comm_lt i j v u [] h = rw (
  insert_nil (i, v),
  insert_nil (j, u),
  insert_le i j v u [] (omega arith),
  insert_gt j i u v [] h,
  insert_nil (j, u),
)
insert_comm_lt i j v u ((k, w) ∷ l) h = elim (dec_le j k) [
  | yes a ↦ rw (
    insert_le j k u w l a,
    insert_le i j v u ((k, w) ∷ l) (omega arith),
    insert_le i k v w l (omega arith),
    insert_gt j i u v ((k, w) ∷ l) h,
    insert_le j k u w l a,
  )
  | no a ↦ elim (dec_le i k) [
    | yes b ↦ rw (
      insert_gt j k u w l (omega arith),
      insert_le i k v w (insert (j, u) l) b,
      insert_le i k v w l b,
      insert_gt j i u v ((k, w) ∷ l) h,
      insert_gt j k u w l (omega arith),
    )
    | no b ↦ rw (
      insert_gt j k u w l (omega arith),
      insert_gt i k v w (insert (j, u) l) (omega arith),
      insert_gt i k v w l (omega arith),
      insert_gt j k u w (insert (i, v) l) (omega arith),
      insert_comm_lt i j v u l h,
    )
  ]
]

insert_comm :
    (x y : Chunk) (l : List Chunk) → x.0 ≢ y.0 → insert x (insert y l) ≡ insert y (insert x l)
insert_comm (i, v) (j, u) l n = elim (dec_lt i j) [
  | yes h ↦ insert_comm_lt i j v u l h
  | no h ↦ sym (insert_comm_lt j i u v l (omega arith))
]

Differs-perm : (x : Chunk) {xs ys : List Chunk} → Permᴰ xs ys → Differs x xs → Differs x ys
Differs-perm x Permᴰ.nil d = tt
Differs-perm x (Permᴰ.cons e p) (h, d) = ((rw (← e) h), Differs-perm x p d)
Differs-perm x (Permᴰ.swap e f) (h, (g, d)) = ((rw (← f) g), ((rw (← e) h), d))
Differs-perm x (Permᴰ.trans p q) d = Differs-perm x q (Differs-perm x p d)

Distinct-perm : {xs ys : List Chunk} → Permᴰ xs ys → Distinct xs → Distinct ys
Distinct-perm Permᴰ.nil d = tt
Distinct-perm (Permᴰ.cons {a = a} {l₂ = l} e p) (h, d) =
    ((subst (λ x. Differs x l) e (Differs-perm a p h)), Distinct-perm p d)
Distinct-perm (Permᴰ.swap {l = l} e f) ((n, h), (g, d)) =
    (((λ q. n (cc)), subst (λ x. Differs x l) f g), ((subst (λ x. Differs x l) e h), d))
Distinct-perm (Permᴰ.trans p q) d = Distinct-perm q (Distinct-perm p d)

-- Sorting forgets the order in which chunks of different numbers stood.
sort-perm : {xs ys : List Chunk} → Permᴰ xs ys → Distinct xs → sort xs ≡ sort ys
unfolding sort
sort-perm Permᴰ.nil d = refl
sort-perm (Permᴰ.cons e p) (h, d) = rw (e, sort-perm p d)
sort-perm (Permᴰ.swap {a = a} {b = b} {l = l} e f) ((n, h), (g, d)) =
    rw (← e, ← f) (insert_comm a b (sort l) n)
sort-perm (Permᴰ.trans p q) d = sort-perm p d ∙ sort-perm q (Distinct-perm p d)

entry-perm :
    (o : Option ℕ) (v : String) {xs ys : List Chunk}
    → Permᴰ xs ys
    → Permᴰ (entry o v xs) (entry o v ys)
entry-perm none v p = p
entry-perm (some i) v p = Permᴰ.cons refl p

entry_swap :
    (o q : Option ℕ) (v u : String) (l : List Chunk)
    → Permᴰ (entry o v (entry q u l)) (entry q u (entry o v l))
entry_swap none q v u l = perm_refl _
entry_swap (some i) none v u l = perm_refl _
entry_swap (some i) (some j) v u l = Permᴰ.swap refl refl

abbrev Cookie : Type 0
Cookie = String × String

ordered_cons :
    (n : String) (c : Cookie) (cookies : Dict String)
    → ordered n (c ∷ cookies) ≡ entry (chunk_index n c.0) c.1 (ordered n cookies)
unfolding ordered
ordered_cons n (name, value) cookies = refl

ordered-perm :
    (n : String) {xs ys : Dict String} → Permᴰ xs ys → Permᴰ (ordered n xs) (ordered n ys)
unfolding ordered
ordered-perm n Permᴰ.nil = Permᴰ.nil
ordered-perm n (Permᴰ.cons {b = b} e p) =
    rw e (entry-perm (chunk_index n b.0) b.1 (ordered-perm n p))
ordered-perm n (Permᴰ.swap {a = a} {b = b} e f) =
    rw (← e, ← f) (entry_swap (chunk_index n a.0) (chunk_index n b.0) a.1 b.1 _)
ordered-perm n (Permᴰ.trans p q) = Permᴰ.trans (ordered-perm n p) (ordered-perm n q)

-- A piece of a token: its number, the number's text, and the text of the piece.
pub record Piece : Type 0 where
  pub index : ℕ
  pub suffix : String
  pub value : String

-- The pieces have ascending numbers, from `lo` on, which their suffixes stand for.
abbrev pub Ascends : ℕ → List Piece → Type 0
Ascends lo [] = Unit
Ascends lo (p ∷ ps) = (index_of p.suffix ≡ some p.index) × (lo ≤ p.index) × Ascends (suc p.index) ps

abbrev pub cookie_of : String → Piece → String × String
cookie_of n p = (n & "." & p.suffix, p.value)

abbrev pub piece_value : Piece → String
piece_value p = p.value

abbrev numbered : Piece → Chunk
numbered p = (suc p.index, p.value)

after_prefix-append : (n s : String) → after_prefix (n & ".") (n & "." & s) ≡ some s
unfolding after_prefix
after_prefix-append String.[] s =
    rw (append.nil, append.nil, append.cons, append.nil) (ground arith)
after_prefix-append (String.◌∷◌ c n) s =
    rw (append.cons, append.cons) (ground (arith, after_prefix-append n s))

after_prefix_self : (n : String) → after_prefix (n & ".") n ≡ none
unfolding after_prefix
after_prefix_self String.[] = refl
after_prefix_self (String.◌∷◌ c n) = rw append.cons (ground (arith, after_prefix_self n))

-- The cookie of a piece has the piece's number, and its own name is another.
chunk_index-cookie :
    (n : String) (p : Piece)
    → index_of p.suffix ≡ some p.index
    → chunk_index n (cookie_of n p).0 ≡ some (suc p.index)
unfolding chunk_index
chunk_index-cookie n p e =
    let other : str_eq (n & "." & p.suffix) n ≡ false = str_eq_of_ne _ _ (λ q.
      cc (after_prefix-append n p.suffix, after_prefix_self n, ap (after_prefix (n & ".")) q)) in
    rw (other, after_prefix-append n p.suffix, suffix_index, e)

-- A cookie that is no chunk of the token.
abbrev pub IsOther : String → String × String → Type 0
IsOther n c = chunk_index n c.0 ≡ none

ordered_others :
    (n : String) (others : Dict String) → All (IsOther n) others → ordered n others ≡ []
unfolding ordered
ordered_others n [] h = refl
ordered_others n ((m, v) ∷ others) (e, h) = rw (e, ordered_others n others h)

ordered_pieces :
    (n : String) (lo : ℕ) (ps : List Piece) (others : Dict String)
    → Ascends lo ps
    → All (IsOther n) others
    → ordered n (map (cookie_of n) ps ++ others) ≡ map numbered ps
ordered_pieces n lo [] others a h = ordered_others n others h
ordered_pieces n lo (p ∷ ps) others (e, l, a) h = rw (
  ordered_cons n (cookie_of n p) (map (cookie_of n) ps ++ others),
  chunk_index-cookie n p e,
  ordered_pieces n (suc p.index) ps others a h,
)

-- Ascending chunks are distinct, and sorting leaves them as they are.
Differs-ascending :
    (i : ℕ) (v : String) (lo : ℕ) (ps : List Piece)
    → i ≤ lo
    → Ascends lo ps
    → Differs (i, v) (map numbered ps)
Differs-ascending i v lo [] h a = tt
Differs-ascending i v lo (p ∷ ps) h (e, l, a) =
    ((omega arith), Differs-ascending i v (suc p.index) ps (omega arith) a)

Distinct-ascending : (lo : ℕ) (ps : List Piece) → Ascends lo ps → Distinct (map numbered ps)
Distinct-ascending lo [] a = tt
Distinct-ascending lo (p ∷ ps) (e, l, a) = (
  Differs-ascending (suc p.index) p.value (suc p.index) ps (omega arith) a,
  Distinct-ascending (suc p.index) ps a,
)

insert_first :
    (i : ℕ) (v : String) (lo : ℕ) (ps : List Piece)
    → i ≤ lo
    → Ascends lo ps
    → insert (i, v) (map numbered ps) ≡ (i, v) ∷ map numbered ps
insert_first i v lo [] h a = insert_nil (i, v)
insert_first i v lo (p ∷ ps) h (e, l, a) =
    insert_le i (suc p.index) v p.value (map numbered ps) (omega arith)

sort_ascending :
    (lo : ℕ) (ps : List Piece) → Ascends lo ps → sort (map numbered ps) ≡ map numbered ps
unfolding sort
sort_ascending lo [] a = refl
sort_ascending lo (p ∷ ps) (e, l, a) =
    rw (sort_ascending (suc p.index) ps a)
      (insert_first (suc p.index) p.value (suc p.index) ps (omega arith) a)

values : (ps : List Piece) → map value_of (map numbered ps) ≡ map piece_value ps
values [] = refl
values (p ∷ ps) = ap (λ vs. p.value ∷ vs) (values ps)

joined_sorted :
    (xs : List Chunk) (x : Chunk) (l : List Chunk)
    → sort xs ≡ x ∷ l
    → joined xs ≡ some (join_texts (map value_of (x ∷ l)))
unfolding sort
joined_sorted [] x l e = cc
joined_sorted (y ∷ ys) x l e = ap (λ cs. some (join_texts (map value_of cs))) e

-- If a token was split into pieces whose numbers ascend, and its cookies arrive in any order and among
-- any others, then what is read is the pieces joined in the order of their numbers.
pub chunks_read_back :
    (n : String) (p : Piece) (ps : List Piece) (others cookies : Dict String)
    → Ascends 0 (p ∷ ps)
    → All (IsOther n) others
    → Permᴰ (map (cookie_of n) (p ∷ ps) ++ others) cookies
    → read_chunked_cookie cookies n ≡ some (join_texts (map piece_value (p ∷ ps)))
unfolding read_chunked_cookie
chunks_read_back n p ps others cookies a h q =
    let r : Permᴰ (map numbered (p ∷ ps)) (ordered n cookies) =
      rw (← ordered_pieces n 0 (p ∷ ps) others a h) (ordered-perm n q) in
    let sorted : sort (ordered n cookies) ≡ map numbered (p ∷ ps) =
      sym (sort-perm r (Distinct-ascending 0 (p ∷ ps) a)) ∙ sort_ascending 0 (p ∷ ps) a in
    joined_sorted (ordered n cookies) (numbered p) (map numbered ps) sorted
    ∙ ap (λ vs. some (join_texts vs)) (values (p ∷ ps))
