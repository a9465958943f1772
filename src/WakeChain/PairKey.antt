-- ===== src/WakeChain/PairKey.antt =====
-- The key `${from}->${to}` of an ordered pair determines the pair, where no identifier holds "->".
use Prim.Native.Char.{Char, code}
use Prim.Native.String
use Prim.Native.String.{[], ◌∷◌}
use text.Mathlib.TextLemmas.{nil-append, cons-append}
use one_crew.Common.{ℕ, ◌≡◌, refl, sym, ap, String, arith}
use one_crew.WakeChain.{pair_key_of}

abbrev StartsWithGt : String → Type 0
StartsWithGt [] = ⊥
StartsWithGt (c ∷ s) = code c ≡ b'>'

-- No "-" is followed by ">".
abbrev pub HasNoArrow : String → Type 0
HasNoArrow [] = Unit
HasNoArrow (c ∷ s) = (code c ≡ b'-' → ¬ StartsWithGt s) × HasNoArrow s

abbrev arrow : String → String
arrow to = "-" ∷ ">" ∷ to

arrow_lem : (to : String) → String.◌++◌ "->" to ≡ arrow to
arrow_lem to = rw (cons-append, cons-append, nil-append)

cons-injective : (c d : Char) (s t : String) → c ∷ s ≡ d ∷ t → (c ≡ d) × (s ≡ t)
cons-injective c d s t e = (cc, cc)

arrow_not_inside :
    (s b b' : String) → HasNoArrow s → arrow b ≡ String.◌++◌ s (arrow b') → (s ≡ []) × (b ≡ b')
arrow_not_inside [] b b' n e = (refl, cc (nil-append (arrow b')))
arrow_not_inside (c ∷ []) b b' n e =
    let (_, e') = cons-injective _ _ _ _ (rw (cons-append, nil-append) at e) in
    let (wrong, _) = cons-injective _ _ _ _ e' in
    let codes : ◌≡◌ {A = ℕ} b'>' b'-' = ap code wrong in absurd (omega arith)
arrow_not_inside (c ∷ (d ∷ s)) b b' n e =
    let (first, e') = cons-injective _ _ _ _ (rw (cons-append, cons-append) at e) in
    let (second, _) = cons-injective _ _ _ _ e' in
    absurd (n.0 (sym (ap code first)) (sym (ap code second)))

split_unique :
    (a a' b b' : String)
    → HasNoArrow a
    → HasNoArrow a'
    → String.◌++◌ a (arrow b) ≡ String.◌++◌ a' (arrow b')
    → (a ≡ a') × (b ≡ b')
split_unique [] a' b b' n n' e =
    let (same, rest) = arrow_not_inside a' b b' n' (rw nil-append at e) in (sym same, rest)
split_unique (c ∷ s) [] b b' n n' e =
    let (same, rest) = arrow_not_inside (c ∷ s) b' b n (sym (rw (nil-append (arrow b')) at e)) in
    (same, sym rest)
split_unique (c ∷ s) (c' ∷ s') b b' n n' e =
    let (heads, tails) = cons-injective c c' _ _ (simp cons-append at e) in
    let (same, rest) = split_unique s s' b b' n.1 n'.1 tails in (cc, rest)

-- Two ordered pairs of AI ids share a key only if they are the same pair, when the ids they start
-- with do not contain the separator's arrow.
pub pair_key_of-injective :
    (from from' to to' : String)
    → HasNoArrow from
    → HasNoArrow from'
    → pair_key_of from to ≡ pair_key_of from' to'
    → (from ≡ from') × (to ≡ to')
unfolding pair_key_of
pair_key_of-injective from from' to to' n n' e =
    split_unique from from' to to' n n' (rw (← arrow_lem to, ← arrow_lem to') e)
