-- ===== src/Common/Texts.antt =====
-- Texts put together as template literals and `join` do, and calls that throw a message.
use Prim.Native.Char.{Char}
use Prim.Native.String
use Prim.Native.String.{String}
use mathlib.Core.List.{List, [], ◌∷◌}
use mathlib.Core.Path.{◌≡◌, refl}
use mathlib.Core.Logic.{◌⊎◌, inl, inr}

infixr 60 ◌&◌
abbrev pub ◌&◌ : String → String → String
a & b = String.◌++◌ a b

-- `texts.join(separator)`
abbrev pub join_with : String → List String → String
join_with sep [] = ""
join_with sep (t ∷ ts) = elim ts [ [] ↦ t | u ∷ us ↦ t & sep & join_with sep ts ]

-- A call returns, or throws an error with a message.
pub data Attempt {ℓ} (A : Type ℓ) : Type ℓ where
  returns : A → Attempt A
  throws : String → Attempt A

pub Attempt-cases {ℓ} :
    {A : Type ℓ} (a : Attempt A) → ((x : A) × (a ≡ returns x)) ⊎ ((m : String) × (a ≡ throws m))
Attempt-cases (returns x) = inl (x, refl)
Attempt-cases (throws m) = inr (m, refl)

-- The parts of a split text, with one more character in front, or one more part.
abbrev pub no_parts : List String
no_parts = "" ∷ []

abbrev pub new_part : List String → List String
new_part ps = "" ∷ ps

abbrev pub grow : Char → List String → List String
grow c [] = String.◌∷◌ c "" ∷ []
grow c (p ∷ ps) = String.◌∷◌ c p ∷ ps
