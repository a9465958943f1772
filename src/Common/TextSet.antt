-- ===== src/Common/TextSet.antt =====
-- A JavaScript `Set` of texts, as the list of its members in insertion order.
use one_crew.Common.Tests.{if◌then◌else◌}
use Prim.Native.String.{String}
use mathlib.Core.Path.{◌≡◌, refl}
use mathlib.Core.Bool.{Bool, false, not, ◌&&◌, ◌||◌}
use mathlib.Core.List.{List, [], ◌∷◌, ◌++◌}
use native.Mathlib.Omega.{arith}
use text.Mathlib.Text.{◌==◌ as str_eq}
use text.Mathlib.TextEquality.{eq_iff}

unfoldable pub has : String → List String → Bool
has x [] = false
has x (y ∷ ys) = str_eq y x || has x ys

unfoldable pub add : String → List String → List String
unfolding has
add x s = if has x s then s else s ++ x ∷ []

unfoldable pub remove : String → List String → List String
remove x [] = []
remove x (y ∷ ys) = let rest = remove x ys in if str_eq y x then rest else y ∷ rest

has-append : (x y : String) (s : List String) → has x (s ++ y ∷ []) ≡ (has x s || str_eq y x)
unfolding has
has-append x y [] = ground arith
has-append x y (z ∷ s) = ground (arith, has-append x y s)

pub has-add : (x y : String) (s : List String) → has x (add y s) ≡ (has x s || str_eq y x)
unfolding add
has-add x y s = ground (arith, has-append x y s, eq_iff y x)

pub has-remove :
    (x y : String) (s : List String) → has x (remove y s) ≡ (has x s && not (str_eq y x))
unfolding has remove
has-remove x y [] = refl
has-remove x y (z ∷ s) = ground (arith, has-remove x y s, eq_iff z y, eq_iff z x, eq_iff y x)
