-- ===== src/Common/Dict.antt =====
-- A JavaScript `Map` with text keys, as the list of its entries in insertion order: `set` replaces
-- the value of a key that is there and appends a new one, `delete_where` is the loop
-- `for (const [k, v] of map) if (test(k, v)) map.delete(k)`.
use one_crew.Common.Tests.{if◌then◌else◌, str_eq_of_ne, str-cases}
use Prim.Native.String.{String}
use mathlib.Core.Path.{◌≡◌, refl, sym}
use mathlib.Core.Logic.{◌≢◌, inl, inr}
use mathlib.Core.Bool.{Bool}
use mathlib.Core.Option.{Option, none, some}
use mathlib.Core.List.{List, [], ◌∷◌}
use native.Mathlib.Omega.{arith}
use text.Mathlib.Text.{◌==◌ as str_eq}
use text.Mathlib.TextEquality.{eq_iff}
use text.Mathlib.TextPositions.{eq_refl}

abbrev pub Dict {ℓ} : Type ℓ → Type ℓ
Dict V = List (String × V)

module _ {ℓ} {V : Type ℓ} where
  unfoldable pub get : String → Dict V → Option V
  get k [] = none
  get k ((j, v) ∷ m) = if str_eq j k then some v else get k m

  unfoldable pub set : String → V → Dict V → Dict V
  set k v [] = (k, v) ∷ []
  set k v ((j, w) ∷ m) = if str_eq j k then (j, v) ∷ m else (j, w) ∷ set k v m

  unfoldable pub delete_where : (V → Bool) → Dict V → Dict V
  delete_where drop [] = []
  delete_where drop ((j, v) ∷ m) =
      let rest = delete_where drop m in if drop v then rest else (j, v) ∷ rest

  pub get-set :
      (k j : String) (v : V) (m : Dict V)
      → get j (set k v m) ≡ (if str_eq k j then some v else get j m)
  unfolding get set
  get-set k j v [] = refl
  get-set k j v ((i, w) ∷ m) = ground (arith, eq_iff k j, eq_iff i k, eq_iff i j, get-set k j v m)

  pub get-set_ne : (k j : String) (v : V) (m : Dict V) → k ≢ j → get j (set k v m) ≡ get j m
  get-set_ne k j v m h = rw (get-set k j v m, str_eq_of_ne k j h)

  pub get-set_self : (k : String) (v : V) (m : Dict V) → get k (set k v m) ≡ some v
  get-set_self k v m = rw (get-set k k v m, eq_refl k)

  -- No key stands twice, as in every JavaScript `Map`.
  abbrev pub HasDistinctKeys : Dict V → Type ℓ
  HasDistinctKeys [] = Unit
  HasDistinctKeys ((k, v) ∷ m) = (get k m ≡ none) × HasDistinctKeys m

  pub set-HasDistinctKeys :
      (k : String) (v : V) (m : Dict V) → HasDistinctKeys m → HasDistinctKeys (set k v m)
  unfolding set get
  set-HasDistinctKeys k v [] d = (refl, tt)
  set-HasDistinctKeys k v ((j, w) ∷ m) (fresh, d) = elim (str-cases j k) [
    | inl e ↦ rw ((eq_iff j k).1 e) (fresh, d)
    | inr n ↦ rw (str_eq_of_ne j k n) (
      (rw (get-set k j v m, str_eq_of_ne k j (λ e. n (sym e))) fresh),
      set-HasDistinctKeys k v m d,
    )
  ]

  abbrev pub unless_dropped : (V → Bool) → Option V → Option V
  unless_dropped drop none = none
  unless_dropped drop (some v) = if drop v then none else some v

  get-delete_where-none :
      (drop : V → Bool) (k : String) (m : Dict V)
      → get k m ≡ none
      → get k (delete_where drop m) ≡ none
  unfolding get delete_where
  get-delete_where-none drop k [] h = refl
  get-delete_where-none drop k ((j, v) ∷ m) h =
      ground (arith, eq_iff j k, get-delete_where-none drop k m)

  pub get-delete_where :
      (drop : V → Bool) (k : String) (m : Dict V)
      → HasDistinctKeys m
      → get k (delete_where drop m) ≡ unless_dropped drop (get k m)
  unfolding get delete_where
  get-delete_where drop k [] d = refl
  get-delete_where drop k ((j, v) ∷ m) (fresh, d) = elim (str-cases j k) [
    | inl e ↦
        let gone : get k (delete_where drop m) ≡ none =
          get-delete_where-none drop k m (rw (← e) fresh) in
        ground (arith, eq_iff j k)
    | inr n ↦ ground (arith, eq_iff j k, get-delete_where drop k m d)
  ]

  pub delete_where-HasDistinctKeys :
      (drop : V → Bool) (m : Dict V) → HasDistinctKeys m → HasDistinctKeys (delete_where drop m)
  unfolding delete_where
  delete_where-HasDistinctKeys drop [] d = tt
  delete_where-HasDistinctKeys drop ((j, v) ∷ m) (fresh, d) =
      ground (arith, delete_where-HasDistinctKeys drop m d, get-delete_where-none drop j m fresh)
