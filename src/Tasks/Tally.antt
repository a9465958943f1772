-- ===== src/Tasks/Tally.antt =====
-- A way to write numbers, for the tests: a stroke for each unit.
use Prim.Native.String.{◌∷◌}
use one_crew.Common.{ℕ, zero, suc, ◌≡◌, refl, ap, String}

abbrev pub tally : ℕ → String
tally zero = ""
tally (suc n) = "1" ∷ tally n

pub tally-injective : (m n : ℕ) → tally m ≡ tally n → m ≡ n
tally-injective zero zero e = refl
tally-injective zero (suc n) e = cc
tally-injective (suc m) zero e = cc
tally-injective (suc m) (suc n) e = ap (λ k. suc k) (tally-injective m n cc)
