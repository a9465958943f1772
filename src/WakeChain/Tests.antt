-- ===== src/WakeChain/Tests.antt =====
-- Runs of the chokepoint, and the theorems about it at concrete wakes.
use one_crew.Common.{◌≤◌, ◌≡◌, refl, none, some, [], ◌∷◌}
use one_crew.Common.Dict.{get, set, delete_where}
use one_crew.WakeChain.{
  WakeContext, denied, hop_budget, WakeEnv, pair_key_of, sweep_idle, start_human_chain,
  derive_child_context, check_pair_and_record, authorize_wake, peek_wake,
}
use one_crew.WakeChain.Runs.{Wake, authorized, authorized_pair, chain_activation_bound}

chokepoint : Unit {0}
unfolding get set delete_where sweep_idle start_human_chain derive_child_context pair_key_of
    check_pair_and_record authorize_wake peek_wake authorized authorized_pair
chokepoint = tt

abbrev tight : WakeEnv
tight = record { max_hops = 2; max_pair_repeats = 1; max_chain_activations = 3 }

abbrev human : WakeContext
human = record { chain_id = "c1"; hop = 0; origin_user_id = "mia"; from_ai_user_id = none }

abbrev from_ada : WakeContext
from_ada = record { chain_id = "c1"; hop = 1; origin_user_id = "mia"; from_ai_user_id = some "ada" }

abbrev root_wake : Wake
root_wake = record { to = "ada"; ctx = human; now = 5 }

abbrev ada_wake : Wake
ada_wake = record { to = "hopper"; ctx = from_ada; now = 6 }

-- The second hand-off over one pair is refused, and counts for nothing.
a_run :
    (authorized tight "c1" [] (root_wake ∷ ada_wake ∷ ada_wake ∷ root_wake ∷ root_wake ∷ []) ≡ 3)
    × (authorized_pair tight "c1" "ada->hopper" [] (root_wake ∷ ada_wake ∷ ada_wake ∷ []) ≡ 1)
    × ((authorize_wake tight [] none "ada" (record human { hop = 3 }) 5).0 ≡ denied hop_budget)
unfolding chokepoint
a_run = (refl, refl, refl)

chain_activation_bound_example : authorized tight "c1" [] (root_wake ∷ ada_wake ∷ []) ≤ 3
unfolding chokepoint
chain_activation_bound_example =
    chain_activation_bound tight "c1" [] (root_wake ∷ ada_wake ∷ []) tt (refl, (refl, tt)) refl
