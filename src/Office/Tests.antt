-- ===== src/Office/Tests.antt =====
-- Runs of a hand-off through the wired services.
use one_crew.Common.{◌≡◌, refl, ◌⊎◌, none, some, []}
use one_crew.Common.Dict.{get}
use one_crew.WakeChain.{
  WakeContext, WakeDenyReason, ok, denied, authorize_wake, default_wake_env, derive_child_context,
}
use one_crew.AgenticLoop.{begin}
use one_crew.Tools.{DispatchContext}
use one_crew.Tools.Dispatch.{wake_assignee}
use one_crew.Office.{team}
use one_crew.Office.Memory.{outside, office, hopper}
use one_crew.Office.Handoffs.{hand_off_begins}

abbrev parent : WakeContext
parent = record { chain_id = "c1"; hop = 0; origin_user_id = "mia"; from_ai_user_id = none }

abbrev ada : DispatchContext
ada = record { ai_user_id = "ada"; allowed_tools = none; wake_context = some parent }

hand_off_begins_example :
    (((authorize_wake default_wake_env []
          (some "ada")
          "hopper"
          (derive_child_context parent "ada")
          7).0
        ≡ ok)
      × ((wake_assignee (team outside) (some parent) ada "t1" "PROJ-1" hopper office).1.loop
          ≡ begin "hopper" (some (derive_child_context parent "ada")) office.loop))
    ⊎ (((r : WakeDenyReason) × ((authorize_wake default_wake_env []
              (some "ada")
              "hopper"
              (derive_child_context parent "ada")
              7).0
            ≡ denied r))
        × ((wake_assignee (team outside) (some parent) ada "t1" "PROJ-1" hopper office).1 ≡ office))
unfolding get
hand_off_begins_example = hand_off_begins outside parent ada "t1" "PROJ-1" hopper office tt refl
