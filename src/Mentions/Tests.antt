-- ===== src/Mentions/Tests.antt =====
-- Runs of the mentions, with names in lower case.
use one_crew.Common.{ℕ, String, false, List, [], ◌∷◌, All}
use one_crew.Common.Json.{null, object, array, text, cons, nil, field, end}
use one_crew.RateLimit.{Limiter}
use one_crew.WakeChain.{start_human_chain}
use one_crew.Workspace.{done}
use one_crew.Mentions.{AiUser, mention_set, wake_mentioned_ais}
use one_crew.Mentions.Woken.{IsCalledFor, mention_wakes}

abbrev ticking : ℕ → ℕ
ticking i = i

abbrev same_text : String → String
same_text s = s

abbrev empty : Limiter
empty = record { buckets = []; sweep_in_progress = false }

abbrev crew : List AiUser
crew =
    record { id = "u1"; name = "ada"; settings = null }
    ∷ record {
      id = "u2";
      name = "hopper";
      settings = object (field "mentionAliases" (array (cons (text "grace") nil)) end);
    }
    ∷ []

mention_wakes_example :
    All
      (IsCalledFor same_text
        (start_human_chain "c1" "mia")
        (mention_set same_text ("grace" ∷ []) [])
        crew)
      (wake_mentioned_ais same_text "mia" ("grace" ∷ []) ticking "c1" (done crew) empty).0
mention_wakes_example = mention_wakes same_text "mia" ("grace" ∷ []) ticking "c1" (done crew) empty
