-- ===== src/Channels/Tests.antt =====
-- Runs of the endpoints of the channels on a table in memory.
use one_crew.Common.{◌≤◌, ◌≡◌, refl, ◌⊎◌, String, true, false, none, some, []}
use one_crew.Workspace.{done}
use one_crew.Api.{require_session, enforce_rate_limit}
use one_crew.Common.Dict.{get}
use one_crew.RateLimit.{rate_limit, consume, refill, sweep_if_needed}
use one_crew.Channels.{set_knowledge, get_knowledge}
use one_crew.Channels.Memory.{Db, town}
use one_crew.Channels.Route.{field, content, World, post_member, delete_member, put_card, get_card}
use one_crew.Channels.Members.{IsAuthorized, HasAdded, IsOnlyChange, members_guarded}
use one_crew.Channels.Knowledge.{IsContent, IsOnlyCard, card_read_back}

abbrev nobody : Db
nobody = record { roles = λ c u. none; cards = λ c. none }

abbrev opening : World town
opening = record {
  db = nobody;
  limiter = record { buckets = []; sweep_in_progress = false };
  env = none;
}

members_guarded_example :
    (((post_member town (some "mia") "c1" (field "ada") 7 opening).1.db ≡ nobody)
      ⊎ (IsAuthorized town (some "mia") 7 "c1" opening
          × (user : String) × (field "ada" ≡ field user)
          × (done true ≡ done true)
          × HasAdded town "c1" user nobody
              (post_member town (some "mia") "c1" (field "ada") 7 opening).1.db))
    × (((delete_member town (some "mia") "c1" (some "bob") 7 opening).1.db ≡ nobody)
        ⊎ (IsAuthorized town (some "mia") 7 "c1" opening
            × (user : String) × (some "bob" ≡ some user)
            × IsOnlyChange town "c1" user none nobody
                (delete_member town (some "mia") "c1" (some "bob") 7 opening).1.db))
members_guarded_example =
    members_guarded town (some "mia") "c1" (field "ada") (some "bob") 7 opening

card_saved : IsContent (put_card town (λ s. 5) (some "mia") "c1" (field "rules") 7 opening).0
unfolding put_card require_session enforce_rate_limit rate_limit consume refill get set_knowledge
    sweep_if_needed
card_saved = tt

card_shown :
    (get_card town
      (some "bob")
      "c1"
      (put_card town (λ s. 5) (some "mia") "c1" (field "rules") 7 opening).1).0
    ≡ content (some "rules")
unfolding put_card get_card get_knowledge require_session enforce_rate_limit rate_limit consume
    refill get set_knowledge sweep_if_needed
card_shown = refl

card_read_back_example :
    (text : String) × (field "rules" ≡ field text)
    × (5 ≤ 8_000)
    × (some "rules" ≡ some text)
    × IsOnlyCard town
        (λ s. 5)
        "c1"
        text
        nobody
        (put_card town (λ s. 5) (some "mia") "c1" (field "rules") 7 opening).1.db
card_read_back_example =
    card_read_back town (λ s. 5) (some "mia") "c1" (field "rules") 7 opening (some "bob")
      (some "rules") card_saved card_shown
