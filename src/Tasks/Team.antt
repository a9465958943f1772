-- ===== src/Tasks/Team.antt =====
-- `resolveTeammate` and `resolveHandoffTarget`: who is meant by an id or a name. The queries of the
-- database, in the caller's workspace, and `trim` are parameters.
use one_crew.Common.{String, Bool, true, false, Option, none, some, str_eq, if◌then◌else◌}
use one_crew.Common.Texts.{Attempt, returns, throws}

-- `{ id, name }` of a teammate.
pub record Teammate : Type 0 where
  pub id : String
  pub name : String

-- `HandoffTargetResolution`
pub data Resolution : Type 0 where
  target : Teammate → Resolution
  not_found not_shared_channel : Resolution

-- The AI of an id, the AI of a name in any case, and whether two users share a channel.
pub record Roster : Type 0 where
  pub by_id : String → Attempt (Option Teammate)
  pub by_name : String → Attempt (Option Teammate)
  pub shares_channel : String → String → Attempt Bool

module _ (trim : String → String) (r : Roster) where
  -- `selector?.trim()`, where an empty text counts as none.
  abbrev pub cleaned : Option String → Option String
  cleaned none = none
  cleaned (some t) = if str_eq (trim t) "" then none else some (trim t)

  abbrev look_by_name : Option String → Attempt (Option Teammate)
  look_by_name none = returns none
  look_by_name (some name) = r.by_name name

  abbrev or_by_name : Option String → Attempt (Option Teammate) → Attempt (Option Teammate)
  or_by_name name (throws m) = throws m
  or_by_name name (returns (some mate)) = returns (some mate)
  or_by_name name (returns none) = look_by_name name

  abbrev look_by_id : Option String → Option String → Attempt (Option Teammate)
  look_by_id none name = look_by_name name
  look_by_id (some id) name = or_by_name name (r.by_id id)

  unfoldable pub resolve_teammate : Option String → Option String → Attempt (Option Teammate)
  resolve_teammate ai_user_id ai_name = look_by_id (cleaned ai_user_id) (cleaned ai_name)

  abbrev if_shared : Teammate → Attempt Bool → Attempt Resolution
  if_shared mate (throws m) = throws m
  if_shared mate (returns true) = returns (target mate)
  if_shared mate (returns false) = returns not_shared_channel

  abbrev if_found : String → Attempt (Option Teammate) → Attempt Resolution
  if_found caller (throws m) = throws m
  if_found caller (returns none) = returns not_found
  if_found caller (returns (some mate)) = if_shared mate (r.shares_channel mate.id caller)

  unfoldable pub resolve_handoff_target :
      String → Option String → Option String → Attempt Resolution
  unfolding resolve_teammate
  resolve_handoff_target caller id name = if_found caller (resolve_teammate id name)
