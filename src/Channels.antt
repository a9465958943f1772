-- ===== src/Channels.antt =====
-- lib/services/channel.service.ts: the members of a channel and its knowledge card. Prisma is a
-- parameter, the record `ChannelTable` of queries with the laws that the service relies on. The lists
-- of channels and messages are single queries and are left out. The endpoints are in Channels/Route.
pub mod Route
pub mod Members
pub mod Knowledge
pub mod Memory
mod Tests
use one_crew.Common.{
  ℕ, ◌≡◌, ◌≢◌, ◌⊎◌, String, Bool, true, false, Option, none, some, List, [], ◌∷◌, map, ltb, leb,
  if◌then◌else◌,
}
use one_crew.Workspace.{DbError, Outcome, done, threw}

pub record MemberRow : Type 0 where
  pub user_id : String
  pub name : String
  pub is_ai : Bool
  pub role : String
  pub joined_at : ℕ

-- `ChannelMemberView`, with the time in milliseconds.
pub record ChannelMemberView : Type 0 where
  pub user_id : String
  pub name : String
  pub is_ai : Bool
  pub role : String
  pub joined_at : ℕ

-- `channel?.knowledge ?? null`
abbrev pub flat : Option (Option String) → Option String
flat none = none
flat (some o) = o

-- What the service and its endpoints ask of the database: `role` and `card` read it, the others are
-- queries.
pub record ChannelTable : Type 1 where
  pub Db : Type 0
  -- The role of a member, by channel and user, and the card of a channel.
  pub role : String → String → Db → Option String
  pub card : String → Db → Option String
  pub channel_in_workspace : String → String → Db → Outcome Bool
  pub user_in_workspace : String → String → Db → Outcome Bool
  pub find_user_is_ai : String → Db → Outcome (Option Bool)
  pub upsert_member : String → String → String → Db → Outcome Db
  pub delete_members : String → String → Db → Outcome (ℕ × Db)
  pub members_of : String → Db → Outcome (List MemberRow)
  pub find_card : String → Db → Outcome (Option (Option String))
  pub update_card : String → String → Db → Outcome Db
  -- An upsert writes one membership, and a deletion removes one, if it is there.
  pub upsert_done :
      (c u r : String) (db db' : Db)
      → upsert_member c u r db ≡ done db'
      → (role c u db' ≡ some r)
        × ((c' u' : String) → (c' ≢ c) ⊎ (u' ≢ u) → role c' u' db' ≡ role c' u' db)
        × ((c' : String) → card c' db' ≡ card c' db)
  pub delete_done :
      (c u : String) (n : ℕ) (db db' : Db)
      → delete_members c u db ≡ done (n, db')
      → (role c u db' ≡ none)
        × ((c' u' : String) → (c' ≢ c) ⊎ (u' ≢ u) → role c' u' db' ≡ role c' u' db)
        × ((c' : String) → card c' db' ≡ card c' db)
  -- An update of a card writes one card; a card is read as it is stored.
  pub update_done :
      (c text : String) (db db' : Db)
      → update_card c text db ≡ done db'
      → (card c db' ≡ some text)
        × ((c' : String) → c' ≢ c → card c' db' ≡ card c' db)
        × ((c' u' : String) → role c' u' db' ≡ role c' u' db)
  pub find_card_done :
      (c : String) (db : Db) (o : Option (Option String))
      → find_card c db ≡ done o
      → flat o ≡ card c db

abbrev pub knowledge_max_length : ℕ
knowledge_max_length = 8_000

-- A call of the service: it returns, fails on its own check, or a query throws.
pub data Served {ℓ} (A : Type ℓ) : Type ℓ where
  served : A → Served A
  invalid : Served A
  broken : DbError → Served A

abbrev pub view_of : MemberRow → ChannelMemberView
view_of r = record {
  user_id = r.user_id;
  name = r.name;
  is_ai = r.is_ai;
  role = r.role;
  joined_at = r.joined_at;
}

abbrev pub role_of : Bool → String
role_of is_ai = if is_ai then "ai" else "human"

module _ (t : ChannelTable) where
  open t use {
    Db, find_user_is_ai, upsert_member, delete_members, members_of, find_card, update_card,
  }

  abbrev views : Outcome (List MemberRow) → Outcome (List ChannelMemberView)
  views (threw e) = threw e
  views (done rows) = done (map view_of rows)

  unfoldable pub list_members : String → Db → Outcome (List ChannelMemberView)
  list_members channel db = views (members_of channel db)

  abbrev pub stored : Outcome Db → Db → Outcome (Unit {0}) × Db
  stored (threw e) db = (threw e, db)
  stored (done db') db = (done tt, db')

  abbrev pub add_found : Outcome (Option Bool) → String → String → Db → Outcome (Unit {0}) × Db
  add_found (threw e) channel user db = (threw e, db)
  -- `throw new Error(…)`
  add_found (done none) channel user db = (threw DbError.other, db)
  add_found (done (some is_ai)) channel user db =
      stored (upsert_member channel user (role_of is_ai) db) db

  unfoldable pub add_member : String → String → Db → Outcome (Unit {0}) × Db
  add_member channel user db = add_found (find_user_is_ai user db) channel user db

  abbrev pub removed : Outcome (ℕ × Db) → Db → Outcome Bool × Db
  removed (threw e) db = (threw e, db)
  removed (done (count, db')) db = (done (ltb 0 count), db')

  unfoldable pub remove_member : String → String → Db → Outcome Bool × Db
  remove_member channel user db = removed (delete_members channel user db) db

  abbrev pub card_text : Outcome (Option (Option String)) → Outcome (Option String)
  card_text (threw e) = threw e
  card_text (done o) = done (flat o)

  unfoldable pub get_knowledge : String → Db → Outcome (Option String)
  get_knowledge channel db = card_text (find_card channel db)

  abbrev pub card_written : Outcome Db → Db → Served (Unit {0}) × Db
  card_written (threw e) db = (broken e, db)
  card_written (done db') db = (served tt, db')

  -- The length in UTF-16 units is an argument.
  unfoldable pub set_knowledge : (String → ℕ) → String → String → Db → Served (Unit {0}) × Db
  set_knowledge units channel content db =
      if ltb knowledge_max_length (units content)
      then (invalid, db)
      else card_written (update_card channel content db) db
