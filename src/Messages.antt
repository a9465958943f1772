-- ===== src/Messages.antt =====
-- lib/services/message.service.ts: `create`, with its checks, the broadcast and the wakes. Prisma is a
-- parameter, `trim` and the length in UTF-16 units are arguments.
pub mod Posting
pub mod Memory
mod Tests
use one_crew.Common.{
  ℕ, ◌≡◌, String, Bool, true, false, Option, none, some, List, [], ◌∷◌, ◌++◌, str_eq, ltb,
  if◌then◌else◌,
}
use one_crew.Common.Json.{Json, Fields, object}
use one_crew.RateLimit.{Limiter}
use one_crew.Workspace.{Effect, DbError, Outcome, done, threw, resolve_workspace_id}
use one_crew.Mentions.{AiUser, wake_mentioned_ais}
use Prim.Native.String

pub record Message : Type 0 where
  pub id : String
  pub channel_id : String
  pub user_id : String
  pub content : String
  pub metadata : Option Json
  pub created_at : ℕ

pub record MessageNewPayload : Type 0 where
  pub id : String
  pub channel_id : String
  pub user_id : String
  pub content : String
  pub metadata : Option Fields
  pub created_at : ℕ
  pub from_ai : Bool

pub record CreateMessageInput : Type 0 where
  pub channel_id : String
  pub user_id : String
  pub content : String
  pub metadata : Option Json

-- What the service asks of the database: `rows` reads it, the others are its queries.
pub record MessageTable : Type 1 where
  pub Db : Type 0
  pub rows : Db → List Message
  pub find_channel : String → String → Db → Outcome Bool
  pub is_member : String → String → Db → Outcome Bool
  pub insert : CreateMessageInput → Db → Outcome ((Message × Bool) × Db)
  pub active_members : String → Db → Outcome (List AiUser)
  -- An insertion adds one row with what it was given, and reads back whether the sender is an AI.
  pub insert_done :
      (x : CreateMessageInput) (db : Db) (m : Message) (from_ai : Bool) (db' : Db)
      → insert x db ≡ done ((m, from_ai), db')
      → (rows db' ≡ rows db ++ m ∷ [])
        × (m.channel_id ≡ x.channel_id)
        × (m.user_id ≡ x.user_id)
        × (m.content ≡ x.content)

-- `toMetadataPayload`: an object, or null.
unfoldable pub to_metadata_payload : Option Json → Option Fields
to_metadata_payload (some (object fs)) = some fs
to_metadata_payload _ = none

unfoldable pub to_message_new_payload : Message → Bool → MessageNewPayload
to_message_new_payload m from_ai = record {
  id = m.id;
  channel_id = m.channel_id;
  user_id = m.user_id;
  content = m.content;
  metadata = to_metadata_payload m.metadata;
  created_at = m.created_at;
  from_ai = from_ai;
}

-- A `message:new` event to a room.
pub record MessageEvent : Type 0 where
  pub room : String
  pub payload : MessageNewPayload

pub data Posted : Type 0 where
  posted : Message → Posted
  empty_content too_long no_such_channel not_a_member : Posted
  failed : DbError → Posted

abbrev pub message_max_length : ℕ
message_max_length = 8_000

-- The functions of JavaScript that the service calls on texts.
pub record TextApi : Type 0 where
  pub trim : String → String
  pub units : String → ℕ
  pub normal : String → String
  pub mentions_in : String → List String

-- `assertValidContent`: the error, if there is one.
unfoldable pub content_error : TextApi → String → Option Posted
content_error api content =
    if str_eq (api.trim content) ""
    then some empty_content
    else if ltb message_max_length (api.units content)
    then some too_long
    else none

module _ (t : MessageTable) (api : TextApi) where
  open t use {Db, find_channel, is_member, insert, active_members}

  pub record World : Type 0 where
    pub db : Db
    pub log : List MessageEvent
    pub wakes : List Effect
    pub limiter : Limiter
    pub io_ready : Bool
    pub env : Option String

  abbrev pub broadcast_message_new : Message → Bool → World → World
  broadcast_message_new m from_ai w =
      if w.io_ready
      then record w {
        log =
            w.log
            ++ record {
              room = String.◌++◌ "channel:" m.channel_id;
              payload = to_message_new_payload m from_ai;
            }
              ∷ [];
      }
      else w

  -- The wakes of a message of a person; an AI's message wakes nobody.
  abbrev pub wake_unless_ai : Bool → CreateMessageInput → Message → (ℕ → ℕ) → String → World → World
  wake_unless_ai true input m clock uuid w = w
  wake_unless_ai false input m clock uuid w =
      let (effects, l) =
        wake_mentioned_ais api.normal input.user_id (api.mentions_in m.content) clock uuid
          (active_members m.channel_id w.db) w.limiter in
      record w { wakes = w.wakes ++ effects; limiter = l }

  abbrev inserted :
      Outcome ((Message × Bool) × Db)
      → CreateMessageInput
      → (ℕ → ℕ)
      → String
      → World
      → Posted × World
  inserted (threw e) input clock uuid w = (failed e, w)
  inserted (done ((m, from_ai), db)) input clock uuid w = (
    posted m,
    wake_unless_ai from_ai input m clock uuid
        (broadcast_message_new m from_ai (record w { db = db })),
  )

  abbrev membership_known :
      Outcome Bool → CreateMessageInput → (ℕ → ℕ) → String → World → Posted × World
  membership_known (threw e) input clock uuid w = (failed e, w)
  membership_known (done false) input clock uuid w = (not_a_member, w)
  membership_known (done true) input clock uuid w = inserted (insert input w.db) input clock uuid w

  abbrev channel_known :
      Outcome Bool → CreateMessageInput → (ℕ → ℕ) → String → World → Posted × World
  channel_known (threw e) input clock uuid w = (failed e, w)
  channel_known (done false) input clock uuid w = (no_such_channel, w)
  channel_known (done true) input clock uuid w =
      membership_known (is_member input.channel_id input.user_id w.db) input clock uuid w

  abbrev content_checked :
      Option Posted → CreateMessageInput → (ℕ → ℕ) → String → World → Posted × World
  content_checked (some error) input clock uuid w = (error, w)
  content_checked none input clock uuid w =
      channel_known (find_channel input.channel_id (resolve_workspace_id w.env) w.db) input clock
        uuid w

  unfoldable pub create : CreateMessageInput → (ℕ → ℕ) → String → World → Posted × World
  unfolding content_error
  create input clock uuid w = content_checked (content_error api input.content) input clock uuid w
