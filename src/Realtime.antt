-- ===== src/Realtime.antt =====
-- lib/realtime/io.ts: the handshake of a socket and its rooms. NextAuth's `getToken` and `decode` are
-- parameters, and so are Socket.io's sets of rooms, which are sets of texts here.
--
-- A subscription waits for the database between the check of the channel and the join, so the
-- handler is two steps: `subscribe` asks, and `answered` is the code after the answer to one of the
-- questions. Everything else that the socket does may stand between them.
pub mod Auth
pub mod Rooms
mod Tests
use one_crew.Common.{
  ℕ, ◌++◌, take_at, String, Bool, true, false, Option, none, some, List, [], ◌∷◌, str_eq,
  if◌then◌else◌,
}
use one_crew.Common.Dict.{Dict}
use one_crew.Common.TextSet.{add, remove}
use one_crew.Common.Texts.{◌&◌, Attempt, returns, throws}
use one_crew.Workspace.{resolve_workspace_id, workspace_room, Outcome, done, threw}
use one_crew.Cookies.{
  Header, Scripting, flatten_header, one, parse_cookie_header, read_chunked_cookie,
}

-- The two claims that are read, where they are texts.
pub record Token : Type 0 where
  pub uid : Option String
  pub sub : Option String

-- How `getToken` is called: with no choice of a cookie, or with one.
pub data Mode : Type 0 where
  by_default secure insecure : Mode

pub record Jwt : Type 0 where
  pub decode : String → Attempt (Option Token)

-- A handshake: the `auth.sessionToken` if it is a text, the cookies, and what `getToken` finds in the
-- request.
pub record Handshake : Type 0 where
  pub session_token : Option String
  pub cookie : Header
  pub get_token : Mode → Attempt (Option Token)

pub data Verdict : Type 0 where
  accepted : String → Verdict
  rejected : String → Verdict

abbrev pub non_empty : Option String → Option String
non_empty none = none
non_empty (some s) = if str_eq s "" then none else some s

abbrev pub first_some : Option String → Option String → Option String
first_some (some s) o = some s
first_some none o = o

-- `extractUserId`
unfoldable pub extract_user_id : Option Token → Option String
extract_user_id none = none
extract_user_id (some token) = first_some (non_empty token.uid) (non_empty token.sub)

abbrev pub session_cookies : List String
session_cookies = "__Secure-next-auth.session-token" ∷ "next-auth.session-token" ∷ []

module _ (js : Scripting) (jwt : Jwt) where
  open js use {trim}
  open jwt use {decode}

  -- What decoding gives where an error is caught.
  abbrev pub decoded : Attempt (Option Token) → Option Token
  decoded (returns o) = o
  decoded (throws m) = none

  abbrev pub try_raw : Option String → Option Token
  try_raw none = none
  try_raw (some raw) = decoded (decode raw)

  abbrev pub token_or : Option Token → Option Token → Option Token
  token_or (some t) o = some t
  token_or none o = o

  -- The loop over the names of the cookies.
  unfoldable pub decode_cookies : Dict String → List String → Option Token
  decode_cookies cookies [] = none
  decode_cookies cookies (name ∷ names) =
      token_or (try_raw (non_empty (read_chunked_cookie cookies name)))
        (decode_cookies cookies names)

  -- A call of `getToken`: its token, or what comes next.
  abbrev pub found_or : Attempt (Option Token) → Attempt (Option Token) → Attempt (Option Token)
  found_or (throws m) next = throws m
  found_or (returns (some t)) next = returns (some t)
  found_or (returns none) next = next

  unfoldable pub get_handshake_token : Handshake → Attempt (Option Token)
  unfolding decode_cookies
  get_handshake_token h = found_or (h.get_token by_default) (
      found_or (h.get_token secure) (
        found_or (h.get_token insecure) (
          returns (
            decode_cookies (parse_cookie_header js (one (flatten_header h.cookie)))
              session_cookies))))

  abbrev pub verdict_of : String → Option String → Verdict
  verdict_of error none = rejected error
  verdict_of error (some user) = accepted user

  abbrev pub by_cookie : Attempt (Option Token) → Verdict
  by_cookie (throws m) = rejected m
  by_cookie (returns o) = verdict_of "unauthenticated" (extract_user_id o)

  abbrev pub session_text : Option String → String
  session_text none = ""
  session_text (some s) = trim s

  -- The middleware.
  unfoldable pub authenticate : Handshake → Verdict
  unfolding extract_user_id get_handshake_token
  authenticate h =
      if str_eq (session_text h.session_token) ""
      then by_cookie (get_handshake_token h)
      else verdict_of "SESSION_EXPIRED"
          (extract_user_id (decoded (decode (session_text h.session_token))))

-- A connected socket: its rooms, and the channels whose look-up is not answered yet.
pub record Socket : Type 0 where
  pub rooms : List String
  pub waiting : List String

abbrev pub channel_room : String → String
channel_room channel = "channel:" & channel

-- The `connection` handler: nothing for a socket that is disconnected at once.
unfoldable pub connection : Option String → Option String → Option Socket
unfolding add
connection env none = none
connection env (some user) =
    if str_eq user ""
    then none
    else some (record { rooms = add (workspace_room env) []; waiting = [] })

-- `subscribe:channel` up to its query; the argument is nothing if it is no text.
unfoldable pub subscribe : Option String → Socket → Socket
subscribe none s = s
subscribe (some channel) s =
    if str_eq channel "" then s else record s { waiting = s.waiting ++ channel ∷ [] }

-- After the query.
abbrev pub channel_found : String → Outcome Bool → Socket → Socket
channel_found channel (threw e) s = s
channel_found channel (done false) s = s
channel_found channel (done true) s = record s { rooms = add (channel_room channel) s.rooms }

abbrev pub answer_for : Option (String × List String) → Outcome Bool → Socket → Socket
answer_for none o s = s
answer_for (some (channel, rest)) o s = channel_found channel o (record s { waiting = rest })

-- The look-up at a position is answered.
unfoldable pub answered : ℕ → Outcome Bool → Socket → Socket
unfolding add
answered i o s = answer_for (take_at i s.waiting) o s

unfoldable pub unsubscribe : Option String → Socket → Socket
unfolding remove
unsubscribe none s = s
unsubscribe (some channel) s =
    if str_eq channel "" then s else record s { rooms = remove (channel_room channel) s.rooms }
