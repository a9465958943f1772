-- ===== src/Realtime/Tests.antt =====
-- A handshake with a session token, and the rooms of a socket that comes and goes.
use one_crew.Common.{◌≡◌, refl, true, none, some, List, [], ◌∷◌, ne_of_test}
use one_crew.Common.TextSet.{has}
use one_crew.Common.Texts.{returns, throws}
use one_crew.Workspace.{done, resolve_workspace_id}
use one_crew.Cookies.{Scripting, absent}
use one_crew.Realtime.{
  Token, Jwt, Handshake, Socket, authenticate, connection, channel_room, accepted,
}
use one_crew.Realtime.Auth.{IsGiven, Names, accepted-IsGiven}
use one_crew.Realtime.Rooms.{
  Event, asks, answers, leaves, Refines, handle_all, view_all, silent, rooms_refine,
  late_answer_joins,
}

abbrev js : Scripting
js = record { trim = λ s. s; decode = λ s. some s }

abbrev mia : Token
mia = record { uid = some "mia"; sub = none }

abbrev jwt : Jwt
jwt = record { decode = λ s. returns (some mia) }

abbrev hello : Handshake
hello = record { session_token = some "t"; cookie = absent; get_token = λ m. throws "no cookie" }

hello_accepted : authenticate js jwt hello ≡ accepted "mia"
unfolding authenticate
hello_accepted = refl

accepted-IsGiven_example : (t : Token) × IsGiven js jwt hello t × Names t "mia"
accepted-IsGiven_example = accepted-IsGiven js jwt hello "mia" hello_accepted

abbrev alone : Socket
alone = record { rooms = "workspace:ws_default" ∷ []; waiting = [] }

alone_connects : connection none (some "mia") ≡ some alone
unfolding connection resolve_workspace_id
alone_connects = refl

abbrev visit : List Event
visit =
    asks (some "c1")
    ∷ asks (some "c2")
    ∷ answers 1 (done true)
    ∷ leaves (some "c2")
    ∷ answers 0 (done true)
    ∷ []

rooms_refine_example : Refines none (handle_all visit alone) (view_all visit silent)
rooms_refine_example = rooms_refine none "mia" alone visit alone_connects

late_answer_joins_example :
    has
      (channel_room "c1")
      (handle_all (asks (some "c1") ∷ leaves (some "c1") ∷ answers 0 (done true) ∷ []) alone).rooms
    ≡ true
late_answer_joins_example = late_answer_joins "c1" alone (ne_of_test _ _ refl) refl
