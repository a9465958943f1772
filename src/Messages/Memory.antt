-- ===== src/Messages/Memory.antt =====
-- A table of messages in memory, in which everyone is a member, and simple functions on texts.
use one_crew.Common.{◌≡◌, refl, Bool, true, false, List, [], ◌∷◌, ◌++◌}
use one_crew.Workspace.{done, Outcome}
use one_crew.Messages.{Message, CreateMessageInput, MessageTable, TextApi}

abbrev pub row_of : CreateMessageInput → Message
row_of x = record {
  id = "m1";
  channel_id = x.channel_id;
  user_id = x.user_id;
  content = x.content;
  metadata = x.metadata;
  created_at = 7;
}

abbrev pub append : CreateMessageInput → List Message → Outcome ((Message × Bool) × List Message)
append x db = done ((row_of x, false), db ++ row_of x ∷ [])

pub append_lem :
    (x : CreateMessageInput) (db : List Message) (m : Message) (from_ai : Bool) (db' : List Message)
    → append x db ≡ done ((m, from_ai), db')
    → (db' ≡ db ++ m ∷ [])
      × (m.channel_id ≡ x.channel_id)
      × (m.user_id ≡ x.user_id)
      × (m.content ≡ x.content)
append_lem x db m from_ai db' h =
    let p : row_of x ≡ m = cc in
    let q : db ++ row_of x ∷ [] ≡ db' = cc in rw (← p, ← q) (refl, refl, refl, refl)

abbrev pub rooms : MessageTable
rooms = record {
  Db = List Message;
  rows = λ db. db;
  find_channel = λ id ws db. done true;
  is_member = λ channel user db. done true;
  insert = append;
  active_members = λ channel db. done [];
  insert_done = append_lem;
}

abbrev pub plain : TextApi
plain = record { trim = λ s. s; units = λ s. 5; normal = λ s. s; mentions_in = λ s. "ada" ∷ [] }
