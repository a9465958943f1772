-- ===== src/Realtime/Rooms.antt =====
-- The rooms of a socket, against what they stand for: whether the socket listens to a channel.
use one_crew.Common.{
  ℕ, ◌≡◌, ◌≢◌, refl, sym, ap, subst, ◌∙◌, ◌⊎◌, inl, inr, String, Bool, true, false, Option, none,
  some, List, [], ◌∷◌, ◌++◌, take_at, arith, str_eq, if◌then◌else◌, Bool-cases, eq_iff, eq_refl,
  str_eq_of_ne, str-cases,
}
use one_crew.Common.TextSet.{has, add, remove, has-add, has-remove}
use one_crew.Common.Texts.{◌&◌}
use one_crew.Workspace.{workspace_room, Outcome, done, threw}
use one_crew.Cookies.{after_prefix}
use one_crew.Realtime.{
  Socket, channel_room, connection, subscribe, answered, answer_for, unsubscribe,
}
use text.Mathlib.TextLemmas.{append_cancel_left}
use Prim.Native.String.append

-- What a socket does, and what the database answers it.
pub data Event : Type 0 where
  asks : Option String → Event
  answers : ℕ → Outcome Bool → Event
  leaves : Option String → Event

unfoldable pub handle : Event → Socket → Socket
unfolding subscribe answered unsubscribe
handle (asks c) s = subscribe c s
handle (answers i o) s = answered i o s
handle (leaves c) s = unsubscribe c s

unfoldable pub handle_all : List Event → Socket → Socket
unfolding handle
handle_all [] s = s
handle_all (e ∷ es) s = handle_all es (handle e s)

-- The view: the questions that are open, and for each channel whether the socket listens to it.
pub record Listening : Type 0 where
  pub waiting : List String
  pub listens : String → Bool

abbrev put : String → Bool → (String → Bool) → String → Bool
put c b f k = if str_eq c k then b else f k

abbrev found : Option (String × List String) → Outcome Bool → Listening → Listening
found none o v = v
found (some (c, rest)) (threw e) v = record v { waiting = rest }
found (some (c, rest)) (done false) v = record v { waiting = rest }
found (some (c, rest)) (done true) v = record { waiting = rest; listens = put c true v.listens }

abbrev pub view_of : Event → Listening → Listening
view_of (asks none) v = v
view_of (asks (some c)) v = if str_eq c "" then v else record v { waiting = v.waiting ++ c ∷ [] }
view_of (answers i o) v = found (take_at i v.waiting) o v
view_of (leaves none) v = v
view_of (leaves (some c)) v =
    if str_eq c "" then v else record v { listens = put c false v.listens }

abbrev pub view_all : List Event → Listening → Listening
view_all [] v = v
view_all (e ∷ es) v = view_all es (view_of e v)

-- The rooms are those of the channels that the socket listens to, and the workspace's.
pub record Refines (env : Option String) (s : Socket) (v : Listening) : Type 0 where
  pub same_waiting : s.waiting ≡ v.waiting
  pub in_workspace : has (workspace_room env) s.rooms ≡ true
  pub in_channels : (k : String) → has (channel_room k) s.rooms ≡ v.listens k
  pub nowhere_else :
      (r : String)
      → has r s.rooms ≡ true
      → (r ≡ workspace_room env) ⊎ ((k : String) × (r ≡ channel_room k))

channel_room-injective : (a b : String) → channel_room a ≡ channel_room b → a ≡ b
channel_room-injective a b e = append_cancel_left "channel:" a b e

same_room : (a b : String) → str_eq (channel_room a) (channel_room b) ≡ str_eq a b
same_room a b = elim (str-cases a b) [
  | inl e ↦ rw (e, eq_refl (channel_room b), eq_refl b)
  | inr n ↦ str_eq_of_ne _ _ (λ e. n (channel_room-injective a b e)) ∙ sym (str_eq_of_ne a b n)
]

workspace_prefix : (env : Option String) → after_prefix "c" (workspace_room env) ≡ none
unfolding after_prefix
workspace_prefix env = rw append.cons refl

channel_prefix : (k : String) → after_prefix "c" (channel_room k) ≡ some ("hannel:" & k)
unfolding after_prefix
channel_prefix k = rw append.cons refl

workspace_is_no_channel :
    (env : Option String) (k : String) → str_eq (channel_room k) (workspace_room env) ≡ false
workspace_is_no_channel env k =
    str_eq_of_ne _ _ (λ e. cc (channel_prefix k, workspace_prefix env, ap (after_prefix "c") e))

ws_no_channel :
    (env : Option String) (k : String) → str_eq (workspace_room env) (channel_room k) ≡ false
ws_no_channel env k =
    str_eq_of_ne _ _ (λ e. cc (channel_prefix k, workspace_prefix env, ap (after_prefix "c") e))

module _ (env : Option String) where
  joined-Refines :
      (c : String) (s : Socket) (v : Listening)
      → Refines env s v
      → Refines env
          (record s { rooms = add (channel_room c) s.rooms })
          (record v { listens = put c true v.listens })
  joined-Refines c s v r = record {
    same_waiting = r.same_waiting;
    in_workspace =
        ground (arith, has-add (workspace_room env) (channel_room c) s.rooms, r.in_workspace);
    in_channels = λ k.
        ground (
          arith,
          has-add (channel_room k) (channel_room c) s.rooms,
          same_room c k,
          r.in_channels k,
        );
    nowhere_else = λ x h. elim (Bool-cases (str_eq (channel_room c) x)) [
      | inl e ↦ inr (c, sym ((eq_iff _ _).0 e))
      | inr e ↦ r.nowhere_else x (ground (arith, has-add x (channel_room c) s.rooms))
    ];
  }

  left-Refines :
      (c : String) (s : Socket) (v : Listening)
      → Refines env s v
      → Refines env
          (record s { rooms = remove (channel_room c) s.rooms })
          (record v { listens = put c false v.listens })
  left-Refines c s v r = record {
    same_waiting = r.same_waiting;
    in_workspace = ground (
      arith,
      has-remove (workspace_room env) (channel_room c) s.rooms,
      workspace_is_no_channel env c,
      r.in_workspace,
    );
    in_channels = λ k. ground (
      arith,
      has-remove (channel_room k) (channel_room c) s.rooms,
      same_room c k,
      r.in_channels k,
    );
    nowhere_else = λ x h. r.nowhere_else x (ground (arith, has-remove x (channel_room c) s.rooms));
  }

  waiting-Refines :
      (w : List String) (s : Socket) (v : Listening)
      → Refines env s v
      → Refines env (record s { waiting = w }) (record v { waiting = w })
  waiting-Refines w s v r = record {
    same_waiting = refl;
    in_workspace = r.in_workspace;
    in_channels = r.in_channels;
    nowhere_else = r.nowhere_else;
  }

  answer-Refines :
      (t : Option (String × List String)) (o : Outcome Bool) (s : Socket) (v : Listening)
      → Refines env s v
      → Refines env (answer_for t o s) (found t o v)
  answer-Refines none o s v r = r
  answer-Refines (some (c, rest)) (threw e) s v r = waiting-Refines rest s v r
  answer-Refines (some (c, rest)) (done false) s v r = waiting-Refines rest s v r
  answer-Refines (some (c, rest)) (done true) s v r =
      joined-Refines c (record s { waiting = rest }) (record v { waiting = rest })
        (waiting-Refines rest s v r)

  handle-Refines :
      (e : Event) (s : Socket) (v : Listening)
      → Refines env s v
      → Refines env (handle e s) (view_of e v)
  unfolding handle
  handle-Refines (asks none) s v r = r
  handle-Refines (asks (some c)) s v r = elim (Bool-cases (str_eq c "")) [
    | inl e ↦ rw e r
    | inr e ↦ rw (e, r.same_waiting) (waiting-Refines (v.waiting ++ c ∷ []) s v r)
  ]
  handle-Refines (answers i o) s v r =
      simp r.same_waiting (answer-Refines (take_at i v.waiting) o s v r)
  handle-Refines (leaves none) s v r = r
  handle-Refines (leaves (some c)) s v r = elim (Bool-cases (str_eq c "")) [
    | inl e ↦ rw e r
    | inr e ↦ rw e (left-Refines c s v r)
  ]

  handle_all-Refines :
      (es : List Event) (s : Socket) (v : Listening)
      → Refines env s v
      → Refines env (handle_all es s) (view_all es v)
  unfolding handle_all
  handle_all-Refines [] s v r = r
  handle_all-Refines (e ∷ es) s v r =
      handle_all-Refines es (handle e s) (view_of e v) (handle-Refines e s v r)

-- Nothing asked, and no channel listened to.
abbrev pub silent : Listening
silent = record { waiting = []; listens = λ k. false }

abbrev fresh : Option String → Socket
fresh env = record { rooms = workspace_room env ∷ []; waiting = [] }

fresh-Refines : (env : Option String) → Refines env (fresh env) silent
unfolding has
fresh-Refines env = record {
  same_waiting = refl;
  in_workspace = rw (eq_refl (workspace_room env)) refl;
  in_channels = λ k. rw (ws_no_channel env k) refl;
  nowhere_else = λ r h. inl (sym ((eq_iff _ _).0 (ground arith)));
}

connected_fresh :
    (env : Option String) (user : String) (s : Socket)
    → connection env (some user) ≡ some s
    → fresh env ≡ s
unfolding connection
connected_fresh env user s e = ground arith

-- From its connection on, whatever a socket asks, leaves and is answered, and however late: its rooms
-- are the workspace's, those of the channels for which a join by an answer that found the channel
-- came after the last leave, and no other.
pub rooms_refine :
    (env : Option String) (user : String) (s : Socket) (es : List Event)
    → connection env (some user) ≡ some s
    → Refines env (handle_all es s) (view_all es silent)
rooms_refine env user s es e =
    handle_all-Refines env es s silent
      (subst (λ x. Refines env x silent) (connected_fresh env user s e) (fresh-Refines env))

-- A socket with no open question that asks for a channel and leaves it before the database's answer
-- is in the channel's room once the answer has come.
pub late_answer_joins :
    (c : String) (s : Socket)
    → c ≢ ""
    → s.waiting ≡ []
    → has
        (channel_room c)
        (handle_all (asks (some c) ∷ leaves (some c) ∷ answers 0 (done true) ∷ []) s).rooms
      ≡ true
unfolding handle_all
late_answer_joins c s n e =
    simp (str_eq_of_ne c "" n, e)
      (rw
        (
          has-add (channel_room c) (channel_room c) (remove (channel_room c) s.rooms),
          eq_refl (channel_room c),
        )
        (ground arith))
