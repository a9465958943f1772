-- ===== src/Messages/Posting.antt =====
-- When a message is posted, and what it sets off.
use one_crew.Common.{
  ℕ, ◌≤◌, ◌≡◌, ◌≢◌, refl, ◌⊎◌, inl, inr, String, Bool, true, false, none, some, [], ◌∷◌, ◌++◌,
  arith, Option-cases,
}
use text.Mathlib.TextEquality.{eq_iff}
use one_crew.Workspace.{done, Outcome-cases, resolve_workspace_id}
use one_crew.Messages.{
  Message, CreateMessageInput, MessageTable, TextApi, Posted, posted, empty_content, too_long,
  no_such_channel, not_a_member, failed, content_error, World, broadcast_message_new,
  wake_unless_ai, create,
}

abbrev pub IsRefused : Posted → Type 0
IsRefused (posted m) = ⊥
IsRefused empty_content = Unit
IsRefused too_long = Unit
IsRefused no_such_channel = Unit
IsRefused not_a_member = Unit
IsRefused (failed e) = Unit

content_fine :
    (api : TextApi) (s : String)
    → content_error api s ≡ none
    → (api.trim s ≢ "") × (api.units s ≤ 8_000)
unfolding content_error
content_fine api s h = ground (arith, eq_iff (api.trim s) "")

content_error-IsRefused :
    (api : TextApi) (s : String) (e : Posted) → content_error api s ≡ some e → IsRefused e
unfolding content_error
content_error-IsRefused api s e h = ground arith

module _ (t : MessageTable) (api : TextApi) where
  open t use {rows, find_channel, is_member, insert, insert_done}

  db_after :
      (from_ai : Bool) (input : CreateMessageInput) (m : Message) (clock : ℕ → ℕ) (uuid : String)
      (w : World t api)
      → (wake_unless_ai t api from_ai input m clock uuid
          (broadcast_message_new t api m from_ai w)).db
        ≡ w.db
  db_after true input m clock uuid w = ground arith
  db_after false input m clock uuid w = ground arith

  log_after :
      (from_ai : Bool) (input : CreateMessageInput) (m : Message) (clock : ℕ → ℕ) (uuid : String)
      (w : World t api)
      → (wake_unless_ai t api from_ai input m clock uuid
          (broadcast_message_new t api m from_ai w)).log
        ≡ (broadcast_message_new t api m from_ai w).log
  log_after true input m clock uuid w = refl
  log_after false input m clock uuid w = refl

  -- What a posted message has done, from the world `w` to `w'`.
  abbrev pub HasPosted : CreateMessageInput → Message → Bool → World t api → World t api → Type 0
  HasPosted input m from_ai w w' =
      (rows w'.db ≡ rows w.db ++ m ∷ [])
      × (m.content ≡ input.content)
      × (w'.log ≡ (broadcast_message_new t api m from_ai w).log)
      × (from_ai ≡ true → w'.wakes ≡ w.wakes)

  insert_posts :
      (input : CreateMessageInput) (m : Message) (from_ai : Bool) (db' : t.Db) (clock : ℕ → ℕ)
      (uuid : String) (w : World t api)
      → insert input w.db ≡ done ((m, from_ai), db')
      → HasPosted input m from_ai w (
          wake_unless_ai t api from_ai input m clock uuid
            (broadcast_message_new t api m from_ai (record w { db = db' })))
  insert_posts input m true db' clock uuid w e =
      let (added, c, u, same) = insert_done input w.db m true db' e in
      (
        rw (db_after true input m clock uuid (record w { db = db' })) added,
        same,
        (ground arith),
        (λ h. ground arith),
      )
  insert_posts input m false db' clock uuid w e =
      let (added, c, u, same) = insert_done input w.db m false db' e in
      (
        rw (db_after false input m clock uuid (record w { db = db' })) added,
        same,
        (ground arith),
        (λ h. ground arith),
      )

  -- A call that throws leaves the table, the events and the limiter as they were. A message is posted
  -- only if its content is neither blank nor longer than 8000 units, the channel is one of the
  -- workspace and the sender is a member of it; then it is the one new row, it is broadcast as the
  -- realtime server allows, and a message of an AI wakes nobody.
  pub posting_branches :
      (input : CreateMessageInput) (clock : ℕ → ℕ) (uuid : String) (w : World t api)
      → (IsRefused (create t api input clock uuid w).0 × ((create t api input clock uuid w).1 ≡ w))
        ⊎ ((m : Message) × (from_ai : Bool) × (db' : t.Db) × ((create t api input clock uuid w).0
              ≡ posted m)
            × (api.trim input.content ≢ "")
            × (api.units input.content ≤ 8_000)
            × (find_channel input.channel_id (resolve_workspace_id w.env) w.db ≡ done true)
            × (is_member input.channel_id input.user_id w.db ≡ done true)
            × (insert input w.db ≡ done ((m, from_ai), db'))
            × HasPosted input m from_ai w (create t api input clock uuid w).1)
  unfolding create
  posting_branches input clock uuid w = elim (Option-cases (content_error api input.content)) [
    | inr (err, e) ↦ rw (e, create) (inl (content_error-IsRefused api input.content err e, refl))
    | inl e ↦
        let fine = content_fine api input.content e in
        elim (Outcome-cases (find_channel input.channel_id (resolve_workspace_id w.env) w.db)) [
          | inl (err, f) ↦ rw (e, f, create) (inl (tt, refl))
          | inr (false, f) ↦ rw (e, f, create) (inl (tt, refl))
          | inr (true, f) ↦ elim (Outcome-cases (is_member input.channel_id input.user_id w.db)) [
            | inl (err, g) ↦ rw (e, f, g, create) (inl (tt, refl))
            | inr (false, g) ↦ rw (e, f, g, create) (inl (tt, refl))
            | inr (true, g) ↦ elim (Outcome-cases (insert input w.db)) [
              | inl (err, h) ↦ rw (e, f, g, h, create) (inl (tt, refl))
              | inr (((m, from_ai), db'), h) ↦
                  rw (e, f, g, h, create)
                    (inr (
                      m,
                      from_ai,
                      db',
                      refl,
                      fine.0,
                      fine.1,
                      refl,
                      refl,
                      refl,
                      insert_posts input m from_ai db' clock uuid w h,
                    ))
            ]
          ]
        ]
  ]
