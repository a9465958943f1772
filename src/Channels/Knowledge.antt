-- ===== src/Channels/Knowledge.antt =====
-- What is written on a channel's card, and what is read from it.
use one_crew.Common.{
  ℕ, ◌≤◌, ◌≡◌, ◌≢◌, refl, sym, ◌∙◌, ◌⊎◌, inl, inr, String, true, false, Option, some, arith, leb,
  ltb, Bool-cases, Option-cases, leb→le,
}
use one_crew.Api.{require_session}
use one_crew.Workspace.{Outcome, done, threw, Outcome-cases, resolve_workspace_id}
use one_crew.Channels.{
  ChannelTable, flat, get_knowledge, set_knowledge, card_text, card_written, knowledge_max_length,
}
use one_crew.Channels.Route.{
  Body, malformed, mistyped, field, Response, unauthorized, too_many, no_channel, no_user, members,
  content, bad_request, failure, crashed, World, signed_in, with_channel, limited, reply_content,
  saved, put_body, put_card, get_card,
}
use one_crew.Channels.Members.{IsTurnedAway, write-cases}

abbrev pub IsContent : Response → Type 0
IsContent (content o) = Unit
IsContent _ = ⊥

module _ (t : ChannelTable) (units : String → ℕ) where
  open t use {Db, role, card, update_card, update_done, find_card, find_card_done}

  -- The card of the channel is the text, and all else is as it was.
  abbrev pub IsOnlyCard : String → String → Db → Db → Type 0
  IsOnlyCard c text db db' =
      (card c db' ≡ some text)
      × ((c' : String) → c' ≢ c → card c' db' ≡ card c' db)
      × ((c' u' : String) → role c' u' db' ≡ role c' u' db)

  abbrev pub IsSaved : Body → String → Db → Response × World t → Type 0
  IsSaved body c db x =
      (text : String) × (body ≡ field text)
      × (x.0 ≡ content (some text))
      × (units text ≤ 8_000)
      × IsOnlyCard c text db x.1.db

  saved-cases :
      (o : Outcome Db) (text c : String) (w : World t)
      → ((db' : Db) → o ≡ done db' → IsOnlyCard c text w.db db')
      → units text ≤ 8_000
      → ((IsContent (saved t text (card_written t o w.db) w).0 → ⊥)
          × ((saved t text (card_written t o w.db) w).1.db ≡ w.db))
        ⊎ IsSaved (field text) c w.db (saved t text (card_written t o w.db) w)
  saved-cases (threw e) text c w h k = inl ((λ x. x), refl)
  saved-cases (done db') text c w h k = inr (text, refl, refl, k, h db' refl)

  put_body-cases :
      (body : Body) (c : String) (w : World t)
      → ((IsContent (put_body t units body c w).0 → ⊥) × ((put_body t units body c w).1.db ≡ w.db))
        ⊎ IsSaved body c w.db (put_body t units body c w)
  unfolding set_knowledge
  put_body-cases malformed c w = inl ((λ x. x), refl)
  put_body-cases mistyped c w = inl ((λ x. x), refl)
  put_body-cases (field text) c w = elim (Bool-cases (leb (units text) knowledge_max_length)) [
    | inl e ↦
        let short : ltb knowledge_max_length (units text) ≡ false = ground (arith, leb→le _ _ e) in
        rw (e, short)
          (saved-cases (update_card c text w.db) text c w (λ db' q. update_done c text w.db db' q)
            (leb→le _ _ e))
    | inr e ↦ rw e (inl ((λ x. x), refl))
  ]

  early_no-IsContent :
      (x : Response × World t) (w : World t)
      → IsTurnedAway t x w
      → (IsContent x.0 → ⊥) × (x.1.db ≡ w.db)
  early_no-IsContent (unauthorized, w') w (a, e) = ((λ x. x), e)
  early_no-IsContent (too_many n, w') w (a, e) = ((λ x. x), e)
  early_no-IsContent (no_channel, w') w (a, e) = ((λ x. x), e)
  early_no-IsContent (no_user, w') w (a, e) = ((λ x. x), e)
  early_no-IsContent (bad_request, w') w (a, e) = ((λ x. x), e)
  early_no-IsContent (failure, w') w (a, e) = ((λ x. x), e)
  early_no-IsContent (crashed, w') w (a, e) = ((λ x. x), e)
  early_no-IsContent (members vs, w') w (a, e) = ((λ x. x), e)
  early_no-IsContent (content o, w') w (a, e) = absurd a

  -- A card is saved by an answer 200, and only then does anything change.
  pub put_card-cases :
      (session : Option String) (c : String) (body : Body) (now : ℕ) (w : World t)
      → ((IsContent (put_card t units session c body now w).0 → ⊥)
          × ((put_card t units session c body now w).1.db ≡ w.db))
        ⊎ IsSaved body c w.db (put_card t units session c body now w)
  unfolding put_card
  put_card-cases session c body now w =
      elim (write-cases t "channel-knowledge.write" now session c (put_body t units body c) w) [
        | inl away ↦ inl (
            early_no-IsContent
              (signed_in t (require_session session)
                (limited t "channel-knowledge.write" now
                  (with_channel t c (put_body t units body c)))
                w)
              w away)
        | inr (caller, l, s, free, found, e) ↦
            rw e (put_body-cases body c (record w { limiter = l }))
      ]

  card_text-read :
      (c : String) (db : Db) (o : Option String) (x : Outcome (Option (Option String)))
      → find_card c db ≡ x
      → reply_content t (card_text t x) ≡ content o
      → o ≡ card c db
  card_text-read c db o (threw e) h k = cc
  card_text-read c db o (done p) h k = let q : flat p ≡ o = cc in sym q ∙ find_card_done c db p h

  pub get_card-read :
      (reader : Option String) (c : String) (w : World t) (o : Option String)
      → (get_card t reader c w).0 ≡ content o
      → o ≡ card c w.db
  unfolding get_card get_knowledge
  get_card-read reader c w o e = elim (Option-cases (require_session reader)) [
    | inl k ↦ absurd (ground (arith, k))
    | inr (user, k) ↦
        elim (Outcome-cases (t.channel_in_workspace c (resolve_workspace_id w.env) w.db)) [
          | inl (err, f) ↦ absurd (ground (arith, k, f))
          | inr (false, f) ↦ absurd (ground (arith, k, f))
          | inr (true, f) ↦ card_text-read c w.db o (find_card c w.db) refl (ground (arith, k, f))
        ]
  ]

  saved-read :
      (body : Body) (c : String) (w : World t) (x : Response × World t) (reader o : Option String)
      → ((IsContent x.0 → ⊥) × (x.1.db ≡ w.db)) ⊎ IsSaved body c w.db x
      → IsContent x.0
      → (get_card t reader c x.1).0 ≡ content o
      → (text : String) × (body ≡ field text)
        × (units text ≤ 8_000)
        × (o ≡ some text)
        × IsOnlyCard c text w.db x.1.db
  saved-read body c w x reader o (inl (not_saved, same)) ok read = absurd (not_saved ok)
  saved-read body c w x reader o (inr (text, b, r, k, h)) ok read =
      (text, b, k, (get_card-read reader c x.1 o read ∙ h.0), h)

  -- If a write of a card is answered by 200, then the text that was sent has at most 8000 units, it is
  -- on the channel's card and nothing else has changed; and whoever reads the card next and is
  -- answered by 200 gets that text back.
  pub card_read_back :
      (session : Option String) (c : String) (body : Body) (now : ℕ) (w : World t)
      (reader o : Option String)
      → IsContent (put_card t units session c body now w).0
      → (get_card t reader c (put_card t units session c body now w).1).0 ≡ content o
      → (text : String) × (body ≡ field text)
        × (units text ≤ 8_000)
        × (o ≡ some text)
        × IsOnlyCard c text w.db (put_card t units session c body now w).1.db
  card_read_back session c body now w reader o ok read =
      saved-read body c w (put_card t units session c body now w) reader o
        (put_card-cases session c body now w) ok read
