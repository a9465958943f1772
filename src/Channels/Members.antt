-- ===== src/Channels/Members.antt =====
-- Who can change the members of which channel.
use one_crew.Common.{
  ℕ, ◌≡◌, ◌≢◌, refl, ◌⊎◌, inl, inr, String, Bool, true, false, Option, none, some, str_eq,
  Bool-cases, Option-cases,
}
use one_crew.Api.{require_session, enforce_rate_limit}
use one_crew.RateLimit.{Limiter, write_limit}
use one_crew.Workspace.{Outcome, done, threw, resolve_workspace_id}
use one_crew.Channels.{ChannelTable, add_member, remove_member, role_of, add_found, stored, removed}
use one_crew.Channels.Route.{
  Body, malformed, mistyped, field, Response, unauthorized, too_many, no_channel, crashed, World,
  Handler, signed_in, limited, with_channel, in_channel, within_limit, listed_after, for_user,
  add_body, remove_query, post_member, delete_member,
}

abbrev pub IsEarly : Response → Type 0
IsEarly unauthorized = Unit
IsEarly (too_many n) = Unit
IsEarly no_channel = Unit
IsEarly crashed = Unit
IsEarly _ = ⊥

module _ (t : ChannelTable) where
  open t use {
    Db, role, card, channel_in_workspace, user_in_workspace, find_user_is_ai, upsert_member,
    delete_members, upsert_done, delete_done,
  }

  -- The request got as far as the rest of the handler, which has given the answer `x`.
  abbrev pub HasReached :
      String → ℕ → Option String → String → Handler t → World t → Response × World t → Type 0
  HasReached scope now session channel rest w x =
      (user : String) × (l : Limiter) × (require_session session ≡ some user)
      × ((enforce_rate_limit w.limiter scope user write_limit now).0 ≡ none)
      × (channel_in_workspace channel (resolve_workspace_id w.env) w.db ≡ done true)
      × (x ≡ rest (record w { limiter = l }))

  -- Turned away before the rest of the handler, with nothing changed.
  abbrev pub IsTurnedAway : Response × World t → World t → Type 0
  IsTurnedAway (r, w') w = IsEarly r × (w'.db ≡ w.db)

  in_channel-cases :
      (o : Outcome Bool) (rest : Handler t) (w : World t)
      → IsTurnedAway (in_channel t o rest w) w
        ⊎ ((o ≡ done true) × (in_channel t o rest w ≡ rest w))
  in_channel-cases (threw e) rest w = inl (tt, refl)
  in_channel-cases (done false) rest w = inl (tt, refl)
  in_channel-cases (done true) rest w = inr (refl, refl)

  within-cases :
      (p : Option ℕ × Limiter) (channel : String) (rest : Handler t) (w : World t)
      → IsTurnedAway (within_limit t p (with_channel t channel rest) w) w
        ⊎ ((l : Limiter) × (p.0 ≡ none)
            × (channel_in_workspace channel (resolve_workspace_id w.env) w.db ≡ done true)
            × (within_limit t p (with_channel t channel rest) w ≡ rest (record w { limiter = l })))
  within-cases (some after, l) channel rest w = inl (tt, refl)
  within-cases (none, l) channel rest w =
      elim (in_channel-cases (channel_in_workspace channel (resolve_workspace_id w.env) w.db) rest
        (record w { limiter = l })) [
          | inl same ↦ inl same
          | inr (found, e) ↦ inr (l, refl, found, e)
        ]

  pub write-cases :
      (scope : String) (now : ℕ) (session : Option String) (channel : String) (rest : Handler t)
      (w : World t)
      → IsTurnedAway
          (signed_in t
            (require_session session)
            (limited t scope now (with_channel t channel rest))
            w)
          w
        ⊎ HasReached scope now session channel rest w (
            signed_in t
              (require_session session)
              (limited t scope now (with_channel t channel rest))
              w)
  write-cases scope now session channel rest w = elim (Option-cases (require_session session)) [
    | inl e ↦ rw e (inl (tt, refl))
    | inr (user, e) ↦
        elim (within-cases (enforce_rate_limit w.limiter scope user write_limit now) channel rest
          w) [
            | inl same ↦ rw e (inl same)
            | inr (l, free, found, q) ↦ rw e (inr (user, l, refl, free, found, q))
          ]
  ]

  -- One membership is as given, and all else is as it was.
  abbrev pub IsOnlyChange : String → String → Option String → Db → Db → Type 0
  IsOnlyChange c u r db db' =
      (role c u db' ≡ r)
      × ((c' u' : String) → (c' ≢ c) ⊎ (u' ≢ u) → role c' u' db' ≡ role c' u' db)
      × ((c' : String) → card c' db' ≡ card c' db)

  listed_db :
      {A : Type 0} (o : Outcome A) (db : Db) (channel : String) (w : World t)
      → (listed_after t (o, db) channel w).1.db ≡ db
  listed_db (threw e) db channel w = refl
  listed_db (done a) db channel w = refl

  -- What an addition has done, if it has done anything.
  abbrev pub HasAdded : String → String → Db → Db → Type 0
  HasAdded channel user db db' =
      (is_ai : Bool) × (find_user_is_ai user db ≡ done (some is_ai))
      × IsOnlyChange channel user (some (role_of is_ai)) db db'

  stored-cases :
      (o : Outcome Db) (db : Db) → ((stored t o db).1 ≡ db) ⊎ (o ≡ done (stored t o db).1)
  stored-cases (threw e) db = inl refl
  stored-cases (done db') db = inr refl

  add_found-cases :
      (o : Outcome (Option Bool)) (channel user : String) (db : Db)
      → ((add_found t o channel user db).1 ≡ db)
        ⊎ ((is_ai : Bool) × (o ≡ done (some is_ai))
            × IsOnlyChange channel user (some (role_of is_ai)) db (add_found t o channel user db).1)
  add_found-cases (threw e) channel user db = inl refl
  add_found-cases (done none) channel user db = inl refl
  add_found-cases (done (some is_ai)) channel user db =
      elim (stored-cases (upsert_member channel user (role_of is_ai) db) db) [
        | inl e ↦ inl e
        | inr e ↦ inr (is_ai, refl, upsert_done channel user (role_of is_ai) db _ e)
      ]

  for_user-cases :
      (o : Outcome Bool) (channel user : String) (w : World t)
      → ((for_user t o channel user w).1.db ≡ w.db)
        ⊎ ((o ≡ done true) × HasAdded channel user w.db (for_user t o channel user w).1.db)
  unfolding add_member
  for_user-cases (threw e) channel user w = inl refl
  for_user-cases (done false) channel user w = inl refl
  for_user-cases (done true) channel user w =
      let same =
        listed_db (add_member t channel user w.db).0 (add_member t channel user w.db).1 channel w in
      rw same (elim (add_found-cases (find_user_is_ai user w.db) channel user w.db) [
        | inl e ↦ inl e
        | inr h ↦ inr (refl, h)
      ])

  add_body-cases :
      (body : Body) (channel : String) (w : World t)
      → ((add_body t body channel w).1.db ≡ w.db)
        ⊎ ((user : String) × (body ≡ field user)
            × (user_in_workspace user (resolve_workspace_id w.env) w.db ≡ done true)
            × HasAdded channel user w.db (add_body t body channel w).1.db)
  add_body-cases malformed channel w = inl refl
  add_body-cases mistyped channel w = inl refl
  add_body-cases (field user) channel w =
      elim (for_user-cases (user_in_workspace user (resolve_workspace_id w.env) w.db) channel user
        w) [ inl e ↦ inl e | inr (found, h) ↦ inr (user, refl, found, h) ]

  removed-cases :
      (o : Outcome (ℕ × Db)) (db : Db)
      → ((removed t o db).1 ≡ db) ⊎ ((n : ℕ) × (o ≡ done (n, (removed t o db).1)))
  removed-cases (threw e) db = inl refl
  removed-cases (done (n, db')) db = inr (n, refl)

  remove_query-cases :
      (q : Option String) (channel : String) (w : World t)
      → ((remove_query t q channel w).1.db ≡ w.db)
        ⊎ ((user : String) × (q ≡ some user)
            × IsOnlyChange channel user none w.db (remove_query t q channel w).1.db)
  unfolding remove_member
  remove_query-cases none channel w = inl refl
  remove_query-cases (some user) channel w = elim (Bool-cases (str_eq user "")) [
    | inl e ↦ rw e (inl refl)
    | inr e ↦
        let same =
          listed_db (remove_member t channel user w.db).0 (remove_member t channel user w.db).1
            channel w in
        rw (e, same)
          (elim (removed-cases (delete_members channel user w.db) w.db) [
            | inl k ↦ inl k
            | inr (n, k) ↦ inr (user, refl, delete_done channel user n w.db _ k)
          ])
  ]

  -- What must hold for a write to the members of a channel to change anything.
  abbrev pub IsAuthorized : Option String → ℕ → String → World t → Type 0
  IsAuthorized session now channel w =
      (caller : String) × (require_session session ≡ some caller)
      × ((enforce_rate_limit w.limiter "channel-members.write" caller write_limit now).0 ≡ none)
      × (channel_in_workspace channel (resolve_workspace_id w.env) w.db ≡ done true)

  post_guarded :
      (session : Option String) (channel : String) (body : Body) (now : ℕ) (w : World t)
      → ((post_member t session channel body now w).1.db ≡ w.db)
        ⊎ (IsAuthorized session now channel w
            × (user : String) × (body ≡ field user)
            × (user_in_workspace user (resolve_workspace_id w.env) w.db ≡ done true)
            × HasAdded channel user w.db (post_member t session channel body now w).1.db)
  unfolding post_member
  post_guarded session channel body now w =
      elim (write-cases "channel-members.write" now session channel (add_body t body channel) w) [
        | inl (r, e) ↦ inl e
        | inr (caller, l, s, free, found, e) ↦
            rw e (elim (add_body-cases body channel (record w { limiter = l })) [
              | inl same ↦ inl same
              | inr (u, b, i, h) ↦ inr ((caller, s, free, found), u, b, i, h)
            ])
      ]

  delete_guarded :
      (session : Option String) (channel : String) (query : Option String) (now : ℕ) (w : World t)
      → ((delete_member t session channel query now w).1.db ≡ w.db)
        ⊎ (IsAuthorized session now channel w
            × (user : String) × (query ≡ some user)
            × IsOnlyChange channel user none w.db
                (delete_member t session channel query now w).1.db)
  unfolding delete_member
  delete_guarded session channel query now w =
      elim (write-cases "channel-members.write" now session channel (remove_query t query channel)
        w) [
          | inl (r, e) ↦ inl e
          | inr (caller, l, s, free, found, e) ↦
              rw e (elim (remove_query-cases query channel (record w { limiter = l })) [
                | inl same ↦ inl same
                | inr (u, q, h) ↦ inr ((caller, s, free, found), u, q, h)
              ])
        ]

  -- Whatever is sent, an addition or a removal changes nothing in the database, or the caller has a
  -- session and is within the write limit, the channel is one of the workspace, and the membership
  -- of the named user in it is the only thing that changes: an addition makes it a member with the role
  -- of its kind, and only a user of the workspace, and a removal makes it none.
  pub members_guarded :
      (session : Option String) (channel : String) (body : Body) (query : Option String) (now : ℕ)
      (w : World t)
      → (((post_member t session channel body now w).1.db ≡ w.db)
          ⊎ (IsAuthorized session now channel w
              × (user : String) × (body ≡ field user)
              × (user_in_workspace user (resolve_workspace_id w.env) w.db ≡ done true)
              × HasAdded channel user w.db (post_member t session channel body now w).1.db))
        × (((delete_member t session channel query now w).1.db ≡ w.db)
            ⊎ (IsAuthorized session now channel w
                × (user : String) × (query ≡ some user)
                × IsOnlyChange channel user none w.db
                    (delete_member t session channel query now w).1.db))
  members_guarded session channel body query now w =
      (post_guarded session channel body now w, delete_guarded session channel query now w)
