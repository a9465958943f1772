-- ===== src/Channels/Memory.antt =====
-- A table of members and cards in memory, as functions, for the tests: every channel and user is one
-- of the workspace, and the users are AIs.
use one_crew.Common.{
  ℕ, ◌≡◌, ◌≢◌, refl, sym, ◌⊎◌, String, true, ◌&&◌, Option, none, some, [], arith, str_eq,
  if◌then◌else◌, eq_iff, eq_refl, str_eq_of_ne,
}
use one_crew.Workspace.{Outcome, done}
use one_crew.Channels.{ChannelTable, flat}

pub record Db : Type 0 where
  pub roles : String → String → Option String
  pub cards : String → Option String

abbrev pub put_role : String → String → Option String → Db → Db
put_role c u r db = record db {
  roles = λ c' u'. if str_eq c c' && str_eq u u' then r else db.roles c' u';
}

abbrev pub put_text : String → String → Db → Db
put_text c text db = record db { cards = λ c'. if str_eq c c' then some text else db.cards c' }

put_role_lem :
    (c u : String) (r : Option String) (db db' : Db)
    → put_role c u r db ≡ db'
    → (db'.roles c u ≡ r)
      × ((c' u' : String) → (c' ≢ c) ⊎ (u' ≢ u) → db'.roles c' u' ≡ db.roles c' u')
      × ((c' : String) → db'.cards c' ≡ db.cards c')
put_role_lem c u r db db' e = rw (← e) (
  (rw (eq_refl c, eq_refl u) refl),
  (λ c' u' n. ground (arith, eq_iff c c', eq_iff u u', n)),
  (λ c'. refl),
)

put_text_lem :
    (c text : String) (db db' : Db)
    → put_text c text db ≡ db'
    → (db'.cards c ≡ some text)
      × ((c' : String) → c' ≢ c → db'.cards c' ≡ db.cards c')
      × ((c' u' : String) → db'.roles c' u' ≡ db.roles c' u')
put_text_lem c text db db' e =
    rw (← e) (
      (rw (eq_refl c) refl),
      (λ c' n. rw (str_eq_of_ne c c' (λ q. n (sym q))) refl),
      (λ c' u'. refl),
    )

pub found_lem :
    (db : Db) (c : String) (o : Option (Option String))
    → done (some (db.cards c)) ≡ done o
    → flat o ≡ db.cards c
found_lem db c o e = let p : some (db.cards c) ≡ o = cc in rw (← p) refl

abbrev pub Only : String → String → Option String → Db → Db → Type 0
Only c u r db db' =
    (db'.roles c u ≡ r)
    × ((c' u' : String) → (c' ≢ c) ⊎ (u' ≢ u) → db'.roles c' u' ≡ db.roles c' u')
    × ((c' : String) → db'.cards c' ≡ db.cards c')

pub upserted :
    (c u r : String) (db db' : Db)
    → done (put_role c u (some r) db) ≡ done db'
    → Only c u (some r) db db'
upserted c u r db db' e = put_role_lem c u (some r) db db' (cc)

pub deleted :
    (c u : String) (n : ℕ) (db db' : Db)
    → ◌≡◌ {A = Outcome (ℕ × Db)} (done (1, put_role c u none db)) (done (n, db'))
    → Only c u none db db'
deleted c u n db db' e = put_role_lem c u none db db' (cc)

pub updated :
    (c text : String) (db db' : Db)
    → done (put_text c text db) ≡ done db'
    → (db'.cards c ≡ some text)
      × ((c' : String) → c' ≢ c → db'.cards c' ≡ db.cards c')
      × ((c' u' : String) → db'.roles c' u' ≡ db.roles c' u')
updated c text db db' e = put_text_lem c text db db' (cc)

abbrev pub town : ChannelTable
town = record {
  Db = Db;
  role = λ c u db. db.roles c u;
  card = λ c db. db.cards c;
  channel_in_workspace = λ c ws db. done true;
  user_in_workspace = λ u ws db. done true;
  find_user_is_ai = λ u db. done (some true);
  upsert_member = λ c u r db. done (put_role c u (some r) db);
  delete_members = λ c u db. done (1, put_role c u none db);
  members_of = λ c db. done [];
  find_card = λ c db. done (some (db.cards c));
  update_card = λ c text db. done (put_text c text db);
  upsert_done = λ c u r db db' e. upserted c u r db db' e;
  delete_done = λ c u n db db' e. deleted c u n db db' e;
  update_done = λ c text db db' e. updated c text db db' e;
  find_card_done = λ c db o e. found_lem db c o e;
}
