-- ===== src/SignIn.antt =====
-- lib/auth/options.ts: `authorize` of the Credentials provider and the two callbacks. The database's
-- look-up of a user, bcrypt's `compare`, `trim` and `toLowerCase` are parameters. An attempt also
-- says whether a password was compared.
pub mod Guesses
pub mod People
mod Tests
use one_crew.Common.{
  ℕ, String, Bool, true, false, ◌||◌, Option, none, some, List, [], ◌∷◌, str_eq, if◌then◌else◌,
}
use one_crew.Common.Split.{split_at}
use one_crew.Common.Texts.{◌&◌}
use one_crew.RateLimit.{RateLimitConfig, RateLimitVerdict, allowed, denied, Limiter, rate_limit}
use one_crew.Workspace.{DbError, Outcome, done, threw}

abbrev pub login_limit : RateLimitConfig
login_limit = record { capacity = 5; window_ms = 60_000 }

pub data HeaderValue : Type 0 where
  unset : HeaderValue
  text : String → HeaderValue
  texts : List String → HeaderValue

-- The two headers of the request that are read.
pub record Headers : Type 0 where
  pub forwarded_for : HeaderValue
  pub real_ip : HeaderValue

pub record Credentials : Type 0 where
  pub email : Option String
  pub password : Option String

-- The columns of a user that are read.
pub record User : Type 0 where
  pub id : String
  pub email : String
  pub name : String
  pub is_ai : Bool
  pub password_hash : Option String

-- `NextAuthUser`
pub record AuthUser : Type 0 where
  pub id : String
  pub email : String
  pub name : String

pub record Services : Type 0 where
  pub trim : String → String
  pub lower : String → String
  pub find_user : String → Outcome (Option User)
  pub compare : String → String → Bool

-- What an attempt comes to: NextAuth's answer, the limiter, and whether a password was compared.
pub record Attempted : Type 0 where
  pub answer : Outcome (Option AuthUser)
  pub limiter : Limiter
  pub compared : Bool

abbrev first_text : List String → Option String
first_text [] = none
first_text (t ∷ ts) = some t

abbrev header_of : HeaderValue → Option String
header_of unset = none
header_of (text t) = some t
header_of (texts ts) = first_text ts

abbrev or_unknown : Option String → String
or_unknown none = "unknown"
or_unknown (some ip) = ip

abbrev first_part : List String → String
first_part [] = ""
first_part (p ∷ ps) = p

abbrev pub to_auth_user : User → AuthUser
to_auth_user u = record { id = u.id; email = u.email; name = u.name }

module _ (s : Services) where
  open s use {trim, lower, find_user, compare}

  abbrev ip_of : Option String → Option String → String
  ip_of none real = or_unknown real
  ip_of (some fwd) real =
      if str_eq fwd "" then or_unknown real else trim (first_part (split_at b',' fwd))

  unfoldable pub client_ip : Headers → String
  unfolding split_at
  client_ip h = ip_of (header_of h.forwarded_for) (header_of h.real_ip)

  -- `${ip}|${email.toLowerCase()}`
  unfoldable pub bucket_key_of : Headers → String → String
  unfolding client_ip
  bucket_key_of h email = client_ip h & "|" & lower email

  -- The e-mail as it is looked up and the password, if neither is blank.
  abbrev pub usable_pair : String → String → Option (String × String)
  usable_pair email password =
      if str_eq email "" || (str_eq password "" || str_eq (trim password) "")
      then none
      else some (email, password)

  abbrev pub usable : Option String → Option String → Option (String × String)
  usable (some email) (some password) = usable_pair (trim email) password
  usable _ password = none

  abbrev pub answered : Outcome (Option AuthUser) → Bool → Limiter → Attempted
  answered o b l = record { answer = o; limiter = l; compared = b }

  -- From the row of the user on.
  abbrev pub check_hash : Option String → User → String → Limiter → Attempted
  check_hash none u password l = answered (done none) false l
  check_hash (some hash) u password l =
      if str_eq hash ""
      then answered (done none) false l
      else answered (done (if compare password hash then some (to_auth_user u) else none)) true l

  abbrev pub check_user : Outcome (Option User) → String → Limiter → Attempted
  check_user (threw e) password l = answered (threw e) false l
  check_user (done none) password l = answered (done none) false l
  check_user (done (some u)) password l =
      if u.is_ai then answered (done none) false l else check_hash u.password_hash u password l

  abbrev pub metered : RateLimitVerdict × Limiter → String × String → Attempted
  metered (denied wait, l) (email, password) = answered (done none) false l
  metered (allowed n, l) (email, password) = check_user (find_user email) password l

  abbrev pub attempt : Option (String × String) → Headers → ℕ → Limiter → Attempted
  attempt none h now l = answered (done none) false l
  attempt (some (email, password)) h now l =
      metered (rate_limit l "auth.credentials" (bucket_key_of h email) login_limit now)
        (email, password)

  unfoldable pub authorize : Credentials → Headers → ℕ → Limiter → Attempted
  unfolding bucket_key_of
  authorize c h now l = attempt (usable c.email c.password) h now l

-- The claim and the field that the callbacks carry the user's id in.
unfoldable pub jwt_callback : Option String → Option AuthUser → Option String
jwt_callback uid none = uid
jwt_callback uid (some u) = some u.id

abbrev with_id : String → Option String → Option String
with_id uid none = none
with_id uid (some id) = some uid

-- The id of `session.user`, if there is such a user.
unfoldable pub session_callback : Option String → Option String → Option String
session_callback user none = user
session_callback user (some uid) = if str_eq uid "" then user else with_id uid user
