-- ===== src/SignIn/Tests.antt =====
-- Sign-ins against one person and one AI, with `bcrypt` as equality.
use one_crew.Common.{
  ◌+◌, ◌-◌, ◌*◌, ◌≤◌, ◌≡◌, refl, String, true, false, none, some, List, [], ◌∷◌, arith, str_eq,
  if◌then◌else◌,
}
use one_crew.Common.Dict.{get}
use one_crew.RateLimit.{Limiter, rate_limit, refill, consume}
use one_crew.Workspace.{done}
use one_crew.SignIn.{text, unset, Headers, Credentials, User, Services, authorize, to_auth_user}
use one_crew.SignIn.People.{IsPerson, signed_in-IsPerson}
use one_crew.SignIn.Guesses.{Guess, compared_in, guesses_bounded}

abbrev mia : User
mia = record { id = "u1"; email = "mia@x"; name = "Mia"; is_ai = false; password_hash = some "pw" }

abbrev ada : User
ada = record { id = "u2"; email = "ada@x"; name = "Ada"; is_ai = true; password_hash = some "pw" }

abbrev box : Services
box = record {
  trim = λ s. s;
  lower = λ s. s;
  find_user = λ e.
      done (if str_eq e "mia@x" then some mia else if str_eq e "ada@x" then some ada else none);
  compare = λ p h. str_eq p h;
}

abbrev proxy : Headers
proxy = record { forwarded_for = text "10.0.0.1, 10.0.0.2"; real_ip = unset }

abbrev right : Credentials
right = record { email = some "mia@x"; password = some "pw" }

abbrev robot : Credentials
robot = record { email = some "ada@x"; password = some "pw" }

abbrev wrong : Credentials
wrong = record { email = some "mia@x"; password = some "?" }

abbrev empty : Limiter
empty = record { buckets = []; sweep_in_progress = false }

mia_signs_in : (authorize box right proxy 1_000 empty).answer ≡ done (some (to_auth_user mia))
unfolding authorize rate_limit consume refill get
mia_signs_in = refl

ada_is_refused : (authorize box robot proxy 1_000 empty).answer ≡ done none
unfolding authorize rate_limit consume refill get
ada_is_refused = refl

signed_in-IsPerson_example :
    (email password : String) × (u : User) × (right.email ≡ some email)
    × (right.password ≡ some password)
    × (box.find_user (box.trim email) ≡ done (some u))
    × IsPerson box u password
    × (to_auth_user mia ≡ to_auth_user u)
signed_in-IsPerson_example =
    signed_in-IsPerson box right proxy 1_000 empty (to_auth_user mia) mia_signs_in

abbrev tries : List Guess
tries =
    record { credentials = wrong; headers = proxy; now = 0 }
    ∷ record { credentials = right; headers = proxy; now = 500 }
    ∷ []

guesses_bounded_example :
    compared_in box "10.0.0.1|mia@x" empty tries * 60_000 ≤ 5 * (60_000 + (500 - 0))
guesses_bounded_example = guesses_bounded box "10.0.0.1|mia@x" empty tries 0 500 tt (omega arith)
