-- ===== src/SignIn/Guesses.antt =====
-- How many passwords are compared.
use one_crew.Common.{
  ℕ, ◌+◌, ◌-◌, ◌*◌, ◌≤◌, ◌≡◌, refl, String, Bool, true, false, Option, none, some, List, [], ◌∷◌,
  arith, str_eq, if◌then◌else◌,
}
use one_crew.Common.Dict.{HasDistinctKeys}
use one_crew.RateLimit.{RateLimitVerdict, allowed, denied, Limiter, bucket_key, rate_limit}
use one_crew.RateLimit.Admission.{IsUsable, Call, admitted, IsTimed, UseLimit, admitted_bound}
use one_crew.RateLimit.Refill.{cost}
use one_crew.Workspace.{Outcome, done, threw}
use one_crew.SignIn.{
  Headers, Credentials, User, Services, Attempted, usable, check_hash, check_user, metered, attempt,
  authorize, bucket_key_of, login_limit,
}

-- An attempt as it arrives.
pub record Guess : Type 0 where
  pub credentials : Credentials
  pub headers : Headers
  pub now : ℕ

abbrev pub IsInTime : ℕ → List Guess → ℕ → Type 0
IsInTime start [] end = start ≤ end
IsInTime start (g ∷ gs) end = (start ≤ g.now) × IsInTime g.now gs end

login_limit-IsUsable : IsUsable login_limit
login_limit-IsUsable = record {
  capacity_pos = omega arith;
  window_pos = omega arith;
  window_short = omega arith;
}

module _ (s : Services) where
  -- The bucket that an attempt is metered in, if it comes to that.
  abbrev key_of : Option (String × String) → Headers → Option String
  key_of none h = none
  key_of (some (email, password)) h = some (bucket_key_of s h email)

  abbrev pub guess_key : Guess → Option String
  guess_key g = key_of (usable s g.credentials.email g.credentials.password) g.headers

  abbrev run_guess : Guess → Limiter → Attempted
  run_guess g l = authorize s g.credentials g.headers g.now l

  abbrev falls_into : String → Option String → Bool
  falls_into k none = false
  falls_into k (some j) = str_eq (bucket_key "auth.credentials" j) (bucket_key "auth.credentials" k)

  abbrev one_if : Bool → Bool → ℕ
  one_if true true = 1
  one_if _ b = 0

  -- How many passwords the attempts of a bucket have compared, one after the other.
  pub compared_in : String → Limiter → List Guess → ℕ
  compared_in k l [] = 0
  compared_in k l (g ∷ gs) =
      one_if (falls_into k (guess_key g)) (run_guess g l).compared
      + compared_in k (run_guess g l).limiter gs

  abbrev call_of : Option String → ℕ → List Call → List Call
  call_of none now cs = cs
  call_of (some j) now cs =
      record { scope = "auth.credentials"; key = j; config = login_limit; now = now } ∷ cs

  abbrev calls : List Guess → List Call
  calls [] = []
  calls (g ∷ gs) = call_of (guess_key g) g.now (calls gs)

  check_hash-limiter :
      (o : Option String) (u : User) (p : String) (l : Limiter) → (check_hash s o u p l).limiter ≡ l
  check_hash-limiter none u p l = refl
  check_hash-limiter (some hash) u p l = ground arith

  check_user-limiter :
      (o : Outcome (Option User)) (p : String) (l : Limiter) → (check_user s o p l).limiter ≡ l
  check_user-limiter (threw e) p l = refl
  check_user-limiter (done none) p l = refl
  check_user-limiter (done (some u)) p l = ground (arith, check_hash-limiter u.password_hash u p l)

  one_if_le : (b c : Bool) → one_if b c ≤ (if b then 1 else 0)
  one_if_le true true = omega arith
  one_if_le true false = omega arith
  one_if_le false c = omega arith

  one_if-false : (b : Bool) → one_if b false ≡ 0
  one_if-false true = refl
  one_if-false false = refl

  -- A metered attempt leaves the limiter's state, and compares nothing unless it was let through.
  metered_lem :
      (b : Bool) (v : RateLimitVerdict × Limiter) (p : String × String)
      → ((metered s v p).limiter ≡ v.1)
        × (one_if b (metered s v p).compared ≤ (if b then cost v.0 else 0))
  metered_lem b (denied w, l) p = (refl, rw (one_if-false b) (omega arith))
  metered_lem b (allowed n, l) p = (
    check_user-limiter (s.find_user p.0) p.1 l,
    one_if_le b (check_user s (s.find_user p.0) p.1 l).compared,
  )

  -- One attempt, and those after it.
  step_lem :
      (k : String) (o : Option (String × String)) (h : Headers) (now rest : ℕ) (l : Limiter)
      (cs : List Call)
      → rest ≤ admitted (bucket_key "auth.credentials" k) (attempt s o h now l).limiter cs
      → one_if (falls_into k (key_of o h)) (attempt s o h now l).compared + rest
        ≤ admitted (bucket_key "auth.credentials" k) l (call_of (key_of o h) now cs)
  unfolding admitted
  step_lem k none h now rest l cs e = omega (arith, e)
  step_lem k (some (email, password)) h now rest l cs e =
      let j = bucket_key_of s h email in
      let v = rate_limit l "auth.credentials" j login_limit now in
      let (same, paid) =
        metered_lem (str_eq (bucket_key "auth.credentials" j) (bucket_key "auth.credentials" k)) v
          (email, password) in
      let e' : rest ≤ admitted (bucket_key "auth.credentials" k) v.1 cs = rw (← same) e in
      omega (arith, e', paid)

  compared-admitted :
      (k : String) (l : Limiter) (gs : List Guess)
      → compared_in k l gs ≤ admitted (bucket_key "auth.credentials" k) l (calls gs)
  unfolding compared_in authorize
  compared-admitted k l [] = omega arith
  compared-admitted k l (g ∷ gs) =
      step_lem k (usable s g.credentials.email g.credentials.password) g.headers g.now _ l
        (calls gs) (compared-admitted k (run_guess g l).limiter gs)

  IsTimed-earlier :
      (a b : ℕ) (cs : List Call) (end : ℕ) → a ≤ b → IsTimed b cs end → IsTimed a cs end
  IsTimed-earlier a b [] end h t = omega (arith, t)
  IsTimed-earlier a b (c ∷ cs) end h (t, ts) = (omega (arith, t), ts)

  call_of-IsTimed :
      (o : Option String) (a now : ℕ) (cs : List Call) (end : ℕ)
      → a ≤ now
      → IsTimed now cs end
      → IsTimed a (call_of o now cs) end
  call_of-IsTimed none a now cs end h t = IsTimed-earlier a now cs end h t
  call_of-IsTimed (some j) a now cs end h t = (h, t)

  calls-IsTimed : (a : ℕ) (gs : List Guess) (end : ℕ) → IsInTime a gs end → IsTimed a (calls gs) end
  calls-IsTimed a [] end h = h
  calls-IsTimed a (g ∷ gs) end (h, t) =
      call_of-IsTimed (guess_key g) a g.now (calls gs) end h (calls-IsTimed g.now gs end t)

  call_of-UseLimit :
      (k : String) (o : Option String) (now : ℕ) (cs : List Call)
      → UseLimit k login_limit cs
      → UseLimit k login_limit (call_of o now cs)
  call_of-UseLimit k none now cs u = u
  call_of-UseLimit k (some j) now cs u = ((λ e. refl), u)

  calls-UseLimit : (k : String) (gs : List Guess) → UseLimit k login_limit (calls gs)
  calls-UseLimit k [] = tt
  calls-UseLimit k (g ∷ gs) =
      call_of-UseLimit k (guess_key g) g.now (calls gs) (calls-UseLimit k gs)

  -- However many attempts come, from anybody and in the order of time, the passwords that those of one
  -- address and e-mail have compared number at most 5 and what the time of the attempts brings, which
  -- is 5 more a minute.
  pub guesses_bounded :
      (k : String) (l : Limiter) (gs : List Guess) (start end : ℕ)
      → HasDistinctKeys l.buckets
      → IsInTime start gs end
      → compared_in k l gs * 60_000 ≤ 5 * (60_000 + (end - start))
  guesses_bounded k l gs start end d t = omega (
    arith,
    compared-admitted k l gs,
    admitted_bound login_limit login_limit-IsUsable (bucket_key "auth.credentials" k) l (calls gs)
        start end d (calls-IsTimed start gs end t)
        (calls-UseLimit (bucket_key "auth.credentials" k) gs),
  )
