-- ===== src/SignIn/People.antt =====
-- Who is signed in.
use one_crew.Common.{
  ℕ, ◌≡◌, ◌≢◌, refl, ap, inl, inr, String, true, false, Option, none, some, arith, str_eq,
  Bool-cases, eq_iff,
}
use one_crew.RateLimit.{RateLimitVerdict, allowed, denied, Limiter}
use one_crew.Workspace.{Outcome, done, threw}
use one_crew.SignIn.{
  Headers, Credentials, User, AuthUser, Services, to_auth_user, usable, usable_pair, check_hash,
  check_user, metered, attempt, authorize,
}

module _ (s : Services) where
  -- The row is a person's, with a hash that the password compares to.
  abbrev pub IsPerson : User → String → Type 0
  IsPerson u password =
      (u.is_ai ≡ false)
      × (hash : String) × (u.password_hash ≡ some hash)
      × (hash ≢ "")
      × (s.compare password hash ≡ true)

  check_hash-IsPerson :
      (o : Option String) (u : User) (password : String) (l : Limiter) (a : AuthUser)
      → (check_hash s o u password l).answer ≡ done (some a)
      → (hash : String) × (o ≡ some hash)
        × (hash ≢ "")
        × (s.compare password hash ≡ true)
        × (a ≡ to_auth_user u)
  check_hash-IsPerson none u password l a e = cc
  check_hash-IsPerson (some hash) u password l a e = elim (Bool-cases (str_eq hash "")) [
    | inl b ↦ absurd (ground arith)
    | inr b ↦ elim (Bool-cases (s.compare password hash)) [
      | inl c ↦ (hash, refl, ground (arith, eq_iff hash ""), c, ground arith)
      | inr c ↦ absurd (ground arith)
    ]
  ]

  check_user-IsPerson :
      (o : Outcome (Option User)) (password : String) (l : Limiter) (a : AuthUser)
      → (check_user s o password l).answer ≡ done (some a)
      → (u : User) × (o ≡ done (some u)) × IsPerson u password × (a ≡ to_auth_user u)
  check_user-IsPerson (threw e) password l a h = cc
  check_user-IsPerson (done none) password l a h = cc
  check_user-IsPerson (done (some u)) password l a h = elim (Bool-cases u.is_ai) [
    | inl b ↦ absurd (ground arith)
    | inr b ↦
        let (hash, p, n, c, q) =
          check_hash-IsPerson u.password_hash u password l a (ground arith) in
        (u, refl, (b, hash, p, n, c), q)
  ]

  usable_pair-some :
      (email password : String) (p : String × String)
      → usable_pair s email password ≡ some p
      → (email, password) ≡ p
  usable_pair-some email password p h = ground arith

  usable-some :
      (email password : Option String) (p : String × String)
      → usable s email password ≡ some p
      → (raw : String) × (email ≡ some raw) × (s.trim raw ≡ p.0) × (password ≡ some p.1)
  usable-some none password p h = cc
  usable-some (some e) none p h = cc
  usable-some (some e) (some w) p h =
      let q = usable_pair-some (s.trim e) w p h in
      (e, refl, ap (λ (x : String × String). x.0) q, ap (λ (x : String × String). some x.1) q)

  metered-IsPerson :
      (v : RateLimitVerdict × Limiter) (p : String × String) (a : AuthUser)
      → (metered s v p).answer ≡ done (some a)
      → (u : User) × (s.find_user p.0 ≡ done (some u)) × IsPerson u p.1 × (a ≡ to_auth_user u)
  metered-IsPerson (denied w, l) p a h = cc
  metered-IsPerson (allowed n, l) p a h = check_user-IsPerson (s.find_user p.0) p.1 l a h

  attempt-IsPerson :
      (o : Option (String × String)) (h : Headers) (now : ℕ) (l : Limiter) (a : AuthUser)
      → (attempt s o h now l).answer ≡ done (some a)
      → (p : String × String) × (u : User) × (o ≡ some p)
        × (s.find_user p.0 ≡ done (some u))
        × IsPerson u p.1
        × (a ≡ to_auth_user u)
  attempt-IsPerson none h now l a e = cc
  attempt-IsPerson (some p) h now l a e =
      let (u, f, k, q) = metered-IsPerson _ p a e in (p, u, refl, f, k, q)

  -- An attempt signs a user in only if the trimmed e-mail is that of a row of a person, no AI, whose
  -- stored hash the password compares to; and the user is that row's.
  pub signed_in-IsPerson :
      (c : Credentials) (h : Headers) (now : ℕ) (l : Limiter) (a : AuthUser)
      → (authorize s c h now l).answer ≡ done (some a)
      → (email password : String) × (u : User) × (c.email ≡ some email)
        × (c.password ≡ some password)
        × (s.find_user (s.trim email) ≡ done (some u))
        × IsPerson u password
        × (a ≡ to_auth_user u)
  unfolding authorize
  signed_in-IsPerson c h now l a e =
      let (p, u, o, f, k, q) = attempt-IsPerson _ h now l a e in
      let (raw, i, t, w) = usable-some c.email c.password p o in (raw, p.1, u, i, w, (rw t f), k, q)
