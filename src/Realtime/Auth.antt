-- ===== src/Realtime/Auth.antt =====
-- Who may connect.
use one_crew.Common.{
  ◌≡◌, ◌≢◌, refl, ◌⊎◌, inl, inr, String, Option, none, some, List, [], ◌∷◌, arith, str_eq,
  Bool-cases, eq_iff, str-cases, str_eq_of_ne, ap,
}
use one_crew.Common.Dict.{Dict}
use one_crew.Common.Texts.{Attempt, returns, throws}
use one_crew.Cookies.{Scripting, flatten_header, one, parse_cookie_header, read_chunked_cookie}
use one_crew.Realtime.{
  Token, Mode, by_default, secure, insecure, Jwt, Handshake, accepted, extract_user_id,
  session_cookies, decode_cookies, get_handshake_token, authenticate, session_text, found_or,
  decoded, verdict_of, by_cookie, first_some, non_empty, try_raw, token_or,
}

-- A token that names the user.
abbrev pub Names : Token → String → Type 0
Names token user = (user ≢ "") × ((token.uid ≡ some user) ⊎ (token.sub ≡ some user))

picked :
    (u v : Option String) (user : String)
    → first_some (non_empty u) (non_empty v) ≡ some user
    → (user ≢ "") × ((u ≡ some user) ⊎ (v ≡ some user))
picked none none user e = cc
picked none (some b) user e = ground (arith, eq_iff b "")
picked (some a) none user e = ground (arith, eq_iff a "")
picked (some a) (some b) user e = ground (arith, eq_iff a "", eq_iff b "")

extract-Names :
    (o : Option Token) (user : String)
    → extract_user_id o ≡ some user
    → (token : Token) × (o ≡ some token) × Names token user
unfolding extract_user_id
extract-Names none user e = cc
extract-Names (some token) user e = (token, refl, picked token.uid token.sub user e)

module _ (js : Scripting) (jwt : Jwt) where
  -- One of the two session cookies decodes to the token.
  abbrev pub InCookies : Dict String → List String → Token → Type 0
  InCookies cookies [] token = ⊥
  InCookies cookies (name ∷ names) token =
      ((raw : String) × (read_chunked_cookie cookies name ≡ some raw)
        × (jwt.decode raw ≡ returns (some token)))
      ⊎ InCookies cookies names token

  -- NextAuth gave the token: for the session token if one was sent, and else for the request or one of
  -- the session cookies.
  abbrev pub IsGiven : Handshake → Token → Type 0
  IsGiven h token =
      ((session_text js jwt h.session_token ≢ "")
        × (jwt.decode (session_text js jwt h.session_token) ≡ returns (some token)))
      ⊎ ((session_text js jwt h.session_token ≡ "")
          × (((mode : Mode) × (h.get_token mode ≡ returns (some token)))
              ⊎ InCookies (parse_cookie_header js (one (flatten_header h.cookie))) session_cookies
                  token))

  decoded_returns :
      (a : Attempt (Option Token)) (t : Token) → decoded js jwt a ≡ some t → a ≡ returns (some t)
  decoded_returns (throws m) t e = cc
  decoded_returns (returns o) t e = ap returns e

  verdict_accepted :
      (m : String) (o : Option String) (user : String)
      → verdict_of js jwt m o ≡ accepted user
      → o ≡ some user
  verdict_accepted m none user e = cc
  verdict_accepted m (some x) user e = cc

  token_or-cases :
      (a b : Option Token) (t : Token) → token_or js jwt a b ≡ some t → (a ≡ some t) ⊎ (b ≡ some t)
  token_or-cases none b t e = inr e
  token_or-cases (some x) b t e = inl e

  try_raw-decoded :
      (o : Option String) (t : Token)
      → try_raw js jwt (non_empty o) ≡ some t
      → (raw : String) × (o ≡ some raw) × (jwt.decode raw ≡ returns (some t))
  try_raw-decoded none t e = cc
  try_raw-decoded (some raw) t e = elim (Bool-cases (str_eq raw "")) [
    | inl b ↦ absurd (ground arith)
    | inr b ↦ (raw, refl, decoded_returns (jwt.decode raw) t (ground arith))
  ]

  decode_cookies-InCookies :
      (cookies : Dict String) (names : List String) (t : Token)
      → decode_cookies js jwt cookies names ≡ some t
      → InCookies cookies names t
  unfolding decode_cookies
  decode_cookies-InCookies cookies [] t e = cc
  decode_cookies-InCookies cookies (n ∷ names) t e =
      elim (token_or-cases (try_raw js jwt (non_empty (read_chunked_cookie cookies n)))
        (decode_cookies js jwt cookies names) t e) [
          | inl h ↦ inl (try_raw-decoded (read_chunked_cookie cookies n) t h)
          | inr h ↦ inr (decode_cookies-InCookies cookies names t h)
        ]

  found_or-cases :
      (a b : Attempt (Option Token)) (t : Token)
      → found_or js jwt a b ≡ returns (some t)
      → (a ≡ returns (some t)) ⊎ (b ≡ returns (some t))
  found_or-cases (throws m) b t e = cc
  found_or-cases (returns none) b t e = inr e
  found_or-cases (returns (some x)) b t e = inl e

  handshake_token :
      (h : Handshake) (t : Token)
      → get_handshake_token js jwt h ≡ returns (some t)
      → ((mode : Mode) × (h.get_token mode ≡ returns (some t)))
        ⊎ InCookies (parse_cookie_header js (one (flatten_header h.cookie))) session_cookies t
  unfolding get_handshake_token
  handshake_token h t e = elim (found_or-cases _ _ t e) [
    | inl a ↦ inl (by_default, a)
    | inr e1 ↦ elim (found_or-cases _ _ t e1) [
      | inl a ↦ inl (secure, a)
      | inr e2 ↦ elim (found_or-cases _ _ t e2) [
        | inl a ↦ inl (insecure, a)
        | inr e3 ↦ inr (decode_cookies-InCookies _ session_cookies t (ground arith))
      ]
    ]
  ]

  by_cookie_accepted :
      (a : Attempt (Option Token)) (user : String)
      → by_cookie js jwt a ≡ accepted user
      → (t : Token) × (a ≡ returns (some t)) × Names t user
  by_cookie_accepted (throws m) user e = cc
  by_cookie_accepted (returns o) user e =
      let (t, q, n) =
        extract-Names o user (verdict_accepted "unauthenticated" (extract_user_id o) user e) in
      (t, (rw q), n)

  -- A socket is accepted for a user only with a token that NextAuth gave and that names the user. If
  -- the client sent a session token that is not blank, it is that token's: no cookie stands in for
  -- one that has expired.
  pub accepted-IsGiven :
      (h : Handshake) (user : String)
      → authenticate js jwt h ≡ accepted user
      → (t : Token) × IsGiven h t × Names t user
  unfolding authenticate
  accepted-IsGiven h user e = elim (str-cases (session_text js jwt h.session_token) "") [
    | inl blank ↦
        let (t, q, n) =
          by_cookie_accepted (get_handshake_token js jwt h) user
            (ground (arith, eq_iff (session_text js jwt h.session_token) "")) in
        (t, inr (blank, handshake_token h t q), n)
    | inr sent ↦
        let e' : verdict_of js jwt "SESSION_EXPIRED"
              (extract_user_id (decoded js jwt (jwt.decode (session_text js jwt h.session_token))))
            ≡ accepted user =
          ground (arith, str_eq_of_ne _ _ sent) in
        let (t, q, n) = extract-Names _ user (verdict_accepted "SESSION_EXPIRED" _ user e') in
        (t, inl (sent, decoded_returns _ t q), n)
  ]
