-- ===== src/Environment/Ready.antt =====
-- What an environment that is accepted provides.
use mathlib.Core.Option.{some-injective}
use one_crew.Common.{
  ℕ, ◌≤◌, ◌≡◌, refl, subst, sym, if◌then◌else◌, String, Bool, true, false, Option, none, some,
  arith, str_eq,
}
use one_crew.Common.Dict.{Dict, get}
use one_crew.WakeChain.{WakeEnv}
use one_crew.Environment.{
  Js, Numeral, whole, not_a_number, below_zero, infinite, fraction, Provider, deepseek, openai,
  custom, Endpoint, Env, ◌>>=◌, text_or, provider_of, search_provider_of, node_env_of, is_set,
  required, positive, count_or, deepseek_of, openai_of, money_of, wake_of, endpoint,
}
use one_crew.Environment.Load.{
  refined_for, checked, endpoint_for, env_of, parse_env, resolve_provider,
}

bind-some {ℓ ℓ'} :
    {A : Type ℓ} {B : Type ℓ'} (x : Option A) (f : A → Option B) (b : B)
    → (x >>= f) ≡ some b
    → (a : A) × (x ≡ some a) × (f a ≡ some b)
bind-some none f b h = cc
bind-some (some a) f b h = (a, refl, h)

-- The endpoint has a URL and a model.
abbrev HasPlace : Endpoint → Type 0
HasPlace e = (is_set e.base_url ≡ true) × (is_set e.model ≡ true)

-- The endpoint has all that a client needs, each of them a text that is not empty.
abbrev pub IsReady : Endpoint → Type 0
IsReady e = (is_set e.api_key ≡ true) × HasPlace e

abbrev pub IsPositive : WakeEnv → Type 0
IsPositive w = (1 ≤ w.max_hops) × (1 ≤ w.max_pair_repeats) × (1 ≤ w.max_chain_activations)

text_or-set :
    (d u : String) (v : Option String)
    → str_eq d "" ≡ false
    → text_or d v ≡ some u
    → is_set (some u) ≡ true
text_or-set d u none k h = rw (← some-injective d u h, k) refl
text_or-set d u (some v) k h = ground (arith, h)

positive-pos : (n : Numeral) (k : ℕ) → positive n ≡ some k → 1 ≤ k
positive-pos (whole n) k h = ground (arith, h)
positive-pos not_a_number k h = cc
positive-pos below_zero k h = cc
positive-pos infinite k h = cc
positive-pos (fraction n) k h = cc

refined-IsReady :
    (p : Provider) (e : Env)
    → refined_for p e ≡ true
    → HasPlace e.deepseek_endpoint
    → HasPlace e.openai_endpoint
    → IsReady (endpoint_for p e)
refined-IsReady deepseek e h d o = (h, d)
refined-IsReady openai e h d o = (h, o)
refined-IsReady custom e h d o = ground (arith, h)

if-some {ℓ} :
    {A : Type ℓ} (b : Bool) (x y : A) → (if b then some x else none) ≡ some y → (b ≡ true) × (x ≡ y)
if-some true x y h = (refl, some-injective x y h)
if-some false x y h = cc

module _ (js : Js) where
  count_or-pos : (d k : ℕ) (v : Option String) → 1 ≤ d → count_or js d v ≡ some k → 1 ≤ k
  count_or-pos d k none pos h = rw (← some-injective d k h) pos
  count_or-pos d k (some v) pos h = positive-pos (js.number v) k h

  endpoint-HasPlace :
      (raw : Dict String) (key : Option String) (n url m model : String) (e : Endpoint)
      → str_eq url "" ≡ false
      → str_eq model "" ≡ false
      → endpoint js raw key n url m model ≡ some e
      → HasPlace e
  endpoint-HasPlace raw key n url m model e hu hm h =
      let (u, at_u, h₁) = bind-some (text_or url (get n raw)) _ e h in
      let (k, at_m, h₂) = bind-some (text_or model (get m raw)) _ e h₁ in
      rw (← some-injective _ e h₂)
        (text_or-set url u (get n raw) hu at_u, text_or-set model k (get m raw) hm at_m)

  wake_of-IsPositive : (raw : Dict String) (w : WakeEnv) → wake_of js raw ≡ some w → IsPositive w
  unfolding wake_of
  wake_of-IsPositive raw w h =
      let (a, at_a, h₁) = bind-some (count_or js 6 (get "AI_WAKE_MAX_HOPS" raw)) _ w h in
      let (b, at_b, h₂) = bind-some (count_or js 3 (get "AI_WAKE_MAX_PAIR_REPEATS" raw)) _ w h₁ in
      let (c, at_c, h₃) =
        bind-some (count_or js 12 (get "AI_WAKE_MAX_CHAIN_ACTIVATIONS" raw)) _ w h₂ in
      rw (← some-injective _ w h₃) (
        count_or-pos 6 a (get "AI_WAKE_MAX_HOPS" raw) (omega arith) at_a,
        count_or-pos 3 b (get "AI_WAKE_MAX_PAIR_REPEATS" raw) (omega arith) at_b,
        count_or-pos 12 c (get "AI_WAKE_MAX_CHAIN_ACTIVATIONS" raw) (omega arith) at_c,
      )

  -- What is left of an accepted environment: its provider and endpoints are those that were read.
  env_of-keeps :
      (raw : Dict String) (p : Provider) (d o : Endpoint) (e : Env)
      → env_of js raw p d o ≡ some e
      → (e.provider ≡ p)
        × (e.deepseek_endpoint ≡ d)
        × (e.openai_endpoint ≡ o)
        × IsPositive e.wake
        × (1 ≤ e.interval_ms)
  unfolding env_of
  env_of-keeps raw p d o e h =
      let (url, at_url, h₁) = bind-some (required js 1 (get "DATABASE_URL" raw)) _ e h in
      let (secret, at_secret, h₂) = bind-some (required js 32 (get "NEXTAUTH_SECRET" raw)) _ e h₁ in
      let (money, at_money, h₃) = bind-some (money_of js raw) _ e h₂ in
      let (interval, at_interval, h₄) =
        bind-some (count_or js 30_000 (get "AI_AGENT_INTERVAL_MS" raw)) _ e h₃ in
      let (wake, at_wake, h₅) = bind-some (wake_of js raw) _ e h₄ in
      let (cron, at_cron, h₆) =
        bind-some (text_or "0 18 * * *" (get "DAILY_REPORT_CRON" raw)) _ e h₅ in
      let (zone, at_zone, h₇) =
        bind-some (text_or "Asia/Shanghai" (get "WORKSPACE_TZ" raw)) _ e h₆ in
      let (search, at_search, h₈) =
        bind-some (search_provider_of (get "WEB_SEARCH_PROVIDER" raw)) _ e h₇ in
      let (node, at_node, h₉) = bind-some (node_env_of (get "NODE_ENV" raw)) _ e h₈ in
      rw (← some-injective _ e h₉) (
        refl,
        refl,
        refl,
        wake_of-IsPositive raw wake at_wake,
        count_or-pos 30_000 interval (get "AI_AGENT_INTERVAL_MS" raw) (omega arith) at_interval,
      )

  -- An environment that `loadEnv` accepts gives the provider it names a key, a URL and a model, none
  -- of them empty, and makes the three budgets of a wake chain and the interval of the loop positive.
  pub provider-IsReady :
      (raw : Dict String) (e : Env)
      → parse_env js raw ≡ some e
      → IsReady (resolve_provider e) × IsPositive e.wake × (1 ≤ e.interval_ms)
  unfolding parse_env resolve_provider deepseek_of openai_of
  provider-IsReady raw e h =
      let (p, at_p, h₁) = bind-some (provider_of (get "AI_PROVIDER" raw)) _ e h in
      let (d, at_d, h₂) = bind-some (deepseek_of js raw) _ e h₁ in
      let (o, at_o, h₃) = bind-some (openai_of js raw) _ e h₂ in
      let (e₁, at_e, h₄) = bind-some (env_of js raw p d o) checked e h₃ in
      let (fine, same) = if-some (refined_for e₁.provider e₁) e₁ e h₄ in
      let (at_provider, at_deepseek, at_openai, positive_wake, positive_interval) =
        env_of-keeps raw p d o e₁ at_e in
      rw (← same) (
        refined-IsReady e₁.provider e₁ fine
            (subst HasPlace (sym at_deepseek) (
              endpoint-HasPlace raw _ "DEEPSEEK_BASE_URL" "https://api.deepseek.com"
                "DEEPSEEK_MODEL" "deepseek-chat" d refl refl at_d))
            (subst HasPlace (sym at_openai) (
              endpoint-HasPlace raw _ "OPENAI_BASE_URL" "https://api.openai.com/v1" "OPENAI_MODEL"
                "gpt-4o-mini" o refl refl at_o)),
        positive_wake,
        positive_interval,
      )
