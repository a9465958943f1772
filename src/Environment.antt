-- ===== src/Environment.antt =====
-- lib/env.ts: the validation of the environment, and lib/ai/providers.ts. The functions of JavaScript on
-- texts are the record `Js`. The messages of a refusal, which are only printed before the process exits,
-- are left out: a refusal is `none`. A text that zod reads as undefined behind a default is `none`.
pub mod Load
pub mod Ready
mod Tests
use one_crew.Common.{
  ℕ, String, Bool, true, false, not, ◌&&◌, ◌||◌, Option, none, some, List, [], ◌∷◌, str_eq, leb,
  ltb, if◌then◌else◌,
}
use one_crew.Common.Dict.{Dict, get}
use one_crew.Common.TextSet.{has}
use one_crew.WakeChain.{WakeEnv}

-- What `Number` makes of a text: a fraction is not whole, and is counted in millionths.
pub data Numeral : Type 0 where
  not_a_number below_zero infinite : Numeral
  whole fraction : ℕ → Numeral

pub record Js : Type 0 where
  pub trim : String → String
  pub lower : String → String
  pub number : String → Numeral
  pub units : String → ℕ

pub data Provider : Type 0 where
  deepseek openai custom : Provider

-- The three variables of a provider.
pub record Endpoint : Type 0 where
  pub api_key : Option String
  pub base_url : Option String
  pub model : Option String

pub data SearchProvider : Type 0 where
  tavily serper : SearchProvider

pub data NodeEnv : Type 0 where
  development production test : NodeEnv

pub record Money : Type 0 where
  pub daily_budget : Numeral
  pub input_price : Numeral
  pub output_price : Numeral
  pub web_search_cost : Numeral

-- The variables that only `emptyStringToUndefined` and a default guard.
pub record Texts : Type 0 where
  pub redis_url : Option String
  pub socket_url : Option String
  pub budget_notice : Option String
  pub tavily_key : Option String
  pub serper_key : Option String
  pub github_token : Option String
  pub workspace_id : Option String
  pub workspace_name : Option String
  pub agent_names : Option String
  pub email_domain : Option String

pub record Flags : Type 0 where
  pub handoff_enabled : Bool
  pub reports_enabled : Bool
  pub dashboard_enabled : Bool
  pub auto_tick : Bool

-- `Env`, its variables in groups.
pub record Env : Type 0 where
  pub provider : Provider
  pub deepseek_endpoint : Endpoint
  pub openai_endpoint : Endpoint
  pub custom_endpoint : Endpoint
  pub database_url : String
  pub secret : String
  pub money : Money
  pub interval_ms : ℕ
  pub wake : WakeEnv
  pub texts : Texts
  pub flags : Flags
  pub report_cron : String
  pub timezone : String
  pub search_provider : SearchProvider
  pub node_env : NodeEnv

infixl 5 ◌>>=◌
abbrev pub ◌>>=◌ {ℓ ℓ'} : {A : Type ℓ} {B : Type ℓ'} → Option A → (A → Option B) → Option B
none >>= f = none
some a >>= f = f a

-- `z.string().min(1).default(…)`
abbrev pub text_or : String → Option String → Option String
text_or d none = some d
text_or d (some v) = if str_eq v "" then none else some v

-- `z.enum(['deepseek', 'openai', 'custom']).default('deepseek')`
abbrev pub provider_of : Option String → Option Provider
provider_of none = some deepseek
provider_of (some v) =
    if str_eq v "deepseek"
    then some deepseek
    else if str_eq v "openai"
    then some openai
    else if str_eq v "custom"
    then some custom
    else none

abbrev pub search_provider_of : Option String → Option SearchProvider
search_provider_of none = some tavily
search_provider_of (some v) =
    if str_eq v "tavily" then some tavily else if str_eq v "serper" then some serper else none

abbrev pub node_env_of : Option String → Option NodeEnv
node_env_of none = some development
node_env_of (some v) =
    if str_eq v "development"
    then some development
    else if str_eq v "production"
    then some production
    else if str_eq v "test"
    then some test
    else none

-- `.nonnegative()`
abbrev nonnegative : Numeral → Option Numeral
nonnegative not_a_number = none
nonnegative below_zero = none
nonnegative infinite = some infinite
nonnegative (whole n) = some (whole n)
nonnegative (fraction n) = some (fraction n)

-- `.int().positive()`
abbrev pub positive : Numeral → Option ℕ
positive (whole n) = if ltb 0 n then some n else none
positive _ = none

-- The test of `superRefine` and of `if (!value)`.
abbrev pub is_set : Option String → Bool
is_set none = false
is_set (some v) = not (str_eq v "")

module _ (js : Js) where
  open js use {trim, lower, number, units}

  -- `emptyStringToUndefined`
  unfoldable pub empty_string_to_undefined : Option String → Option String
  empty_string_to_undefined none = none
  empty_string_to_undefined (some v) = if str_eq (trim v) "" then none else some v

  -- `z.preprocess(emptyStringToUndefined, z.string().min(1).optional()).default(…)`: the default stands
  -- for a variable that is not set, and a blank one is read as undefined.
  unfoldable pub optional_or : String → Option String → Option String
  optional_or d none = some d
  optional_or d (some v) = empty_string_to_undefined (some v)

  -- `z.preprocess(emptyStringToUndefined, z.string()).pipe(z.string().min(…))`
  abbrev long_enough : ℕ → Option String → Option String
  long_enough least none = none
  long_enough least (some v) = if leb least (units v) then some v else none

  unfoldable pub required : ℕ → Option String → Option String
  required least v = long_enough least (empty_string_to_undefined v)

  -- `z.coerce.number()…default(…)`
  abbrev pub amount_or : Numeral → Option String → Option Numeral
  amount_or d none = some d
  amount_or d (some v) = nonnegative (number v)

  abbrev pub count_or : ℕ → Option String → Option ℕ
  count_or d none = some d
  count_or d (some v) = positive (number v)

  abbrev pub flag : Option String → Bool
  flag none = false
  flag (some v) = str_eq (lower v) "true"

  abbrev pub is_truthy_word : Option String → Bool
  is_truthy_word none = false
  is_truthy_word (some v) = has (lower (trim v)) ("1" ∷ "true" ∷ "on" ∷ "yes" ∷ [])

  module _ (raw : Dict String) where
    abbrev pub endpoint : Option String → String → String → String → String → Option Endpoint
    endpoint key url_name url model_name model = text_or url (get url_name raw) >>= λ u.
        text_or model (get model_name raw) >>= λ m.
        some (record { api_key = key; base_url = some u; model = some m })

    unfoldable pub deepseek_of : Option Endpoint
    deepseek_of =
        endpoint (optional_or "" (get "DEEPSEEK_API_KEY" raw)) "DEEPSEEK_BASE_URL"
          "https://api.deepseek.com" "DEEPSEEK_MODEL" "deepseek-chat"

    unfoldable pub openai_of : Option Endpoint
    openai_of =
        endpoint (optional_or "" (get "OPENAI_API_KEY" raw)) "OPENAI_BASE_URL"
          "https://api.openai.com/v1" "OPENAI_MODEL" "gpt-4o-mini"

    abbrev pub custom_of : Endpoint
    custom_of = record {
      api_key = optional_or "" (get "AI_PROVIDER_API_KEY" raw);
      base_url = optional_or "" (get "AI_PROVIDER_BASE_URL" raw);
      model = optional_or "" (get "AI_PROVIDER_MODEL" raw);
    }

    unfoldable pub money_of : Option Money
    money_of = amount_or (whole 5) (get "AI_DAILY_BUDGET_USD" raw) >>= λ b.
        amount_or (fraction 1_070_000) (get "AI_INPUT_PRICE_PER_M_USD" raw) >>= λ i.
        amount_or (fraction 1_100_000) (get "AI_OUTPUT_PRICE_PER_M_USD" raw) >>= λ o.
        amount_or (fraction 1_000) (get "WEB_SEARCH_COST_USD" raw) >>= λ c.
        some (record { daily_budget = b; input_price = i; output_price = o; web_search_cost = c })

    unfoldable pub wake_of : Option WakeEnv
    wake_of = count_or 6 (get "AI_WAKE_MAX_HOPS" raw) >>= λ h.
        count_or 3 (get "AI_WAKE_MAX_PAIR_REPEATS" raw) >>= λ p.
        count_or 12 (get "AI_WAKE_MAX_CHAIN_ACTIVATIONS" raw) >>= λ a.
        some (record { max_hops = h; max_pair_repeats = p; max_chain_activations = a })
