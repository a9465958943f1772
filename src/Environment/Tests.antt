-- ===== src/Environment/Tests.antt =====
-- Environments that are accepted and refused.
use one_crew.Common.{
  ◌≡◌, ◌≤◌, refl, String, true, false, Option, none, some, [], ◌∷◌, str_eq, if◌then◌else◌,
}
use one_crew.Common.Dict.{Dict, get}
use one_crew.Environment.{
  empty_string_to_undefined, wake_of, Js, Numeral, whole, fraction, not_a_number, deepseek,
  Endpoint, tavily, development, Env,
}
use one_crew.Environment.Load.{parse_env, resolve_provider}
use one_crew.Environment.Ready.{IsReady, IsPositive, provider-IsReady}

abbrev numeral : String → Numeral
numeral s = if str_eq s "0" then whole 0 else if str_eq s "8" then whole 8 else not_a_number

abbrev js : Js
js = record { trim = λ s. s; lower = λ s. s; number = numeral; units = λ s. 40 }

abbrev raw : Dict String
raw =
    ("DATABASE_URL", "postgresql://db")
    ∷ ("NEXTAUTH_SECRET", "a secret of at least 32 characters")
    ∷ ("DEEPSEEK_API_KEY", "sk-1")
    ∷ ("AI_WAKE_MAX_HOPS", "8")
    ∷ ("WORKSPACE_ID", "")
    ∷ ("DASHBOARD_ENABLED", "true")
    ∷ []

abbrev defaulted : String → String → Option String → Endpoint
defaulted url model key = record { api_key = key; base_url = some url; model = some model }

-- A blank WORKSPACE_ID is read as undefined, not as its default.
abbrev good_env : Env
good_env = record {
  provider = deepseek;
  deepseek_endpoint = defaulted "https://api.deepseek.com" "deepseek-chat" (some "sk-1");
  openai_endpoint = defaulted "https://api.openai.com/v1" "gpt-4o-mini" (some "");
  custom_endpoint = record { api_key = some ""; base_url = some ""; model = some "" };
  database_url = "postgresql://db";
  secret = "a secret of at least 32 characters";
  money = record {
    daily_budget = whole 5;
    input_price = fraction 1_070_000;
    output_price = fraction 1_100_000;
    web_search_cost = fraction 1_000;
  };
  interval_ms = 30_000;
  wake = record { max_hops = 8; max_pair_repeats = 3; max_chain_activations = 12 };
  texts = record {
    redis_url = some "redis://localhost:6379";
    socket_url = some "";
    budget_notice = some "⚠\u{fe0f} AI 今日预算已用尽，将于明日 UTC 0 点恢复";
    tavily_key = some "";
    serper_key = some "";
    github_token = some "";
    workspace_id = none;
    workspace_name = some "";
    agent_names = some "";
    email_domain = some "";
  };
  flags = record {
    handoff_enabled = false;
    reports_enabled = false;
    dashboard_enabled = true;
    auto_tick = false;
  };
  report_cron = "0 18 * * *";
  timezone = "Asia/Shanghai";
  search_provider = tavily;
  node_env = development;
}

good_env_lem : parse_env js raw ≡ some good_env
unfolding parse_env get empty_string_to_undefined wake_of
good_env_lem = refl

no_key : parse_env js (("AI_PROVIDER", "openai") ∷ raw) ≡ none
unfolding parse_env get empty_string_to_undefined wake_of
no_key = refl

no_hops : parse_env js (("AI_WAKE_MAX_HOPS", "0") ∷ raw) ≡ none
unfolding parse_env get empty_string_to_undefined wake_of
no_hops = refl

provider-IsReady_example :
    IsReady (resolve_provider good_env) × IsPositive good_env.wake × (1 ≤ 30_000)
provider-IsReady_example = provider-IsReady js raw good_env good_env_lem
