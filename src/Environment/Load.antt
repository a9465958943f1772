-- ===== src/Environment/Load.antt =====
-- `loadEnv` of lib/env.ts, and `resolveProvider` of lib/ai/providers.ts.
use one_crew.Common.{String, Bool, ◌&&◌, Option, none, some, if◌then◌else◌}
use one_crew.Common.Dict.{Dict, get}
use one_crew.Environment.{
  Js, Provider, deepseek, openai, custom, Endpoint, Texts, Flags, Env, ◌>>=◌, text_or, provider_of,
  search_provider_of, node_env_of, is_set, optional_or, required, count_or, flag, is_truthy_word,
  deepseek_of, openai_of, custom_of, money_of, wake_of,
}

-- The issues of `superRefine`: whether there is none, for a provider.
abbrev pub refined_for : Provider → Env → Bool
refined_for deepseek e = is_set e.deepseek_endpoint.api_key
refined_for openai e = is_set e.openai_endpoint.api_key
refined_for custom e =
    is_set e.custom_endpoint.api_key
    && is_set e.custom_endpoint.base_url
    && is_set e.custom_endpoint.model

-- The refinement of the parsed object.
abbrev pub checked : Env → Option Env
checked e = if refined_for e.provider e then some e else none

-- `resolveProvider`
abbrev pub endpoint_for : Provider → Env → Endpoint
endpoint_for deepseek e = e.deepseek_endpoint
endpoint_for openai e = e.openai_endpoint
endpoint_for custom e = e.custom_endpoint

unfoldable pub resolve_provider : Env → Endpoint
resolve_provider e = endpoint_for e.provider e

module _ (js : Js) where
  abbrev texts_of : Dict String → Texts
  texts_of raw = record {
    redis_url = optional_or js "redis://localhost:6379" (get "REDIS_URL" raw);
    socket_url = optional_or js "" (get "NEXT_PUBLIC_SOCKET_URL" raw);
    budget_notice =
        optional_or js "⚠\u{fe0f} AI 今日预算已用尽，将于明日 UTC 0 点恢复" (get "AI_BUDGET_EXCEEDED_NOTICE" raw);
    tavily_key = optional_or js "" (get "TAVILY_API_KEY" raw);
    serper_key = optional_or js "" (get "SERPER_API_KEY" raw);
    github_token = optional_or js "" (get "GITHUB_TOKEN" raw);
    workspace_id = optional_or js "ws_default" (get "WORKSPACE_ID" raw);
    workspace_name = optional_or js "" (get "WORKSPACE_NAME" raw);
    agent_names = optional_or js "" (get "AI_AGENT_NAMES_JSON" raw);
    email_domain = optional_or js "" (get "SEED_EMAIL_DOMAIN" raw);
  }

  abbrev flags_of : Dict String → Flags
  flags_of raw = record {
    handoff_enabled = flag js (get "AI_HANDOFF_ENABLED" raw);
    reports_enabled = flag js (get "DAILY_REPORTS_ENABLED" raw);
    dashboard_enabled = flag js (get "DASHBOARD_ENABLED" raw);
    auto_tick = is_truthy_word js (get "AI_AUTO_TICK" raw);
  }

  -- The fields that only have to be there or to be of a kind.
  unfoldable pub env_of : Dict String → Provider → Endpoint → Endpoint → Option Env
  unfolding money_of optional_or required
  env_of raw p deepseek_endpoint openai_endpoint = required js 1 (get "DATABASE_URL" raw) >>= λ url.
      required js 32 (get "NEXTAUTH_SECRET" raw) >>= λ secret. money_of js raw >>= λ money.
      count_or js 30_000 (get "AI_AGENT_INTERVAL_MS" raw) >>= λ interval. wake_of js raw >>= λ wake.
      text_or "0 18 * * *" (get "DAILY_REPORT_CRON" raw) >>= λ cron.
      text_or "Asia/Shanghai" (get "WORKSPACE_TZ" raw) >>= λ zone.
      search_provider_of (get "WEB_SEARCH_PROVIDER" raw) >>= λ search.
      node_env_of (get "NODE_ENV" raw) >>= λ node. some (record {
        provider = p;
        deepseek_endpoint = deepseek_endpoint;
        openai_endpoint = openai_endpoint;
        custom_endpoint = custom_of js raw;
        database_url = url;
        secret = secret;
        money = money;
        interval_ms = interval;
        wake = wake;
        texts = texts_of raw;
        flags = flags_of raw;
        report_cron = cron;
        timezone = zone;
        search_provider = search;
        node_env = node;
      })

  -- `envSchema.safeParse(process.env)`
  unfoldable pub parse_env : Dict String → Option Env
  unfolding env_of deepseek_of openai_of
  parse_env raw = provider_of (get "AI_PROVIDER" raw) >>= λ p.
      deepseek_of js raw >>= λ d. openai_of js raw >>= λ o. env_of raw p d o >>= checked
