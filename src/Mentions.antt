-- ===== src/Mentions.antt =====
-- lib/services/message.service.ts: who a message wakes (`wakeMentionedAIs`, `aiMatchesMentions`,
-- `extractCustomMentionAliases`). The regular expression's matches, `trim().toLowerCase()`, the clock
-- and the database's answer are arguments.
pub mod Metered
pub mod Woken
mod Tests
use one_crew.Common.{
  ℕ, suc, String, Bool, true, false, ◌||◌, Option, none, some, List, [], ◌∷◌, str_eq, if◌then◌else◌,
}
use one_crew.Common.Json.{
  Json, null, boolean, number, text, array, object, Items, nil, cons, Fields, end, field,
}
use one_crew.Common.TextSet.{has, add}
use one_crew.RateLimit.{RateLimitConfig, RateLimitVerdict, allowed, denied, Limiter, rate_limit}
use one_crew.WakeChain.{WakeContext, start_human_chain}
use one_crew.Workspace.{Effect, wakeup, Outcome, done, threw}

-- `MENTION_LIMIT`
abbrev pub mention_limit : RateLimitConfig
mention_limit = record { capacity = 30; window_ms = 60_000 }

-- The columns of an AI that the query selects.
pub record AiUser : Type 0 where
  pub id : String
  pub name : String
  pub settings : Json

-- `settings.mentionAliases`
abbrev pub alias_field : Fields → Json
alias_field end = null
alias_field (field name v fs) = if str_eq name "mentionAliases" then v else alias_field fs

abbrev pub passes : RateLimitVerdict → Bool
passes (allowed n) = true
passes (denied wait) = false

-- The loop over the mentions: one token for each. `clock i` is the time that the i-th call reads.
unfoldable pub allow : String → (ℕ → ℕ) → ℕ → List String → Limiter → List String × Limiter
allow sender clock i [] l = ([], l)
allow sender clock i (m ∷ ms) l =
    let (verdict, l') = rate_limit l "messages.mentions" sender mention_limit (clock i) in
    let (rest, l'') = allow sender clock (suc i) ms l' in
    ((if passes verdict then m ∷ rest else rest), l'')

module _ (normal : String → String) where
  abbrev pub text_aliases : Items → List String
  text_aliases nil = []
  text_aliases (cons (text s) xs) =
      let rest = text_aliases xs in if str_eq (normal s) "" then rest else normal s ∷ rest
  text_aliases (cons v xs) = text_aliases xs

  abbrev pub array_aliases : Json → List String
  array_aliases (array xs) = text_aliases xs
  array_aliases v = []

  unfoldable pub custom_aliases : Json → List String
  custom_aliases (object fs) = array_aliases (alias_field fs)
  custom_aliases v = []

  abbrev pub any_in : List String → List String → Bool
  any_in mentions [] = false
  any_in mentions (a ∷ rest) = has a mentions || any_in mentions rest

  unfoldable pub ai_matches_mentions : String → Json → List String → Bool
  unfolding custom_aliases
  ai_matches_mentions name settings mentions =
      any_in mentions (normal name ∷ custom_aliases settings)

  -- The set of the mentions, from the matches of the regular expression.
  unfoldable pub mention_set : List String → List String → List String
  mention_set [] seen = seen
  mention_set (m ∷ ms) seen = mention_set ms (add (normal m) seen)

  unfoldable pub emit_all : WakeContext → List String → List AiUser → List Effect
  emit_all ctx mentions [] = []
  emit_all ctx mentions (ai ∷ ais) =
      let rest = emit_all ctx mentions ais in
      if ai_matches_mentions ai.name ai.settings mentions then wakeup ai.id ctx ∷ rest else rest

  -- From the answer of the database on; an error of it is dropped by `create`.
  abbrev pub emit_found : WakeContext → List String → Outcome (List AiUser) → List Effect
  emit_found ctx mentions (threw e) = []
  emit_found ctx mentions (done ais) = emit_all ctx mentions ais

  abbrev pub emit_allowed :
      String → String → Outcome (List AiUser) → List String × Limiter → List Effect × Limiter
  emit_allowed uuid sender answer ([], l) = ([], l)
  emit_allowed uuid sender answer (m ∷ ms, l) =
      (emit_found (start_human_chain uuid sender) (m ∷ ms) answer, l)

  -- `wakeMentionedAIs`; with no mention the loop and the rest do nothing.
  unfoldable pub wake_mentioned_ais :
      String
      → List String
      → (ℕ → ℕ)
      → String
      → Outcome (List AiUser)
      → Limiter
      → List Effect × Limiter
  unfolding mention_set
  wake_mentioned_ais sender matches clock uuid answer l =
      emit_allowed uuid sender answer (allow sender clock 0 (mention_set matches []) l)
