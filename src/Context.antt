-- ===== src/Context.antt =====
-- lib/ai/context.ts: the estimate of a message's tokens, and the trimming of a conversation to a
-- budget. `JSON.stringify` and the length of a text in UTF-16 units are parameters.
pub mod Suffix
mod Tests
use one_crew.Common.{
  ℕ, ◌+◌, ◌/◌, String, Bool, true, false, ◌&&◌, Option, none, some, List, [], ◌∷◌, str_eq, ltb, leb,
  if◌then◌else◌,
}
use one_crew.Common.Json.{
  Json, null, boolean, number, text, array, object, Items, nil, cons, Fields, end, field,
}
use one_crew.Budget.{JsNumber, not_finite, negative, natural}

-- `Math.ceil(length / CHARS_PER_TOKEN)`
abbrev pub ceil_tokens : ℕ → ℕ
ceil_tokens chars = (chars + 3) / 4

-- `obj.text`, if it is a string.
abbrev pub text_of : Fields → Option String
text_of end = none
text_of (field name (text s) fs) = if str_eq name "text" then some s else text_of fs
text_of (field name v fs) = if str_eq name "text" then none else text_of fs

abbrev pub first_known : Option ℕ → Option ℕ → ℕ → ℕ
first_known (some a) b c = a
first_known none (some b) c = b
first_known none none c = c

module _ (units : String → ℕ) (stringify : Json → String) where
  abbrev tokens_of_text : Option String → Option ℕ
  tokens_of_text none = none
  tokens_of_text (some s) = some (ceil_tokens (units s))

  unfoldable mutual
    -- `estimateTokens`
    pub estimate_tokens : Json → ℕ
    estimate_tokens null = 0
    estimate_tokens (text s) = ceil_tokens (units s)
    estimate_tokens (array xs) = estimate_items xs
    estimate_tokens (object fs) =
        let inner = estimate_content fs in
        first_known (tokens_of_text (text_of fs)) inner
          (ceil_tokens (units (stringify (object fs))))
    estimate_tokens (boolean b) = ceil_tokens (units (stringify (boolean b)))
    estimate_tokens (number n) = ceil_tokens (units (stringify (number n)))

    -- The loop over the blocks of an array.
    pub estimate_items : Items → ℕ
    estimate_items nil = 0
    estimate_items (cons v xs) = estimate_tokens v + estimate_items xs

    -- `obj.content`, if it is a string or an array.
    pub estimate_content : Fields → Option ℕ
    estimate_content end = none
    estimate_content (field name (text s) fs) =
        let rest = estimate_content fs in
        if str_eq name "content" then some (ceil_tokens (units s)) else rest
    estimate_content (field name (array xs) fs) =
        let here = estimate_items xs in
        let rest = estimate_content fs in if str_eq name "content" then some here else rest
    estimate_content (field name v fs) =
        let rest = estimate_content fs in if str_eq name "content" then none else rest

module _ {ℓ} {A : Type ℓ} (cost : A → ℕ) where
  -- The loop, from the last message to the first: the tokens used, whether it still runs, and the
  -- messages kept.
  abbrev pub keep_newest : ℕ → List A → ℕ × Bool × List A
  keep_newest budget [] = (0, true, [])
  keep_newest budget (m ∷ ms) =
      let (used, running, kept) = keep_newest budget ms in
      if running && leb (used + cost m) budget
      then (used + cost m, true, m ∷ kept)
      else (used, false, kept)

  -- `trimContextToTokenBudget`
  unfoldable pub trim_context : JsNumber → List A → List A
  trim_context not_finite ms = []
  trim_context (negative n) ms = []
  trim_context (natural budget) ms = if ltb 0 budget then (keep_newest budget ms).2 else []
