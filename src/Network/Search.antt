-- ===== src/Network/Search.antt =====
-- `webSearch` with its two providers.
use one_crew.Common.{
  ℕ, suc, ◌≤◌, String, Bool, Option, none, some, List, [], ◌∷◌, take, leb, str_eq, if◌then◌else◌,
  arith,
}
use one_crew.Common.Texts.{◌&◌, join_with, Attempt, returns, throws}
use one_crew.Common.Json.{Json, text, array, object, Items, nil, cons}
use one_crew.Budget.{JsNumber, not_finite, negative, natural}
use one_crew.Tools.Schemas.{lookup}

pub record SearchResult : Type 0 where
  pub title : String
  pub url : String
  pub snippet : String

-- The settings of lib/env.ts that are read.
pub record SearchEnv : Type 0 where
  pub is_serper : Bool
  pub tavily_api_key : Option String
  pub serper_api_key : Option String

pub data SearchRequest : Type 0 where
  tavily_request serper_request : (api_key query : String) (limit : ℕ) → SearchRequest

-- What is read of a response; `json()` may throw.
pub record Response : Type 0 where
  pub is_ok : Bool
  pub status : ℕ
  pub body : Attempt Json

-- `clampMaxResults`
unfoldable pub clamp_max_results : Option JsNumber → ℕ
clamp_max_results none = 5
clamp_max_results (some not_finite) = 5
clamp_max_results (some (negative n)) = 1
clamp_max_results (some (natural n)) = if leb n 1 then 1 else if leb 10 n then 10 else n

abbrev field_of : String → Json → Option Json
field_of key (object fs) = lookup key fs
field_of key v = none

abbrev row_of : Option Json → Option Json → Option Json → Option SearchResult
row_of (some (text t)) (some (text u)) (some (text c)) =
    some (record { title = t; url = u; snippet = c })
row_of t u c = none

abbrev and_rest : Option SearchResult → List SearchResult → List SearchResult
and_rest none rows = rows
and_rest (some r) rows = r ∷ rows

-- The filter and the map over the rows, given the keys of a row's url and snippet.
abbrev rows_in : String → String → Items → List SearchResult
rows_in url snippet nil = []
rows_in url snippet (cons v xs) =
    and_rest (row_of (field_of "title" v) (field_of url v) (field_of snippet v))
      (rows_in url snippet xs)

abbrev rows_of : String → String → ℕ → String → Option Json → Attempt (List SearchResult)
rows_of url snippet limit missing (some (array xs)) = returns (take limit (rows_in url snippet xs))
rows_of url snippet limit missing v = throws missing

abbrev body_rows :
    String → String → String → ℕ → String → Attempt Json → Attempt (List SearchResult)
body_rows key url snippet limit missing (throws m) = throws m
body_rows key url snippet limit missing (returns v) =
    rows_of url snippet limit missing (field_of key v)

abbrev given_key : Option String → Option String
given_key none = none
given_key (some k) = if str_eq k "" then none else some k

module _ (decimal : ℕ → String) (fetch : SearchRequest → Attempt Response) where
  abbrev tavily_answer : ℕ → Attempt Response → Attempt (List SearchResult)
  tavily_answer limit (throws m) = throws m
  tavily_answer limit (returns r) =
      if r.is_ok
      then body_rows "results" "url" "content" limit "Tavily response missing results array" r.body
      else throws ("Tavily HTTP " & decimal r.status)

  abbrev tavily_with : Option String → String → ℕ → Attempt (List SearchResult)
  tavily_with none query limit = throws "TAVILY_API_KEY is not configured"
  tavily_with (some key) query limit = tavily_answer limit (fetch (tavily_request key query limit))

  unfoldable pub search_tavily : SearchEnv → String → Option JsNumber → Attempt (List SearchResult)
  search_tavily env query max =
      tavily_with (given_key env.tavily_api_key) query (clamp_max_results max)

  abbrev serper_answer : ℕ → Attempt Response → Attempt (List SearchResult)
  serper_answer limit (throws m) = throws m
  serper_answer limit (returns r) =
      if r.is_ok
      then body_rows "organic" "link" "snippet" limit "Serper response missing organic array" r.body
      else throws ("Serper HTTP " & decimal r.status)

  abbrev serper_with : Option String → String → ℕ → Attempt (List SearchResult)
  serper_with none query limit = throws "SERPER_API_KEY is not configured"
  serper_with (some key) query limit = serper_answer limit (fetch (serper_request key query limit))

  unfoldable pub search_serper : SearchEnv → String → Option JsNumber → Attempt (List SearchResult)
  search_serper env query max =
      serper_with (given_key env.serper_api_key) query (clamp_max_results max)

  unfoldable pub web_search : SearchEnv → String → Option JsNumber → Attempt (List SearchResult)
  unfolding search_serper search_tavily
  web_search env query max =
      if env.is_serper then search_serper env query max else search_tavily env query max

  abbrev result_lines : ℕ → List SearchResult → List String
  result_lines n [] = []
  result_lines n (r ∷ rs) =
      (decimal n & ". **" & r.title & "** — " & r.url)
      ∷ ("   " & r.snippet)
      ∷ result_lines (suc n) rs

  -- `formatResults`; the query is shown as `JSON.stringify` writes it.
  unfoldable pub format_results : (String → String) → String → List SearchResult → String
  format_results quoted query [] =
      join_with "\n"
        ("# Web search results" ∷ ("Query: " & quoted query) ∷ "" ∷ "(no results)" ∷ [])
  format_results quoted query (r ∷ rs) =
      join_with "\n"
        ("# Web search results" ∷ ("Query: " & quoted query) ∷ "" ∷ result_lines 1 (r ∷ rs))

  clamp-bounds :
      (max : Option JsNumber) → (1 ≤ clamp_max_results max) × (clamp_max_results max ≤ 10)
  unfolding clamp_max_results
  clamp-bounds none = ((omega arith), (omega arith))
  clamp-bounds (some not_finite) = ((omega arith), (omega arith))
  clamp-bounds (some (negative n)) = ((omega arith), (omega arith))
  clamp-bounds (some (natural n)) = ground arith
