-- ===== src/Tools/Analysis.antt =====
-- `normalizeApprovalAnalysis` and its helpers: what reviewers are shown of an approval.
use one_crew.Common.{
  ℕ, String, Bool, false, ◌||◌, ◌&&◌, not, Option, none, some, List, [], ◌∷◌, str_eq, if◌then◌else◌,
  keep, map, take,
}
use one_crew.Common.Texts.{◌&◌, join_with}
use one_crew.Common.Substring.{includes}
use one_crew.Common.Json.{Json, text, array, object, Items, nil, cons, Fields, end, field}
use one_crew.Tools.{RiskLevel, low, medium, high, AnalysisInput}

-- What is used of JavaScript: `trim`, `toLowerCase`, the split of a text at newlines and semicolons,
-- `JSON.stringify`, and the text of a number.
pub record Js : Type 0 where
  pub trim : String → String
  pub lower : String → String
  pub split_lines : String → List String
  pub stringify : Json → String
  pub decimal : ℕ → String

-- `ApprovalAnalysis`
pub record Analysis : Type 0 where
  pub background : String
  pub impact_scope : String
  pub risk_level : RiskLevel
  pub alternatives : List String

abbrev any_included : List String → String → Bool
any_included [] s = false
any_included (w ∷ ws) s = includes s w || any_included ws s

abbrev non_empty : String → Bool
non_empty s = not (str_eq s "")

abbrev pub keys : Fields → List String
keys end = []
keys (field name v fs) = name ∷ keys fs

abbrev or_no_fields : Option Fields → Fields
or_no_fields none = end
or_no_fields (some fs) = fs

abbrev or_text : Option String → String → String
or_text none s = s
or_text (some t) s = t

-- `{ ...fields, [key]: value }`
unfoldable pub put : String → Json → Fields → Fields
put key v end = field key v end
put key v (field name w fs) =
    if str_eq name key then field name v fs else field name w (put key v fs)

abbrev risk_name : RiskLevel → String
risk_name low = "low"
risk_name medium = "medium"
risk_name high = "high"

abbrev text_items : List String → Items
text_items [] = nil
text_items (t ∷ ts) = cons (text t) (text_items ts)

-- The analysis as the payload's value.
abbrev pub analysis_json : Analysis → Json
analysis_json a = object (
    field "background" (text a.background) (
      field "impactScope" (text a.impact_scope) (
        field "riskLevel" (text (risk_name a.risk_level))
          (field "alternatives" (array (text_items a.alternatives)) end))))

module _ (js : Js) where
  open js use {trim, lower, split_lines, stringify}

  -- `firstNonBlank`
  unfoldable pub first_non_blank : List (Option String) → Option String
  first_non_blank [] = none
  first_non_blank (none ∷ vs) = first_non_blank vs
  first_non_blank (some v ∷ vs) =
      let rest = first_non_blank vs in if str_eq (trim v) "" then rest else some (trim v)

  -- `parseAlternativeList`
  unfoldable pub parse_alternative_list : Option String → List String
  parse_alternative_list none = []
  parse_alternative_list (some v) =
      if str_eq v "" then [] else take 5 (keep non_empty (map trim (split_lines v)))

  abbrev shown_keys : Option Fields → List String
  shown_keys payload =
      keep (λ k. not (str_eq k "reason") && not (str_eq k "approvalAnalysis"))
        (keys (or_no_fields payload))

  abbrev impact_of_keys : String → List String → String
  impact_of_keys action [] = "将执行 " & action & "，未提供额外参数。"
  impact_of_keys action (k ∷ ks) =
      "将执行 " & action & "，影响参数：" & join_with "、" (take 8 (k ∷ ks)) & "。"

  -- `summarizeApprovalImpact`
  unfoldable pub summarize_approval_impact : String → Option Fields → String
  summarize_approval_impact action payload = impact_of_keys action (shown_keys payload)

  -- `inferApprovalRiskLevel`. A payload that is a tree is never cyclic.
  unfoldable pub infer_approval_risk_level : String → Option Fields → String → RiskLevel
  infer_approval_risk_level action payload reason =
      let seen = lower (action & " " & reason & " " & stringify (object (or_no_fields payload))) in
      if any_included
        ("delete" ∷ "drop" ∷ "destroy" ∷ "payment" ∷ "billing" ∷ "prod" ∷ "production" ∷ "生产" ∷ "删除"
          ∷ "付款" ∷ "计费" ∷ [])
        seen
      then high
      else if any_included
          ("deploy" ∷ "release" ∷ "external" ∷ "email" ∷ "customer" ∷ "database" ∷ "migration"
            ∷ "部署" ∷ "发布" ∷ "外部" ∷ "邮件" ∷ "客户" ∷ "数据库" ∷ "迁移" ∷ [])
          seen
      then high
      else medium

  abbrev or_inferred : Option RiskLevel → RiskLevel → RiskLevel
  or_inferred none r = r
  or_inferred (some q) r = q

  abbrev alternatives_or : String → List String → List String
  alternatives_or action [] = "暂缓执行，等待人工补充更多上下文。" ∷ ("将 " & action & " 拆成更小步骤，先验证低风险部分。") ∷ []
  alternatives_or action (a ∷ as') = a ∷ as'

  -- `analysis?.background` and the like.
  abbrev given : Option AnalysisInput → AnalysisInput
  given none = record {
    background = none;
    impact_scope = none;
    risk_level = none;
    alternatives = none;
  }
  given (some a) = a

  unfoldable pub normalize_approval_analysis :
      String → Option Fields → String → Option AnalysisInput → Analysis
  unfolding first_non_blank parse_alternative_list summarize_approval_impact
      infer_approval_risk_level
  normalize_approval_analysis action payload reason analysis =
      let a = given analysis in
      record {
        background =
            or_text (first_non_blank (a.background ∷ some reason ∷ []))
              ("需要人工确认 " & action & " 是否应该继续执行。");
        impact_scope =
            or_text (first_non_blank (a.impact_scope ∷ []))
              (summarize_approval_impact action payload);
        risk_level = or_inferred a.risk_level (infer_approval_risk_level action payload reason);
        alternatives = alternatives_or action (parse_alternative_list a.alternatives);
      }
