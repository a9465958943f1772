-- ===== src/Runtime/Digest.antt =====
-- `buildInitialContext` and `buildKnowledgeBlock`: the first message of a cycle, from the rows that the
-- database delivers.
use one_crew.Common.{
  ℕ, suc, ◌+◌, ◌≤◌, ◌≡◌, String, Bool, Option, none, some, List, [], ◌∷◌, map, ltb, arith, length,
  str_eq, if◌then◌else◌,
}
use one_crew.Common.Texts.{◌&◌, join_with}

pub record RecentMessage : Type 0 where
  pub author : String
  pub is_ai : Bool
  pub channel : String
  pub content : String

pub record OpenTask : Type 0 where
  pub task_id : String
  pub title : String
  pub assignee : Option String

pub record ChannelRow : Type 0 where
  pub id : String
  pub name : String

pub record Card : Type 0 where
  pub name : String
  pub knowledge : String

-- `KNOWLEDGE_INJECTION_BUDGET`
abbrev pub knowledge_injection_budget : ℕ
knowledge_injection_budget = 12_000

abbrev message_line : RecentMessage → String
message_line m =
    "[#" & m.channel & "] " & (if m.is_ai then m.author & " [AI]" else m.author) & ": " & m.content

abbrev or_unassigned : Option String → String
or_unassigned none = "unassigned"
or_unassigned (some name) = name

abbrev task_line : OpenTask → String
task_line t = "- " & t.task_id & " " & t.title & " (assignee: " & or_unassigned t.assignee & ")"

abbrev channel_line : ChannelRow → String
channel_line c = "- id=\"" & c.id & "\" name=\"#" & c.name & "\""

-- The lines, or a placeholder when there is none.
abbrev lines_or : String → List String → String
lines_or placeholder [] = placeholder
lines_or placeholder (l ∷ ls) = join_with "\n" (l ∷ ls)

module _ (units : String → ℕ) (trim : String → String) (decimal : ℕ → String) where
  abbrev pub section_of : Card → String
  section_of c = "### #" & c.name & "\n" & trim c.knowledge

  -- The loop over the cards: the sections taken, the units used, and how many cards are left out.
  unfoldable pub take_sections : List Card → ℕ → ℕ → List String × ℕ × ℕ
  take_sections [] used omitted = ([], used, omitted)
  take_sections (c ∷ cs) used omitted =
      let n = units (section_of c) in
      let skipped = take_sections cs used (suc omitted) in
      let (rest, used', omitted') = take_sections cs (used + n) omitted in
      if ltb knowledge_injection_budget (used + n)
      then skipped
      else (section_of c ∷ rest, used', omitted')

  abbrev omission_note : ℕ → String
  omission_note omitted =
      if ltb 0 omitted then "\n\n(…" & decimal omitted & " more channel card(s) omitted)" else ""

  abbrev block_of : List String × ℕ × ℕ → String
  block_of ([], used, omitted) = ""
  block_of (t ∷ ts, used, omitted) = "## 频道知识\n" & join_with "\n\n" (t ∷ ts) & omission_note omitted

  -- `buildKnowledgeBlock`
  unfoldable pub build_knowledge_block : List Card → String
  unfolding take_sections
  build_knowledge_block cards = block_of (take_sections cards 0 0)

  abbrev instruction_part : Option String → String
  instruction_part none = ""
  instruction_part (some t) = if str_eq t "" then "" else "\n\n---\n" & t

  -- The content of the first message, and whether knowledge is in it.
  unfoldable pub build_initial_context :
      List RecentMessage
      → List OpenTask
      → List ChannelRow
      → List Card
      → Option String
      → String × Bool
  unfolding build_knowledge_block
  build_initial_context messages tasks channels cards extra =
      let block = build_knowledge_block cards in
      let injected = ltb 0 (units block) in
      (
        (if injected then block & "\n\n---\n" else "")
            & "Available channels (use the literal id when calling send_channel_message):\n"
            & lines_or "(no channels exist yet)" (map channel_line channels)
            & "\n\nRecent channel digest:\n"
            & lines_or "(no channel messages in the last 5 minutes)" (map message_line messages)
            & "\n\nIn-progress tasks:\n"
            & lines_or "(no tasks currently in progress)" (map task_line tasks)
            & instruction_part extra,
        injected,
      )

  abbrev pub total_units : List String → ℕ
  total_units [] = 0
  total_units (t ∷ ts) = units t + total_units ts

  sections_account :
      (cards : List Card) (used omitted : ℕ)
      → used ≤ knowledge_injection_budget
      → (used + total_units (take_sections cards used omitted).0
          ≡ (take_sections cards used omitted).1)
        × ((take_sections cards used omitted).1 ≤ knowledge_injection_budget)
        × (length (take_sections cards used omitted).0 + (take_sections cards used omitted).2
            ≡ length cards + omitted)
  unfolding take_sections
  sections_account [] used omitted h = ((omega arith), (omega (arith, h)), (omega arith))
  sections_account (c ∷ cs) used omitted h = ground (
    arith,
    sections_account cs used (suc omitted) h,
    sections_account cs (used + units (section_of c)) omitted,
  )

  -- The knowledge cards put before a cycle never take more than the budget, in UTF-16 units, and each
  -- card is either taken or counted as left out.
  pub knowledge_bounded :
      (cards : List Card)
      → (total_units (take_sections cards 0 0).0 ≤ 12_000)
        × (length (take_sections cards 0 0).0 + (take_sections cards 0 0).2 ≡ length cards)
  knowledge_bounded cards =
      let (sums, within, all) = sections_account cards 0 0 (omega arith) in
      ((omega (arith, sums, within)), (omega (arith, all)))
