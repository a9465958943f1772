-- ===== src/Network/Mocks.antt =====
-- lib/ai/tools/mocks.ts: the tools that return preset texts.
use one_crew.Common.{ℕ, suc, String, List, [], ◌∷◌, if◌then◌else◌}
use one_crew.Common.Texts.{◌&◌, join_with}
use one_crew.Common.Substring.{includes}
use one_crew.Network.Search.{SearchResult}

abbrev pub mock_web_search_results : List SearchResult
mock_web_search_results =
    record {
      title = "AI-Native Team Workspaces: A Practical Overview";
      url = "https://example.com/ai-native-team-workspaces";
      snippet =
          "AI-native workspaces let human teammates and AI colleagues share the same channels, tasks, and approval flows in a single tool.";
    }
    ∷ record {
      title = "Designing Agentic Loops with Bounded Autonomy";
      url = "https://example.com/agentic-loops-bounded-autonomy";
      snippet =
          "Bounded agentic loops cap tool-use rounds and gate high-risk actions behind human approvals to keep autonomous agents predictable.";
    }
    ∷ record {
      title = "Anthropic Tool Use: Multi-Round Patterns";
      url = "https://example.com/anthropic-tool-use-patterns";
      snippet =
          "When the model returns tool_use blocks, the runtime must dispatch each call and write all tool_result blocks back into the next turn.";
    }
    ∷ []

abbrev pub mock_doc_readme_lines : List String
mock_doc_readme_lines =
    "# AI-Native Team Workspace" ∷ ""
    ∷ "A single-workspace MVP where human teammates collaborate alongside two AI colleagues, Ada (engineer) and Hopper (project manager)."
    ∷ "" ∷ "## Highlights" ∷ ""
    ∷ "- Shared channels and a 4-column kanban board (Backlog / In Progress / In Review / Done)."
    ∷ "- AI colleagues operate via a bounded agentic loop with at most 5 tool-use rounds per cycle."
    ∷ "- High-risk actions require a human approval before they run." ∷ []

abbrev pub mock_doc_readme : String
mock_doc_readme = join_with "\n" mock_doc_readme_lines

abbrev pub mock_doc_architecture_lines : List String
mock_doc_architecture_lines =
    "# Architecture Overview" ∷ ""
    ∷ "The platform runs in a single Node process started by `server.ts`, which hosts the Next.js HTTP server, the Socket.io realtime channel, and the agentic loop together."
    ∷ "" ∷ "## Layers" ∷ ""
    ∷ "1. **Application layer** — Next.js App Router, React, Tailwind, shadcn/ui, Zustand."
    ∷ "2. **Service layer** — Pure TypeScript modules under `lib/services/*` (channel, message, task, approval)."
    ∷ "3. **Runtime layer** — `lib/ai/*` (Anthropic SDK + tool dispatcher), `lib/realtime/*` (Socket.io + NextAuth guard), `lib/loop/*` (30s setInterval + EventEmitter wakeup)."
    ∷ ""
    ∷ "Realtime events are only broadcast after the corresponding service-layer write commits successfully."
    ∷ []

abbrev pub mock_doc_architecture : String
mock_doc_architecture = join_with "\n" mock_doc_architecture_lines

abbrev pub mock_doc_default_lines : List String
mock_doc_default_lines =
    "# Project Notes" ∷ ""
    ∷ "No specific document matches that path in the mock registry, so this is the default placeholder."
    ∷ "" ∷ "## Available preset docs" ∷ "" ∷ "- `README.md` — project overview."
    ∷ "- `architecture.md` — high-level system architecture." ∷ ""
    ∷ "Use one of those keywords in the requested path to load richer mock content." ∷ []

abbrev pub mock_doc_default : String
mock_doc_default = join_with "\n" mock_doc_default_lines

module _ (decimal : ℕ → String) where
  abbrev mock_lines : ℕ → List SearchResult → List String
  mock_lines n [] = []
  mock_lines n (r ∷ rs) =
      (decimal n & ". **" & r.title & "** — " & r.url) ∷ ("   " & r.snippet) ∷ mock_lines (suc n) rs

  -- `mockWebSearch`; the query is shown as `JSON.stringify` writes it.
  unfoldable pub mock_web_search : (String → String) → String → String
  mock_web_search quoted query = join_with "\n" (
      "# Mock web search results"
      ∷ ("Query: " & quoted query)
      ∷ ""
      ∷ mock_lines 1 mock_web_search_results)

-- `mockReadProjectDocs`
unfoldable pub mock_read_project_docs : (String → String) → String → String
mock_read_project_docs lower path =
    if includes (lower path) "readme"
    then mock_doc_readme
    else if includes (lower path) "architecture"
    then mock_doc_architecture
    else mock_doc_default
