-- ===== src/Network.antt =====
-- The tools of the network: lib/ai/tools/with-safe-execution.ts, web-search.ts and project-docs.ts.
-- `fetch` is a parameter, as are the functions of JavaScript on texts and bytes.
pub mod Search
pub mod Docs
pub mod Bytes
pub mod Mocks
mod Tests
use one_crew.Common.{ℕ, String, Bool, true, false}
use one_crew.Common.Texts.{◌&◌, Attempt, returns, throws}

abbrev pub default_tool_timeout_ms : ℕ
default_tool_timeout_ms = 8_000

-- `withSafeExecution`, given what the wrapped function did and whether the timer had fired when it
-- threw. A result is passed on however late it is.
unfoldable pub with_safe_execution :
    (ℕ → String) → String → ℕ → Bool → Attempt String → Attempt String
with_safe_execution decimal tool timeout aborted (returns content) = returns content
with_safe_execution decimal tool timeout true (throws m) = throws (
    tool
    & " timed out after "
    & decimal timeout
    & "ms — try a narrower query or retry on the next round.")
with_safe_execution decimal tool timeout false (throws m) = throws (tool & " unavailable: " & m)
