-- ===== src/Lib.antt =====
-- OneCrew, a workspace in which people and AI colleagues share channels, a task board and approvals.
-- A person's action (a mention, a decision) emits a `wakeup`; the agentic loop asks the wake-chain
-- guard, then runs a cycle of the AI, whose tools may hand work to further AIs; a sensitive action
-- waits for an approval, which a person decides through an endpoint behind a rate limiter; every call
-- of a model is charged to a daily budget, which holds new cycles and the daily reports back. A script
-- starts the container, and the server validates its environment before it does anything.
--
-- Which file models what (paths from the repository's root):
-- - Common: shared names; Common/Lists, Common/Dict (a JavaScript Map, as a list of entries in the
--   order of insertion), Common/TextSet (a Set of strings), Common/Json (a parsed value), Common/Tests
--   (the tests of numbers).
-- - RateLimit: lib/ratelimit.ts. `rateLimit` is `rate_limit`, which composes `refill`, `consume` and
--   `sweep_if_needed` over the module's map. Tokens are counted in units of 1/windowMs, in which a
--   millisecond brings `capacity` units and a request costs `windowMs`, so that the quotients of the
--   source are exact; the source's floating-point rounding is left out. Refill, Sweep, Admission, Retry
--   and Burst hold the proofs.
-- - WakeChain: lib/loop/wake-chain.ts, with the three budgets of lib/env.ts as `WakeEnv`. The module's
--   map of chains is an argument and a result of `authorize_wake`. The test-only helpers are left out.
-- - AgenticLoop: lib/loop/agentic-loop.ts. An invocation of `runForAI` stops at two awaits, so a state
--   holds the invocations that wait, and `begin`, `answered` and `settled` are the code between the
--   awaits; every interleaving is a sequence of those steps. AgenticLoop/Scheduler is `start` and
--   `stop`; AgenticLoop/Wakeups is the listener's path from an event through the guard.
-- - Workspace: lib/workspace.ts, and the events that the services send.
-- - Api: lib/api-helpers.ts, `requireSession` and `enforceRateLimit`; NextAuth's session is an argument.
-- - Approvals: lib/services/approval.service.ts. Prisma is a parameter, the record `ApprovalTable` of
--   operations with the laws the service relies on (a create adds one row under a free id; an update
--   under a condition changes the row that meets it, and fails if none does). Approvals/Memory is an
--   instance, in memory, for the tests. Approvals/Route is `PATCH` of app/api/approvals/[id]/route.ts;
--   the session and the validated body are arguments.
-- - Budget: lib/ai/budget.ts. Costs are natural numbers of 10^-12 dollars at integer prices per
--   million tokens, so that the sums are exact. `spend` is the common end of `track` and `trackOther`.
-- - Bridge: lib/ai/openai-bridge.ts, both directions. `JSON` is a parameter, the record `JsonCodec` with
--   the law that what is written is read back; Bridge/Codec is an instance for the tests.
-- - Context: lib/ai/context.ts, the estimate of a conversation's tokens and its trimming.
-- - Retry: lib/ai/anthropic.ts, the request of a model and its attempts with their delays; the client
--   and the jitter are functions of the attempt.
-- - Tools: lib/ai/tools/index.ts. Tools/Definitions and Tools/Schemas are what a model is shown and what
--   a call must meet, Tools/Analysis the text of an approval, Tools/Dispatch `dispatch` over the record
--   `Services` of the operations that the tools call.
-- - Network: with-safe-execution.ts, web-search.ts, project-docs.ts and mocks.ts of lib/ai/tools; `fetch`
--   is a parameter.
-- - Runtime: lib/ai/runtime.ts and lib/realtime/thinking.ts: `runCycle` and its rounds, with the client's
--   answers as a function of the round and the attempt; Runtime/Digest is `buildInitialContext` over the
--   rows of its queries. The rounds are counted down from MAX_ROUNDS, which is the source's own bound.
-- - Office: the services of the process wired together: an instance of `Services` over the task, message
--   and approval services, the budget, the network tools and the wake-chain guard with the loop behind
--   the emitter. Office/Memory is an office in memory.
-- - Reports: lib/reports/daily.ts and lib/reports/prompts.ts over the runtime and an office: the report of
--   an AI behind the gate of the budget, the batch and the scheduler. Reports/Trigger is `POST` of
--   app/api/reports/trigger/route.ts. What an AI's cycle finds in the database is an argument.
-- - Tasks: lib/services/task.service.ts. `create`, `updateStatus` and `assign` over the record
--   `TaskTable`, which stands for Prisma with the laws that the service relies on; the way a number is
--   written in a task id is a parameter. `summarize` is the fold of `summarizeForAI` over the rows of
--   its query, Tasks/Team `resolveTeammate` and `resolveHandoffTarget`. Tasks/Memory is an instance, in
--   memory, for the tests, as Tasks/Tally is for the numbers.
-- - Mentions: `wakeMentionedAIs`, `aiMatchesMentions` and `extractCustomMentionAliases` of
--   lib/services/message.service.ts. The matches of the regular expression, `trim().toLowerCase()`, the
--   clock that each check of the bucket reads, and the database's answer are arguments.
-- - Messages: `create` of the same file, over the record `MessageTable`, which stands for Prisma;
--   `trim`, the length in UTF-16 units and the regular expression are the record `TextApi`. The wakes
--   of a message, which the source starts and does not await, are the last part of the call.
--   `listByChannel` is one query and is left out.
-- - Channels: lib/services/channel.service.ts over the record `ChannelTable`, which stands for Prisma.
--   Channels/Route holds the handlers of the routes `members` and `knowledge` under
--   app/api/channels/[channelId]. Channels/Memory is an instance, in memory, for the tests.
-- - Cookies: lib/cookie-parser.ts. `trim` and `decodeURIComponent` are parameters.
-- - Realtime: lib/realtime/io.ts. `authenticate` is the handshake, with NextAuth's two functions as
--   parameters; a socket's subscription waits for the database, so a socket is a state with the waiting
--   look-ups, and its messages and the answers are steps on it.
-- - SignIn: lib/auth/options.ts: `authorize` with its limiter, and the callbacks of the token and the
--   session. bcrypt and the look-up of a user are parameters.
-- - Startup: scripts/railway-start.ts. What a child process does is a parameter, and a state keeps the
--   commands that were run.
-- - Colleagues: app/api/ai-colleagues/route.ts and app/api/ai-colleagues/[id]/route.ts: the settings of
--   an AI, and in Colleagues/Route the handlers over the record `UserTable`, which stands for Prisma.
-- - Backup: scripts/backup.ts and scripts/backup-cron.ts. The dump, the file system and the bucket are
--   parameters, and a state keeps what was done to them.
-- - Environment: lib/env.ts and lib/ai/providers.ts. Environment/Load composes the fields' validations
--   to `parse_env`, a function from the variables to the environment or a refusal.
--
-- Time is a number of milliseconds since the epoch that a caller passes. All loops of the source that
-- are modelled run over a list or count a bound of the source down (the rounds of a cycle, the attempts
-- of a call), so no fuel is needed.
--
-- Not modelled: the user interface and the browser's side of the realtime connection; the endpoints
-- of messages, tasks, the dashboard, the budget and health, the dashboard service, the
-- middleware and the seed, which the parts above do not call; reads that are one
-- query; the texts of the prompts, which are a parameter; logging, metrics and process wiring.

pub mod Common
pub mod AgenticLoop
pub mod Approvals
pub mod Backup
pub mod Bridge
pub mod Budget
pub mod Api
pub mod Channels
pub mod Colleagues
pub mod Context
pub mod Cookies
pub mod Environment
pub mod Mentions
pub mod Messages
pub mod Network
pub mod Office
pub mod RateLimit
pub mod Realtime
pub mod Reports
pub mod Retry
pub mod SignIn
pub mod Startup
pub mod Runtime
pub mod Tasks
pub mod Tools
pub mod WakeChain
pub mod Workspace
