-- ===== src/WakeChain.antt =====
-- lib/loop/wake-chain.ts: the chokepoint that bounds how AI colleagues wake one another.
--
-- The module's map `chains` is passed along explicitly, the environment's three budgets are the record
-- `WakeEnv`, and the identifier that `randomUUID` draws is an argument.
pub mod Decision
pub mod Peek
pub mod Budgets
pub mod Runs
pub mod Relay
pub mod PairKey
mod Tests
use one_crew.Common.{ℕ, ◌+◌, String, Bool, Option, none, some, [], ltb, leb, if◌then◌else◌}
use one_crew.Common.Dict.{Dict, get, set, delete_where}
use Prim.Native.String

pub record WakeContext : Type 0 where
  pub chain_id : String
  pub hop : ℕ
  pub origin_user_id : String
  pub from_ai_user_id : Option String

pub data WakeDenyReason : Type 0 where
  hop_budget pair_repeat chain_activation : WakeDenyReason

pub data WakeVerdict : Type 0 where
  ok : WakeVerdict
  denied : WakeDenyReason → WakeVerdict

pub record ChainState : Type 0 where
  pub activations : ℕ
  pub pair_counts : Dict ℕ
  pub last_activity_at : ℕ

-- `AI_WAKE_MAX_HOPS`, `AI_WAKE_MAX_PAIR_REPEATS` and `AI_WAKE_MAX_CHAIN_ACTIVATIONS`.
pub record WakeEnv : Type 0 where
  pub max_hops : ℕ
  pub max_pair_repeats : ℕ
  pub max_chain_activations : ℕ

abbrev pub default_wake_env : WakeEnv
default_wake_env = record { max_hops = 6; max_pair_repeats = 3; max_chain_activations = 12 }

abbrev pub chain_idle_ttl_ms : ℕ
chain_idle_ttl_ms = 600_000

abbrev pub Chains : Type 0
Chains = Dict ChainState

-- `${from}->${to}`
unfoldable pub pair_key_of : String → String → String
pair_key_of from to = String.◌++◌ from (String.◌++◌ "->" to)

-- `state.lastActivityAt < now - CHAIN_IDLE_TTL_MS`, with the subtraction moved to the other side.
abbrev pub is_idle : ℕ → ChainState → Bool
is_idle now state = ltb (state.last_activity_at + chain_idle_ttl_ms) now

unfoldable pub sweep_idle : ℕ → Chains → Chains
sweep_idle now chains = delete_where (is_idle now) chains

-- The first argument is the identifier that `randomUUID()` returns.
unfoldable pub start_human_chain : String → String → WakeContext
start_human_chain uuid origin_user_id = record {
  chain_id = uuid;
  hop = 0;
  origin_user_id = origin_user_id;
  from_ai_user_id = none;
}

unfoldable pub derive_child_context : WakeContext → String → WakeContext
derive_child_context parent from = record {
  chain_id = parent.chain_id;
  hop = parent.hop + 1;
  origin_user_id = parent.origin_user_id;
  from_ai_user_id = some from;
}

-- `count ?? 0`
abbrev pub or_zero : Option ℕ → ℕ
or_zero none = 0
or_zero (some n) = n

abbrev pub fresh_state : ℕ → ChainState
fresh_state now = record { activations = 0; pair_counts = []; last_activity_at = now }

-- The state of a chain, `if (!state) { … }` included.
abbrev pub state_or_fresh : ℕ → Option ChainState → ChainState
state_or_fresh now none = fresh_state now
state_or_fresh now (some state) = state

-- The third check and the recording, by whether an AI issues the wake.
unfoldable pub check_pair_and_record :
    WakeEnv → Option String → String → String → ℕ → ChainState → Chains → WakeVerdict × Chains
check_pair_and_record env none to id now state chains = (
  ok,
  set id (record state { activations = state.activations + 1; last_activity_at = now }) chains,
)
check_pair_and_record env (some from) to id now state chains =
    let key = pair_key_of from to in
    let count = or_zero (get key state.pair_counts) in
    if leb env.max_pair_repeats count then (denied pair_repeat, chains) else (
      ok,
      set id
          (record {
            activations = state.activations + 1;
            pair_counts = set key (count + 1) state.pair_counts;
            last_activity_at = now;
          })
          chains,
    )

-- `authorizeWake(fromAiUserId, toAiUserId, ctx, now)`
unfoldable pub authorize_wake :
    WakeEnv → Chains → Option String → String → WakeContext → ℕ → WakeVerdict × Chains
authorize_wake env chains from to ctx now =
    let swept = sweep_idle now chains in
    if ltb env.max_hops ctx.hop
    then (denied hop_budget, swept)
    else let state = state_or_fresh now (get ctx.chain_id swept) in
      let present = set ctx.chain_id state swept in
      if leb env.max_chain_activations state.activations
      then (denied chain_activation, present)
      else check_pair_and_record env from to ctx.chain_id now state present

-- `state?.activations ?? 0` and `state?.pairCounts.get(key) ?? 0`
abbrev pub activations_in : Option ChainState → ℕ
activations_in none = 0
activations_in (some state) = state.activations

abbrev pub pair_count_in : String → Option ChainState → ℕ
pair_count_in key none = 0
pair_count_in key (some state) = or_zero (get key state.pair_counts)

unfoldable pub peek_pair : WakeEnv → Option String → String → Option ChainState → WakeVerdict
peek_pair env none to state = ok
peek_pair env (some from) to state =
    if leb env.max_pair_repeats (pair_count_in (pair_key_of from to) state)
    then denied pair_repeat
    else ok

-- `peekWake(fromAiUserId, toAiUserId, ctx)`
unfoldable pub peek_wake : WakeEnv → Chains → Option String → String → WakeContext → WakeVerdict
unfolding peek_pair
peek_wake env chains from to ctx =
    if ltb env.max_hops ctx.hop
    then denied hop_budget
    else let state = get ctx.chain_id chains in
      if leb env.max_chain_activations (activations_in state)
      then denied chain_activation
      else peek_pair env from to state
