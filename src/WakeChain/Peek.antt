-- ===== src/WakeChain/Peek.antt =====
-- How far `peekWake` predicts `authorizeWake`.
use one_crew.Common.{ℕ, ◌+◌, ◌≤◌, ◌<◌, ◌≡◌, Option, none, some, String, arith}
use one_crew.Common.Dict.{get, HasDistinctKeys}
use one_crew.WakeChain.{
  WakeContext, chain_activation, ok, denied, ChainState, WakeEnv, Chains, pair_key_of,
  chain_idle_ttl_ms, check_pair_and_record, authorize_wake, peek_wake,
}
use one_crew.WakeChain.Decision.{
  live, swept_live, authorize_wake_iff, activations-state_or_fresh, pair_count-state_or_fresh,
}

module _ (env : WakeEnv) (chains : Chains) (distinct : HasDistinctKeys chains) where
  -- While the chain is not evicted at the time of the call, the prediction is the verdict, the
  -- reason of a refusal included.
  pub peek_wake-eq-authorize_wake :
      (from : Option String) (to : String) (ctx : WakeContext) (now : ℕ)
      → live now ctx.chain_id chains ≡ get ctx.chain_id chains
      → peek_wake env chains from to ctx ≡ (authorize_wake env chains from to ctx now).0
  unfolding authorize_wake check_pair_and_record peek_wake
  peek_wake-eq-authorize_wake none to ctx now kept =
      rw
        (
          ← kept,
          ← swept_live env chains distinct now ctx.chain_id,
          ← activations-state_or_fresh now,
        )
        (ground arith)
  peek_wake-eq-authorize_wake (some from) to ctx now kept =
      rw
        (
          ← kept,
          ← swept_live env chains distinct now ctx.chain_id,
          ← activations-state_or_fresh now,
          ← pair_count-state_or_fresh now (pair_key_of from to),
        )
        (ground arith)

  -- A chain past its idle time with its activations used up, and a hop and limits that allow a
  -- wake, is refused by the prediction, which evicts nothing, and authorized by the call that
  -- follows, which evicts it first.
  pub peek_wake-authorize_wake_idle :
      (from : Option String) (to : String) (ctx : WakeContext) (now : ℕ) (state : ChainState)
      → get ctx.chain_id chains ≡ some state
      → state.last_activity_at + chain_idle_ttl_ms < now
      → env.max_chain_activations ≤ state.activations
      → ctx.hop ≤ env.max_hops
      → 0 < env.max_chain_activations
      → 0 < env.max_pair_repeats
      → (peek_wake env chains from to ctx ≡ denied chain_activation)
        × ((authorize_wake env chains from to ctx now).0 ≡ ok)
  unfolding peek_wake
  peek_wake-authorize_wake_idle none to ctx now state found idle spent deep some_activation
        some_pair =
      (ground arith, (authorize_wake_iff env chains distinct none to ctx now).1 (ground arith))
  peek_wake-authorize_wake_idle (some from) to ctx now state found idle spent deep some_activation
        some_pair =
      (
        ground arith,
        (authorize_wake_iff env chains distinct (some from) to ctx now).1 (ground arith),
      )
