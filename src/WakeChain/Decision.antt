-- ===== src/WakeChain/Decision.antt =====
-- What one call of `authorizeWake` decides and records, in terms of a chain's two counters.
use one_crew.Common.{ℕ, ◌≤◌, ◌<◌, ◌≡◌, refl, ◌↔◌, Option, none, some, String, arith}
use one_crew.Common.Dict.{get, HasDistinctKeys, get-delete_where, unless_dropped}
use one_crew.WakeChain.{
  WakeContext, ok, ChainState, WakeEnv, Chains, pair_key_of, is_idle, sweep_idle, or_zero,
  state_or_fresh, check_pair_and_record, authorize_wake, activations_in, pair_count_in,
}

-- What is left of a chain when the idle chains have been evicted.
abbrev pub live : ℕ → String → Chains → Option ChainState
live now id chains = unless_dropped (is_idle now) (get id chains)

-- The budget that the third check consults.
abbrev pub PairAllows : WakeEnv → Option String → String → Option ChainState → Type 0
PairAllows env none to state = Unit
PairAllows env (some from) to state =
    pair_count_in (pair_key_of from to) state < env.max_pair_repeats

-- A chain that is not there counts as one with no wake recorded.
pub activations-state_or_fresh :
    (now : ℕ) (o : Option ChainState) → (state_or_fresh now o).activations ≡ activations_in o
activations-state_or_fresh now none = refl
activations-state_or_fresh now (some state) = refl

pub pair_count-state_or_fresh :
    (now : ℕ) (key : String) (o : Option ChainState)
    → or_zero (get key (state_or_fresh now o).pair_counts) ≡ pair_count_in key o
unfolding get
pair_count-state_or_fresh now key none = refl
pair_count-state_or_fresh now key (some state) = refl

module _ (env : WakeEnv) (chains : Chains) (distinct : HasDistinctKeys chains) where
  pub swept_live : (now : ℕ) (id : String) → get id (sweep_idle now chains) ≡ live now id chains
  unfolding sweep_idle
  swept_live now id = get-delete_where (is_idle now) id chains distinct

  -- A wake is authorized exactly when all three budgets of its chain, as it stands after the eviction
  -- of idle chains, have room.
  pub authorize_wake_iff :
      (from : Option String) (to : String) (ctx : WakeContext) (now : ℕ)
      → ((authorize_wake env chains from to ctx now).0 ≡ ok) ↔ (
          (ctx.hop ≤ env.max_hops)
          × (activations_in (live now ctx.chain_id chains) < env.max_chain_activations)
          × PairAllows env from to (live now ctx.chain_id chains))
  unfolding authorize_wake check_pair_and_record
  authorize_wake_iff none to ctx now =
      rw (← swept_live now ctx.chain_id, ← activations-state_or_fresh now) (ground arith)
  authorize_wake_iff (some from) to ctx now =
      rw
        (
          ← swept_live now ctx.chain_id,
          ← activations-state_or_fresh now,
          ← pair_count-state_or_fresh now (pair_key_of from to),
        )
        (ground arith)
