-- ===== src/WakeChain/Budgets.antt =====
-- What one call of `authorizeWake` does to the counters of its chain and of the others.
use one_crew.Common.{
  ℕ, ◌+◌, ◌≤◌, ◌≡◌, ◌≢◌, Bool, true, false, ◌&&◌, Option, none, some, String, arith, str_eq, eq_iff,
}
use one_crew.Common.Dict.{
  get, set, HasDistinctKeys, get-set, get-set_self, get-set_ne, set-HasDistinctKeys,
  delete_where-HasDistinctKeys,
}
use one_crew.WakeChain.{
  WakeContext, WakeVerdict, ok, denied, ChainState, WakeEnv, Chains, pair_key_of, or_zero,
  check_pair_and_record, authorize_wake, activations_in, pair_count_in, sweep_idle, is_idle,
  state_or_fresh,
}
use one_crew.WakeChain.Decision.{
  live, swept_live, authorize_wake_iff, activations-state_or_fresh, pair_count-state_or_fresh,
}

abbrev pub is_ok : WakeVerdict → Bool
is_ok ok = true
is_ok (denied _) = false

abbrev pub one_if : Bool → ℕ
one_if true = 1
one_if false = 0

-- Whether a wake uses the ordered pair `key`.
abbrev pub uses_pair : String → Option String → String → Bool
uses_pair key none to = false
uses_pair key (some from) to = str_eq (pair_key_of from to) key

-- The last step, on a chain whose state is in the map.
module _ (env : WakeEnv) (from : Option String) (to id : String) (now : ℕ) (state : ChainState)
    (chains : Chains) where
  abbrev checked : WakeVerdict × Chains
  checked = check_pair_and_record env from to id now state chains

module _ (env : WakeEnv) (to id : String) (now : ℕ) (state : ChainState) (chains : Chains) where
  checked-HasDistinctKeys :
      (from : Option String)
      → HasDistinctKeys chains
      → HasDistinctKeys (checked env from to id now state chains).1
  unfolding check_pair_and_record
  checked-HasDistinctKeys none d = set-HasDistinctKeys id _ chains d
  checked-HasDistinctKeys (some from) d = grind (arith, set-HasDistinctKeys)

  checked_other :
      (from : Option String) (j : String)
      → id ≢ j
      → get j (checked env from to id now state chains).1 ≡ get j chains
  unfolding check_pair_and_record
  checked_other none j h = get-set_ne id j _ chains h
  checked_other (some from) j h = grind (arith, get-set_ne)

  checked-activations :
      (from : Option String)
      → get id chains ≡ some state
      → activations_in (get id (checked env from to id now state chains).1)
        ≡ state.activations + one_if (is_ok (checked env from to id now state chains).0)
  unfolding check_pair_and_record
  checked-activations none h = rw get-set_self
  checked-activations (some from) h = grind (arith, get-set_self)

  checked-pair_count :
      (from : Option String) (key : String)
      → get id chains ≡ some state
      → pair_count_in key (get id (checked env from to id now state chains).1)
        ≡ or_zero (get key state.pair_counts)
          + one_if (is_ok (checked env from to id now state chains).0 && uses_pair key from to)
  unfolding check_pair_and_record
  checked-pair_count none key h = rw get-set_self (omega arith)
  checked-pair_count (some from) key h =
      let k = pair_key_of from to in
      let m = state.pair_counts in
      let counted : ChainState = record {
        activations = state.activations + 1;
        pair_counts = set k (or_zero (get k m) + 1) m;
        last_activity_at = now;
      } in
      ground (
        arith,
        get-set k key (or_zero (get k m) + 1) m,
        get-set_self id counted chains,
        eq_iff k key,
      )

module _ (env : WakeEnv) (chains : Chains) (distinct : HasDistinctKeys chains)
    (from : Option String) (to : String) (ctx : WakeContext) (now : ℕ) where
  abbrev swept : Chains
  swept = sweep_idle now chains

  abbrev found : ChainState
  found = state_or_fresh now (get ctx.chain_id (swept))

  abbrev present : Chains
  present = set ctx.chain_id found swept

  swept-HasDistinctKeys : HasDistinctKeys swept
  unfolding sweep_idle
  swept-HasDistinctKeys = delete_where-HasDistinctKeys (is_idle now) chains distinct

  pub authorize_wake-HasDistinctKeys : HasDistinctKeys (authorize_wake env chains from to ctx now).1
  unfolding authorize_wake
  authorize_wake-HasDistinctKeys =
      let d = set-HasDistinctKeys ctx.chain_id found swept swept-HasDistinctKeys in
      ground (
        arith,
        swept-HasDistinctKeys,
        d,
        checked-HasDistinctKeys env to ctx.chain_id now found present from d,
      )

  -- A wake leaves other chains as the eviction leaves them.
  pub authorize_wake_other :
      (id : String)
      → ctx.chain_id ≢ id
      → get id (authorize_wake env chains from to ctx now).1 ≡ live now id chains
  unfolding authorize_wake
  authorize_wake_other id other = rw (← swept_live env chains distinct now id) (
      ground (
        arith,
        get-set_ne ctx.chain_id id found swept other,
        checked_other env to ctx.chain_id now found present from id other,
      ))

  -- An authorized wake counts once on its chain, and a refused one not at all.
  pub authorize_wake-activations :
      activations_in (get ctx.chain_id (authorize_wake env chains from to ctx now).1)
      ≡ activations_in (live now ctx.chain_id chains)
        + one_if (is_ok (authorize_wake env chains from to ctx now).0)
  unfolding authorize_wake
  authorize_wake-activations =
      let here = get-set_self ctx.chain_id found swept in
      rw (← swept_live env chains distinct now ctx.chain_id) (
        ground (
          arith,
          here,
          activations-state_or_fresh now (get ctx.chain_id swept),
          checked-activations env to ctx.chain_id now found present from here,
        ))

  -- So it does on its ordered pair.
  pub authorize_wake-pair_count :
      (key : String)
      → pair_count_in key (get ctx.chain_id (authorize_wake env chains from to ctx now).1)
        ≡ pair_count_in key (live now ctx.chain_id chains)
          + one_if (is_ok (authorize_wake env chains from to ctx now).0 && uses_pair key from to)
  unfolding authorize_wake
  authorize_wake-pair_count key =
      let here = get-set_self ctx.chain_id found swept in
      rw (← swept_live env chains distinct now ctx.chain_id) (
        ground (
          arith,
          here,
          pair_count-state_or_fresh now key (get ctx.chain_id swept),
          checked-pair_count env to ctx.chain_id now found present from key here,
        ))

module _ (env : WakeEnv) (chains : Chains) (distinct : HasDistinctKeys chains) (to : String)
    (ctx : WakeContext) (now : ℕ) where
  -- The counters never pass the budgets.
  pub authorize_wake-activations-le :
      (from : Option String)
      → activations_in (live now ctx.chain_id chains) ≤ env.max_chain_activations
      → activations_in (get ctx.chain_id (authorize_wake env chains from to ctx now).1)
        ≤ env.max_chain_activations
  authorize_wake-activations-le from room = ground (
    arith,
    authorize_wake-activations env chains distinct from to ctx now,
    (authorize_wake_iff env chains distinct from to ctx now).0,
  )

  pub authorize_wake-pair_count-le :
      (from : Option String) (key : String)
      → pair_count_in key (live now ctx.chain_id chains) ≤ env.max_pair_repeats
      → pair_count_in key (get ctx.chain_id (authorize_wake env chains from to ctx now).1)
        ≤ env.max_pair_repeats
  authorize_wake-pair_count-le none key room =
      ground (arith, authorize_wake-pair_count env chains distinct none to ctx now key)
  authorize_wake-pair_count-le (some from) key room = ground (
    arith,
    authorize_wake-pair_count env chains distinct (some from) to ctx now key,
    (authorize_wake_iff env chains distinct (some from) to ctx now).0,
    eq_iff (pair_key_of from to) key,
  )
