-- ===== src/WakeChain/Runs.antt =====
-- The budgets over a run: every wake of a run goes through `authorizeWake`, as in the listener of
-- lib/loop/agentic-loop.ts, which takes `fromAiUserId` from the context.
use one_crew.Common.{
  ℕ, ◌+◌, ◌≤◌, ◌≡◌, subst, ◌&&◌, none, String, List, [], ◌∷◌, inl, inr, arith, str_eq, eq_refl,
  str_eq_of_ne, str-cases,
}
use one_crew.Common.Dict.{get, HasDistinctKeys}
use one_crew.WakeChain.{
  WakeContext, WakeVerdict, WakeEnv, Chains, authorize_wake, activations_in, pair_count_in,
}
use one_crew.WakeChain.Decision.{live}
use one_crew.WakeChain.Budgets.{
  is_ok, one_if, uses_pair, authorize_wake-HasDistinctKeys, authorize_wake_other,
  authorize_wake-activations, authorize_wake-pair_count, authorize_wake-activations-le,
  authorize_wake-pair_count-le,
}

-- One `wakeup` event, and when it is heard.
pub record Wake : Type 0 where
  pub to : String
  pub ctx : WakeContext
  pub now : ℕ

abbrev pub hear : WakeEnv → Chains → Wake → WakeVerdict × Chains
hear env chains w = authorize_wake env chains w.ctx.from_ai_user_id w.to w.ctx w.now

-- How many wakes of the chain `id` are authorized in a run.
unfoldable pub authorized : WakeEnv → String → Chains → List Wake → ℕ
authorized env id chains [] = 0
authorized env id chains (w ∷ ws) =
    one_if (str_eq w.ctx.chain_id id && is_ok (hear env chains w).0)
    + authorized env id (hear env chains w).1 ws

-- How many of them use the ordered pair `key`.
unfoldable pub authorized_pair : WakeEnv → String → String → Chains → List Wake → ℕ
authorized_pair env id key chains [] = 0
authorized_pair env id key chains (w ∷ ws) =
    one_if (
      str_eq w.ctx.chain_id id
      && is_ok (hear env chains w).0
      && uses_pair key w.ctx.from_ai_user_id w.to)
    + authorized_pair env id key (hear env chains w).1 ws

-- The chain `id` is never evicted in the run: whenever a wake is heard, it has not been idle for
-- longer than the time to live.
abbrev pub IsKept : WakeEnv → String → Chains → List Wake → Type 0
IsKept env id chains [] = Unit
IsKept env id chains (w ∷ ws) =
    (live w.now id chains ≡ get id chains) × IsKept env id (hear env chains w).1 ws

-- What a wake does to the activations of the chain `j`, and to its count of a pair.
abbrev Counts : WakeEnv → Chains → Wake → String → Type 0
Counts env chains w j =
    (activations_in (get j (hear env chains w).1)
      ≡ activations_in (get j chains)
        + one_if (str_eq w.ctx.chain_id j && is_ok (hear env chains w).0))
    × (activations_in (get j (hear env chains w).1) ≤ env.max_chain_activations)

abbrev CountsPair : WakeEnv → Chains → Wake → String → String → Type 0
CountsPair env chains w key j =
    (pair_count_in key (get j (hear env chains w).1)
      ≡ pair_count_in key (get j chains)
        + one_if (
            str_eq w.ctx.chain_id j
            && is_ok (hear env chains w).0
            && uses_pair key w.ctx.from_ai_user_id w.to))
    × (pair_count_in key (get j (hear env chains w).1) ≤ env.max_pair_repeats)

-- A wake of the chain itself, on which nothing was evicted.
module _ (env : WakeEnv) (chains : Chains) (w : Wake) (d : HasDistinctKeys chains)
    (kept : live w.now w.ctx.chain_id chains ≡ get w.ctx.chain_id chains) where
  hear_self-activations :
      activations_in (get w.ctx.chain_id chains) ≤ env.max_chain_activations
      → Counts env chains w w.ctx.chain_id
  hear_self-activations room =
      let from = w.ctx.from_ai_user_id in
      rw (eq_refl w.ctx.chain_id, ← kept)
        (
          authorize_wake-activations env chains d from w.to w.ctx w.now,
          authorize_wake-activations-le env chains d w.to w.ctx w.now from (rw kept room),
        )

  hear_self-pair_count :
      (key : String)
      → pair_count_in key (get w.ctx.chain_id chains) ≤ env.max_pair_repeats
      → CountsPair env chains w key w.ctx.chain_id
  hear_self-pair_count key room =
      let from = w.ctx.from_ai_user_id in
      rw (eq_refl w.ctx.chain_id, ← kept)
        (
          authorize_wake-pair_count env chains d from w.to w.ctx w.now key,
          authorize_wake-pair_count-le env chains d w.to w.ctx w.now from key (rw kept room),
        )

module _ (env : WakeEnv) (id : String) where
  hear-activations :
      (chains : Chains) (w : Wake)
      → HasDistinctKeys chains
      → live w.now id chains ≡ get id chains
      → activations_in (get id chains) ≤ env.max_chain_activations
      → Counts env chains w id
  hear-activations chains w d kept room = elim (str-cases w.ctx.chain_id id) [
    | inl e ↦
        subst
          (λ (j : String).
            live w.now j chains ≡ get j chains
            → activations_in (get j chains) ≤ env.max_chain_activations
            → Counts env chains w j)
          e (hear_self-activations env chains w d) kept room
    | inr n ↦
        rw
          (
            str_eq_of_ne _ _ n,
            authorize_wake_other env chains d w.ctx.from_ai_user_id w.to w.ctx w.now id n,
            kept,
          )
          (omega arith, room)
  ]

  authorized_from :
      (chains : Chains) (ws : List Wake)
      → HasDistinctKeys chains
      → IsKept env id chains ws
      → activations_in (get id chains) ≤ env.max_chain_activations
      → authorized env id chains ws + activations_in (get id chains) ≤ env.max_chain_activations
  unfolding authorized
  authorized_from chains [] d k room = omega arith
  authorized_from chains (w ∷ ws) d (k, ks) room =
      let (counted, room') = hear-activations chains w d k room in
      let ih =
        authorized_from (hear env chains w).1 ws
          (authorize_wake-HasDistinctKeys env chains d w.ctx.from_ai_user_id w.to w.ctx w.now) ks
          room' in
      omega arith

  -- At most AI_WAKE_MAX_CHAIN_ACTIVATIONS wakes of a new chain are authorized, over its whole fan-out
  -- and depth, as long as the chain is not evicted between them.
  pub chain_activation_bound :
      (chains : Chains) (ws : List Wake)
      → HasDistinctKeys chains
      → IsKept env id chains ws
      → get id chains ≡ none
      → authorized env id chains ws ≤ env.max_chain_activations
  chain_activation_bound chains ws d kept new =
      omega (arith, authorized_from chains ws d kept (rw new (omega arith)))

  hear-pair_count :
      (key : String) (chains : Chains) (w : Wake)
      → HasDistinctKeys chains
      → live w.now id chains ≡ get id chains
      → pair_count_in key (get id chains) ≤ env.max_pair_repeats
      → CountsPair env chains w key id
  hear-pair_count key chains w d kept room = elim (str-cases w.ctx.chain_id id) [
    | inl e ↦
        subst
          (λ (j : String).
            live w.now j chains ≡ get j chains
            → pair_count_in key (get j chains) ≤ env.max_pair_repeats
            → CountsPair env chains w key j)
          e (λ k r. hear_self-pair_count env chains w d k key r) kept room
    | inr n ↦
        rw
          (
            str_eq_of_ne _ _ n,
            authorize_wake_other env chains d w.ctx.from_ai_user_id w.to w.ctx w.now id n,
            kept,
          )
          (omega arith, room)
  ]

  authorized_pair_from :
      (key : String) (chains : Chains) (ws : List Wake)
      → HasDistinctKeys chains
      → IsKept env id chains ws
      → pair_count_in key (get id chains) ≤ env.max_pair_repeats
      → authorized_pair env id key chains ws + pair_count_in key (get id chains)
        ≤ env.max_pair_repeats
  unfolding authorized_pair
  authorized_pair_from key chains [] d k room = omega arith
  authorized_pair_from key chains (w ∷ ws) d (k, ks) room =
      let (counted, room') = hear-pair_count key chains w d k room in
      let distinct =
        authorize_wake-HasDistinctKeys env chains d w.ctx.from_ai_user_id w.to w.ctx w.now in
      omega (arith, authorized_pair_from key (hear env chains w).1 ws distinct ks room')

  -- No ordered pair of AI colleagues fires more than AI_WAKE_MAX_PAIR_REPEATS times in a new chain,
  -- as long as the chain is not evicted in between.
  pub pair_repeat_bound :
      (key : String) (chains : Chains) (ws : List Wake)
      → HasDistinctKeys chains
      → IsKept env id chains ws
      → get id chains ≡ none
      → authorized_pair env id key chains ws ≤ env.max_pair_repeats
  pair_repeat_bound key chains ws d kept new =
      omega (arith, authorized_pair_from key chains ws d kept (rw new (omega arith)))
