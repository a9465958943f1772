-- ===== src/WakeChain/Relay.antt =====
-- Relays: chains of hand-offs that begin at a human action.
use one_crew.Common.{ℕ, zero, suc, ◌≤◌, ◌≡◌, refl, String, Option, arith}
use one_crew.Common.Dict.{HasDistinctKeys}
use one_crew.WakeChain.{
  WakeContext, ok, WakeEnv, Chains, start_human_chain, derive_child_context, authorize_wake,
}
use one_crew.WakeChain.Decision.{authorize_wake_iff}

-- The contexts that `n` hand-offs make out of the one that a human action starts.
pub data Relay (uuid origin : String) : ℕ → WakeContext → Type 0 where
  root : Relay uuid origin zero (start_human_chain uuid origin)
  hand_off :
      {n : ℕ} {ctx : WakeContext}
      → Relay uuid origin n ctx
      → (from : String) → Relay uuid origin (suc n) (derive_child_context ctx from)

Relay-fields :
    {uuid origin : String} {n : ℕ} {ctx : WakeContext}
    → Relay uuid origin n ctx
    → (ctx.hop ≡ n) × (ctx.chain_id ≡ uuid) × (ctx.origin_user_id ≡ origin)
unfolding start_human_chain derive_child_context
Relay-fields root = (refl, refl, refl)
Relay-fields (hand_off r from) = let (h, c, o) = Relay-fields r in (omega arith, c, o)

-- A wake at the end of `n` hand-offs is authorized only if n is at most AI_WAKE_MAX_HOPS, and it
-- carries the chain and the user of the human action that the relay began with.
pub hand_off_bound :
    (env : WakeEnv) (chains : Chains) (uuid origin to : String) (n : ℕ) (ctx : WakeContext)
    (from : Option String) (now : ℕ)
    → HasDistinctKeys chains
    → Relay uuid origin n ctx
    → (authorize_wake env chains from to ctx now).0 ≡ ok
    → (n ≤ env.max_hops) × (ctx.chain_id ≡ uuid) × (ctx.origin_user_id ≡ origin)
hand_off_bound env chains uuid origin to n ctx from now d r e =
    let (hops, chain, human) = Relay-fields r in
    let allowed = (authorize_wake_iff env chains d from to ctx now).0 e in
    (omega arith, chain, human)
