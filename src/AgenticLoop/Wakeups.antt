-- ===== src/AgenticLoop/Wakeups.antt =====
-- The wakeup listener in front of the loop: what a run of `wakeup` events can start.
use one_crew.Common.{
  ◌+◌, ◌≤◌, ◌≡◌, refl, ap, String, true, none, some, List, [], ◌∷◌, arith, eq_iff, length,
  length-append, All, str_eq,
}
use one_crew.Common.Dict.{get, HasDistinctKeys}
use one_crew.WakeChain.{WakeContext, WakeVerdict, ok, denied, WakeEnv, Chains}
use one_crew.WakeChain.Budgets.{is_ok, one_if}
use one_crew.WakeChain.Runs.{Wake, hear, authorized, IsKept, chain_activation_bound}
use one_crew.AgenticLoop.{asking, LoopState, begin, after_verdict, on_wakeup}

unfoldable pub on_wakeups : WakeEnv → Chains × LoopState → List Wake → Chains × LoopState
on_wakeups env p [] = p
on_wakeups env p (w ∷ ws) = on_wakeups env (on_wakeup env w.to w.ctx w.now p) ws

abbrev pub OfChain : String → List Wake → Type 0
OfChain id = All (λ w. w.ctx.chain_id ≡ id)

after_verdict_lem :
    (ai : String) (ctx : WakeContext) (s : LoopState) (p : WakeVerdict × Chains)
    → ((after_verdict ai ctx s p).0 ≡ p.1)
      × (length (after_verdict ai ctx s p).1.waiting ≤ length s.waiting + one_if (is_ok p.0))
unfolding begin
after_verdict_lem ai ctx s (ok, chains) =
    (refl, ground (arith, length-append s.waiting (asking ai (some ctx) ∷ [])))
after_verdict_lem ai ctx s (denied reason, chains) = (refl, omega arith)

-- One event: the chain map moves as the chokepoint says, and an invocation is begun at most if the
-- wake is authorized.
on_wakeup_lem :
    (env : WakeEnv) (w : Wake) (chains : Chains) (s : LoopState)
    → ((on_wakeup env w.to w.ctx w.now (chains, s)).0 ≡ (hear env chains w).1)
      × (length (on_wakeup env w.to w.ctx w.now (chains, s)).1.waiting
          ≤ length s.waiting + one_if (is_ok (hear env chains w).0))
unfolding on_wakeup
on_wakeup_lem env w chains s = after_verdict_lem w.to w.ctx s (hear env chains w)

on_wakeups-length :
    (env : WakeEnv) (id : String) (ws : List Wake) (p : Chains × LoopState)
    → OfChain id ws
    → length (on_wakeups env p ws).1.waiting ≤ length p.1.waiting + authorized env id p.0 ws
unfolding on_wakeups authorized
on_wakeups-length env id [] p o = omega arith
on_wakeups-length env id (w ∷ ws) (chains, s) (o, os) =
    let p = on_wakeup env w.to w.ctx w.now (chains, s) in
    let (moved, grown) = on_wakeup_lem env w chains s in
    let own : str_eq w.ctx.chain_id id ≡ true = (eq_iff _ _).1 o in
    simp own (
      omega (
        arith,
        grown,
        on_wakeups-length env id ws p os,
        ap (λ (c : Chains). authorized env id c ws) moved,
      ))

-- However many `wakeup` events of a new chain arrive, they begin at most
-- AI_WAKE_MAX_CHAIN_ACTIVATIONS invocations of `runForAI`, as long as the chain is not evicted
-- between them.
pub chain_invocation_bound :
    (env : WakeEnv) (id : String) (ws : List Wake) (chains : Chains) (s : LoopState)
    → HasDistinctKeys chains
    → IsKept env id chains ws
    → get id chains ≡ none
    → OfChain id ws
    → length (on_wakeups env (chains, s) ws).1.waiting
      ≤ length s.waiting + env.max_chain_activations
chain_invocation_bound env id ws chains s d kept new o = omega (
  arith,
  on_wakeups-length env id ws (chains, s) o,
  chain_activation_bound env id chains ws d kept new,
)
