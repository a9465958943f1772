-- ===== src/Office/Handoffs.antt =====
-- A hand-off through the wired services: what the tool tells, and what the loop then does.
use one_crew.Common.{◌≡◌, refl, ap, ◌∙◌, ◌⊎◌, inl, inr, String, some}
use one_crew.Common.Dict.{get, HasDistinctKeys}
use one_crew.WakeChain.{
  WakeContext, Chains, WakeVerdict, WakeDenyReason, ok, denied, authorize_wake,
  derive_child_context,
}
use one_crew.WakeChain.Decision.{live}
use one_crew.AgenticLoop.{LoopState, begin, after_verdict, on_wakeup}
use one_crew.Tasks.Team.{Teammate}
use one_crew.Tools.{DispatchContext}
use one_crew.Tools.Dispatch.{wake_assignee}
use one_crew.Tools.Handoff.{hand_off_agrees}
use one_crew.Office.{Outside, Office, team}

begun :
    (ai : String) (ctx : WakeContext) (s : LoopState) (v : WakeVerdict × Chains)
    → v.0 ≡ ok
    → (after_verdict ai ctx s v).1 ≡ begin ai (some ctx) s
begun ai ctx s (ok, chains) e = refl
begun ai ctx s (denied r, chains) e = cc

module _ (o : Outside) where
  -- When a task has been assigned in a chain that a person began and that is not evicted at the time,
  -- either the guard authorizes the new assignee and the loop begins an invocation of it with the
  -- next hop of the chain, or the guard refuses and nothing at all is changed.
  pub hand_off_begins :
      (parent : WakeContext) (ctx : DispatchContext) (id task : String) (mate : Teammate)
      (w : Office o)
      → HasDistinctKeys w.chains
      → live w.now parent.chain_id w.chains ≡ get parent.chain_id w.chains
      → (((authorize_wake o.wake_env w.chains
              (some ctx.ai_user_id)
              mate.id
              (derive_child_context parent ctx.ai_user_id)
              w.now).0
            ≡ ok)
          × ((wake_assignee (team o) (some parent) ctx id task mate w).1.loop
              ≡ begin mate.id (some (derive_child_context parent ctx.ai_user_id)) w.loop))
        ⊎ (((r : WakeDenyReason) × ((authorize_wake o.wake_env w.chains
                  (some ctx.ai_user_id)
                  mate.id
                  (derive_child_context parent ctx.ai_user_id)
                  w.now).0
                ≡ denied r))
            × ((wake_assignee (team o) (some parent) ctx id task mate w).1 ≡ w))
  unfolding on_wakeup derive_child_context
  hand_off_begins parent ctx id task mate w d kept =
      let child = derive_child_context parent ctx.ai_user_id in
      elim (hand_off_agrees (team o) o.wake_env (λ v. v.chains) parent ctx id task mate w w.now
        (λ from to c v. refl) d kept) [
          | inl (sent, granted) ↦ inl (
            granted,
            ap (λ v. v.loop) sent
                ∙ begun mate.id child w.loop
                    (authorize_wake o.wake_env w.chains (some ctx.ai_user_id) mate.id child w.now)
                    granted,
          )
          | inr (nothing, refused) ↦ inr (refused, nothing)
        ]
