-- ===== src/Tools/Handoff.antt =====
-- The hand-off of a task and the wake-chain guard.
use one_crew.Common.{ℕ, ◌≡◌, refl, sym, ◌∙◌, ◌⊎◌, inl, inr, String, some}
use one_crew.Common.Dict.{get, HasDistinctKeys}
use one_crew.WakeChain.{
  WakeContext, WakeEnv, Chains, WakeVerdict, WakeDenyReason, ok, denied, peek_wake, authorize_wake,
  derive_child_context,
}
use one_crew.WakeChain.Decision.{live}
use one_crew.WakeChain.Peek.{peek_wake-eq-authorize_wake}
use one_crew.Tasks.Team.{Teammate}
use one_crew.Tools.{DispatchContext}
use one_crew.Tools.Dispatch.{Services, wake_assignee}

verdict-cases : (v : WakeVerdict) → (v ≡ ok) ⊎ ((r : WakeDenyReason) × (v ≡ denied r))
verdict-cases ok = inl refl
verdict-cases (denied r) = inr (r, refl)

module _ (s : Services) (env : WakeEnv) (chains : s.World → Chains) where
  -- If the tool predicts with `peekWake` on the guard's own chains, and the chain is not evicted at
  -- the time, then the new assignee's wakeup is sent exactly when the guard will authorize it;
  -- otherwise the guard would refuse it, and nothing is sent.
  pub hand_off_agrees :
      (parent : WakeContext) (ctx : DispatchContext) (id task : String) (mate : Teammate)
      (w : s.World) (now : ℕ)
      → ((from to : String) (c : WakeContext) (v : s.World)
          → s.peek from to c v ≡ peek_wake env (chains v) (some from) to c)
      → HasDistinctKeys (chains w)
      → live now parent.chain_id (chains w) ≡ get parent.chain_id (chains w)
      → (((wake_assignee s (some parent) ctx id task mate w).1
            ≡ s.emit_wakeup mate.id (derive_child_context parent ctx.ai_user_id) w)
          × ((authorize_wake env
                (chains w)
                (some ctx.ai_user_id)
                mate.id
                (derive_child_context parent ctx.ai_user_id)
                now).0
              ≡ ok))
        ⊎ (((wake_assignee s (some parent) ctx id task mate w).1 ≡ w)
            × ((r : WakeDenyReason) × ((authorize_wake env
                    (chains w)
                    (some ctx.ai_user_id)
                    mate.id
                    (derive_child_context parent ctx.ai_user_id)
                    now).0
                  ≡ denied r)))
  unfolding wake_assignee derive_child_context
  hand_off_agrees parent ctx id task mate w now wired d kept =
      let child = derive_child_context parent ctx.ai_user_id in
      let same =
        wired ctx.ai_user_id mate.id child w
        ∙ peek_wake-eq-authorize_wake env (chains w) d (some ctx.ai_user_id) mate.id child now
            kept in
      elim (verdict-cases (s.peek ctx.ai_user_id mate.id child w)) [
        | inl e ↦ inl ((rw e refl), sym same ∙ e)
        | inr (r, e) ↦ inr ((rw e refl), (r, sym same ∙ e))
      ]
