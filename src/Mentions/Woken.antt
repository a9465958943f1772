-- ===== src/Mentions/Woken.antt =====
-- Whom a message wakes.
use one_crew.Common.{
  ◌≡◌, refl, String, true, ◌⊎◌, inl, inr, Bool-cases, List, [], ◌∷◌, arith, All, ℕ, suc,
}
use one_crew.Common.TextSet.{has}
use one_crew.RateLimit.{Limiter, rate_limit}
use one_crew.WakeChain.{WakeContext, start_human_chain}
use one_crew.Workspace.{Effect, wakeup, Outcome, done, threw}
use one_crew.Mentions.{
  mention_limit, AiUser, allow, custom_aliases, any_in, ai_matches_mentions, mention_set, emit_all,
  emit_allowed, wake_mentioned_ais,
}

has_allowed :
    (a sender : String) (clock : ℕ → ℕ) (i : ℕ) (ms : List String) (l : Limiter)
    → has a (allow sender clock i ms l).0 ≡ true
    → has a ms ≡ true
unfolding allow has
has_allowed a sender clock i [] l h = h
has_allowed a sender clock i (m ∷ ms) l h = ground (
  arith,
  has_allowed a sender clock (suc i) ms
      (rate_limit l "messages.mentions" sender mention_limit (clock i)).1,
)

abbrev pub IsIn : AiUser → List AiUser → Type 0
IsIn x [] = ⊥
IsIn x (y ∷ ys) = (x ≡ y) ⊎ IsIn x ys

abbrev pub members : Outcome (List AiUser) → List AiUser
members (threw e) = []
members (done ais) = ais

module _ (normal : String → String) where
  any_widens :
      (small big as' : List String)
      → ((a : String) → has a small ≡ true → has a big ≡ true)
      → any_in normal small as' ≡ true
      → any_in normal big as' ≡ true
  any_widens small big [] w h = h
  any_widens small big (a ∷ rest) w h = ground (arith, w a, any_widens small big rest w)

  -- A wake of an AI of the answer whom the mentions name, in the chain of the context.
  abbrev pub IsCalledFor : WakeContext → List String → List AiUser → Effect → Type 0
  IsCalledFor ctx mentions pool e =
      (ai : AiUser) × IsIn ai pool
      × (e ≡ wakeup ai.id ctx)
      × (ai_matches_mentions normal ai.name ai.settings mentions ≡ true)

  emitted :
      (ctx : WakeContext) (small big : List String) (pool ais : List AiUser)
      → ((a : String) → has a small ≡ true → has a big ≡ true)
      → ((x : AiUser) → IsIn x ais → IsIn x pool)
      → All (IsCalledFor ctx big pool) (emit_all normal ctx small ais)
  unfolding emit_all ai_matches_mentions
  emitted ctx small big pool [] w sub = tt
  emitted ctx small big pool (ai ∷ ais) w sub =
      let rest = emitted ctx small big pool ais w (λ x h. sub x (inr h)) in
      elim (Bool-cases (ai_matches_mentions normal ai.name ai.settings small)) [
        | inl named ↦ rw named (
          (
            ai,
            sub ai (inl refl),
            refl,
            any_widens small big (normal ai.name ∷ custom_aliases normal ai.settings) w named,
          ),
          rest,
        )
        | inr unnamed ↦ rw unnamed rest
      ]

  emitted_allowed :
      (uuid sender : String) (big : List String) (answer : Outcome (List AiUser))
      (small : List String) (l : Limiter)
      → ((a : String) → has a small ≡ true → has a big ≡ true)
      → All
          (IsCalledFor (start_human_chain uuid sender) big (members answer))
          (emit_allowed normal uuid sender answer (small, l)).0
  emitted_allowed uuid sender big answer [] l w = tt
  emitted_allowed uuid sender big (threw e) (m ∷ ms) l w = tt
  emitted_allowed uuid sender big (done ais) (m ∷ ms) l w =
      emitted (start_human_chain uuid sender) (m ∷ ms) big ais ais w (λ x h. h)

  -- Whatever the limiter lets through, a message wakes only AIs of the database's answer that it
  -- mentions by their name or an alias, and every wake belongs to the one new chain of the sender.
  pub mention_wakes :
      (sender : String) (matches : List String) (clock : ℕ → ℕ) (uuid : String)
      (answer : Outcome (List AiUser)) (l : Limiter)
      → All
          (IsCalledFor
            (start_human_chain uuid sender)
            (mention_set normal matches [])
            (members answer))
          (wake_mentioned_ais normal sender matches clock uuid answer l).0
  unfolding wake_mentioned_ais
  mention_wakes sender matches clock uuid answer l =
      let ms = mention_set normal matches [] in
      emitted_allowed uuid sender ms answer (allow sender clock 0 ms l).0
        (allow sender clock 0 ms l).1 (λ a h. has_allowed a sender clock 0 ms l h)
