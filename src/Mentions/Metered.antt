-- ===== src/Mentions/Metered.antt =====
-- The mentions of a message are metered one by one.
use one_crew.Common.{ℕ, suc, ◌+◌, ◌-◌, ◌*◌, ◌≤◌, ◌≡◌, refl, String, List, [], ◌∷◌, arith, length}
use text.Mathlib.TextPositions.{eq_refl}
use one_crew.Common.Dict.{HasDistinctKeys}
use one_crew.RateLimit.{Limiter, bucket_key, rate_limit}
use one_crew.RateLimit.Admission.{IsUsable, Call, admitted, IsTimed, UseLimit, admitted_bound}
use one_crew.Mentions.{mention_limit, allow}

abbrev calls : String → (ℕ → ℕ) → ℕ → List String → List Call
calls sender clock i [] = []
calls sender clock i (m ∷ ms) =
    record { scope = "messages.mentions"; key = sender; config = mention_limit; now = clock i }
    ∷ calls sender clock (suc i) ms

abbrev mention_bucket : String → String
mention_bucket sender = bucket_key "messages.mentions" sender

-- The clock never goes back.
abbrev pub IsMonotone : (ℕ → ℕ) → Type 0
IsMonotone clock = (i : ℕ) → clock i ≤ clock (suc i)

allow-admitted :
    (sender : String) (clock : ℕ → ℕ) (i : ℕ) (ms : List String) (l : Limiter)
    → length (allow sender clock i ms l).0
      ≡ admitted (mention_bucket sender) l (calls sender clock i ms)
unfolding allow admitted
allow-admitted sender clock i [] l = refl
allow-admitted sender clock i (m ∷ ms) l = ground (
  arith,
  eq_refl (mention_bucket sender),
  allow-admitted sender clock (suc i) ms
      (rate_limit l "messages.mentions" sender mention_limit (clock i)).1,
)

calls-IsTimed :
    (sender : String) (clock : ℕ → ℕ) (i j start : ℕ) (ms : List String)
    → IsMonotone clock
    → j ≡ i + length ms
    → start ≤ clock i
    → IsTimed start (calls sender clock i ms) (clock j)
calls-IsTimed sender clock i j start [] h e s = let p : j ≡ i = omega (arith, e) in rw p s
calls-IsTimed sender clock i j start (m ∷ ms) h e s =
    (s, calls-IsTimed sender clock (suc i) j (clock i) ms h (omega (arith, e)) (h i))

calls-UseLimit :
    (sender k : String) (clock : ℕ → ℕ) (i : ℕ) (ms : List String)
    → UseLimit k mention_limit (calls sender clock i ms)
calls-UseLimit sender k clock i [] = tt
calls-UseLimit sender k clock i (m ∷ ms) = (λ e. refl, calls-UseLimit sender k clock (suc i) ms)

mention_limit-IsUsable : IsUsable mention_limit
mention_limit-IsUsable = record {
  capacity_pos = omega arith;
  window_pos = omega arith;
  window_short = omega arith;
}

-- However many mentions a message has, those that pass the sender's bucket number at most 30 and what
-- the time from the first check of the bucket to the end of the loop brings, if the clock does not go
-- back.
pub mentions_metered :
    (sender : String) (clock : ℕ → ℕ) (ms : List String) (l : Limiter)
    → IsMonotone clock
    → HasDistinctKeys l.buckets
    → length (allow sender clock 0 ms l).0 * 60_000 ≤ 30 * (60_000 + (clock (length ms) - clock 0))
mentions_metered sender clock ms l h d = rw (allow-admitted sender clock 0 ms l) (
    admitted_bound mention_limit mention_limit-IsUsable (mention_bucket sender) l
      (calls sender clock 0 ms) (clock 0) (clock (length ms)) d
      (calls-IsTimed sender clock 0 (length ms) (clock 0) ms h (omega arith) (omega arith))
      (calls-UseLimit sender (mention_bucket sender) clock 0 ms))
