-- ===== src/RateLimit/Burst.antt =====
-- A burst out of a full bucket, and what a rolling window of windowMs can hold.
use one_crew.Common.{
  ℕ, zero, suc, ◌+◌, ◌-◌, ◌*◌, ◌≤◌, min, ◌≡◌, ap, ◌∙◌, none, some, String, [], ◌∷◌, ◌++◌, arith,
  eq_refl, replicate,
}
use one_crew.Common.Dict.{get, HasDistinctKeys}
use one_crew.RateLimit.{RateLimitConfig, Bucket, Limiter, refill, consume, bucket_key}
use one_crew.RateLimit.Refill.{
  available, cost, consume-spends, consume-updated_at, consume-cost, mul_mono, no_time,
  refill-updated_at,
}
use one_crew.RateLimit.Admission.{
  IsUsable, Call, answer, admitted, rate_limit_verdict, available-rate_limit,
  rate_limit-HasDistinctKeys,
}

back_in_window : (k w t : ℕ) → 2 ≤ k → 2 ≤ w → w ≤ (t + (w - 1) - t) * k
back_in_window k w t h g =
    let passed : t + (w - 1) - t ≡ w - 1 = omega arith in
    rw passed (omega (arith, mul_mono 2 k (w - 1) h))

module _ (c : RateLimitConfig) (usable : IsUsable c) (scope key : String) where
  abbrev at : ℕ → Call
  at t = record { scope = scope; key = key; config = c; now = t }

  -- From `t` on the bucket holds `n` tokens and what the time has brought since.
  abbrev Holds : ℕ → ℕ → Limiter → Type 0
  Holds t n s =
      (u : ℕ)
      → t ≤ u
      → available c u (get (bucket_key scope key) s.buckets)
        ≡ min (c.capacity * c.window_ms) (n * c.window_ms + (u - t) * c.capacity)

  consume_one :
      (t n : ℕ) (b : Bucket)
      → b.updated_at ≡ t
      → b.tokens ≡ suc n * c.window_ms
      → (cost (consume c b).0 ≡ 1)
        × ((u : ℕ)
            → available c u (some (consume c b).1)
              ≡ min (c.capacity * c.window_ms) (n * c.window_ms + (u - t) * c.capacity))
  unfolding available refill
  consume_one t n b e h =
      let paid : cost (consume c b).0 ≡ 1 = (consume-cost c b).1 (omega arith) in
      let spent = consume-spends c b in
      let left : (consume c b).1.tokens ≡ n * c.window_ms =
        omega (arith, ap (λ (x : ℕ). x * c.window_ms) paid) in
      (paid, λ u. rw (consume-updated_at c b ∙ e, left))

  answer_one :
      (t n : ℕ) (s : Limiter)
      → HasDistinctKeys s.buckets
      → suc n ≤ c.capacity
      → Holds t (suc n) s
      → (cost (answer s (at t)).0 ≡ 1) × Holds t n (answer s (at t)).1
  unfolding available
  answer_one t n s d few h =
      let b = refill c t (get (bucket_key scope key) s.buckets) in
      let fits = mul_mono (suc n) c.capacity c.window_ms few in
      let held : b.tokens ≡ suc n * c.window_ms =
        omega (arith, h t (omega arith), no_time t c.capacity) in
      let (paid, left) =
        consume_one t n b (refill-updated_at c t (get (bucket_key scope key) s.buckets)) held in
      (
        rw (rate_limit_verdict c usable s scope key t) paid,
        λ u later. available-rate_limit c usable s scope key t u d later ∙ left u,
      )

  -- `n` requests at once out of `n` tokens, and one at a time `u` at which a token is back.
  burst_from :
      (t u n : ℕ) (s : Limiter)
      → HasDistinctKeys s.buckets
      → n ≤ c.capacity
      → t ≤ u
      → c.window_ms ≤ (u - t) * c.capacity
      → Holds t n s
      → admitted (bucket_key scope key) s (replicate n (at t) ++ at u ∷ []) ≡ n + 1
  unfolding admitted
  burst_from t u zero s d few h back held =
      let full = mul_mono 1 c.capacity c.window_ms usable.capacity_pos in
      let enough : c.window_ms ≤ available c u (get (bucket_key scope key) s.buckets) =
        omega (arith, held u h) in
      rw (
        eq_refl (bucket_key scope key),
        rate_limit_verdict c usable s scope key u,
        (consume-cost c (refill c u (get (bucket_key scope key) s.buckets))).1
            (unfold available in enough),
      )
  burst_from t u (suc n) s d few h back held =
      let (paid, left) = answer_one t n s d few held in
      let distinct = rate_limit-HasDistinctKeys s scope key c t d in
      rw (eq_refl (bucket_key scope key), paid)
        (omega (arith, burst_from t u n (answer s (at t)).1 distinct (omega arith) h back left))

  -- With a capacity and a window of at least two, a new caller's whole capacity at time `t` and one
  -- request more a millisecond before a window that begins then is over are all let through, so
  -- that a rolling window of windowMs holds capacity + 1.
  pub window_overrun :
      (t : ℕ) (s : Limiter)
      → HasDistinctKeys s.buckets
      → get (bucket_key scope key) s.buckets ≡ none
      → 2 ≤ c.capacity
      → 2 ≤ c.window_ms
      → admitted
          (bucket_key scope key)
          s
          (replicate c.capacity (at t) ++ at (t + (c.window_ms - 1)) ∷ [])
        ≡ c.capacity + 1
  unfolding available refill
  window_overrun t s d fresh two wide =
      burst_from t (t + (c.window_ms - 1)) c.capacity s d (omega arith) (omega arith)
        (back_in_window c.capacity c.window_ms t two wide) (λ u later. rw fresh (omega arith))
