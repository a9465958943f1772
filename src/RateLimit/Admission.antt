-- ===== src/RateLimit/Admission.antt =====
-- How many requests of one caller get through in a span of time.
use one_crew.Common.{
  ℕ, ◌+◌, ◌-◌, ◌*◌, ◌≤◌, ◌<◌, ◌≡◌, sym, subst, ◌≢◌, inl, inr, some, String, List, [], ◌∷◌, arith,
  str-cases, str_eq, if◌then◌else◌, str_eq_of_ne, eq_refl, All,
}
use one_crew.Common.Dict.{get, set, HasDistinctKeys, get-set_self, get-set_ne, set-HasDistinctKeys}
use one_crew.RateLimit.{
  RateLimitConfig, RateLimitVerdict, Limiter, idle_evict_ms, refill, consume, bucket_key,
  rate_limit,
}
use one_crew.RateLimit.Refill.{
  available, available-le_full, available-later, cost, available-consume, no_time,
}
use one_crew.RateLimit.Sweep.{available-sweep_if_needed, sweep_if_needed-HasDistinctKeys}

-- The limits under which the arithmetic below is stated: positive, and no longer than the idle time.
pub record IsUsable (c : RateLimitConfig) : Type 0 where
  pub capacity_pos : 0 < c.capacity
  pub window_pos : 0 < c.window_ms
  pub window_short : c.window_ms ≤ idle_evict_ms

pub rate_limit-HasDistinctKeys :
    (s : Limiter) (scope key : String) (c : RateLimitConfig) (now : ℕ)
    → HasDistinctKeys s.buckets
    → HasDistinctKeys (rate_limit s scope key c now).1.buckets
unfolding rate_limit
rate_limit-HasDistinctKeys s scope key c now d =
    let k = bucket_key scope key in
    let b = (consume c (refill c now (get k s.buckets))).1 in
    ground (
      arith,
      sweep_if_needed-HasDistinctKeys now (record s { buckets = set k b s.buckets })
          (set-HasDistinctKeys k b s.buckets d),
    )

module _ (c : RateLimitConfig) (usable : IsUsable c) where
  -- The verdict is that of the bucket found, and later requests find what it left.
  pub rate_limit_verdict :
      (s : Limiter) (scope key : String) (now : ℕ)
      → (rate_limit s scope key c now).0
        ≡ (consume c (refill c now (get (bucket_key scope key) s.buckets))).0
  unfolding rate_limit
  rate_limit_verdict s scope key now = ground (arith, usable)

  pub available-rate_limit :
      (s : Limiter) (scope key : String) (now t : ℕ)
      → HasDistinctKeys s.buckets
      → now ≤ t
      → available c t (get (bucket_key scope key) (rate_limit s scope key c now).1.buckets)
        ≡ available c t (some (consume c (refill c now (get (bucket_key scope key) s.buckets))).1)
  unfolding rate_limit
  available-rate_limit s scope key now t d h =
      let k = bucket_key scope key in
      let b = (consume c (refill c now (get k s.buckets))).1 in
      let s' : Limiter = record s { buckets = set k b s.buckets } in
      ground (
        arith,
        usable,
        available-sweep_if_needed c now t k s' (set-HasDistinctKeys k b s.buckets d) h,
        get-set_self k b s.buckets,
      )

  -- A request pays for itself: what is left at a later time `t` is at most what there was, plus what
  -- the time brought, less a token if the request was let through.
  pub rate_limit-spends :
      (s : Limiter) (scope key : String) (now t : ℕ)
      → HasDistinctKeys s.buckets
      → now ≤ t
      → available c t (get (bucket_key scope key) (rate_limit s scope key c now).1.buckets)
          + cost (rate_limit s scope key c now).0 * c.window_ms
        ≤ available c now (get (bucket_key scope key) s.buckets) + (t - now) * c.capacity
  rate_limit-spends s scope key now t d h =
      rw (available-rate_limit s scope key now t d h, rate_limit_verdict s scope key now)
        (available-consume c now t (get (bucket_key scope key) s.buckets))

  -- A request of another key leaves what this key finds as it was.
  pub rate_limit_other :
      (s : Limiter) (scope key : String) (d : RateLimitConfig) (now t : ℕ) (k : String)
      → HasDistinctKeys s.buckets
      → now ≤ t
      → bucket_key scope key ≢ k
      → available c t (get k (rate_limit s scope key d now).1.buckets)
        ≡ available c t (get k s.buckets)
  unfolding rate_limit
  rate_limit_other s scope key d now t k distinct h other =
      let j = bucket_key scope key in
      let b = (consume d (refill d now (get j s.buckets))).1 in
      let s' : Limiter = record s { buckets = set j b s.buckets } in
      ground (
        arith,
        usable,
        available-sweep_if_needed c now t k s' (set-HasDistinctKeys j b s.buckets distinct) h,
        get-set_ne j k b s.buckets other,
      )

-- One request, as a call site makes it.
pub record Call : Type 0 where
  pub scope : String
  pub key : String
  pub config : RateLimitConfig
  pub now : ℕ

abbrev pub call_key : Call → String
call_key x = bucket_key x.scope x.key

abbrev pub answer : Limiter → Call → RateLimitVerdict × Limiter
answer s x = rate_limit s x.scope x.key x.config x.now

-- How many of the requests that fall into the bucket `k` are let through.
unfoldable pub admitted : String → Limiter → List Call → ℕ
admitted k s [] = 0
admitted k s (x ∷ xs) =
    (if str_eq (call_key x) k then cost (answer s x).0 else 0) + admitted k (answer s x).1 xs

-- The requests come in the order of time, from `start` to `end`.
abbrev pub IsTimed : ℕ → List Call → ℕ → Type 0
IsTimed start [] end = start ≤ end
IsTimed start (x ∷ xs) end = (start ≤ x.now) × IsTimed x.now xs end

IsTimed-le : (start : ℕ) (xs : List Call) (end : ℕ) → IsTimed start xs end → start ≤ end
IsTimed-le start [] end h = h
IsTimed-le start (x ∷ xs) end h = omega (arith, IsTimed-le x.now xs end h.1)

-- Every request of the bucket `k` names the limit `c`.
abbrev pub UseLimit : String → RateLimitConfig → List Call → Type 0
UseLimit k c = All (λ x. call_key x ≡ k → x.config ≡ c)

split_span : (a b d k : ℕ) → a ≤ b → b ≤ d → (d - b) * k + (b - a) * k ≡ (d - a) * k
split_span a b d k h g = let e : d - a ≡ (d - b) + (b - a) = omega arith in rw e (omega arith)

module _ (c : RateLimitConfig) (usable : IsUsable c) (k : String) where
  -- One request, of this key or another.
  answer-spends :
      (s : Limiter) (x : Call)
      → HasDistinctKeys s.buckets
      → (call_key x ≡ k → x.config ≡ c)
      → available c x.now (get k (answer s x).1.buckets)
          + (if str_eq (call_key x) k then cost (answer s x).0 else 0) * c.window_ms
        ≤ available c x.now (get k s.buckets)
  answer-spends s x d same = elim (str-cases (call_key x) k) [
    | inl e ↦
        rw (← same e, ← e, eq_refl (call_key x))
          (omega (
            arith,
            rate_limit-spends x.config (subst IsUsable (sym (same e)) usable) s x.scope x.key x.now
                x.now d (omega arith),
            no_time x.now x.config.capacity,
          ))
    | inr n ↦ rw (str_eq_of_ne _ _ n) (
        omega (
          arith,
          rate_limit_other c usable s x.scope x.key x.config x.now x.now k d (omega arith) n,
        ))
  ]

  admitted-spends :
      (s : Limiter) (xs : List Call) (start end : ℕ)
      → HasDistinctKeys s.buckets
      → IsTimed start xs end
      → UseLimit k c xs
      → admitted k s xs * c.window_ms
        ≤ available c start (get k s.buckets) + (end - start) * c.capacity
  unfolding admitted
  admitted-spends s [] start end d h u = omega arith
  admitted-spends s (x ∷ xs) start end d (h, hs) (u, us) =
      let ih =
        admitted-spends (answer s x).1 xs x.now end
          (rate_limit-HasDistinctKeys s x.scope x.key x.config x.now d) hs us in
      omega (
        arith,
        ih,
        answer-spends s x d u,
        available-later c start x.now (get k s.buckets) h,
        split_span start x.now end c.capacity h (IsTimed-le x.now xs end hs),
      )

  -- If the requests come in the order of time and those of a bucket name one limit that is usable
  -- (a positive capacity, a positive window no longer than the idle time), then those of the bucket
  -- that are let through in a span of time number at most capacity * (1 + span / windowMs).
  pub admitted_bound :
      (s : Limiter) (xs : List Call) (start end : ℕ)
      → HasDistinctKeys s.buckets
      → IsTimed start xs end
      → UseLimit k c xs
      → admitted k s xs * c.window_ms ≤ c.capacity * (c.window_ms + (end - start))
  admitted_bound s xs start end d h u =
      omega
        (arith, admitted-spends s xs start end d h u, available-le_full c start (get k s.buckets))
