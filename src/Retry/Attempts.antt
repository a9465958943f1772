-- ===== src/Retry/Attempts.antt =====
-- Which attempt gives the result, and how long the call waits.
use one_crew.Common.{
  ℕ, zero, suc, ◌+◌, ◌*◌, ◌≤◌, ◌<◌, ◌≡◌, refl, ◌⊎◌, inl, inr, String, List, [], ◌∷◌, arith, length,
}
use one_crew.Common.Texts.{Attempt, returns, throws, Attempt-cases}
use one_crew.Bridge.{JsonCodec, ChatCompletion, Message, to_anthropic_message}
use one_crew.Retry.{
  max_retries, attempts_from, call_with_retry, compute_backoff_ms, doubled, base_backoff_ms,
}

abbrev pub sum : List ℕ → ℕ
sum [] = 0
sum (n ∷ ns) = n + sum ns

doubled_grows : (n k : ℕ) → doubled base_backoff_ms n ≤ doubled base_backoff_ms (n + k)
doubled_grows n zero = let p : n + 0 ≡ n = omega arith in rw p (omega arith)
doubled_grows n (suc k) =
    let p : n + suc k ≡ suc (n + k) = omega arith in rw p (omega (arith, doubled_grows n k))

module _ (json : JsonCodec) (jitter : ℕ → ℕ) (client : ℕ → Attempt ChatCompletion) where
  abbrev Throws : ℕ → Type 0
  Throws j = (m : String) × (client j ≡ throws m)

  -- Attempt `k` is the first to answer, after as many delays as failures; or all of them throw, and
  -- the last error is thrown.
  abbrev pub Outcomes : ℕ → ℕ → Attempt Message × List ℕ → Type 0
  Outcomes left from r =
      ((k : ℕ) × (c : ChatCompletion) × (k ≤ left)
        × ((j : ℕ) → j < k → Throws (from + j))
        × (client (from + k) ≡ returns c)
        × (r.0 ≡ returns (to_anthropic_message json c))
        × (length r.1 ≡ k))
      ⊎ ((m : String) × ((j : ℕ) → j ≤ left → Throws (from + j))
          × (client (from + left) ≡ throws m)
          × (r.0 ≡ throws m)
          × (length r.1 ≡ left))

  at_start : (from : ℕ) → Throws from → Throws (from + 0)
  at_start from h = let p : from + 0 ≡ from = omega arith in rw p h

  one_more :
      (from k : ℕ)
      → Throws from
      → ((j : ℕ) → j < k → Throws (suc from + j))
      → (j : ℕ) → j < suc k
      → Throws (from + j)
  one_more from k h before zero lt = at_start from h
  one_more from k h before (suc j) lt =
      let p : from + suc j ≡ suc from + j = omega arith in rw p (before j (omega (arith, lt)))

  answered_first :
      (left from : ℕ) (c : ChatCompletion)
      → client from ≡ returns c
      → Outcomes left from (returns (to_anthropic_message json c), [])
  answered_first left from c e =
      let p : from + 0 ≡ from = omega arith in
      inl (0, c, (omega arith), (λ j lt. absurd (omega (arith, lt))), (rw p e), refl, refl)

  attempts-Outcomes :
      (left from : ℕ) → Outcomes left from (attempts_from json jitter client left from)
  unfolding attempts_from
  attempts-Outcomes zero from = elim (Attempt-cases (client from)) [
    | inl (c, e) ↦ rw (e, attempts_from) (answered_first 0 from c e)
    | inr (m, e) ↦
        let p : from + 0 ≡ from = omega arith in
        rw (e, attempts_from)
          (inr (
            m,
            (λ j le. let q : from + j ≡ from = omega (arith, le) in rw q (m, e)),
            (rw p e),
            refl,
            refl,
          ))
  ]
  attempts-Outcomes (suc left) from = elim (Attempt-cases (client from)) [
    | inl (c, e) ↦ rw (e, attempts_from) (answered_first (suc left) from c e)
    | inr (m, e) ↦ elim (attempts-Outcomes left (suc from)) [
      | inl (k, c, le, before, hit, result, waits) ↦
          let p : from + suc k ≡ suc from + k = omega arith in
          rw (e, attempts_from)
            (inl (
              suc k,
              c,
              (omega (arith, le)),
              one_more from k (m, e) before,
              (rw p hit),
              result,
              (omega (arith, waits)),
            ))
      | inr (m', all, last, result, waits) ↦
          let p : from + suc left ≡ suc from + left = omega arith in
          rw (e, attempts_from)
            (inr (
              m',
              (λ j le.
                  one_more from (suc left) (m, e) (λ i lt. all i (omega (arith, lt))) j
                    (omega (arith, le))),
              (rw p last),
              result,
              (omega (arith, waits)),
            ))
    ]
  ]

  waits_within :
      (left from bound : ℕ)
      → ((n : ℕ) → jitter n ≤ bound)
      → sum (attempts_from json jitter client left from).1 + doubled base_backoff_ms from
        ≤ doubled base_backoff_ms (from + left) + left * bound
  unfolding attempts_from compute_backoff_ms
  waits_within zero from bound h = elim (Attempt-cases (client from)) [
    | inl (c, e) ↦ rw (e, attempts_from) (omega (arith, doubled_grows from 0))
    | inr (m, e) ↦ rw (e, attempts_from) (omega (arith, doubled_grows from 0))
  ]
  waits_within (suc left) from bound h = elim (Attempt-cases (client from)) [
    | inl (c, e) ↦ rw (e, attempts_from) (omega (arith, doubled_grows from (suc left)))
    | inr (m, e) ↦
        let p : from + suc left ≡ suc from + left = omega arith in
        rw (e, attempts_from, p) (omega (arith, waits_within left (suc from) bound h, h from))
  ]

  pub first_answer : Outcomes max_retries 0 (call_with_retry json jitter client)
  unfolding call_with_retry
  first_answer = attempts-Outcomes 3 0

  -- A call is tried four times at most. It returns what the first attempt to succeed answers, after
  -- one delay for each failure before it, or throws the error of the fourth when all have failed; and
  -- with a bounded jitter the delays add up to 3500 ms and three times that bound at most.
  pub retry_outcome :
      (bound : ℕ)
      → ((n : ℕ) → jitter n ≤ bound)
      → Outcomes 3 0 (call_with_retry json jitter client)
        × (sum (call_with_retry json jitter client).1 ≤ 3_500 + 3 * bound)
  unfolding call_with_retry
  retry_outcome bound h = (first_answer, omega (arith, waits_within 3 0 bound h))
