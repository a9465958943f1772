-- ===== src/Context/Suffix.antt =====
-- Trimming keeps the longest suffix that fits.
use one_crew.Common.{
  ℕ, ◌+◌, ◌≤◌, ◌<◌, ◌≡◌, ◌⊎◌, refl, sym, ap, inl, inr, Bool, true, false, List, [], ◌∷◌, ◌++◌,
  arith, leb, Bool-cases, lt→ltb, leb→le, le→leb,
}
use one_crew.Budget.{natural}
use one_crew.Context.{keep_newest, trim_context}

module _ {A : Type 0} (cost : A → ℕ) where
  abbrev pub total : List A → ℕ
  total [] = 0
  total (m ∷ ms) = total ms + cost m

  -- What is dropped is nothing, or ends with a message that would not have fitted any more.
  abbrev pub IsCutAt : ℕ → List A → List A → Type 0
  IsCutAt budget [] kept = Unit
  IsCutAt budget (m ∷ []) kept = budget < total kept + cost m
  IsCutAt budget (m ∷ n ∷ ms) kept = IsCutAt budget (n ∷ ms) kept

  -- What the loop knows when it has gone through `ms`.
  abbrev Kept : ℕ → List A → ℕ × Bool × List A → Type 0
  Kept budget ms (used, running, kept) =
      (used ≡ total kept)
      × (used ≤ budget)
      × ((running ≡ true) × (kept ≡ ms)
          ⊎ ((running ≡ false)
              × ((m : A) × (dropped : List A) × (ms ≡ (m ∷ dropped) ++ kept)
                  × IsCutAt budget (m ∷ dropped) kept)))

  keep_newest-Kept : (budget : ℕ) (ms : List A) → Kept budget ms (keep_newest cost budget ms)
  keep_newest-Kept budget [] = (refl, (omega arith), inl (refl, refl))
  keep_newest-Kept budget (m ∷ ms) =
      let (used, within, how) = keep_newest-Kept budget ms in
      elim how [
        | inl (on, all) ↦ elim (Bool-cases (leb ((keep_newest cost budget ms).0 + cost m) budget)) [
          | inl fits ↦
              rw (on, fits)
                ((omega (arith, used)), leb→le _ _ fits, inl (refl, ap (λ xs. m ∷ xs) all))
          | inr over ↦
              let late : budget < (keep_newest cost budget ms).0 + cost m = ground arith in
              rw (on, over)
                (
                  used,
                  within,
                  inr (refl, (m, [], ap (λ xs. m ∷ xs) (sym all), omega (arith, used, late))),
                )
        ]
        | inr (off, (n, dropped, parts, cut)) ↦
            rw off (used, within, inr (refl, (m, n ∷ dropped, ap (λ xs. m ∷ xs) parts, cut)))
      ]

  -- With a positive budget, trimming keeps a suffix of the messages that fits into the budget, and the
  -- longest one: if anything is dropped, the last message dropped would not have fitted with it.
  pub trim_longest :
      (budget : ℕ) (ms : List A)
      → 0 < budget
      → (dropped : List A) × (ms ≡ dropped ++ trim_context cost (natural budget) ms)
        × (total (trim_context cost (natural budget) ms) ≤ budget)
        × IsCutAt budget dropped (trim_context cost (natural budget) ms)
  unfolding trim_context
  trim_longest budget ms h =
      let (used, within, how) = keep_newest-Kept budget ms in
      let fits : total (keep_newest cost budget ms).2 ≤ budget = omega (arith, used, within) in
      rw (lt→ltb 0 budget h) (elim how [
        | inl (on, all) ↦ ([], sym all, fits, tt)
        | inr (off, (m, dropped, parts, cut)) ↦ (m ∷ dropped, parts, fits, cut)
      ])

  -- What fits is kept whole.
  pub keep_all :
      (budget : ℕ) (ms : List A)
      → total ms ≤ budget
      → keep_newest cost budget ms ≡ (total ms, true, ms)
  keep_all budget [] h = refl
  keep_all budget (m ∷ ms) h =
      rw (keep_all budget ms (omega (arith, h)), le→leb (total ms + cost m) budget h) refl

  pub keep_cut :
      (budget : ℕ) (before : List A) (m : A) (ms : List A)
      → total ms ≤ budget
      → budget < total ms + cost m
      → ((keep_newest cost budget (before ++ m ∷ ms)).1 ≡ false)
        × ((keep_newest cost budget (before ++ m ∷ ms)).2 ≡ ms)
  keep_cut budget [] m ms h over =
      let late : leb (total ms + cost m) budget ≡ false = ground arith in
      rw (keep_all budget ms h, late) (refl, refl)
  keep_cut budget (x ∷ before) m ms h over =
      rw ((keep_cut budget before m ms h over).0) (refl, (keep_cut budget before m ms h over).1)

  -- If a message would not fit with what follows it, all that is before goes with it.
  pub trim_cut :
      (budget : ℕ) (before : List A) (m : A) (ms : List A)
      → 0 < budget
      → total ms ≤ budget
      → budget < total ms + cost m
      → trim_context cost (natural budget) (before ++ m ∷ ms) ≡ ms
  unfolding trim_context
  trim_cut budget before m ms p h over =
      rw (lt→ltb 0 budget p) ((keep_cut budget before m ms h over).1)
