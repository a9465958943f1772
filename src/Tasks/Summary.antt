-- ===== src/Tasks/Summary.antt =====
-- The summary of a teammate's tasks.
use one_crew.Common.{
  ℕ, ◌+◌, ◌≤◌, ◌≡◌, refl, true, List, [], ◌∷◌, arith, length, take, keep, zero, suc, All, Bool,
}
use one_crew.Tasks.{
  Task, TaskStatus, backlog, in_progress, in_review, finished, Counts, count_one, count_all,
  is_recent, summarize,
}

abbrev pub sum_of : Counts → ℕ
sum_of c = c.in_backlog + c.in_progress + c.in_review + c.in_done

count_one-sum : (s : TaskStatus) (c : Counts) → sum_of (count_one s c) ≡ suc (sum_of c)
count_one-sum backlog c = omega arith
count_one-sum in_progress c = omega arith
count_one-sum in_review c = omega arith
count_one-sum finished c = omega arith

count_all-sum : (xs : List Task) (c : Counts) → sum_of (count_all xs c) ≡ sum_of c + length xs
unfolding count_all
count_all-sum [] c = omega arith
count_all-sum (x ∷ xs) c =
    omega (arith, count_all-sum xs (count_one x.status c), count_one-sum x.status c)

module _ (p : Task → Bool) where
  abbrev Passes : Task → Type 0
  Passes x = p x ≡ true

  kept_pass : (xs : List Task) → All Passes (keep p xs)
  kept_pass [] = tt
  kept_pass (x ∷ xs) = ground (arith, kept_pass xs)

  take_pass : (n : ℕ) (xs : List Task) → All Passes xs → All Passes (take n xs)
  take_pass zero xs h = tt
  take_pass (suc n) [] h = tt
  take_pass (suc n) (x ∷ xs) (h, hs) = (h, take_pass n xs hs)

length-take : (n : ℕ) (xs : List Task) → length (take n xs) ≤ n
length-take zero xs = omega arith
length-take (suc n) [] = omega arith
length-take (suc n) (x ∷ xs) = omega (arith, length-take n xs)

-- The four columns of a summary add up to the total, which is the number of the tasks; at most twenty
-- tasks are listed, each updated within the last day.
pub summary_adds_up :
    (now : ℕ) (tasks : List Task)
    → (sum_of (summarize now tasks).counts ≡ (summarize now tasks).total)
      × ((summarize now tasks).total ≡ length tasks)
      × (length (summarize now tasks).recently_updated ≤ 20)
      × All (λ x. is_recent now x ≡ true) (summarize now tasks).recently_updated
unfolding summarize
summary_adds_up now tasks =
    let c : Counts = record { in_backlog = 0; in_progress = 0; in_review = 0; in_done = 0 } in
    (
      (omega (arith, count_all-sum tasks c)),
      refl,
      length-take 20 (keep (is_recent now) tasks),
      take_pass (is_recent now) 20 (keep (is_recent now) tasks) (kept_pass (is_recent now) tasks),
    )
