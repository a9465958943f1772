-- ===== src/Context/Tests.antt =====
-- A run of the trimming on messages that are their own costs.
use one_crew.Common.{ℕ, ◌≤◌, ◌≡◌, List, [], ◌∷◌, ◌++◌, arith}
use one_crew.Budget.{natural}
use one_crew.Context.{trim_context}
use one_crew.Context.Suffix.{total, IsCutAt, trim_longest}

abbrev costs : List ℕ
costs = 5 ∷ 3 ∷ 4 ∷ []

trim_longest_example :
    (dropped : List ℕ) × (costs ≡ dropped ++ trim_context (λ n. n) (natural 8) costs)
    × (total (λ n. n) (trim_context (λ n. n) (natural 8) costs) ≤ 8)
    × IsCutAt (λ n. n) 8 dropped (trim_context (λ n. n) (natural 8) costs)
trim_longest_example = trim_longest (λ n. n) 8 costs (omega arith)
