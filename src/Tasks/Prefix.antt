-- ===== src/Tasks/Prefix.antt =====
-- The prefix of a task id.
use Prim.Native.String
use Prim.Native.String.{◌∷◌}
use text.Mathlib.TextLemmas.{nil-append, cons-append}
use one_crew.Common.{◌≡◌, sym, ◌∙◌, String}

abbrev proj : String → String
proj s = "P" ∷ "R" ∷ "O" ∷ "J" ∷ "-" ∷ s

proj_lem : (s : String) → String.◌++◌ "PROJ-" s ≡ proj s
proj_lem s = rw (cons-append, cons-append, cons-append, cons-append, cons-append, nil-append)

pub prefix-cancel : (a b : String) → String.◌++◌ "PROJ-" a ≡ String.◌++◌ "PROJ-" b → a ≡ b
prefix-cancel a b e = let p : proj a ≡ proj b = sym (proj_lem a) ∙ e ∙ proj_lem b in cc
