-- ===== src/Common/Split.antt =====
-- `s.split(c)` for a character, given by its code.
use Prim.Native.Nat.{ℕ}
use Prim.Native.Char.{code}
use Prim.Native.String.{String, [], ◌∷◌}
use mathlib.Core.List.{List}
use one_crew.Common.Tests.{◌==◌, if◌then◌else◌}
use one_crew.Common.Texts.{no_parts, new_part, grow}

unfoldable pub split_at : ℕ → String → List String
split_at sep [] = no_parts
split_at sep (c ∷ s) =
    let rest = split_at sep s in if code c == sep then new_part rest else grow c rest
