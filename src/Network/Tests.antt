-- ===== src/Network/Tests.antt =====
-- Runs of the cut at a limit of bytes, on the UTF-8 bytes of a text.
use one_crew.Common.{ℕ, ◌≡◌, refl, List, [], ◌∷◌, arith}
use one_crew.Network.Bytes.{slice_to_byte_limit, bytes_of, slice_whole_chars}

-- "€a€"
abbrev euros : List (List ℕ)
euros = (226 ∷ 130 ∷ 172 ∷ []) ∷ (97 ∷ []) ∷ (226 ∷ 130 ∷ 172 ∷ []) ∷ []

slice_whole_chars_example : slice_to_byte_limit (bytes_of euros) 6 ≡ 226 ∷ 130 ∷ 172 ∷ 97 ∷ []
slice_whole_chars_example =
    slice_whole_chars euros 6
      ((refl, (refl, (refl, tt))), ((refl, tt), ((refl, (refl, (refl, tt))), tt))) (omega arith)
