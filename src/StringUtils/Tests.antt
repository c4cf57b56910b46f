-- ===== src/StringUtils/Tests.antt =====
-- Runs of the string functions, and their theorems at concrete inputs.
use libkvs.Prelude.{◌≡◌, ◌↔◌, refl, bytes, true, [], ◌∷◌, All}
use libkvs.StringUtils.{split, starts_with, slash}
use libkvs.StringUtils.Laws.{split_iff, Free, join}

split_path : split (bytes "A/bc/") slash ≡ bytes "A" ∷ bytes "bc" ∷ [] ∷ []
unfolding split
split_path = refl

starts_with_text : starts_with (bytes "AB") (bytes "A") ≡ true
unfolding starts_with
starts_with_text = refl

split_iff_example : (split (bytes "A/bc/") slash ≡ bytes "A" ∷ bytes "bc" ∷ [] ∷ []) ↔ (
    All (Free slash) (bytes "A" ∷ bytes "bc" ∷ [] ∷ [])
    × (join slash (bytes "A" ∷ bytes "bc" ∷ [] ∷ []) ≡ bytes "A/bc/"))
split_iff_example = split_iff (bytes "A/bc/") slash (bytes "A") (bytes "bc" ∷ [] ∷ [])
