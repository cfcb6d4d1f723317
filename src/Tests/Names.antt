-- ===== src/Tests/Names.antt =====
-- skipelem of fs.c at concrete inputs.
use os_system_calls_scheduli.Base.{ℕ, ◌≡◌, refl, List, [], ◌∷◌, some}
use os_system_calls_scheduli.Paths.{skipelem, skip_slashes, split_element, element_and_rest}
use os_system_calls_scheduli.Paths.Split.{SkipOutcome, skipelem-SkipOutcome}

-- ///a//bb
abbrev slashed : List ℕ
slashed = b'/' ∷ b'/' ∷ b'/' ∷ b'a' ∷ b'/' ∷ b'/' ∷ b'b' ∷ b'b' ∷ []

skips : skipelem slashed ≡ some (b'a' ∷ [], b'b' ∷ b'b' ∷ [])
unfolding skipelem skip_slashes split_element element_and_rest
skips = refl

skipelem-SkipOutcome_example : SkipOutcome slashed (skipelem slashed)
skipelem-SkipOutcome_example = skipelem-SkipOutcome slashed
