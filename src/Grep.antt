-- ===== src/Grep.antt =====
-- grep.c: the matcher for ^ . * $. A C string is the list of its characters in front of the
-- terminating NUL, so a test for '\0' is a match on the empty list.
pub mod Spec
pub mod Correct
use os_system_calls_scheduli.Base.{
  ℕ, Bool, true, false, ◌&&◌, ◌||◌, List, [], ◌∷◌, ◌==◌, if◌then◌else◌,
}

abbrev pub Text : Type 0
Text = List ℕ

-- matchstar, given what matchhere does with the rest of the pattern.
unfoldable pub matchstar : (Text → Bool) → ℕ → Text → Bool
matchstar here c [] = here []
matchstar here c (t ∷ ts) = here (t ∷ ts) || ((t == c || c == b'.') && matchstar here c ts)

-- The test `*text == '\0'`.
unfoldable pub at_end : Text → Bool
at_end [] = true
at_end (t ∷ ts) = false

-- One character of the pattern against one of the text, and the rest.
unfoldable pub match_one : (Text → Bool) → ℕ → Text → Bool
match_one here c [] = false
match_one here c (t ∷ ts) = (c == b'.' || c == t) && here ts

unfoldable pub matchhere : Text → Text → Bool
unfolding matchstar at_end match_one
matchhere [] text = true
matchhere (c ∷ []) text = if c == b'$' then at_end text else match_one (matchhere []) c text
matchhere (c ∷ d ∷ re) text =
    let starred = matchstar (matchhere re) c text in
    let plain = match_one (matchhere (d ∷ re)) c text in if d == b'*' then starred else plain

-- The do loop of match, over every suffix, the empty one included.
unfoldable pub match_from : Text → Text → Bool
unfolding matchhere
match_from re [] = matchhere re []
match_from re (t ∷ ts) = matchhere re (t ∷ ts) || match_from re ts

unfoldable pub match : Text → Text → Bool
unfolding match_from
match [] text = match_from [] text
match (c ∷ re) text = if c == b'^' then matchhere re text else match_from (c ∷ re) text
