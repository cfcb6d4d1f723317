-- ===== src/Paths.antt =====
-- skipelem of fs.c: the elements of a path. A path is the list of its bytes before the 0.
pub mod Split
use os_system_calls_scheduli.Base.{ℕ, List, [], ◌∷◌, Option, none, some, ◌==◌, if◌then◌else◌, take}

abbrev pub dirsiz : ℕ
dirsiz = 14

-- `while(*path == '/') path++`
unfoldable pub skip_slashes : List ℕ → List ℕ
skip_slashes [] = []
skip_slashes (c ∷ cs) = let rest = skip_slashes cs in if c == b'/' then rest else c ∷ cs

-- The bytes up to the next slash or the end, and what follows them.
unfoldable pub split_element : List ℕ → List ℕ × List ℕ
split_element [] = ([], [])
split_element (c ∷ cs) =
    let (s, rest) = split_element cs in if c == b'/' then ([], c ∷ cs) else (c ∷ s, rest)

unfoldable pub element_and_rest : List ℕ → Option (List ℕ × List ℕ)
element_and_rest [] = none
element_and_rest (c ∷ cs) =
    let (s, rest) = split_element (c ∷ cs) in some (take dirsiz s, skip_slashes rest)

-- The name that is copied, and the path behind it; `none` is the null pointer.
unfoldable pub skipelem : List ℕ → Option (List ℕ × List ℕ)
skipelem path = element_and_rest (skip_slashes path)
