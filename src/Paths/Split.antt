-- ===== src/Paths/Split.antt =====
-- What skipelem of fs.c finds in a path.
use os_system_calls_scheduli.Base.{
  ℕ, ◌<◌, ◌≤◌, ◌≡◌, refl, ◌≢◌, inl, inr, ◌∙◌, ap, false, List, [], ◌∷◌, ◌++◌, Option, none, some,
  ◌==◌, ==_iff, take, All, length, length-append, Bool-cases, arith, append-nil,
}
use os_system_calls_scheduli.Paths.{dirsiz, skip_slashes, split_element, element_and_rest, skipelem}

abbrev pub IsSlash : ℕ → Type 0
IsSlash c = c ≡ b'/'

abbrev pub IsNameByte : ℕ → Type 0
IsNameByte c = (c == b'/') ≡ false

-- A path that is at its end or whose next byte is of a name.
abbrev pub IsTrimmed : List ℕ → Type 0
IsTrimmed [] = Unit
IsTrimmed (c ∷ cs) = IsNameByte c

pub record Skipped (path rest : List ℕ) : Type 0 where
  pub slashes : List ℕ
  pub split : path ≡ slashes ++ rest
  pub only : All IsSlash slashes
  pub trimmed : IsTrimmed rest

skip_slashes-Skipped : (path : List ℕ) → Skipped path (skip_slashes path)
unfolding skip_slashes
skip_slashes-Skipped [] = record { slashes = []; split = refl; only = tt; trimmed = tt }
skip_slashes-Skipped (c ∷ cs) = elim (Bool-cases (c == b'/')) [
  | inl e ↦
      let r = skip_slashes-Skipped cs in
      rw e (record {
        slashes = c ∷ r.slashes;
        split = ap (λ (xs : List ℕ). c ∷ xs) r.split;
        only = ((==_iff c b'/').0 e, r.only);
        trimmed = r.trimmed;
      })
  | inr e ↦ rw e (record { slashes = []; split = refl; only = tt; trimmed = e })
]

-- A path that is at its end or whose next byte is a slash.
abbrev pub IsEnded : List ℕ → Type 0
IsEnded [] = Unit
IsEnded (c ∷ cs) = IsSlash c

record Element (path element rest : List ℕ) : Type 0 where
  split : path ≡ element ++ rest
  only : All IsNameByte element
  ended : IsEnded rest

split_element-Element : (path : List ℕ) → Element path (split_element path).0 (split_element path).1
unfolding split_element
split_element-Element [] = record { split = refl; only = tt; ended = tt }
split_element-Element (c ∷ cs) = elim (Bool-cases (c == b'/')) [
  | inl e ↦ rw e (record { split = refl; only = tt; ended = (==_iff c b'/').0 e })
  | inr e ↦
      let r = split_element-Element cs in
      rw e (record {
        split = ap (λ (xs : List ℕ). c ∷ xs) r.split;
        only = (e, r.only);
        ended = r.ended;
      })
]

-- A path with an element: slashes, the element, slashes unless the path ends with it, and the rest.
pub record Named (path name rest : List ℕ) : Type 0 where
  pub before : List ℕ
  pub element : List ℕ
  pub after : List ℕ
  pub split : path ≡ before ++ (element ++ (after ++ rest))
  pub slashes : All IsSlash before × All IsSlash after
  pub bytes : All IsNameByte element
  pub some_bytes : element ≢ []
  pub ended : IsEnded (after ++ rest)
  pub trimmed : IsTrimmed rest
  pub cut : name ≡ take dirsiz element

abbrev pub SkipOutcome : List ℕ → Option (List ℕ × List ℕ) → Type 0
SkipOutcome path none = All IsSlash path
SkipOutcome path (some (name, rest)) = Named path name rest × (length rest < length path)

nil_element : (c : ℕ) (cs : List ℕ) → IsNameByte c → (split_element (c ∷ cs)).0 ≢ []
unfolding split_element
nil_element c cs e = rw e (λ f. cons_nil f)
  where
    cons_nil : c ∷ (split_element cs).0 ≡ [] → ⊥
    cons_nil f = cc

length_ne : (xs : List ℕ) → xs ≢ [] → 1 ≤ length xs
length_ne [] n = absurd (n refl)
length_ne (x ∷ xs) n = omega arith

abbrev count : List ℕ → ℕ
count xs = length xs

found : (path p : List ℕ) → Skipped path p → SkipOutcome path (element_and_rest p)
unfolding element_and_rest
found path [] s = rw (s.split, append-nil s.slashes) s.only
found path (c ∷ cs) s =
    let e = split_element-Element (c ∷ cs) in
    let r = skip_slashes-Skipped (split_element (c ∷ cs)).1 in
    let ne = nil_element c cs s.trimmed in
    (
      record {
        before = s.slashes;
        element = (split_element (c ∷ cs)).0;
        after = r.slashes;
        split =
            s.split
            ∙ ap (λ (xs : List ℕ). s.slashes ++ xs)
                (e.split ∙ ap (λ (xs : List ℕ). (split_element (c ∷ cs)).0 ++ xs) r.split);
        slashes = (s.only, r.only);
        bytes = e.only;
        some_bytes = ne;
        ended = rw (← r.split) e.ended;
        trimmed = r.trimmed;
        cut = refl;
      },
      omega (
        arith,
        ap count s.split,
        length-append s.slashes (c ∷ cs),
        ap count e.split,
        length-append (split_element (c ∷ cs)).0 (split_element (c ∷ cs)).1,
        ap count r.split,
        length-append r.slashes (skip_slashes (split_element (c ∷ cs)).1),
        length_ne (split_element (c ∷ cs)).0 ne,
      ),
    )

-- skipelem returns 0 just on a path of slashes; on another path it passes the slashes and the first
-- element, gives that element cut to DIRSIZ bytes, and returns the path behind the slashes after it,
-- which is shorter.
pub skipelem-SkipOutcome : (path : List ℕ) → SkipOutcome path (skipelem path)
unfolding skipelem
skipelem-SkipOutcome path = found path (skip_slashes path) (skip_slashes-Skipped path)
