-- ===== src/Grep/Correct.antt =====
-- The matcher of grep.c decides what its patterns mean.
use os_system_calls_scheduli.Base.{
  ℕ, ◌≡◌, refl, ◌↔◌, inl, inr, Bool, true, false, [], ◌∷◌, ◌++◌, All, arith, ◌==◌, Bool-cases, ap,
  ℕ_discrete,
}
use os_system_calls_scheduli.Grep.{Text, matchstar, match_one, matchhere, match_from, match}
use os_system_calls_scheduli.Grep.Spec.{Fits, Here, empty, star, end, last, one, Somewhere, Matches}

-- A run of characters that fit `c`, and then a text that passes.
record Star (here : Text → Bool) (c : ℕ) (text : Text) : Type 0 where
  reps : Text
  rest : Text
  split : text ≡ reps ++ rest
  fits : All (Fits c) reps
  passes : here rest ≡ true

matchstar-Star :
    (here : Text → Bool) (c : ℕ) (text : Text) → matchstar here c text ≡ true → Star here c text
unfolding matchstar
matchstar-Star here c [] e = record { reps = []; rest = []; split = refl; fits = tt; passes = e }
matchstar-Star here c (t ∷ ts) e = elim (Bool-cases (here (t ∷ ts))) [
  | inl now ↦ record { reps = []; rest = t ∷ ts; split = refl; fits = tt; passes = now }
  | inr later ↦
      let s = matchstar-Star here c ts (ground arith) in
      let f : Fits c t = ground arith in
      record {
        reps = t ∷ s.reps;
        rest = s.rest;
        split = ap (λ (xs : Text). t ∷ xs) s.split;
        fits = (f, s.fits);
        passes = s.passes;
      }
]

matchstar_of_split :
    (here : Text → Bool) (c : ℕ) (reps rest : Text)
    → All (Fits c) reps
    → here rest ≡ true
    → matchstar here c (reps ++ rest) ≡ true
unfolding matchstar
matchstar_of_split here c [] [] f p = p
matchstar_of_split here c [] (t ∷ ts) f p = rw p
matchstar_of_split here c (t ∷ reps) rest f p =
    ground (arith, matchstar_of_split here c reps rest f.1 p)

match_one_lem :
    (here : Text → Bool) (c : ℕ) (text : Text)
    → match_one here c text ≡ true
    → (t : ℕ) × (ts : Text) × (text ≡ t ∷ ts) × Fits c t × (here ts ≡ true)
unfolding match_one
match_one_lem here c [] e = cc
match_one_lem here c (t ∷ ts) e = (t, ts, refl, ground arith, ground arith)

sound : (re text : Text) → matchhere re text ≡ true → Here re text
unfolding matchhere
sound [] text e = empty
sound (c ∷ []) [] e = end (ground arith)
sound (c ∷ []) (t ∷ ts) e = last (ground arith) (ground arith)
sound (c ∷ d ∷ re) text e = elim (Bool-cases (d == b'*')) [
  | inl starred ↦
      let s = matchstar-Star (matchhere re) c text (ground arith) in
      star s.reps s.rest (ground arith) s.fits (sound re s.rest s.passes) s.split
  | inr plain ↦
      let (t, ts, split, fits, passes) = match_one_lem (matchhere (d ∷ re)) c text (ground arith) in
      rw split (one (ground arith) fits (sound (d ∷ re) ts passes))
]

complete : {re text : Text} → Here re text → matchhere re text ≡ true
unfolding matchhere
complete empty = refl
complete (star {c} {d} {re} reps rest is_star fits h split) =
    rw (split, is_star) (matchstar_of_split (matchhere re) c reps rest fits (complete h))
complete (end e) = rw e
complete (last ne f) = ground arith
complete (one ne f h) = ground (arith, complete h)

-- matchhere returns 1 exactly when the pattern matches at the beginning of the text.
pub matchhere_iff : (re text : Text) → (matchhere re text ≡ true) ↔ Here re text
matchhere_iff re text = (sound re text, complete)

match_from_sound : (re text : Text) → match_from re text ≡ true → Somewhere re text
unfolding match_from
match_from_sound re [] e = record { before = []; after = []; split = refl; here = sound re [] e }
match_from_sound re (t ∷ ts) e = elim (Bool-cases (matchhere re (t ∷ ts))) [
  | inl now ↦ record { before = []; after = t ∷ ts; split = refl; here = sound re (t ∷ ts) now }
  | inr later ↦
      let s = match_from_sound re ts (ground arith) in
      record {
        before = t ∷ s.before;
        after = s.after;
        split = ap (λ (xs : Text). t ∷ xs) s.split;
        here = s.here;
      }
]

match_from_complete :
    (re before after : Text) → Here re after → match_from re (before ++ after) ≡ true
unfolding match_from
match_from_complete re [] [] h = complete h
match_from_complete re [] (t ∷ ts) h = rw (complete h)
match_from_complete re (t ∷ before) after h = ground (arith, match_from_complete re before after h)

match_from_iff : (re text : Text) → (match_from re text ≡ true) ↔ Somewhere re text
match_from_iff re text =
    (match_from_sound re text, λ s. rw s.split (match_from_complete re s.before s.after s.here))

-- match returns 1 exactly when the pattern behind a ^ matches at the beginning of the text, or the
-- pattern, the empty one included, without a ^ matches somewhere in it.
pub match_iff : (re text : Text) → (match re text ≡ true) ↔ Matches re text
unfolding match
match_iff [] text = match_from_iff [] text
match_iff (c ∷ re) text = elim (ℕ_discrete c b'^') [
  | yes e ↦
      let f : (c == b'^') ≡ true = ground arith in
      let (to, from) = matchhere_iff re text in
      rw f (λ h. inl (e, to h), λ m. elim m [ inl p ↦ from p.1 | inr p ↦ absurd (p.0 e) ])
  | no ne ↦
      let f : (c == b'^') ≡ false = ground arith in
      let (to, from) = match_from_iff (c ∷ re) text in
      rw f (λ h. inr (ne, to h), λ m. elim m [ inl p ↦ absurd (ne p.0) | inr p ↦ from p.1 ])
]
