-- ===== src/Shell/Settle/Shorter.antt =====
-- The scanner of sh.c never goes back, and goes on past each token.
use os_system_calls_scheduli.Base.{
  ℕ, ◌≤◌, ◌<◌, ◌≡◌, refl, true, false, ◌||◌, [], ◌∷◌, length, ◌==◌, Bool-cases, inl, inr, arith,
}
use os_system_calls_scheduli.Shell.{
  Text, one_of, whitespace, symbols, skip_spaces, split_word, after_greater, token_at, gettoken,
  starts_with, peek,
}

skip_spaces_le : (s : Text) → length (skip_spaces s) ≤ length s
unfolding skip_spaces
skip_spaces_le [] = omega arith
skip_spaces_le (c ∷ cs) = elim (Bool-cases (one_of whitespace c)) [
  | inl e ↦ rw e (omega (arith, skip_spaces_le cs))
  | inr e ↦ rw e (omega arith)
]

-- Behind the spaces there is the end, or a byte that is no space.
abbrev pub IsSkipped : Text → Type 0
IsSkipped [] = Unit
IsSkipped (c ∷ cs) = one_of whitespace c ≡ false

skip_spaces-IsSkipped : (s : Text) → IsSkipped (skip_spaces s)
unfolding skip_spaces
skip_spaces-IsSkipped [] = tt
skip_spaces-IsSkipped (c ∷ cs) = elim (Bool-cases (one_of whitespace c)) [
  | inl e ↦ rw e (skip_spaces-IsSkipped cs)
  | inr e ↦ rw e e
]

skip_IsSkipped : (s : Text) → IsSkipped s → skip_spaces s ≡ s
unfolding skip_spaces
skip_IsSkipped [] h = refl
skip_IsSkipped (c ∷ cs) h = rw h refl

split_word_le : (s : Text) → length (split_word s).1 ≤ length s
unfolding split_word
split_word_le [] = omega arith
split_word_le (c ∷ cs) = elim (Bool-cases (one_of whitespace c || one_of symbols c)) [
  | inl e ↦ rw e (omega arith)
  | inr e ↦ rw e (omega (arith, split_word_le cs))
]

-- The symbols are those that gettoken tests.
symbol_cases :
    (c : ℕ)
    → one_of (b'|' ∷ b'(' ∷ b')' ∷ b';' ∷ b'&' ∷ b'<' ∷ []) c ≡ false
    → (c == b'>') ≡ false
    → one_of symbols c ≡ false
unfolding one_of
symbol_cases c h k = ground arith

split_word_lt :
    (c : ℕ) (cs : Text)
    → one_of whitespace c ≡ false
    → one_of symbols c ≡ false
    → length (split_word (c ∷ cs)).1 ≤ length cs
unfolding split_word
split_word_lt c cs h k = rw (h, k) (split_word_le cs)

after_greater_le : (s : Text) → length (after_greater s).rest ≤ length s
unfolding after_greater
after_greater_le [] = omega arith
after_greater_le (c ∷ cs) = elim (Bool-cases (c == b'>')) [
  | inl e ↦ rw e (omega (arith, skip_spaces_le cs))
  | inr e ↦ rw e (skip_spaces_le (c ∷ cs))
]

-- A token behind the spaces takes at least a byte.
token_at_lt :
    (c : ℕ) (cs : Text) → one_of whitespace c ≡ false → length (token_at (c ∷ cs)).rest ≤ length cs
unfolding token_at
token_at_lt c cs h = elim (Bool-cases (one_of (b'|' ∷ b'(' ∷ b')' ∷ b';' ∷ b'&' ∷ b'<' ∷ []) c)) [
  | inl e ↦ rw e (skip_spaces_le cs)
  | inr e ↦ rw e (elim (Bool-cases (c == b'>')) [
    | inl f ↦ rw f (after_greater_le cs)
    | inr f ↦ rw f (
        omega (
          arith,
          skip_spaces_le (split_word (c ∷ cs)).1,
          split_word_lt c cs h (symbol_cases c e f),
        ))
  ])
]

token_at_le : (s : Text) → IsSkipped s → length (token_at s).rest ≤ length s
unfolding token_at
token_at_le [] h = omega arith
token_at_le (c ∷ cs) h = omega (arith, token_at_lt c cs h)

pub gettoken_le : (s : Text) → length (gettoken s).rest ≤ length s
unfolding gettoken
gettoken_le s =
    omega (arith, token_at_le (skip_spaces s) (skip_spaces-IsSkipped s), skip_spaces_le s)

pub peek_le : (toks s : Text) → length (peek toks s).1 ≤ length s
unfolding peek
peek_le toks s = skip_spaces_le s

starts_shorter :
    (toks s : Text) → IsSkipped s → starts_with toks s ≡ true → length (token_at s).rest < length s
unfolding starts_with
starts_shorter toks [] h e = cc
starts_shorter toks (c ∷ cs) h e = omega (arith, token_at_lt c cs h)

-- The token that peek has found is passed.
pub peek_next :
    (toks s : Text) → (peek toks s).0 ≡ true → length (gettoken (peek toks s).1).rest < length s
unfolding peek gettoken
peek_next toks s e =
    let h = skip_spaces-IsSkipped s in
    rw (skip_IsSkipped (skip_spaces s) h)
      (omega (arith, starts_shorter toks (skip_spaces s) h e, skip_spaces_le s))

ret_shorter :
    (s : Text) → IsSkipped s → ((token_at s).ret == 0) ≡ false → length (token_at s).rest < length s
ret_shorter [] h e = unfold token_at in cc
ret_shorter (c ∷ cs) h e = omega (arith, token_at_lt c cs h)

-- Only the end of the line is no token.
pub word_next : (s : Text) → ((gettoken s).ret == 0) ≡ false → length (gettoken s).rest < length s
unfolding gettoken
word_next s e =
    omega (arith, ret_shorter (skip_spaces s) (skip_spaces-IsSkipped s) e, skip_spaces_le s)
