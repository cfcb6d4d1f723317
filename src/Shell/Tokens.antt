-- ===== src/Shell/Tokens.antt =====
-- The scanner of sh.c at the texts that the printer makes.
use os_system_calls_scheduli.Base.{ℕ, ◌≡◌, refl, false, [], ◌∷◌, ◌++◌, All, ◌==◌, arith}
use os_system_calls_scheduli.Shell.{
  Text, one_of, whitespace, symbols, skip_spaces, split_word, token_at, gettoken, starts_with, peek,
}

-- A byte of a word.
abbrev pub IsWordByte : ℕ → Type 0
IsWordByte c = (one_of whitespace c ≡ false) × (one_of symbols c ≡ false)

abbrev pub IsWord : Text → Type 0
IsWord [] = ⊥
IsWord (c ∷ cs) = All IsWordByte (c ∷ cs)

-- No space at the front.
abbrev pub IsTidy : Text → Type 0
IsTidy s = skip_spaces s ≡ s

pub IsTidy-cons : (c : ℕ) (cs : Text) → one_of whitespace c ≡ false → IsTidy (c ∷ cs)
unfolding skip_spaces
IsTidy-cons c cs e = rw e refl

split_word_space : (rest : Text) → split_word (b' ' ∷ rest) ≡ ([], b' ' ∷ rest)
unfolding split_word one_of
split_word_space rest = refl

split_word-append :
    (w rest : Text) → All IsWordByte w → split_word (w ++ (b' ' ∷ rest)) ≡ (w, b' ' ∷ rest)
unfolding split_word
split_word-append [] rest h = split_word_space rest
split_word-append (c ∷ cs) rest h = rw (h.0.0, h.0.1, split_word-append cs rest h.1) refl

skip_spaces_space : (rest : Text) → skip_spaces (b' ' ∷ rest) ≡ skip_spaces rest
unfolding skip_spaces one_of
skip_spaces_space rest = refl

no_symbol :
    (c : ℕ)
    → one_of symbols c ≡ false
    → (one_of (b'|' ∷ b'(' ∷ b')' ∷ b';' ∷ b'&' ∷ b'<' ∷ []) c ≡ false) × ((c == b'>') ≡ false)
unfolding one_of
no_symbol c h = ground arith

-- A word and a space in front of a tidy text.
pub gettoken_word :
    (w rest : Text)
    → IsWord w
    → IsTidy rest
    → gettoken (w ++ (b' ' ∷ rest)) ≡ record { ret = b'a'; bytes = w; rest = rest }
unfolding gettoken token_at
gettoken_word [] rest h t = elim h [ ]
gettoken_word (c ∷ cs) rest h t =
    let (n, m) = no_symbol c h.0.1 in
    rw
      (
        IsTidy-cons c (cs ++ (b' ' ∷ rest)) h.0.0,
        token_at,
        n,
        m,
        split_word-append (c ∷ cs) rest h,
        skip_spaces_space rest,
        t,
      )
      refl

-- A word is not taken for a symbol.
pub peek_word :
    (toks w rest : Text)
    → IsWord w
    → ((c : ℕ) → one_of symbols c ≡ false → one_of toks c ≡ false)
    → peek toks (w ++ (b' ' ∷ rest)) ≡ (false, w ++ (b' ' ∷ rest))
unfolding peek starts_with
peek_word toks [] rest h f = elim h [ ]
peek_word toks (c ∷ cs) rest h f =
    rw (IsTidy-cons c (cs ++ (b' ' ∷ rest)) h.0.0, starts_with, f c h.0.1) refl

pub peek_tidy : (toks s : Text) → IsTidy s → peek toks s ≡ (starts_with toks s, s)
unfolding peek
peek_tidy toks s t = rw t refl

pub IsTidy-word : (w rest : Text) → IsWord w → IsTidy (w ++ rest)
IsTidy-word [] rest h = elim h [ ]
IsTidy-word (c ∷ cs) rest h = IsTidy-cons c (cs ++ rest) h.0.0
