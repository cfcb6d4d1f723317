-- ===== src/Shell/Print/Redirs.antt =====
-- parseredirs of sh.c reads printed redirections.
use os_system_calls_scheduli.Base.{
  ℕ, zero, suc, ◌<◌, ◌≡◌, refl, true, false, List, [], ◌∷◌, ◌++◌, length, ◌==◌, if◌then◌else◌,
  arith,
}
use os_system_calls_scheduli.Shell.{
  Text, Cmd, ok, symbols, whitespace, one_of, skip_spaces, starts_with, peek, gettoken, token_at,
  after_greater, redirect, parseredirs,
}
use os_system_calls_scheduli.Shell.Tokens.{
  IsWord, IsTidy, IsTidy-cons, IsTidy-word, gettoken_word, peek_tidy,
}
use os_system_calls_scheduli.Shell.Print.{
  Direction, input, output, Redir, redirected, wrap, sign, print_redirs, AreFiles, IsEnded,
}

ended_bytes :
    (c : ℕ)
    → one_of (b'|' ∷ b')' ∷ b'&' ∷ b';' ∷ []) c ≡ true
    → (one_of whitespace c ≡ false) × (one_of (b'<' ∷ b'>' ∷ []) c ≡ false)
unfolding one_of
ended_bytes c h = ground arith

pub IsEnded-IsTidy : (rest : Text) → IsEnded rest → IsTidy rest
unfolding skip_spaces
IsEnded-IsTidy [] h = refl
IsEnded-IsTidy (c ∷ cs) h = IsTidy-cons c cs (ended_bytes c h).0

pub no_redirs : (rest : Text) → IsEnded rest → starts_with (b'<' ∷ b'>' ∷ []) rest ≡ false
unfolding starts_with
no_redirs [] h = refl
no_redirs (c ∷ cs) h = (ended_bytes c h).1

one_of-sign : (d : Direction) → one_of whitespace (sign d) ≡ false
unfolding one_of
one_of-sign input = refl
one_of-sign output = refl

pub print_redirs-IsTidy :
    (rs : List Redir) (rest : Text) → IsTidy rest → IsTidy (print_redirs rs rest)
unfolding print_redirs
print_redirs-IsTidy [] rest h = h
print_redirs-IsTidy ((input, f) ∷ rs) rest h =
    IsTidy-cons b'<' (f ++ (b' ' ∷ print_redirs rs rest)) (one_of-sign input)
print_redirs-IsTidy ((output, f) ∷ rs) rest h =
    IsTidy-cons b'>' (f ++ (b' ' ∷ print_redirs rs rest)) (one_of-sign output)

gettoken_less :
    (x : Text)
    → gettoken (b'<' ∷ x) ≡ record { ret = b'<'; bytes = b'<' ∷ []; rest = skip_spaces x }
unfolding gettoken token_at skip_spaces one_of
gettoken_less x = refl

gettoken_greater :
    (c : ℕ) (x : Text)
    → gettoken (b'>' ∷ c ∷ x) ≡ (
        if c == b'>'
        then record { ret = b'+'; bytes = b'>' ∷ b'>' ∷ []; rest = skip_spaces x }
        else record { ret = b'>'; bytes = b'>' ∷ []; rest = skip_spaces (c ∷ x) })
unfolding gettoken token_at skip_spaces one_of after_greater
gettoken_greater c x = refl

not_greater : (c : ℕ) → one_of symbols c ≡ false → (c == b'>') ≡ false
unfolding one_of
not_greater c h = ground arith

gettoken-sign :
    (d : Direction) (f rest : Text)
    → IsWord f
    → gettoken (sign d ∷ f ++ rest) ≡ record { ret = sign d; bytes = sign d ∷ []; rest = f ++ rest }
gettoken-sign d [] rest h = elim h [ ]
gettoken-sign input (c ∷ cs) rest h =
    rw (gettoken_less (c ∷ cs ++ rest), IsTidy-word (c ∷ cs) rest h) refl
gettoken-sign output (c ∷ cs) rest h =
    rw (gettoken_greater c (cs ++ rest), not_greater c h.0.1, IsTidy-word (c ∷ cs) rest h) refl

redirect-sign : (d : Direction) (c : Cmd) (f : Text) → redirect (sign d) c f ≡ redirected c (d, f)
unfolding redirect
redirect-sign input c f = refl
redirect-sign output c f = refl

peek-sign : (d : Direction) (x : Text) → peek (b'<' ∷ b'>' ∷ []) (sign d ∷ x) ≡ (true, sign d ∷ x)
unfolding peek skip_spaces starts_with one_of
peek-sign input x = refl
peek-sign output x = refl

pub parseredirs_lem :
    (n : ℕ) (c : Cmd) (rs : List Redir) (rest : Text)
    → AreFiles rs
    → IsTidy rest
    → starts_with (b'<' ∷ b'>' ∷ []) rest ≡ false
    → length rs < n
    → parseredirs n c (print_redirs rs rest) ≡ ok (wrap c rs) rest
unfolding parseredirs print_redirs wrap
parseredirs_lem zero c rs rest fs t e l = absurd (omega arith)
parseredirs_lem (suc n) c [] rest fs t e l = rw (peek_tidy (b'<' ∷ b'>' ∷ []) rest t, e) refl
parseredirs_lem (suc n) c ((d, f) ∷ rs) rest fs t e l =
    rw
      (
        peek-sign d (f ++ (b' ' ∷ print_redirs rs rest)),
        gettoken-sign d f (b' ' ∷ print_redirs rs rest) fs.0,
        gettoken_word f (print_redirs rs rest) fs.0 (print_redirs-IsTidy rs rest t),
        redirect-sign d c f,
      )
      (parseredirs_lem n (redirected c (d, f)) rs rest fs.1 t e (omega arith))
