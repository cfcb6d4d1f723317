-- ===== src/Shell/Print/Words.antt =====
-- parseexec of sh.c reads a printed simple command.
use os_system_calls_scheduli.Base.{
  ℕ, zero, suc, ◌+◌, ◌-◌, ◌≤◌, ◌<◌, ◌≡◌, refl, ◌∙◌, true, false, List, [], ◌∷◌, ◌++◌, All, length,
  arith, append-nil, append_assoc, length-append, leb,
}
use os_system_calls_scheduli.Shell.{
  Text, Cmd, exec, Parsed, ok, ◌>>=◌, symbols, one_of, starts_with, peek, gettoken, token_at,
  skip_spaces, set_args, parseredirs, parse_args, max_args, Level, parseexec,
}
use os_system_calls_scheduli.Shell.Tokens.{
  IsWord, IsTidy, IsTidy-word, gettoken_word, peek_word, peek_tidy,
}
use os_system_calls_scheduli.Shell.Print.{
  input, output, Redir, wrap, print_redirs, print_words, AreFiles, IsEnded,
}
use os_system_calls_scheduli.Shell.Print.Redirs.{
  IsEnded-IsTidy, no_redirs, print_redirs-IsTidy, parseredirs_lem,
}

pub length-print_redirs :
    (rs : List Redir) (rest : Text) → length rs + length rest ≤ length (print_redirs rs rest)
unfolding print_redirs
length-print_redirs [] rest = omega arith
length-print_redirs ((d, f) ∷ rs) rest =
    omega (arith, length-append f (b' ' ∷ print_redirs rs rest), length-print_redirs rs rest)

pub length-print_words :
    (ws : List Text) (rest : Text) → length ws + length rest ≤ length (print_words ws rest)
unfolding print_words
length-print_words [] rest = omega arith
length-print_words (w ∷ ws) rest =
    omega (arith, length-append w (b' ' ∷ print_words ws rest), length-print_words ws rest)

pub print_words-IsTidy :
    (ws : List Text) (rest : Text) → All IsWord ws → IsTidy rest → IsTidy (print_words ws rest)
unfolding print_words
print_words-IsTidy [] rest h t = t
print_words-IsTidy (w ∷ ws) rest h t = IsTidy-word w (b' ' ∷ print_words ws rest) h.0

redirs_word : (c : ℕ) → one_of symbols c ≡ false → one_of (b'<' ∷ b'>' ∷ []) c ≡ false
unfolding one_of
redirs_word c h = ground arith

stop_word : (c : ℕ) → one_of symbols c ≡ false → one_of (b'|' ∷ b')' ∷ b'&' ∷ b';' ∷ []) c ≡ false
unfolding one_of
stop_word c h = ground arith

-- No redirection stands in front of a word.
parseredirs_word :
    (k : ℕ) (c : Cmd) (w rest : Text)
    → IsWord w
    → parseredirs (suc k) c (w ++ (b' ' ∷ rest)) ≡ ok c (w ++ (b' ' ∷ rest))
unfolding parseredirs
parseredirs_word k c w rest h = rw (peek_word (b'<' ∷ b'>' ∷ []) w rest h redirs_word) refl

parse_args-nil : (n : ℕ) (argv : List Text) (c : Cmd) → parse_args (suc n) argv c [] ≡ ok c []
unfolding parse_args peek skip_spaces starts_with gettoken token_at
parse_args-nil n argv c = refl

stops :
    (d : ℕ) (ds : Text)
    → IsEnded (d ∷ ds)
    → starts_with (b'|' ∷ b')' ∷ b'&' ∷ b';' ∷ []) (d ∷ ds) ≡ true
unfolding starts_with
stops d ds h = h

-- The last round of the loop.
parse_args_ended :
    (n : ℕ) (argv : List Text) (c : Cmd) (rest : Text)
    → IsEnded rest
    → parse_args (suc n) argv c rest ≡ ok c rest
unfolding parse_args
parse_args_ended n argv c [] h = parse_args-nil n argv c
parse_args_ended n argv c (d ∷ ds) h =
    rw
      (
        peek_tidy (b'|' ∷ b')' ∷ b'&' ∷ b';' ∷ []) (d ∷ ds) (IsEnded-IsTidy (d ∷ ds) h),
        stops d ds h,
      )
      refl

-- A round of the loop that reads a word.
parse_args_word :
    (n : ℕ) (argv : List Text) (w rest : Text)
    → IsWord w
    → IsTidy rest
    → length argv < 9
    → parse_args (suc n) argv (exec argv) (w ++ (b' ' ∷ rest)) ≡ (
        parseredirs (suc (length rest)) (exec (argv ++ (w ∷ []))) rest >>= λ c s.
        parse_args n (argv ++ (w ∷ [])) c s)
unfolding parse_args set_args
parse_args_word n argv w rest h t l =
    let room : leb max_args (length (argv ++ (w ∷ []))) ≡ false =
      ground (arith, length-append argv (w ∷ [])) in
    rw
      (
        peek_word (b'|' ∷ b')' ∷ b'&' ∷ b';' ∷ []) w rest h stop_word,
        gettoken_word w rest h t,
        room,
      )
      refl

-- The loop, with the redirections that the call before it reads, at a printed simple command.
words_lem :
    (n : Text → ℕ) (k : ℕ) (argv ws : List Text) (rs : List Redir) (rest : Text)
    → All IsWord ws
    → AreFiles rs
    → IsEnded rest
    → length argv + length ws < 10
    → length rs < k
    → 0 < n rest
    → length ws < n (print_words ws (print_redirs rs rest))
    → (parseredirs k (exec argv) (print_words ws (print_redirs rs rest)) >>= λ c s.
        parse_args (n s) argv c s)
      ≡ ok (wrap (exec (argv ++ ws)) rs) rest
unfolding print_words
words_lem n k argv [] rs rest hw hr e l lk l0 lw =
    let pos : n rest ≡ suc (n rest - 1) = omega arith in
    rw
      (
        parseredirs_lem k (exec argv) rs rest hr (IsEnded-IsTidy rest e) (no_redirs rest e) lk,
        pos,
        append-nil argv,
      )
      (parse_args_ended (n rest - 1) argv (wrap (exec argv) rs) rest e)
words_lem n zero argv (w ∷ ws) rs rest hw hr e l lk l0 lw = absurd (omega arith)
words_lem n (suc k) argv (w ∷ ws) rs rest hw hr e l lk l0 lw =
    let tail = print_words ws (print_redirs rs rest) in
    let m = n (w ++ (b' ' ∷ tail)) - 1 in
    let pos : n (w ++ (b' ' ∷ tail)) ≡ suc m = omega arith in
    let tidy =
      print_words-IsTidy ws (print_redirs rs rest) hw.1
        (print_redirs-IsTidy rs rest (IsEnded-IsTidy rest e)) in
    rw
      (
        parseredirs_word k (exec argv) w tail hw.0,
        pos,
        parse_args_word m argv w tail hw.0 tidy (omega arith),
      )
      (words_lem (λ _. m) (suc (length tail)) (argv ++ (w ∷ [])) ws rs rest hw.1 hr e
          (omega (arith, length-append argv (w ∷ [])))
          (omega (arith, length-print_redirs rs rest, length-print_words ws (print_redirs rs rest)))
          (omega arith) (omega arith)
        ∙ rw (append_assoc argv (w ∷ []) ws) refl)

block_word : (c : ℕ) → one_of symbols c ≡ false → one_of (b'(' ∷ []) c ≡ false
unfolding one_of
block_word c h = ground arith

block_ended :
    (c : ℕ) → one_of (b'|' ∷ b')' ∷ b'&' ∷ b';' ∷ []) c ≡ true → one_of (b'(' ∷ []) c ≡ false
unfolding one_of
block_ended c h = ground arith

-- A simple command opens no block.
no_block :
    (ws : List Text) (rs : List Redir) (rest : Text)
    → All IsWord ws
    → IsEnded rest
    → starts_with (b'(' ∷ []) (print_words ws (print_redirs rs rest)) ≡ false
unfolding print_words print_redirs starts_with one_of
no_block ((c ∷ cs) ∷ ws) rs rest hw e = block_word c hw.0.0.1
no_block ([] ∷ ws) rs rest hw e = elim hw.0 [ ]
no_block [] ((input, f) ∷ rs) rest hw e = refl
no_block [] ((output, f) ∷ rs) rest hw e = refl
no_block [] [] [] hw e = refl
no_block [] [] (c ∷ cs) hw e = block_ended c e

pub parseexec_simple :
    (rec : Level → Text → Parsed) (ws : List Text) (rs : List Redir) (rest : Text)
    → All IsWord ws
    → AreFiles rs
    → IsEnded rest
    → length ws < 10
    → parseexec rec (print_words ws (print_redirs rs rest)) ≡ ok (wrap (exec ws) rs) rest
unfolding parseexec
parseexec_simple rec ws rs rest hw hr e l =
    let text = print_words ws (print_redirs rs rest) in
    rw
      (
        peek_tidy (b'(' ∷ []) text (
            print_words-IsTidy ws (print_redirs rs rest) hw
              (print_redirs-IsTidy rs rest (IsEnded-IsTidy rest e))),
        no_block ws rs rest hw e,
      )
      (words_lem (λ s. suc (length s)) (suc (length text)) [] ws rs rest hw hr e (omega arith)
        (omega (arith, length-print_redirs rs rest, length-print_words ws (print_redirs rs rest)))
        (omega arith) (omega (arith, length-print_words ws (print_redirs rs rest))))
