-- ===== src/Shell/Print/Steps.antt =====
-- The parser of sh.c at a symbol, and one lemma for each way that its calls go on.
use os_system_calls_scheduli.Base.{ℕ, suc, ◌≡◌, refl, true, false, List, [], ◌∷◌, length, arith}
use os_system_calls_scheduli.Shell.{
  Text, Cmd, pipe, list, back, ok, line, pipeline, command, one_of, starts_with, peek, gettoken,
  token_at, skip_spaces, parse_backs, parseline, parsepipe, parseblock, parseexec, parse,
}
use os_system_calls_scheduli.Shell.Tokens.{IsTidy}
use os_system_calls_scheduli.Shell.Print.{Redir, wrap, print_redirs, AreFiles, IsEnded}
use os_system_calls_scheduli.Shell.Print.Redirs.{
  IsEnded-IsTidy, no_redirs, print_redirs-IsTidy, parseredirs_lem,
}
use os_system_calls_scheduli.Shell.Print.Words.{length-print_redirs}

-- A symbol at the front.
module _ (x : Text) where
  peek_pipe : peek (b'|' ∷ []) (b'|' ∷ x) ≡ (true, b'|' ∷ x)
  unfolding peek skip_spaces starts_with one_of
  peek_pipe = refl

  next_pipe : (gettoken (b'|' ∷ x)).rest ≡ skip_spaces x
  unfolding gettoken token_at skip_spaces one_of
  next_pipe = refl

  next_semicolon : (gettoken (b';' ∷ x)).rest ≡ skip_spaces x
  unfolding gettoken token_at skip_spaces one_of
  next_semicolon = refl

  next_and : (gettoken (b'&' ∷ x)).rest ≡ skip_spaces x
  unfolding gettoken token_at skip_spaces one_of
  next_and = refl

  next_close : (gettoken (b')' ∷ x)).rest ≡ skip_spaces x
  unfolding gettoken token_at skip_spaces one_of
  next_close = refl

  next_open : (gettoken (b'(' ∷ x)).rest ≡ skip_spaces x
  unfolding gettoken token_at skip_spaces one_of
  next_open = refl

  peek_open : peek (b'(' ∷ []) (b'(' ∷ x) ≡ (true, b'(' ∷ x)
  unfolding peek skip_spaces starts_with one_of
  peek_open = refl

  peek_close : peek (b')' ∷ []) (b')' ∷ x) ≡ (true, b')' ∷ x)
  unfolding peek skip_spaces starts_with one_of
  peek_close = refl

  peek_semicolon : peek (b';' ∷ []) (b';' ∷ x) ≡ (true, b';' ∷ x)
  unfolding peek skip_spaces starts_with one_of
  peek_semicolon = refl

  peek_and : peek (b'&' ∷ []) (b'&' ∷ x) ≡ (true, b'&' ∷ x)
  unfolding peek skip_spaces starts_with one_of
  peek_and = refl

  pub close_no_pipe : peek (b'|' ∷ []) (b')' ∷ x) ≡ (false, b')' ∷ x)
  unfolding peek skip_spaces starts_with one_of
  close_no_pipe = refl

  close_no_and : peek (b'&' ∷ []) (b')' ∷ x) ≡ (false, b')' ∷ x)
  unfolding peek skip_spaces starts_with one_of
  close_no_and = refl

  close_no_semicolon : peek (b';' ∷ []) (b')' ∷ x) ≡ (false, b')' ∷ x)
  unfolding peek skip_spaces starts_with one_of
  close_no_semicolon = refl

  semicolon_no_and : peek (b'&' ∷ []) (b';' ∷ x) ≡ (false, b';' ∷ x)
  unfolding peek skip_spaces starts_with one_of
  semicolon_no_and = refl

  pub semicolon_no_pipe : peek (b'|' ∷ []) (b';' ∷ x) ≡ (false, b';' ∷ x)
  unfolding peek skip_spaces starts_with one_of
  semicolon_no_pipe = refl

  pub and_no_pipe : peek (b'|' ∷ []) (b'&' ∷ x) ≡ (false, b'&' ∷ x)
  unfolding peek skip_spaces starts_with one_of
  and_no_pipe = refl

  close-IsTidy : IsTidy (b')' ∷ x)
  unfolding skip_spaces one_of
  close-IsTidy = refl

pub pipeline_plain :
    (n : ℕ) (s y : Text) (c : Cmd)
    → peek (b'|' ∷ []) y ≡ (false, y)
    → parse n command s ≡ ok c y
    → parse (suc n) pipeline s ≡ ok c y
unfolding parse parsepipe
pipeline_plain n s y c p e = rw (e, p) refl

pub pipeline_piped :
    (n : ℕ) (s t y : Text) (l r : Cmd)
    → IsTidy t
    → parse n command s ≡ ok l (b'|' ∷ t)
    → parse n pipeline t ≡ ok r y
    → parse (suc n) pipeline s ≡ ok (pipe l r) y
unfolding parse parsepipe
pipeline_piped n s t y l r h el er = rw (el, peek_pipe t, next_pipe t, h, er) refl

-- Nothing is added to a command in front of `)`.
pub line_close :
    (n : ℕ) (s x : Text) (c : Cmd)
    → parse n pipeline s ≡ ok c (b')' ∷ x)
    → parse (suc n) line s ≡ ok c (b')' ∷ x)
unfolding parse parseline parse_backs
line_close n s x c e = rw (e, close_no_and x, close_no_semicolon x) refl

pub line_listed :
    (n : ℕ) (s t y : Text) (l r : Cmd)
    → IsTidy t
    → parse n pipeline s ≡ ok l (b';' ∷ t)
    → parse n line t ≡ ok r y
    → parse (suc n) line s ≡ ok (list l r) y
unfolding parse parseline parse_backs
line_listed n s t y l r h el er =
    rw (el, semicolon_no_and t, peek_semicolon t, next_semicolon t, h, er) refl

pub line_backed :
    (n : ℕ) (s x : Text) (c : Cmd)
    → parse n pipeline s ≡ ok c (b'&' ∷ b')' ∷ x)
    → parse (suc n) line s ≡ ok (back c) (b')' ∷ x)
unfolding parse parseline parse_backs
line_backed n s x c e =
    rw
      (
        e,
        peek_and (b')' ∷ x),
        next_and (b')' ∷ x),
        close-IsTidy x,
        close_no_and x,
        close_no_semicolon x,
      )
      refl

-- A block and the redirections behind it.
pub command_block :
    (n : ℕ) (c : Cmd) (rs : List Redir) (s rest : Text)
    → IsTidy s
    → AreFiles rs
    → IsEnded rest
    → parse n line s ≡ ok c (b')' ∷ print_redirs rs rest)
    → parse (suc (suc n)) command (b'(' ∷ s) ≡ ok (wrap c rs) rest
unfolding parse parseexec parseblock
command_block n c rs s rest t hr e h =
    rw
      (
        peek_open s,
        peek_open s,
        next_open s,
        t,
        h,
        peek_close (print_redirs rs rest),
        next_close (print_redirs rs rest),
        print_redirs-IsTidy rs rest (IsEnded-IsTidy rest e),
      )
      (parseredirs_lem (suc (length (print_redirs rs rest))) c rs rest hr (IsEnded-IsTidy rest e)
        (no_redirs rest e) (omega (arith, length-print_redirs rs rest)))
