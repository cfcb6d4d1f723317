-- ===== src/Shell/Settle.antt =====
-- The parser of sh.c always comes to an end: the model's fuel does not run out on any line.
pub mod Shorter
pub mod Loops
use os_system_calls_scheduli.Base.{
  ℕ, zero, suc, ◌+◌, ◌*◌, ◌≤◌, ◌<◌, ◌≡◌, refl, ◌≢◌, Bool, true, false, not, List, [], ◌∷◌, ◌++◌,
  length, leb, ◌==◌, if◌then◌else◌, Bool-cases, inl, inr, arith,
}
use os_system_calls_scheduli.Shell.{
  Text, Cmd, exec, pipe, list, back, Parsed, ok, panics, starved, ◌>>=◌, peek, gettoken, redirect,
  set_args, parseredirs, parse_args, max_args, Level, line, pipeline, command, block, parse_backs,
  parseline, parsepipe, parseblock, parseexec, parse, at_end, parsecmd,
}
use os_system_calls_scheduli.Shell.Settle.Loops.{
  Settled, Settled-bind, Settled-mono, Settled-if, parseredirs-Settled, parse_args-Settled,
  parse_backs-Settled,
}
use os_system_calls_scheduli.Shell.Settle.Shorter.{peek_le, peek_next, gettoken_le, word_next}

-- The calls that a level may nest, at most, on a text of `l` bytes.
abbrev need : Level → ℕ → ℕ
need line l = 4 * l + 4
need pipeline l = 4 * l + 3
need command l = 4 * l + 2
need block l = 4 * l + 1

-- What the calls of the four functions give with the fuel `n`.
abbrev Settles : ℕ → (Level → Text → Parsed) → Type 0
Settles n rec =
    (level : Level) (s : Text) → need level (length s) ≤ n → Settled (length s) (rec level s)

module _ (n : ℕ) (rec : Level → Text → Parsed) (settles : Settles n rec) where
  -- A call behind a symbol, whose result becomes a part of a larger tree.
  behind-Settled :
      (level : Level) (l : ℕ) (toks s : Text) (f : Cmd → Cmd)
      → length s ≤ l
      → (peek toks s).0 ≡ true
      → ((k : ℕ) → k < l → need level k ≤ n)
      → Settled l (rec level (gettoken (peek toks s).1).rest >>= λ r s'. ok (f r) s')
  behind-Settled level l toks s f h e k =
      let t = (gettoken (peek toks s).1).rest in
      let shorter : length t < length s = peek_next toks s e in
      Settled-bind (length t) l (rec level t) (λ r s'. ok (f r) s')
        (settles level t (k (length t) (omega arith))) (λ r s' m. omega arith)

  parseline-Settled :
      (s : Text) → need line (length s) ≤ suc n → Settled (length s) (parseline rec s)
  unfolding parseline
  parseline-Settled s h =
      Settled-bind (length s) (length s) (rec pipeline s) _ (settles pipeline s (omega arith))
        (λ c s1 k.
          Settled-bind (length s1) (length s) (parse_backs (suc (length s1)) c s1) _
            (parse_backs-Settled (suc (length s1)) c s1 (omega arith))
            (λ c' s2 m.
              Settled-if (length s) (peek (b';' ∷ []) s2).0 _ _
                (λ e.
                  behind-Settled line (length s) (b';' ∷ []) s2 (λ r. list c' r) (omega arith) e
                    (λ j lt. omega arith))
                (λ e. omega (arith, peek_le (b';' ∷ []) s2))))

  parsepipe-Settled :
      (s : Text) → need pipeline (length s) ≤ suc n → Settled (length s) (parsepipe rec s)
  unfolding parsepipe
  parsepipe-Settled s h =
      Settled-bind (length s) (length s) (rec command s) _ (settles command s (omega arith))
        (λ c s1 k.
          Settled-if (length s) (peek (b'|' ∷ []) s1).0 _ _
            (λ e.
              behind-Settled pipeline (length s) (b'|' ∷ []) s1 (λ r. pipe c r) k e
                (λ j lt. omega arith))
            (λ e. omega (arith, peek_le (b'|' ∷ []) s1)))

  -- parseblock behind its line.
  close-Settled :
      (l : ℕ) (c : Cmd) (s : Text)
      → length s ≤ l
      → Settled l (
          let (closes, s3) = peek (b')' ∷ []) s in
          if closes
          then (let s4 = (gettoken s3).rest in parseredirs (suc (length s4)) c s4)
          else panics)
  close-Settled l c s h =
      let s4 = (gettoken (peek (b')' ∷ []) s).1).rest in
      Settled-if l (peek (b')' ∷ []) s).0 (parseredirs (suc (length s4)) c s4) panics
        (λ e.
          let shorter : length s4 < length s = peek_next (b')' ∷ []) s e in
          Settled-mono (length s4) l (parseredirs (suc (length s4)) c s4) (omega arith)
            (parseredirs-Settled (suc (length s4)) c s4 (omega arith)))
        (λ e. tt)

  parseblock-Settled :
      (s : Text) → need block (length s) ≤ suc n → Settled (length s) (parseblock rec s)
  unfolding parseblock
  parseblock-Settled s h =
      let t = (gettoken (peek (b'(' ∷ []) s).1).rest in
      Settled-if (length s) (peek (b'(' ∷ []) s).0 _ panics
        (λ e.
          let shorter : length t < length s = peek_next (b'(' ∷ []) s e in
          Settled-bind (length t) (length s) (rec line t) _ (settles line t (omega arith))
            (λ c s2 k. close-Settled (length s) c s2 (omega arith)))
        (λ e. tt)

  parseexec-Settled :
      (s : Text) → need command (length s) ≤ suc n → Settled (length s) (parseexec rec s)
  unfolding parseexec
  parseexec-Settled s h =
      let s1 = (peek (b'(' ∷ []) s).1 in
      let short : length s1 ≤ length s = peek_le (b'(' ∷ []) s in
      Settled-if (length s) (peek (b'(' ∷ []) s).0 (rec block s1) _
        (λ e.
          Settled-mono (length s1) (length s) (rec block s1) short (settles block s1 (omega arith)))
        (λ e.
          Settled-bind (length s1) (length s) (parseredirs (suc (length s1)) (exec []) s1) _
            (parseredirs-Settled (suc (length s1)) (exec []) s1 (omega arith))
            (λ ret s2 k.
              Settled-mono (length s2) (length s) (parse_args (suc (length s2)) [] ret s2)
                (omega arith) (parse_args-Settled (suc (length s2)) [] ret s2 (omega arith))))

parse-Settled : (n : ℕ) → Settles n (λ level s. parse n level s)
unfolding parse
parse-Settled zero line s h = absurd (omega arith)
parse-Settled zero pipeline s h = absurd (omega arith)
parse-Settled zero command s h = absurd (omega arith)
parse-Settled zero block s h = absurd (omega arith)
parse-Settled (suc n) line s h = parseline-Settled n (λ l t. parse n l t) (parse-Settled n) s h
parse-Settled (suc n) pipeline s h = parsepipe-Settled n (λ l t. parse n l t) (parse-Settled n) s h
parse-Settled (suc n) command s h = parseexec-Settled n (λ l t. parse n l t) (parse-Settled n) s h
parse-Settled (suc n) block s h = parseblock-Settled n (λ l t. parse n l t) (parse-Settled n) s h

-- A command with nothing left over, or a panic.
abbrev pub Ends : Parsed → Type 0
Ends (ok c s) = s ≡ []
Ends panics = Unit
Ends starved = ⊥

at_end-Ends : (c : Cmd) (s : Text) → Ends (at_end c s)
unfolding at_end
at_end-Ends c [] = refl
at_end-Ends c (d ∷ ds) = tt

bind-Ends :
    (l : ℕ) (r : Parsed) (f : Cmd → Text → Parsed)
    → Settled l r
    → ((c : Cmd) (s : Text) → Ends (f c s))
    → Ends (r >>= f)
bind-Ends l (ok c s) f h k = k c s
bind-Ends l panics f h k = tt
bind-Ends l starved f h k = elim h [ ]

-- On every line parsecmd comes to an end: with a command and nothing left over, or with a panic.
pub parsecmd-Ends : (s : Text) → Ends (parsecmd s)
unfolding parsecmd
parsecmd-Ends s =
    bind-Ends (length s) (parse (4 * length s + 4) line s) (λ c s1. at_end c (peek [] s1).1)
      (parse-Settled (4 * length s + 4) line s (omega arith)) (λ c s1. at_end-Ends c (peek [] s1).1)
