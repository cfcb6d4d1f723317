-- ===== src/Shell.antt =====
-- The parser of sh.c. A command line is the list of its bytes before the 0, and a pointer into it is
-- the list of the bytes from there on; the end of the list is the 0 at `es`. A word, which the code
-- keeps as a start and an end until nulterminate puts a 0 at the end, is the list of its bytes.
pub mod Print
pub mod Tokens
pub mod Settle
use os_system_calls_scheduli.Base.{
  ℕ, zero, suc, ◌+◌, ◌*◌, Bool, true, false, not, ◌||◌, List, [], ◌∷◌, ◌++◌, leb, ◌==◌,
  if◌then◌else◌, length,
}

abbrev pub Text : Type 0
Text = List ℕ

abbrev pub max_args : ℕ
max_args = 10

abbrev pub o_rdonly : ℕ
o_rdonly = 0

-- O_WRONLY|O_CREATE
abbrev pub o_wronly_create : ℕ
o_wronly_create = 513

pub data Cmd : Type 0 where
  exec : List Text → Cmd
  redir : Cmd → Text → ℕ → ℕ → Cmd
  pipe : Cmd → Cmd → Cmd
  list : Cmd → Cmd → Cmd
  back : Cmd → Cmd

-- `panics` ends the shell's child; with `starved` the fuel of the model ran out.
pub data Parsed : Type 0 where
  ok : Cmd → Text → Parsed
  panics : Parsed
  starved : Parsed

infixl 5 ◌>>=◌
abbrev pub ◌>>=◌ : Parsed → (Cmd → Text → Parsed) → Parsed
ok c s >>= f = f c s
panics >>= f = panics
starved >>= f = starved

unfoldable pub one_of : List ℕ → ℕ → Bool
one_of [] c = false
one_of (d ∷ ds) c = if c == d then true else one_of ds c

-- space, tab, carriage return, newline, vertical tab
abbrev pub whitespace : List ℕ
whitespace = b' ' ∷ 9 ∷ 13 ∷ 10 ∷ 11 ∷ []

abbrev pub symbols : List ℕ
symbols = b'<' ∷ b'|' ∷ b'>' ∷ b'&' ∷ b';' ∷ b'(' ∷ b')' ∷ []

unfoldable pub skip_spaces : Text → Text
skip_spaces [] = []
skip_spaces (c ∷ cs) = let rest = skip_spaces cs in if one_of whitespace c then rest else c ∷ cs

-- A word and what follows it.
unfoldable pub split_word : Text → Text × Text
split_word [] = ([], [])
split_word (c ∷ cs) =
    let (w, rest) = split_word cs in
    if one_of whitespace c || one_of symbols c then ([], c ∷ cs) else (c ∷ w, rest)

-- What gettoken returns, the bytes from *q up to *eq, and the text from *ps on.
pub record Token : Type 0 where
  pub ret : ℕ
  pub bytes : Text
  pub rest : Text

-- gettoken behind a `>`
unfoldable pub after_greater : Text → Token
after_greater [] = record { ret = b'>'; bytes = b'>' ∷ []; rest = [] }
after_greater (c ∷ cs) =
    if c == b'>'
    then record { ret = b'+'; bytes = b'>' ∷ b'>' ∷ []; rest = skip_spaces cs }
    else record { ret = b'>'; bytes = b'>' ∷ []; rest = skip_spaces (c ∷ cs) }

-- gettoken behind the spaces
unfoldable pub token_at : Text → Token
token_at [] = record { ret = 0; bytes = []; rest = [] }
token_at (c ∷ cs) =
    if one_of (b'|' ∷ b'(' ∷ b')' ∷ b';' ∷ b'&' ∷ b'<' ∷ []) c
    then record { ret = c; bytes = c ∷ []; rest = skip_spaces cs }
    else if c == b'>'
    then after_greater cs
    else record {
      ret = b'a';
      bytes = (split_word (c ∷ cs)).0;
      rest = skip_spaces (split_word (c ∷ cs)).1;
    }

unfoldable pub gettoken : Text → Token
gettoken s = token_at (skip_spaces s)

unfoldable pub starts_with : List ℕ → Text → Bool
starts_with toks [] = false
starts_with toks (c ∷ cs) = one_of toks c

-- The answer, and the text that peek leaves in *ps.
unfoldable pub peek : List ℕ → Text → Bool × Text
peek toks s = let s' = skip_spaces s in (starts_with toks s', s')

unfoldable pub redirect : ℕ → Cmd → Text → Cmd
redirect tok cmd file =
    if tok == b'<'
    then redir cmd file o_rdonly 0
    else if tok == b'>'
    then redir cmd file o_wronly_create 1
    else if tok == b'+'
    then redir cmd file o_wronly_create 1
    else cmd

-- The loop of parseredirs, for at most `fuel` rounds.
unfoldable pub parseredirs : ℕ → Cmd → Text → Parsed
parseredirs zero cmd s = starved
parseredirs (suc fuel) cmd s =
    let (more, s1) = peek (b'<' ∷ b'>' ∷ []) s in
    let t = gettoken s1 in
    let file = gettoken t.rest in
    let rest = parseredirs fuel (redirect t.ret cmd file.bytes) file.rest in
    if not more then ok cmd s1 else if not (file.ret == b'a') then panics else rest

-- The stores into `cmd->argv`, where `cmd` is the exec node that `ret` wraps.
unfoldable pub set_args : List Text → Cmd → Cmd
set_args argv (exec old) = exec argv
set_args argv (redir c f m d) = redir (set_args argv c) f m d
set_args argv (pipe l r) = pipe l r
set_args argv (list l r) = list l r
set_args argv (back c) = back c

-- The loop of parseexec, for at most `fuel` rounds.
unfoldable pub parse_args : ℕ → List Text → Cmd → Text → Parsed
parse_args zero argv ret s = starved
parse_args (suc fuel) argv ret s =
    let (stop, s1) = peek (b'|' ∷ b')' ∷ b'&' ∷ b';' ∷ []) s in
    let t = gettoken s1 in
    let argv' = argv ++ (t.bytes ∷ []) in
    let more = parseredirs (suc (length t.rest)) (set_args argv' ret) t.rest >>= λ ret' s2.
    parse_args fuel argv' ret' s2 in
    if stop
    then ok ret s1
    else if t.ret == 0
    then ok ret t.rest
    else if not (t.ret == b'a')
    then panics
    else if leb max_args (length argv')
    then panics
    else more

-- The four functions that call one another.
pub data Level : Type 0 where
  line : Level
  pipeline : Level
  command : Level
  block : Level

-- The loop of parseline over `&`, for at most `fuel` rounds.
unfoldable pub parse_backs : ℕ → Cmd → Text → Parsed
parse_backs zero cmd s = starved
parse_backs (suc fuel) cmd s =
    let (more, s1) = peek (b'&' ∷ []) s in
    let rest = parse_backs fuel (back cmd) (gettoken s1).rest in if more then rest else ok cmd s1

-- In these four `rec` is the call of another one.
unfoldable pub parseline : (Level → Text → Parsed) → Text → Parsed
parseline rec s = rec pipeline s >>= λ c s1. parse_backs (suc (length s1)) c s1 >>= λ c' s2.
    let (more, s3) = peek (b';' ∷ []) s2 in
    if more then (rec line (gettoken s3).rest >>= λ r s4. ok (list c' r) s4) else ok c' s3

unfoldable pub parsepipe : (Level → Text → Parsed) → Text → Parsed
parsepipe rec s = rec command s >>= λ c s1.
    let (more, s2) = peek (b'|' ∷ []) s1 in
    if more then (rec pipeline (gettoken s2).rest >>= λ r s3. ok (pipe c r) s3) else ok c s2

unfoldable pub parseblock : (Level → Text → Parsed) → Text → Parsed
parseblock rec s =
    let (opens, s1) = peek (b'(' ∷ []) s in
    if opens
    then (rec line (gettoken s1).rest >>= λ c s2.
        let (closes, s3) = peek (b')' ∷ []) s2 in
        if closes
        then (let s4 = (gettoken s3).rest in parseredirs (suc (length s4)) c s4)
        else panics)
    else panics

unfoldable pub parseexec : (Level → Text → Parsed) → Text → Parsed
parseexec rec s =
    let (opens, s1) = peek (b'(' ∷ []) s in
    if opens
    then rec block s1
    else (parseredirs (suc (length s1)) (exec []) s1 >>= λ ret s2.
        parse_args (suc (length s2)) [] ret s2)

-- `fuel` bounds how deep the calls nest.
unfoldable pub parse : ℕ → Level → Text → Parsed
parse zero level s = starved
parse (suc fuel) line s = parseline (λ level t. parse fuel level t) s
parse (suc fuel) pipeline s = parsepipe (λ level t. parse fuel level t) s
parse (suc fuel) command s = parseexec (λ level t. parse fuel level t) s
parse (suc fuel) block s = parseblock (λ level t. parse fuel level t) s

-- parsecmd; what is left over panics.
unfoldable pub at_end : Cmd → Text → Parsed
at_end c [] = ok c []
at_end c (d ∷ ds) = panics

unfoldable pub parsecmd : Text → Parsed
parsecmd s = parse (4 * length s + 4) line s >>= λ c s1. at_end c (peek [] s1).1
