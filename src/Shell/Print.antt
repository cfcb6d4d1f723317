-- ===== src/Shell/Print.antt =====
-- Command trees as text: words and files with a space behind them, and brackets round what is not a
-- simple command. `rest` is the text that follows.
pub mod Redirs
pub mod Words
pub mod Steps
pub mod RoundTrip
pub mod Trees
use os_system_calls_scheduli.Base.{
  ℕ, suc, ◌+◌, ◌≤◌, ◌<◌, ◌≡◌, refl, ◌∙◌, ap, Bool, true, false, List, [], ◌∷◌, ◌++◌, All, length,
}
use os_system_calls_scheduli.Shell.{
  Text, Cmd, exec, redir, pipe, list, back, o_rdonly, o_wronly_create, one_of,
}
use os_system_calls_scheduli.Shell.Tokens.{IsWord}

pub data Direction : Type 0 where
  input : Direction
  output : Direction

abbrev pub Redir : Type 0
Redir = Direction × Text

-- A command with the redirections behind it.
pub data Shape : Type 0 where
  simple : List Text → List Redir → Shape
  piped : Shape → Shape → List Redir → Shape
  listed : Shape → Shape → List Redir → Shape
  backed : Shape → List Redir → Shape

abbrev pub redirected : Cmd → Redir → Cmd
redirected c (input, f) = redir c f o_rdonly 0
redirected c (output, f) = redir c f o_wronly_create 1

unfoldable pub wrap : Cmd → List Redir → Cmd
wrap c [] = c
wrap c (r ∷ rs) = wrap (redirected c r) rs

unfoldable pub cmd_of : Shape → Cmd
cmd_of (simple ws rs) = wrap (exec ws) rs
cmd_of (piped l r rs) = wrap (pipe (cmd_of l) (cmd_of r)) rs
cmd_of (listed l r rs) = wrap (list (cmd_of l) (cmd_of r)) rs
cmd_of (backed c rs) = wrap (back (cmd_of c)) rs

abbrev pub sign : Direction → ℕ
sign input = b'<'
sign output = b'>'

unfoldable pub print_redirs : List Redir → Text → Text
print_redirs [] rest = rest
print_redirs ((d, f) ∷ rs) rest = sign d ∷ f ++ (b' ' ∷ print_redirs rs rest)

unfoldable pub print_words : List Text → Text → Text
print_words [] rest = rest
print_words (w ∷ ws) rest = w ++ (b' ' ∷ print_words ws rest)

unfoldable pub print : Shape → Text → Text
print (simple ws rs) rest = print_words ws (print_redirs rs rest)
print (piped l r rs) rest = b'(' ∷ print l (b'|' ∷ print r (b')' ∷ print_redirs rs rest))
print (listed l r rs) rest = b'(' ∷ print l (b';' ∷ print r (b')' ∷ print_redirs rs rest))
print (backed c rs) rest = b'(' ∷ print c (b'&' ∷ b')' ∷ print_redirs rs rest)

abbrev pub AreFiles : List Redir → Type 0
AreFiles rs = All (λ r. IsWord r.1) rs

-- Fewer words than MAXARGS, and no empty word or special byte in words and files.
abbrev pub IsPrintable : Shape → Type 0
IsPrintable (simple ws rs) = All IsWord ws × (length ws < 10) × AreFiles rs
IsPrintable (piped l r rs) = IsPrintable l × IsPrintable r × AreFiles rs
IsPrintable (listed l r rs) = IsPrintable l × IsPrintable r × AreFiles rs
IsPrintable (backed c rs) = IsPrintable c × AreFiles rs

-- The text after a command: its end, or a symbol that is no redirection and opens no block.
abbrev pub IsEnded : Text → Type 0
IsEnded [] = Unit
IsEnded (c ∷ cs) = one_of (b'|' ∷ b')' ∷ b'&' ∷ b';' ∷ []) c ≡ true
