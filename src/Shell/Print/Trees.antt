-- ===== src/Shell/Print/Trees.antt =====
-- Every command tree that the parser of sh.c can make is the tree of a shape.
use os_system_calls_scheduli.Base.{
  ◌<◌, ◌≡◌, refl, ◌∙◌, ap, ◌⊎◌, inl, inr, List, [], ◌∷◌, ◌++◌, All, All-append, length, ◌==◌,
  if◌then◌else◌,
}
use os_system_calls_scheduli.Shell.{
  Text, Cmd, exec, redir, pipe, list, back, o_rdonly, o_wronly_create, ok, parsecmd,
}
use os_system_calls_scheduli.Shell.Tokens.{IsWord}
use os_system_calls_scheduli.Shell.Print.{
  input, output, Redir, Shape, simple, piped, listed, backed, redirected, wrap, cmd_of, print,
  AreFiles, IsPrintable,
}
use os_system_calls_scheduli.Shell.Print.RoundTrip.{parsecmd-print}

-- Words and files are words, there are fewer than MAXARGS words, and a redirection is for reading on
-- descriptor 0 or for writing on descriptor 1.
abbrev pub IsTree : Cmd → Type 0
IsTree (exec ws) = All IsWord ws × (length ws < 10)
IsTree (redir c f m d) =
    IsTree c × IsWord f × (((m ≡ o_rdonly) × (d ≡ 0)) ⊎ ((m ≡ o_wronly_create) × (d ≡ 1)))
IsTree (pipe l r) = IsTree l × IsTree r
IsTree (list l r) = IsTree l × IsTree r
IsTree (back c) = IsTree c

add_redir : Redir → Shape → Shape
add_redir x (simple ws rs) = simple ws (rs ++ (x ∷ []))
add_redir x (piped l r rs) = piped l r (rs ++ (x ∷ []))
add_redir x (listed l r rs) = listed l r (rs ++ (x ∷ []))
add_redir x (backed c rs) = backed c (rs ++ (x ∷ []))

unfoldable pub shape_of : Cmd → Shape
unfolding add_redir
shape_of (exec ws) = simple ws []
shape_of (redir c f m d) = add_redir (if m == o_rdonly then input else output, f) (shape_of c)
shape_of (pipe l r) = piped (shape_of l) (shape_of r) []
shape_of (list l r) = listed (shape_of l) (shape_of r) []
shape_of (back c) = backed (shape_of c) []

wrap-append :
    (c : Cmd) (rs : List Redir) (x : Redir) → wrap c (rs ++ (x ∷ [])) ≡ redirected (wrap c rs) x
unfolding wrap
wrap-append c [] x = refl
wrap-append c (r ∷ rs) x = wrap-append (redirected c r) rs x

cmd_of-add_redir : (x : Redir) (t : Shape) → cmd_of (add_redir x t) ≡ redirected (cmd_of t) x
unfolding cmd_of add_redir
cmd_of-add_redir x (simple ws rs) = wrap-append (exec ws) rs x
cmd_of-add_redir x (piped l r rs) = wrap-append (pipe (cmd_of l) (cmd_of r)) rs x
cmd_of-add_redir x (listed l r rs) = wrap-append (list (cmd_of l) (cmd_of r)) rs x
cmd_of-add_redir x (backed c rs) = wrap-append (back (cmd_of c)) rs x

files_append : (rs : List Redir) (x : Redir) → AreFiles rs → IsWord x.1 → AreFiles (rs ++ (x ∷ []))
files_append rs x h w = All-append (λ r. IsWord r.1) rs (x ∷ []) h (w, tt)

add_redir-IsPrintable :
    (x : Redir) (t : Shape) → IsPrintable t → IsWord x.1 → IsPrintable (add_redir x t)
unfolding add_redir
add_redir-IsPrintable x (simple ws rs) p w = (p.0, p.1, files_append rs x p.2 w)
add_redir-IsPrintable x (piped l r rs) p w = (p.0, p.1, files_append rs x p.2 w)
add_redir-IsPrintable x (listed l r rs) p w = (p.0, p.1, files_append rs x p.2 w)
add_redir-IsPrintable x (backed c rs) p w = (p.0, files_append rs x p.1 w)

shape_of-IsPrintable : (c : Cmd) → IsTree c → IsPrintable (shape_of c)
unfolding shape_of
shape_of-IsPrintable (exec ws) h = (h.0, h.1, tt)
shape_of-IsPrintable (redir c f m d) h =
    add_redir-IsPrintable (if m == o_rdonly then input else output, f) (shape_of c)
      (shape_of-IsPrintable c h.0) h.1
shape_of-IsPrintable (pipe l r) h = (shape_of-IsPrintable l h.0, shape_of-IsPrintable r h.1, tt)
shape_of-IsPrintable (list l r) h = (shape_of-IsPrintable l h.0, shape_of-IsPrintable r h.1, tt)
shape_of-IsPrintable (back c) h = (shape_of-IsPrintable c h, tt)

cmd_of-shape_of : (c : Cmd) → IsTree c → cmd_of (shape_of c) ≡ c
unfolding shape_of cmd_of wrap
cmd_of-shape_of (exec ws) h = refl
cmd_of-shape_of (redir c f m d) h =
    cmd_of-add_redir (if m == o_rdonly then input else output, f) (shape_of c)
    ∙ rw (cmd_of-shape_of c h.0) (elim h.2 [
      | inl (read, zero) ↦ rw (read, zero) refl
      | inr (write, one) ↦ rw (write, one) refl
    ])
cmd_of-shape_of (pipe l r) h = rw (cmd_of-shape_of l h.0, cmd_of-shape_of r h.1) refl
cmd_of-shape_of (list l r) h = rw (cmd_of-shape_of l h.0, cmd_of-shape_of r h.1) refl
cmd_of-shape_of (back c) h = rw (cmd_of-shape_of c h) refl

-- A command tree as a line of text.
unfoldable pub print_cmd : Cmd → Text
print_cmd c = print (shape_of c) []

-- parsecmd, on the text of any command tree with words and files of ordinary bytes and with fewer
-- than MAXARGS words to a command, gives that tree back and leaves nothing over.
pub parsecmd-print_cmd : (c : Cmd) → IsTree c → parsecmd (print_cmd c) ≡ ok c []
unfolding print_cmd
parsecmd-print_cmd c h =
    parsecmd-print (shape_of c) (shape_of-IsPrintable c h)
    ∙ ap (λ (d : Cmd). ok d []) (cmd_of-shape_of c h)
