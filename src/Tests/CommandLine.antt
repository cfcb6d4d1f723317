-- ===== src/Tests/CommandLine.antt =====
-- The parser of sh.c at concrete inputs.
use os_system_calls_scheduli.Base.{◌≡◌, refl, [], ◌∷◌, inl, arith}
use os_system_calls_scheduli.Shell.{
  Text, Cmd, exec, redir, pipe, list, back, ok, parsecmd, parse, parseline, parsepipe, parseblock,
  parseexec, parse_args, parse_backs, parseredirs, set_args, redirect, peek, starts_with, gettoken,
  token_at, after_greater, split_word, skip_spaces, one_of, at_end,
}
use os_system_calls_scheduli.Shell.Settle.{Ends, parsecmd-Ends}
use os_system_calls_scheduli.Shell.Print.Trees.{IsTree, print_cmd, parsecmd-print_cmd}

-- a >>b|c&
abbrev typed : Text
typed = b'a' ∷ b' ' ∷ b'>' ∷ b'>' ∷ b'b' ∷ b'|' ∷ b'c' ∷ b'&' ∷ []

abbrev word_a : Text
word_a = b'a' ∷ []

abbrev word_b : Text
word_b = b'b' ∷ []

abbrev word_c : Text
word_c = b'c' ∷ []

parses :
    parsecmd typed
    ≡ ok (back (pipe (redir (exec (word_a ∷ [])) word_b 513 1) (exec (word_c ∷ [])))) []
unfolding parsecmd parse parseline parsepipe parseblock parseexec parse_args parse_backs parseredirs
    set_args redirect peek starts_with gettoken token_at after_greater split_word skip_spaces one_of
    at_end
parses = refl

parsecmd-Ends_example : Ends (parsecmd typed)
parsecmd-Ends_example = parsecmd-Ends typed

abbrev tree : Cmd
tree =
    list (redir (back (pipe (exec (word_a ∷ word_b ∷ [])) (exec []))) word_c 0 0)
      (exec (word_b ∷ []))

tree-IsTree : IsTree tree
unfolding one_of
tree-IsTree =
    ((
      (
        (((((refl, refl), tt), (((refl, refl), tt), tt)), omega arith), (tt, omega arith)),
        ((refl, refl), tt),
        inl (refl, refl),
      ),
      (((((refl, refl), tt), tt)), omega arith),
    ))

parsecmd-print_cmd_example : parsecmd (print_cmd tree) ≡ ok tree []
parsecmd-print_cmd_example = parsecmd-print_cmd tree tree-IsTree
