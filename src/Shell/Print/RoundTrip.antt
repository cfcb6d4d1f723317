-- ===== src/Shell/Print/RoundTrip.antt =====
-- parsecmd of sh.c reads every printed command tree back.
use os_system_calls_scheduli.Base.{
  ℕ, suc, ◌+◌, ◌-◌, ◌*◌, ◌≤◌, ◌≡◌, refl, List, [], ◌∷◌, length, arith,
}
use os_system_calls_scheduli.Shell.{
  Text, pipe, list, back, ok, command, one_of, starts_with, peek, skip_spaces, parse_backs,
  parseline, parsepipe, parse, at_end, parsecmd,
}
use os_system_calls_scheduli.Shell.Tokens.{IsTidy}
use os_system_calls_scheduli.Shell.Print.{
  Redir, Shape, simple, piped, listed, backed, cmd_of, print_redirs, print, IsPrintable, IsEnded,
}
use os_system_calls_scheduli.Shell.Print.Steps.{
  pipeline_plain, pipeline_piped, line_close, line_listed, line_backed, command_block,
  close_no_pipe, semicolon_no_pipe, and_no_pipe,
}
use os_system_calls_scheduli.Shell.Print.Redirs.{IsEnded-IsTidy, print_redirs-IsTidy}
use os_system_calls_scheduli.Shell.Print.Words.{
  length-print_redirs, length-print_words, print_words-IsTidy, parseexec_simple,
}

-- How deep the calls nest for a shape, from parseexec on.
abbrev pub depth : Shape → ℕ
depth (simple ws rs) = 1
depth (piped l r rs) = 5 + depth l + depth r
depth (listed l r rs) = 5 + depth l + depth r
depth (backed c rs) = 5 + depth c

pub print-IsTidy : (t : Shape) (rest : Text) → IsPrintable t → IsEnded rest → IsTidy (print t rest)
unfolding print skip_spaces one_of
print-IsTidy (simple ws rs) rest p e =
    print_words-IsTidy ws (print_redirs rs rest) p.0
      (print_redirs-IsTidy rs rest (IsEnded-IsTidy rest e))
print-IsTidy (piped l r rs) rest p e = refl
print-IsTidy (listed l r rs) rest p e = refl
print-IsTidy (backed c rs) rest p e = refl

parse-print_simple :
    (n : ℕ) (ws : List Text) (rs : List Redir) (rest : Text)
    → IsPrintable (simple ws rs)
    → IsEnded rest
    → parse (suc n) command (print (simple ws rs) rest) ≡ ok (cmd_of (simple ws rs)) rest
unfolding parse print cmd_of
parse-print_simple n ws rs rest p e =
    parseexec_simple (λ level t. parse n level t) ws rs rest p.0 p.2 e p.1

pub parse-print :
    (t : Shape) (n : ℕ) (rest : Text)
    → IsPrintable t
    → IsEnded rest
    → depth t ≤ n
    → parse n command (print t rest) ≡ ok (cmd_of t) rest
unfolding print cmd_of one_of
parse-print (simple ws rs) k rest p e h =
    let more : k ≡ suc (k - 1) = omega arith in rw more (parse-print_simple (k - 1) ws rs rest p e)
parse-print (piped l r rs) k rest p e h =
    let n = k - 5 in
    let more : k ≡ suc (suc (suc (suc (suc n)))) = omega arith in
    let close = b')' ∷ print_redirs rs rest in
    let t = print r close in
    let tidy = print-IsTidy r close p.1 refl in
    let s = print l (b'|' ∷ t) in
    rw more (
      command_block (suc (suc (suc n))) (pipe (cmd_of l) (cmd_of r)) rs s rest
        (print-IsTidy l (b'|' ∷ t) p.0 refl) p.2 e
        (line_close (suc (suc n)) s (print_redirs rs rest) (pipe (cmd_of l) (cmd_of r)) (
          pipeline_piped (suc n) s t close (cmd_of l) (cmd_of r) tidy
            (parse-print l (suc n) (b'|' ∷ t) p.0 refl (omega arith))
            (pipeline_plain n t close (cmd_of r) (close_no_pipe (print_redirs rs rest))
              (parse-print r n close p.1 refl (omega arith))))))
parse-print (listed l r rs) k rest p e h =
    let n = k - 5 in
    let more : k ≡ suc (suc (suc (suc (suc n)))) = omega arith in
    let close = b')' ∷ print_redirs rs rest in
    let t = print r close in
    let s = print l (b';' ∷ t) in
    rw more (
      command_block (suc (suc (suc n))) (list (cmd_of l) (cmd_of r)) rs s rest
        (print-IsTidy l (b';' ∷ t) p.0 refl) p.2 e
        (line_listed (suc (suc n)) s t close (cmd_of l) (cmd_of r) (print-IsTidy r close p.1 refl)
          (pipeline_plain (suc n) s (b';' ∷ t) (cmd_of l) (semicolon_no_pipe t)
            (parse-print l (suc n) (b';' ∷ t) p.0 refl (omega arith)))
          (line_close (suc n) t (print_redirs rs rest) (cmd_of r) (
            pipeline_plain n t close (cmd_of r) (close_no_pipe (print_redirs rs rest))
              (parse-print r n close p.1 refl (omega arith))))))
parse-print (backed c rs) k rest p e h =
    let n = k - 5 in
    let more : k ≡ suc (suc (suc (suc (suc n)))) = omega arith in
    let close = b')' ∷ print_redirs rs rest in
    let s = print c (b'&' ∷ close) in
    rw more (
      command_block (suc (suc (suc n))) (back (cmd_of c)) rs s rest
        (print-IsTidy c (b'&' ∷ close) p.0 refl) p.1 e
        (line_backed (suc (suc n)) s (print_redirs rs rest) (cmd_of c) (
          pipeline_plain (suc n) s (b'&' ∷ close) (cmd_of c) (and_no_pipe close)
            (parse-print c (suc n) (b'&' ∷ close) p.0 refl (omega arith)))))

depth_fits : (t : Shape) (rest : Text) → depth t + 4 * length rest ≤ 4 * length (print t rest) + 2
unfolding print
depth_fits (simple ws rs) rest =
    omega (arith, length-print_words ws (print_redirs rs rest), length-print_redirs rs rest)
depth_fits (piped l r rs) rest =
    let close = b')' ∷ print_redirs rs rest in
    omega
      (arith, depth_fits l (b'|' ∷ print r close), depth_fits r close, length-print_redirs rs rest)
depth_fits (listed l r rs) rest =
    let close = b')' ∷ print_redirs rs rest in
    omega
      (arith, depth_fits l (b';' ∷ print r close), depth_fits r close, length-print_redirs rs rest)
depth_fits (backed c rs) rest =
    let close = b')' ∷ print_redirs rs rest in
    omega (arith, depth_fits c (b'&' ∷ close), length-print_redirs rs rest)

-- parsecmd reads a printed shape back.
pub parsecmd-print : (t : Shape) → IsPrintable t → parsecmd (print t []) ≡ ok (cmd_of t) []
unfolding parsecmd parse parseline parsepipe parse_backs peek skip_spaces starts_with at_end
parsecmd-print t p =
    let s = print t [] in
    let n = 4 * length s + 2 in
    let more : 4 * length s + 4 ≡ suc (suc n) = omega arith in
    rw (more, parse-print t n [] p tt (omega (arith, depth_fits t []))) refl
