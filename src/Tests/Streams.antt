-- ===== src/Tests/Streams.antt =====
-- pipe.c and the matcher of grep.c at concrete inputs.
use os_system_calls_scheduli.Base.{
  ℕ, ◌^◌, ◌-◌, ◌≡◌, refl, ◌↔◌, true, false, List, [], ◌∷◌, arith, replicate,
}
use os_system_calls_scheduli.Grep.{matchhere, match}
use os_system_calls_scheduli.Grep.Spec.{Here, Matches}
use os_system_calls_scheduli.Grep.Correct.{matchhere_iff, match_iff}
use os_system_calls_scheduli.Pipe.{Pipe, piperead}
use os_system_calls_scheduli.Pipe.Refine.{IsValid}
use os_system_calls_scheduli.Pipe.Calls.{ReadOutcome, piperead-ReadOutcome}

abbrev letter : ℕ
letter = b'a'

-- a*b
abbrev pattern_text : List ℕ
pattern_text = b'a' ∷ b'*' ∷ b'b' ∷ []

abbrev aab : List ℕ
aab = b'a' ∷ b'a' ∷ b'b' ∷ []

match_runs : match (b'^' ∷ pattern_text) aab ≡ true
unfolding match
match_runs = refl

matchhere_iff_example : (matchhere pattern_text aab ≡ true) ↔ Here pattern_text aab
matchhere_iff_example = matchhere_iff pattern_text aab

match_iff_example : (match pattern_text aab ≡ true) ↔ Matches pattern_text aab
match_iff_example = match_iff pattern_text aab

-- Two bytes at the end of the counters' range.
abbrev wrapping : Pipe
wrapping = record {
  bytes = replicate 512 33;
  nread = 2 ^ 32 - 2;
  nwrite = 0;
  readopen = true;
  writeopen = true;
}

wrapping-IsValid : IsValid wrapping
wrapping-IsValid = record {
  size = omega arith;
  read_fits = omega arith;
  write_fits = omega arith;
  bounded = omega arith;
}

piperead-ReadOutcome_example : ReadOutcome false 3 wrapping (piperead false 3 wrapping)
piperead-ReadOutcome_example = piperead-ReadOutcome false 3 wrapping wrapping-IsValid
