-- ===== src/Pipe/Refine.antt =====
-- A pipe of pipe.c is a bounded queue of bytes.
use os_system_calls_scheduli.Base.{
  ℕ, suc, ◌+◌, ◌-◌, ◌%◌, ◌^◌, ◌≤◌, ◌<◌, ◌≡◌, true, false, List, [], ◌∷◌, ◌++◌, arith, length,
  length-set, ◌∙◌,
}
use os_system_calls_scheduli.Pipe.{Pipe, is_full, put}
use os_system_calls_scheduli.Pipe.Window.{window, window-set}

-- nwrite - nread as a uint: how many bytes the pipe holds.
abbrev pub held : Pipe → ℕ
held p = (p.nwrite + 2 ^ 32 - p.nread) % 2 ^ 32

abbrev pub contents : Pipe → List ℕ
contents p = window p.bytes p.nread (held p)

pub record IsValid (p : Pipe) : Type 0 where
  pub size : length p.bytes ≡ 512
  pub read_fits : p.nread < 2 ^ 32
  pub write_fits : p.nwrite < 2 ^ 32
  pub bounded : held p ≤ 512

-- The tests of the code are those of the queue.
pub is_full_iff : (p : Pipe) → IsValid p → is_full p ≡ true → held p ≡ 512
unfolding is_full
is_full_iff p v e = ground arith

not_full : (p : Pipe) → IsValid p → is_full p ≡ false → held p < 512
unfolding is_full
not_full p v e = ground arith

pub put-IsValid : (b : ℕ) (p : Pipe) → IsValid p → is_full p ≡ false → IsValid (put b p)
unfolding put
put-IsValid b p v e = record {
  size = length-set p.bytes (p.nwrite % 512) b ∙ v.size;
  read_fits = v.read_fits;
  write_fits = omega arith;
  bounded = omega (arith, not_full p v e);
}

pub contents-put :
    (b : ℕ) (p : Pipe) → IsValid p → is_full p ≡ false → contents (put b p) ≡ contents p ++ b ∷ []
unfolding put
contents-put b p v e =
    let n = held p in
    let more : held (put b p) ≡ suc n = omega (arith, not_full p v e) in
    rw more (window-set p.bytes p.nread n (p.nwrite % 512) b v.size (not_full p v e) (omega arith))
