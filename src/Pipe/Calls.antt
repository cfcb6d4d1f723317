-- ===== src/Pipe/Calls.antt =====
-- pipewrite and piperead of pipe.c on the bytes that the pipe holds.
use os_system_calls_scheduli.Base.{
  ℕ, zero, suc, ◌+◌, ◌%◌, ◌^◌, ◌≡◌, refl, ◌≢◌, ◌⊎◌, Bool, true, false, not, ◌&&◌, ◌||◌, List, [],
  ◌∷◌, ◌++◌, arith, take, drop, ap, Bool-cases, inl, inr,
}
use os_system_calls_scheduli.Pipe.{
  Pipe, is_empty, Written, written, broken, write_sleeps, take_byte, copy_loop, Got, got,
  read_killed, read_sleeps, piperead,
}
use os_system_calls_scheduli.Pipe.Window.{window_mod}
use os_system_calls_scheduli.Pipe.Refine.{held, contents, IsValid}

-- The pipe after the bytes `done` have been written.
pub record Appended (p : Pipe) (done : List ℕ) (p' : Pipe) : Type 0 where
  pub valid : IsValid p'
  pub bytes : contents p' ≡ contents p ++ done
  pub ends : (p'.readopen ≡ p.readopen) × (p'.writeopen ≡ p.writeopen)

-- What each result of writing `bs` means.
abbrev pub WriteOutcome : Bool → List ℕ → Pipe → Written → Type 0
WriteOutcome killed bs p (written p') = Appended p bs p'
WriteOutcome killed bs p (broken p') =
    ((not p.readopen || killed) ≡ true)
    × (held p' ≡ 512)
    × ((done : List ℕ) × (rest : List ℕ) × (bs ≡ done ++ rest) × Appended p done p')
WriteOutcome killed bs p (write_sleeps rest p') =
    ((not p.readopen || killed) ≡ false)
    × (held p' ≡ 512)
    × (rest ≢ [])
    × ((done : List ℕ) × (bs ≡ done ++ rest) × Appended p done p')

-- What the copy loop of piperead gives and leaves.
pub record Taken (n : ℕ) (p : Pipe) (bs : List ℕ) (p' : Pipe) : Type 0 where
  pub valid : IsValid p'
  pub bytes : bs ≡ take n (contents p)
  pub left : contents p' ≡ drop n (contents p)

empty_contents : (p : Pipe) → IsValid p → is_empty p ≡ true → contents p ≡ []
unfolding is_empty
empty_contents p v e = let z : held p ≡ 0 = ground arith in rw z refl

take-nil : (n : ℕ) → take {A = ℕ} n [] ≡ []
take-nil zero = refl
take-nil (suc n) = refl

drop-nil : (n : ℕ) → drop {A = ℕ} n [] ≡ []
drop-nil zero = refl
drop-nil (suc n) = refl

take_byte_lem :
    (p : Pipe)
    → IsValid p
    → is_empty p ≡ false
    → (contents p ≡ (take_byte p).0 ∷ contents (take_byte p).1) × IsValid (take_byte p).1
unfolding take_byte is_empty
take_byte_lem p v e =
    let m = held (take_byte p).1 in
    let more : held p ≡ suc m = ground arith in
    (
      rw more (
          ap (λ (xs : List ℕ). (take_byte p).0 ∷ xs)
            (window_mod p.bytes (p.nread + 1) ((p.nread + 1) % 2 ^ 32) m (omega arith))),
      record {
        size = v.size;
        read_fits = omega arith;
        write_fits = v.write_fits;
        bounded = omega (arith, v.bounded);
      },
    )

copy_loop-Taken : (n : ℕ) (p : Pipe) → IsValid p → Taken n p (copy_loop n p).0 (copy_loop n p).1
unfolding copy_loop
copy_loop-Taken zero p v = record { valid = v; bytes = refl; left = refl }
copy_loop-Taken (suc n) p v = elim (Bool-cases (is_empty p)) [
  | inl empty ↦ rw empty (record {
    valid = v;
    bytes = rw (empty_contents p v empty);
    left = rw (empty_contents p v empty);
  })
  | inr more ↦
      let (head, v') = take_byte_lem p v more in
      let t = copy_loop-Taken n (take_byte p).1 v' in
      rw more (record {
        valid = t.valid;
        bytes = rw head (ap (λ (xs : List ℕ). (take_byte p).0 ∷ xs) t.bytes);
        left = rw head t.left;
      })
]

cons_ne : {x : ℕ} {xs : List ℕ} → [] ≢ x ∷ xs
cons_ne = λ e. cc

-- What each result of piperead means.
abbrev pub ReadOutcome : Bool → ℕ → Pipe → Got → Type 0
ReadOutcome killed n p (got bs p') = Taken n p bs p' × ((contents p ≢ []) ⊎ (p.writeopen ≡ false))
ReadOutcome killed n p read_killed = (contents p ≡ []) × (p.writeopen ≡ true) × (killed ≡ true)
ReadOutcome killed n p read_sleeps = (contents p ≡ []) × (p.writeopen ≡ true) × (killed ≡ false)

-- piperead takes the oldest bytes, at most `n`, and leaves the others in order; only on an empty
-- pipe that is open for writing it fails, when killed, or sleeps.
pub piperead-ReadOutcome :
    (killed : Bool) (n : ℕ) (p : Pipe) → IsValid p → ReadOutcome killed n p (piperead killed n p)
unfolding piperead
piperead-ReadOutcome killed n p v = elim (Bool-cases (is_empty p && p.writeopen)) [
  | inl waits ↦
      let none_left = empty_contents p v (ground arith) in
      let open_end : p.writeopen ≡ true = ground arith in
      rw waits (elim (Bool-cases killed) [
        | inl dead ↦ rw dead (none_left, open_end, refl)
        | inr alive ↦ rw alive (none_left, open_end, refl)
      ])
  | inr reads ↦ rw reads (
    copy_loop-Taken n p v,
    elim (Bool-cases (is_empty p)) [
      | inl empty ↦ inr (ground arith)
      | inr more ↦ inl (λ e. cons_ne (rw e at (take_byte_lem p v more).0))
    ],
  )
]
