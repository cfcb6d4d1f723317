-- ===== src/Fs/Blocks.antt =====
-- balloc of fs.c takes the first free block and clears it.
use os_system_calls_scheduli.Base.{
  ℕ, zero, suc, ◌+◌, ◌<◌, ◌≤◌, ◌≡◌, refl, true, false, Option, none, some, Bool-cases, inl, inr,
  arith, dec_lt,
}
use os_system_calls_scheduli.Fs.{Fs, update, bzero, balloc_from, balloc}

-- The disk after block `b` has been marked and cleared.
abbrev pub marked : ℕ → Fs → Fs
marked b f = bzero b (record f { used = update f.used b true })

-- What balloc gives: the first block that is not in use, marked and cleared, or none when all are.
abbrev pub FirstFree : ℕ → ℕ → Fs → Option (ℕ × Fs) → Type 0
FirstFree lo hi f none = (x : ℕ) → lo ≤ x → x < hi → f.used x ≡ true
FirstFree lo hi f (some (b, f')) =
    (f.used b ≡ false)
    × (lo ≤ b)
    × (b < hi)
    × ((x : ℕ) → lo ≤ x → x < b → f.used x ≡ true)
    × (f' ≡ marked b f)

first_cons :
    (lo hi : ℕ) (f : Fs) (r : Option (ℕ × Fs))
    → f.used lo ≡ true
    → FirstFree (lo + 1) hi f r
    → FirstFree lo hi f r
first_cons lo hi f none u h = λ x l k. elim (dec_lt lo x) [
  | yes more ↦ h x (omega arith) k
  | no eq ↦ let e : x ≡ lo = omega arith in rw e u
]
first_cons lo hi f (some (b, f')) u (free, l, k, before, e) = (
  free,
  omega arith,
  k,
  λ x m n. elim (dec_lt lo x) [
    | yes more ↦ before x (omega arith) n
    | no eq ↦ let s : x ≡ lo = omega arith in rw s u
  ],
  e,
)

balloc_from-FirstFree : (fuel b : ℕ) (f : Fs) → FirstFree b (b + fuel) f (balloc_from fuel b f)
unfolding balloc_from
balloc_from-FirstFree zero b f = λ x l k. absurd (omega arith)
balloc_from-FirstFree (suc fuel) b f = elim (Bool-cases (f.used b)) [
  | inl taken ↦
      let e : b + 1 + fuel ≡ b + suc fuel = omega arith in
      rw taken (
        first_cons b (b + suc fuel) f (balloc_from fuel (b + 1) f) taken
          (rw e at (balloc_from-FirstFree fuel (b + 1) f)))
  | inr free ↦ rw free (free, omega arith, omega arith, λ x l k. absurd (omega arith), refl)
]

-- balloc takes the first free block of the disk, marks it and clears it, and changes nothing else; it
-- panics just when no block is free.
pub balloc-FirstFree : (f : Fs) → FirstFree 0 f.size f (balloc f)
unfolding balloc
balloc-FirstFree f =
    let e : 0 + f.size ≡ f.size = omega arith in rw e at (balloc_from-FirstFree f.size 0 f)
