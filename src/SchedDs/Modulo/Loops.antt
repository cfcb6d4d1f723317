-- ===== src/SchedDs/Modulo/Loops.antt =====
-- The two loops of __moddi3 in ass1ds.cpp.
use os_system_calls_scheduli.Base.{
  ℕ, zero, suc, ◌+◌, ◌-◌, ◌*◌, ◌%◌, ◌^◌, ◌≤◌, ◌<◌, ◌≡◌, ◌∙◌, refl, true, false, Option, none, some,
  arith, ap, dec_lt,
}
use native.Mathlib.Nat.{add-mul-mod_self_right, mod-eq_of_lt}
use os_system_calls_scheduli.SchedDs.Modulo.{
  signed_lt, signed_le, sub64, subtract_loop, reduce_after, reduce_loop,
}

-- `r` is reached from `number` by taking multiples of `divisor` away.
record Left (number divisor r : ℕ) : Type 0 where
  quotient : ℕ
  sum : number ≡ r + quotient * divisor

-- What the inner loop leaves: less than the number, if it could take `d` away.
abbrev Subtracted : ℕ → ℕ → ℕ → Option ℕ → Type 0
Subtracted number divisor d none = ⊥
Subtracted number divisor d (some r) =
    Left number divisor r × (r ≤ number) × (d ≤ number → r < number)

Subtracted-suc :
    (number c divisor d d' : ℕ) (o : Option ℕ)
    → d ≡ c * divisor
    → 0 < d
    → d ≤ number
    → Subtracted (number - d) divisor d' o
    → Subtracted number divisor d o
Subtracted-suc number c divisor d d' none e p h s = s
Subtracted-suc number c divisor d d' (some r) e p h (l, a, b) = (
  record { quotient = l.quotient + c; sum = omega (arith, l.sum) },
  omega arith,
  λ g. omega arith,
)

subtract_loop-Subtracted :
    (fuel number c d divisor : ℕ)
    → d ≡ c * divisor
    → 0 < d
    → d < 2 ^ 63
    → number < 2 ^ 63
    → number < fuel
    → Subtracted number divisor d (subtract_loop fuel number d)
unfolding subtract_loop
subtract_loop-Subtracted zero number c d divisor e p q n f = absurd (omega arith)
subtract_loop-Subtracted (suc fuel) number c d divisor e p q n f = elim (dec_lt number d) [
  | yes less ↦
      let t : signed_le d number ≡ false = ground arith in
      rw t (record { quotient = 0; sum = omega arith }, omega arith, λ g. absurd (omega arith))
  | no more ↦
      let t : signed_le d number ≡ true = ground arith in
      let s : (number + 2 ^ 64 - d) % 2 ^ 64 ≡ number - d = omega arith in
      let a : (d + d) % 2 ^ 64 ≡ d + d = omega arith in
      elim (dec_lt (d + d) (2 ^ 63)) [
        | yes small ↦
            let u : signed_lt 0 (d + d) ≡ true = ground arith in
            rw (t, s, a, u)
              (Subtracted-suc number c divisor d (d + d) (subtract_loop fuel (number - d) (d + d)) e
                p (omega arith)
                (subtract_loop-Subtracted fuel (number - d) (c + c) (d + d) divisor (omega arith)
                  (omega arith) small (omega arith) (omega arith)))
        | no large ↦
            let u : signed_lt 0 (d + d) ≡ false = ground arith in
            rw (t, s, a, u)
              (Subtracted-suc number c divisor d d (subtract_loop fuel (number - d) d) e p
                (omega arith)
                (subtract_loop-Subtracted fuel (number - d) c d divisor e p q (omega arith)
                  (omega arith)))
      ]
]

reduce_after_lem :
    (number divisor : ℕ) (loop : ℕ → Option ℕ) (o : Option ℕ)
    → 0 < divisor
    → divisor < 2 ^ 63
    → number < 2 ^ 63
    → ((left : ℕ) → left < number → loop left ≡ some (left % divisor))
    → Subtracted number divisor divisor o
    → reduce_after divisor loop o ≡ some (number % divisor)
unfolding reduce_after
reduce_after_lem number divisor loop none p q n rest s = elim s [ ]
reduce_after_lem number divisor loop (some r) p q n rest (l, a, b) =
    let same : number % divisor ≡ r % divisor =
      ap (λ (x : ℕ). x % divisor) l.sum ∙ add-mul-mod_self_right r l.quotient divisor in
    elim (dec_lt r divisor) [
      | yes less ↦
          let t : signed_lt r divisor ≡ true = ground arith in
          rw (t, same, mod-eq_of_lt {n = r} {m = divisor} less) refl
      | no more ↦
          let t : signed_lt r divisor ≡ false = ground arith in
          rw (t, same) (rest r (b (omega arith)))
    ]

-- With more fuel than the number the outer loop ends, at the remainder.
pub reduce_loop_lem :
    (fuel number divisor : ℕ)
    → 0 < divisor
    → divisor < 2 ^ 63
    → number < 2 ^ 63
    → number < fuel
    → reduce_loop fuel number divisor ≡ some (number % divisor)
unfolding reduce_loop
reduce_loop_lem zero number divisor p q n f = absurd (omega arith)
reduce_loop_lem (suc fuel) number divisor p q n f =
    reduce_after_lem number divisor (λ left. reduce_loop fuel left divisor)
      (subtract_loop (number + 1) number divisor) p q n
      (λ left l. reduce_loop_lem fuel left divisor p q (omega arith) (omega arith))
      (subtract_loop-Subtracted (number + 1) number 1 divisor divisor (omega arith) p q n
        (omega arith))

-- The least long long is not taken apart, since it is below every divisor that is positive.
subtract_loop-least_number :
    (fuel d : ℕ) → 0 < d → d < 2 ^ 63 → subtract_loop (suc fuel) (2 ^ 63) d ≡ some (2 ^ 63)
unfolding subtract_loop
subtract_loop-least_number fuel d p q =
    let t : signed_le d (2 ^ 63) ≡ false = ground arith in rw t refl

pub reduce_loop-least_number :
    (fuel d : ℕ) → 0 < d → d < 2 ^ 63 → reduce_loop (suc fuel) (2 ^ 63) d ≡ some (2 ^ 63)
unfolding reduce_loop reduce_after
reduce_loop-least_number fuel d p q =
    let t : signed_lt (2 ^ 63) d ≡ true = ground arith in
    rw (subtract_loop-least_number (2 ^ 63) d p q, t) refl

-- The least long long is no number's divisor: no round is the last one.
pub subtract_loop-least_divisor : (fuel number : ℕ) → subtract_loop fuel number (2 ^ 63) ≡ none
unfolding subtract_loop
subtract_loop-least_divisor zero number = refl
subtract_loop-least_divisor (suc fuel) number =
    let t : signed_le (2 ^ 63) number ≡ true = ground arith in
    rw t (subtract_loop-least_divisor fuel (sub64 number (2 ^ 63)))

pub reduce_loop-least_divisor : (fuel number : ℕ) → reduce_loop fuel number (2 ^ 63) ≡ none
unfolding reduce_loop reduce_after
reduce_loop-least_divisor zero number = refl
reduce_loop-least_divisor (suc fuel) number =
    rw (subtract_loop-least_divisor (number + 1) number) refl
