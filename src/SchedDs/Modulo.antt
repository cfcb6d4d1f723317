-- ===== src/SchedDs/Modulo.antt =====
-- ass1ds.cpp, __moddi3: the remainder of two long long by doubled subtraction. A long long is its 64-bit
-- pattern, and its arithmetic wraps.
pub mod Loops
pub mod Remainder
use os_system_calls_scheduli.Base.{
  ℕ, zero, suc, ◌+◌, ◌-◌, ◌*◌, ◌%◌, ◌^◌, not, ◌≤◌, ◌<◌, ◌≡◌, ◌≢◌, ◌∙◌, refl, Bool, true, false,
  Option, none, some, inl, inr, arith, ltb, leb, ◌==◌, if◌then◌else◌, Bool-cases, ap, dec_lt,
}
use native.Mathlib.Nat.{add-mul-mod_self_right, mod-eq_of_lt}

-- The order of two long long, and their arithmetic.
abbrev pub signed_lt : ℕ → ℕ → Bool
signed_lt a b = ltb ((a + 2 ^ 63) % 2 ^ 64) ((b + 2 ^ 63) % 2 ^ 64)

abbrev pub signed_le : ℕ → ℕ → Bool
signed_le a b = leb ((a + 2 ^ 63) % 2 ^ 64) ((b + 2 ^ 63) % 2 ^ 64)

abbrev pub add64 : ℕ → ℕ → ℕ
add64 a b = (a + b) % 2 ^ 64

abbrev pub sub64 : ℕ → ℕ → ℕ
sub64 a b = (a + 2 ^ 64 - b) % 2 ^ 64

abbrev pub neg64 : ℕ → ℕ
neg64 a = (2 ^ 64 - a) % 2 ^ 64

-- The inner loop: the number that is left. `divisor2` is doubled unless the sum is not positive; `none`
-- means that the fuel ran out.
unfoldable pub subtract_loop : ℕ → ℕ → ℕ → Option ℕ
subtract_loop zero number divisor2 = none
subtract_loop (suc fuel) number divisor2 =
    let rest =
      subtract_loop fuel (sub64 number divisor2)
        (if signed_lt 0 (add64 divisor2 divisor2) then add64 divisor2 divisor2 else divisor2) in
    if signed_le divisor2 number then rest else some number

-- A round of the outer loop behind the inner one; `loop` are the rounds after it.
unfoldable pub reduce_after : ℕ → (ℕ → Option ℕ) → Option ℕ → Option ℕ
reduce_after divisor loop none = none
reduce_after divisor loop (some left) = if signed_lt left divisor then some left else loop left

-- The outer loop; `none` means that the fuel ran out.
unfoldable pub reduce_loop : ℕ → ℕ → ℕ → Option ℕ
reduce_loop zero number divisor = none
reduce_loop (suc fuel) number divisor =
    reduce_after divisor (λ left. reduce_loop fuel left divisor)
      (subtract_loop (number + 1) number divisor)

unfoldable pub with_sign : Bool → Option ℕ → Option ℕ
with_sign negative none = none
with_sign negative (some r) = some (if negative then neg64 r else r)

-- `none` is the panic, or a loop that does not end.
unfoldable pub moddi3 : ℕ → ℕ → Option ℕ
moddi3 number divisor =
    let n = if signed_lt number 0 then neg64 number else number in
    let d = if signed_lt divisor 0 then neg64 divisor else divisor in
    if divisor == 0 then none else with_sign (signed_lt number 0) (reduce_loop (n + 1) n d)
