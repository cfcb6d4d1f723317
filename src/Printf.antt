-- ===== src/Printf.antt =====
-- printf.c: the number printing. An int is its 32-bit pattern, and the output is the list of its bytes.
pub mod Number
use os_system_calls_scheduli.Base.{
  ℕ, zero, suc, ◌+◌, ◌-◌, ◌*◌, ◌/◌, ◌%◌, ◌^◌, Bool, true, false, not, ◌&&◌, List, [], ◌∷◌, ◌++◌,
  ltb, ◌==◌, if◌then◌else◌,
}

-- `digits[d]`
abbrev pub digit : ℕ → ℕ
digit d = if ltb d 10 then b'0' + d else b'A' + (d - 10)

-- The loop over the digits, which fills buf; a round makes `x` smaller or is the last.
unfoldable pub digits_of : ℕ → ℕ → ℕ → List ℕ
digits_of zero x base = []
digits_of (suc fuel) x base =
    let more = digits_of fuel (x / base) base in
    digit (x % base) ∷ (if not (x / base == 0) then more else [])

-- The loop that prints buf from its end; `out` is what is printed behind.
unfoldable pub put_back : List ℕ → List ℕ → List ℕ
put_back [] out = out
put_back (c ∷ buf) out = put_back buf (c ∷ out)

abbrev pub is_negative : ℕ → Bool → Bool
is_negative xx sgn = sgn && not (ltb xx (2 ^ 31))

abbrev pub magnitude : ℕ → Bool → ℕ
magnitude xx sgn = if is_negative xx sgn then 2 ^ 32 - xx else xx

-- buf before it is printed.
unfoldable pub filled_buf : ℕ → ℕ → Bool → List ℕ
filled_buf xx base sgn =
    let x = magnitude xx sgn in
    digits_of (suc x) x base ++ (if is_negative xx sgn then b'-' ∷ [] else [])

unfoldable pub printint : ℕ → ℕ → Bool → List ℕ
printint xx base sgn = put_back (filled_buf xx base sgn) []
