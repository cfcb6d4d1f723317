-- ===== src/Printf/Number.antt =====
-- printint of printf.c prints the number.
use os_system_calls_scheduli.Base.{
  ℕ, zero, suc, ◌+◌, ◌-◌, ◌*◌, ◌/◌, ◌%◌, ◌^◌, Bool-cases, ◌<◌, ◌≤◌, ◌≡◌, ◌≢◌, refl, ap, sym, subst,
  ◌∙◌, ◌⊎◌, inl, inr, Bool, true, false, List, All, [], ◌∷◌, ◌++◌, ltb, ◌==◌, if◌then◌else◌, length,
  length-append, arith, ℕ_discrete,
}
use os_system_calls_scheduli.Printf.{
  digit, digits_of, put_back, is_negative, magnitude, filled_buf, printint,
}

-- The bases that printf asks for.
abbrev pub IsBase : ℕ → Type 0
IsBase b = (b ≡ 10) ⊎ (b ≡ 16)

abbrev pub digit_value : ℕ → ℕ
digit_value c = if ltb c b'A' then c - b'0' else c - b'A' + 10

-- The number that digits give in a base, behind a number `n` that was read before.
abbrev pub number : ℕ → ℕ → List ℕ → ℕ
number base n [] = n
number base n (c ∷ cs) = number base (n * base + digit_value c) cs

-- A character that is a digit of the base: 0 to 9, and then A to F.
abbrev pub IsDigit : ℕ → ℕ → Type 0
IsDigit base c = ((b'0' ≤ c) × (c ≤ b'9') ⊎ (b'A' ≤ c) × (c ≤ b'F')) × (digit_value c < base)

digit-IsDigit : (b d : ℕ) → IsBase b → d < b → IsDigit b (digit d)
digit-IsDigit b d (inl e) h = (ground arith, ground arith)
digit-IsDigit b d (inr e) h = (ground arith, ground arith)

digit_value-digit : (d : ℕ) → d < 16 → digit_value (digit d) ≡ d
digit_value-digit d h = ground arith

mod_lt : (b x : ℕ) → IsBase b → x % b < 16
mod_lt b x (inl e) = rw e (omega arith)
mod_lt b x (inr e) = rw e (omega arith)

mod_lt_base : (b x : ℕ) → IsBase b → x % b < b
mod_lt_base b x (inl e) = rw e (omega arith)
mod_lt_base b x (inr e) = rw e (omega arith)

div_mod : (b x : ℕ) → IsBase b → x / b * b + x % b ≡ x
div_mod b x (inl e) = rw e (omega arith)
div_mod b x (inr e) = rw e (omega arith)

next_digit : (b x : ℕ) → IsBase b → x / b * b + digit_value (digit (x % b)) ≡ x
next_digit b x h =
    ap (λ d. x / b * b + d) (digit_value-digit (x % b) (mod_lt b x h)) ∙ div_mod b x h

smaller : (b x : ℕ) → IsBase b → x / b ≢ 0 → x / b < x
smaller b x (inl e) n = let m : x / 10 ≢ 0 = subst (λ c. x / c ≢ 0) e n in rw e (omega arith)
smaller b x (inr e) n = let m : x / 16 ≢ 0 = subst (λ c. x / c ≢ 0) e n in rw e (omega arith)

number-put_back :
    (fuel b x : ℕ) (out : List ℕ)
    → IsBase b
    → x < fuel
    → number b 0 (put_back (digits_of fuel x b) out) ≡ number b x out
unfolding digits_of put_back
number-put_back zero b x out h l = absurd (omega arith)
number-put_back (suc fuel) b x out h l = elim (ℕ_discrete (x / b) 0) [
  | yes z ↦
      let t : (x / b == 0) ≡ true = ground arith in
      rw t (
        ap (λ n. number b n out)
          (ap (λ q. q * b + digit_value (digit (x % b))) (sym z) ∙ next_digit b x h))
  | no nz ↦
      let t : (x / b == 0) ≡ false = ground arith in
      let s = smaller b x h nz in
      rw t (
        number-put_back fuel b (x / b) (digit (x % b) ∷ out) h (omega arith)
        ∙ ap (λ n. number b n out) (next_digit b x h))
]

-- A power of ten.
abbrev bound : ℕ → ℕ
bound zero = 1
bound (suc k) = bound k * 10

quotient_lt : (b x p : ℕ) → IsBase b → x < p * 10 → x / b < p
quotient_lt b x p (inl e) h = rw e (omega arith)
quotient_lt b x p (inr e) h = rw e (omega arith)

length-digits_of :
    (k fuel b x : ℕ) → IsBase b → x < bound (suc k) → length (digits_of fuel x b) ≤ suc k
unfolding digits_of
length-digits_of k zero b x h l = omega arith
length-digits_of zero (suc fuel) b x h l =
    let q = quotient_lt b x 1 h l in
    let t : (x / b == 0) ≡ true = ground arith in rw t (omega arith)
length-digits_of (suc k) (suc fuel) b x h l = elim (ℕ_discrete (x / b) 0) [
  | yes z ↦ let t : (x / b == 0) ≡ true = ground arith in rw t (omega arith)
  | no nz ↦
      let t : (x / b == 0) ≡ false = ground arith in
      let r = length-digits_of k fuel b (x / b) h (quotient_lt b x (bound (suc k)) h l) in
      rw t (omega arith)
]

put_back-append : (xs ys out : List ℕ) → put_back (xs ++ ys) out ≡ put_back ys (put_back xs out)
unfolding put_back
put_back-append [] ys out = refl
put_back-append (x ∷ xs) ys out = put_back-append xs ys (x ∷ out)

put_back-All : (P : ℕ → Type 0) (xs out : List ℕ) → All P xs → All P out → All P (put_back xs out)
unfolding put_back
put_back-All P [] out h o = o
put_back-All P (x ∷ xs) out h o = put_back-All P xs (x ∷ out) h.1 (h.0, o)

digits_of-IsDigit : (fuel b x : ℕ) → IsBase b → All (IsDigit b) (digits_of fuel x b)
unfolding digits_of
digits_of-IsDigit zero b x h = tt
digits_of-IsDigit (suc fuel) b x h =
    let d = digit-IsDigit b (x % b) h (mod_lt_base b x h) in
    elim (Bool-cases (x / b == 0)) [
      | inl t ↦ rw t (d, tt)
      | inr t ↦ rw t (d, digits_of-IsDigit fuel b (x / b) h)
    ]

length-put_back : (xs out : List ℕ) → length (put_back xs out) ≡ length xs + length out
unfolding put_back
length-put_back [] out = omega arith
length-put_back (x ∷ xs) out = let r = length-put_back xs (x ∷ out) in omega arith

some_digit : (x b : ℕ) → 0 < length (put_back (digits_of (suc x) x b) [])
unfolding digits_of
some_digit x b = let r = length-put_back (digits_of (suc x) x b) [] in omega arith

-- What stands behind the digits in buf, the sign, is printed before them.
sign_first :
    (neg : Bool) (buf : List ℕ)
    → put_back (buf ++ (if neg then b'-' ∷ [] else [])) []
      ≡ (if neg then b'-' ∷ put_back buf [] else put_back buf [])
unfolding put_back
sign_first true buf = put_back-append buf (b'-' ∷ []) []
sign_first false buf = put_back-append buf [] []

buf_fits :
    (neg : Bool) (buf : List ℕ)
    → length buf ≤ 10
    → length (buf ++ (if neg then b'-' ∷ [] else [])) ≤ 16
buf_fits true buf h = let e = length-append buf (b'-' ∷ []) in omega arith
buf_fits false buf h = let e = length-append buf [] in omega arith

magnitude_lt : (xx : ℕ) (sgn : Bool) → xx < 2 ^ 32 → magnitude xx sgn < 2 ^ 32
magnitude_lt xx true h = ground arith
magnitude_lt xx false h = h

small : (x : ℕ) → x < 2 ^ 32 → x < bound 10
small x h = omega arith

not_negative : (xx : ℕ) (sgn : Bool) → (sgn ≡ false) ⊎ (xx < 2 ^ 31) → is_negative xx sgn ≡ false
not_negative xx sgn (inl e) = rw e refl
not_negative xx sgn (inr l) = ground arith

-- The text is a number in the base: digits of it, one at least.
abbrev pub Reads : ℕ → List ℕ → ℕ → Type 0
Reads base ds n = All (IsDigit base) ds × (0 < length ds) × (number base 0 ds ≡ n)

digits-Reads : (x base : ℕ) → IsBase base → Reads base (put_back (digits_of (suc x) x base) []) x
digits-Reads x base h = (
  put_back-All (IsDigit base) (digits_of (suc x) x base) [] (digits_of-IsDigit (suc x) base x h) tt,
  some_digit x base,
  number-put_back (suc x) base x [] h (omega arith),
)

-- printint in base 10 or 16, asked for the sign, prints a negative number as a minus and its magnitude,
-- and otherwise it prints the number as it is without a sign, in digits of the base that read in it give
-- that number; it never writes more than the 16 bytes of buf.
pub printint_lem :
    (xx base : ℕ) (sgn : Bool)
    → IsBase base
    → xx < 2 ^ 32
    → (sgn ≡ true
        → 2 ^ 31 ≤ xx
        → (ds : List ℕ) × (printint xx base sgn ≡ b'-' ∷ ds) × Reads base ds (2 ^ 32 - xx))
      × ((sgn ≡ false) ⊎ (xx < 2 ^ 31) → Reads base (printint xx base sgn) xx)
      × (length (filled_buf xx base sgn) ≤ 16)
unfolding printint filled_buf
printint_lem xx base sgn h l =
    let x = magnitude xx sgn in
    let buf = digits_of (suc x) x base in
    let printed = sign_first (is_negative xx sgn) buf in
    (
      λ s n.
          let e : is_negative xx sgn ≡ true = ground arith in
          let m : x ≡ 2 ^ 32 - xx = ap (λ b. if b then 2 ^ 32 - xx else xx) e in
          (
            put_back buf [],
            printed ∙ ap (λ b. if b then b'-' ∷ put_back buf [] else put_back buf []) e,
            subst (Reads base (put_back buf [])) m (digits-Reads x base h),
          ),
      λ n.
          let e : is_negative xx sgn ≡ false = not_negative xx sgn n in
          let m : x ≡ xx = ap (λ b. if b then 2 ^ 32 - xx else xx) e in
          subst (λ out. Reads base out xx)
            (sym (printed ∙ ap (λ b. if b then b'-' ∷ put_back buf [] else put_back buf []) e))
            (subst (Reads base (put_back buf [])) m (digits-Reads x base h)),
      buf_fits (is_negative xx sgn) buf
          (length-digits_of 9 (suc x) base x h (small x (magnitude_lt xx sgn l))),
    )
