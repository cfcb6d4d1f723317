-- ===== src/Strings/Text.antt =====
-- strncmp and strlen of string.c on the texts that the memory holds.
use os_system_calls_scheduli.Base.{
  ℕ, zero, suc, ◌+◌, ◌-◌, ◌<◌, ◌≡◌, refl, ◌≢◌, ◌↔◌, inl, inr, ap, Bool, true, false, not, ◌&&◌,
  List, [], ◌∷◌, some, length, ℕ_discrete, ◌∙◌, ◌==◌, ==_iff, ==_refl, if◌then◌else◌, Bool-cases,
  arith,
}
use os_system_calls_scheduli.Base.Int.{ℤ, pos, sub_ℕ}
use os_system_calls_scheduli.Strings.{Memory, strncmp, strlen_from, strlen}

-- The text at an address: the bytes before the first 0, at most n of them.
abbrev pub text_at : ℕ → ℕ → Memory → List ℕ
text_at p zero m = []
text_at p (suc n) m = let rest = text_at (p + 1) n m in if m p == 0 then [] else m p ∷ rest

abbrev cut : Bool → ℕ → List ℕ → List ℕ
cut ends a xs = if ends then [] else a ∷ xs

differ :
    (y z : Bool) (a b : ℕ) (xs ys : List ℕ)
    → a ≢ b
    → (y ≡ true → a ≡ 0)
    → (z ≡ true → b ≡ 0)
    → cut y a xs ≢ cut z b ys
differ true true a b xs ys n f g e = n (omega (arith, f refl, g refl))
differ true false a b xs ys n f g e = nil_cons e
  where
    nil_cons : [] ≡ b ∷ ys → ⊥
    nil_cons e = cc
differ false true a b xs ys n f g e = cons_nil e
  where
    cons_nil : a ∷ xs ≡ [] → ⊥
    cons_nil e = cc
differ false false a b xs ys n f g e = n (heads e)
  where
    heads : a ∷ xs ≡ b ∷ ys → a ≡ b
    heads e = cc

sub_ℕ_ne : (a b : ℕ) → a ≢ b → sub_ℕ a b ≢ pos 0
sub_ℕ_ne a b n e = n (ground arith)

sub_ℕ_self : (a : ℕ) → sub_ℕ a a ≡ pos 0
sub_ℕ_self a = ground arith

tails : {a : ℕ} {xs ys : List ℕ} → a ∷ xs ≡ a ∷ ys → xs ≡ ys
tails e = cc

and_false : (c : Bool) → (c && false) ≡ false
and_false true = refl
and_false false = refl

equal_round :
    (z : Bool) (a : ℕ) (xs ys : List ℕ) (r s : ℤ)
    → ((r ≡ pos 0) ↔ (xs ≡ ys))
    → s ≡ pos 0
    → ((if not z && true then r else s) ≡ pos 0) ↔ (cut z a xs ≡ cut z a ys)
equal_round true a xs ys r s h e = (λ _. refl, λ _. e)
equal_round false a xs ys r s h e = (λ f. ap (λ (zs : List ℕ). a ∷ zs) (h.0 f), λ f. h.1 (tails f))

-- One round of strncmp, for the bytes that it reads and what the other rounds give.
round_iff :
    (a b : ℕ) (xs ys : List ℕ) (r : ℤ)
    → ((r ≡ pos 0) ↔ (xs ≡ ys))
    → ((if not (a == 0) && a == b then r else sub_ℕ a b) ≡ pos 0)
      ↔ (cut (a == 0) a xs ≡ cut (b == 0) b ys)
round_iff a b xs ys r h = elim (Bool-cases (a == b)) [
  | inl same ↦
      rw (← (==_iff a b).0 same, ==_refl a)
        (equal_round (a == 0) a xs ys r (sub_ℕ a a) h (sub_ℕ_self a))
  | inr other ↦
      let ne : a ≢ b = ground arith in
      rw (other, and_false (not (a == 0)))
        (
          λ e. absurd (sub_ℕ_ne a b ne e),
          λ e. absurd (differ (a == 0) (b == 0) a b xs ys ne (==_iff a 0).0 (==_iff b 0).0 e),
        )
]

-- strncmp returns 0 exactly when the two texts, cut to n bytes, are the same.
pub strncmp_iff :
    (p q n : ℕ) (m : Memory) → (strncmp p q n m ≡ pos 0) ↔ (text_at p n m ≡ text_at q n m)
unfolding strncmp
strncmp_iff p q zero m = (λ e. refl, λ e. refl)
strncmp_iff p q (suc n) m =
    round_iff (m p) (m q) (text_at (p + 1) n m) (text_at (q + 1) n m) (strncmp (p + 1) (q + 1) n m)
      (strncmp_iff (p + 1) (q + 1) n m)

strlen_from-text_at :
    (k s n i : ℕ) (m : Memory)
    → i < k
    → m (s + n + i) ≡ 0
    → strlen_from k s n m ≡ some (n + length (text_at (s + n) k m))
unfolding strlen_from
strlen_from-text_at zero s n i m h z = absurd (omega arith)
strlen_from-text_at (suc k) s n i m h z = elim (ℕ_discrete (m (s + n)) 0) [
  | yes e ↦
      let t : (m (s + n) == 0) ≡ true = ground arith in
      let w : n + 0 ≡ n = omega arith in rw (t, w) refl
  | no ne ↦
      let t : (m (s + n) == 0) ≡ false = ground arith in
      let p : i ≢ 0 = λ e. ne (ap m (let w : s + n ≡ s + n + i = omega arith in w) ∙ z) in
      let w : s + (n + 1) + (i - 1) ≡ s + n + i = omega arith in
      let q : s + (n + 1) ≡ s + n + 1 = omega arith in
      let r = strlen_from-text_at k s (n + 1) (i - 1) m (omega arith) (ap m w ∙ z) in
      rw t (
        r
        ∙ ap (λ x. some (n + 1 + length (text_at x k m))) q
        ∙ ap some (
            let u : n + 1 + length (text_at (s + n + 1) k m)
                ≡ n + suc (length (text_at (s + n + 1) k m)) =
              omega arith in
            u))
]

-- strlen of a string that ends gives the length of its text.
strlen-text_at :
    (k s i : ℕ) (m : Memory) → i < k → m (s + i) ≡ 0 → strlen k s m ≡ some (length (text_at s k m))
unfolding strlen
strlen-text_at k s i m h z =
    let w : s + 0 + i ≡ s + i = omega arith in
    let v : s + 0 ≡ s = omega arith in
    strlen_from-text_at k s 0 i m h (ap m w ∙ z)
    ∙ ap (λ x. some (0 + length (text_at x k m))) v
    ∙ ap some (let u : 0 + length (text_at s k m) ≡ length (text_at s k m) = omega arith in u)
