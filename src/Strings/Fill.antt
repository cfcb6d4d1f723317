-- ===== src/Strings/Fill.antt =====
-- memset of string.c fills with bytes and with words alike.
use os_system_calls_scheduli.Base.{
  ℕ, zero, suc, ◌+◌, ◌*◌, ◌/◌, ◌%◌, ◌^◌, ◌≤◌, ◌<◌, ◌≡◌, refl, ◌⊎◌, inl, inr, ◌∙◌, ap, ◌&&◌, ◌==◌,
  Bool-cases, arith, dec_lt, subst,
}
use os_system_calls_scheduli.Strings.{Memory, store, store_word, stosb, stosl, memset}
use os_system_calls_scheduli.Strings.Move.{store_self, store_ne}

-- The n bytes from d on are b, and no other byte has changed.
pub record Filled (d b n : ℕ) (m m' : Memory) : Type 0 where
  pub filled : (x : ℕ) → d ≤ x → x < d + n → m' x ≡ b
  pub kept : (x : ℕ) → (x < d) ⊎ (d + n ≤ x) → m' x ≡ m x

stosb-Filled : (d c n : ℕ) (m : Memory) → Filled d (c % 256) n m (stosb d c n m)
unfolding stosb
stosb-Filled d c zero m = record { filled = λ x l u. absurd (omega arith); kept = λ x k. refl }
stosb-Filled d c (suc n) m =
    let m1 = store d (c % 256) m in
    let r = stosb-Filled (d + 1) c n m1 in
    record {
      filled = λ x l u. elim (dec_lt d x) [
        | yes later ↦ r.filled x (omega arith) (omega arith)
        | no now ↦ r.kept x (inl (omega arith)) ∙ ap m1 (omega arith) ∙ store_self d (c % 256) m
      ];
      kept = λ x k. r.kept x (ground arith) ∙ store_ne d (c % 256) m x (ground arith);
    }

-- Four equal bytes, put together as memset does.
abbrev word_of : ℕ → ℕ
word_of b = b * 2 ^ 24 + b * 2 ^ 16 + b * 2 ^ 8 + b

word_bytes :
    (b : ℕ)
    → b < 256
    → (word_of b % 256 ≡ b)
      × (word_of b / 2 ^ 8 % 256 ≡ b)
      × (word_of b / 2 ^ 16 % 256 ≡ b)
      × (word_of b / 2 ^ 24 % 256 ≡ b)
word_bytes b h = (omega arith, omega arith, omega arith, omega arith)

four_bytes :
    (d b : ℕ) (m : Memory)
    → Filled d b 4 m (store (d + 3) b (store (d + 2) b (store (d + 1) b (store d b m))))
four_bytes d b m = record { filled = λ x l u. ground arith; kept = λ x k. ground arith }

Filled-append :
    (d b k n : ℕ) (m m1 m' : Memory)
    → Filled d b k m m1
    → Filled (d + k) b n m1 m'
    → Filled d b (k + n) m m'
Filled-append d b k n m m1 m' f g = record {
  filled = λ x l u. elim (dec_lt x (d + k)) [
    | yes low ↦ g.kept x (inl low) ∙ f.filled x l low
    | no high ↦ g.filled x (omega arith) (omega arith)
  ];
  kept = λ x k. g.kept x (ground arith) ∙ f.kept x (ground arith);
}

stosl-Filled : (d b n : ℕ) (m : Memory) → b < 256 → Filled d b (n * 4) m (stosl d (word_of b) n m)
unfolding stosl
stosl-Filled d b zero m h = record { filled = λ x l u. absurd (omega arith); kept = λ x k. refl }
stosl-Filled d b (suc n) m h =
    let (b0, b1, b2, b3) = word_bytes b h in
    let e : suc n * 4 ≡ 4 + n * 4 = omega arith in
    rw e (
      Filled-append d b 4 (n * 4) m (store_word d (word_of b) m)
        (stosl (d + 4) (word_of b) n (store_word d (word_of b) m))
        (rw (b0, b1, b2, b3) (four_bytes d b m))
        (stosl-Filled (d + 4) b n (store_word d (word_of b) m) h))

-- memset makes each of the n bytes the low byte of c, by words or by bytes, and changes no other.
pub memset-Filled : (d c n : ℕ) (m : Memory) → Filled d (c % 256) n m (memset d c n m)
unfolding memset
memset-Filled d c n m = elim (Bool-cases (d % 4 == 0 && n % 4 == 0)) [
  | inl words ↦
      let e : n / 4 * 4 ≡ n = ground arith in
      rw words (
        subst (λ (k : ℕ). Filled d (c % 256) k m (stosl d (word_of (c % 256)) (n / 4) m)) e
          (stosl-Filled d (c % 256) (n / 4) m (omega arith)))
  | inr bytes ↦ rw bytes (stosb-Filled d c n m)
]
