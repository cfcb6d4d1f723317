-- ===== src/Strings/Move.antt =====
-- memmove of string.c, on regions that may overlap.
use os_system_calls_scheduli.Base.{
  ℕ, zero, suc, ◌+◌, ◌≤◌, ◌<◌, ◌≡◌, refl, ◌⊎◌, inl, inr, ◌∙◌, ap, false, ◌&&◌, ltb, ◌==◌, ==_refl,
  Bool-cases, arith, dec_lt,
}
use os_system_calls_scheduli.Strings.{Memory, store, copy_down, copy_up, memmove}

pub store_self : (a v : ℕ) (m : Memory) → store a v m a ≡ v
store_self a v m = rw (==_refl a) refl

pub store_ne : (a v : ℕ) (m : Memory) (x : ℕ) → (x < a) ⊎ (a < x) → store a v m x ≡ m x
store_ne a v m x h = let e : (x == a) ≡ false = ground arith in rw e refl

-- What a copy of n bytes from s to d leaves.
pub record Moved (d s n : ℕ) (m m' : Memory) : Type 0 where
  pub copied : (i : ℕ) → i < n → m' (d + i) ≡ m (s + i)
  pub kept : (x : ℕ) → (x < d) ⊎ (d + n ≤ x) → m' x ≡ m x

at_address : (m : Memory) {a b : ℕ} → a ≡ b → m a ≡ m b
at_address m e = ap m e

first_or_later :
    (d s n : ℕ) (m m' : Memory) (i : ℕ)
    → m' d ≡ m s
    → ((j : ℕ) → j < n → m' (d + 1 + j) ≡ m (s + 1 + j))
    → i < suc n
    → m' (d + i) ≡ m (s + i)
first_or_later d s n m m' zero h f l = at_address m' (omega arith) ∙ h ∙ at_address m (omega arith)
first_or_later d s n m m' (suc j) h f l =
    at_address m' (omega arith) ∙ f j (omega arith) ∙ at_address m (omega arith)

last_or_earlier :
    (d s n : ℕ) (m m' : Memory) (i : ℕ)
    → m' (d + n) ≡ m (s + n)
    → ((j : ℕ) → j < n → m' (d + j) ≡ m (s + j))
    → i < suc n
    → m' (d + i) ≡ m (s + i)
last_or_earlier d s n m m' i h f l = elim (dec_lt i n) [
  | yes e ↦ f i e
  | no e ↦ at_address m' (omega arith) ∙ h ∙ at_address m (omega arith)
]

copy_up-Moved : (d s n : ℕ) (m : Memory) → (d ≤ s) ⊎ (s + n ≤ d) → Moved d s n m (copy_up d s n m)
unfolding copy_up
copy_up-Moved d s zero m h = record { copied = λ i l. absurd (omega arith); kept = λ x k. refl }
copy_up-Moved d s (suc n) m h =
    let r = copy_up-Moved (d + 1) (s + 1) n (store d (m s) m) (ground arith) in
    record {
      copied = λ i l.
          first_or_later d s n m (copy_up (d + 1) (s + 1) n (store d (m s) m)) i
            (r.kept d (inl (omega arith)) ∙ store_self d (m s) m)
            (λ j k. r.copied j k ∙ store_ne d (m s) m (s + 1 + j) (ground arith)) l;
      kept = λ x k. r.kept x (ground arith) ∙ store_ne d (m s) m x (ground arith);
    }

copy_down-Moved : (d s n : ℕ) (m : Memory) → s < d → Moved d s n m (copy_down d s n m)
unfolding copy_down
copy_down-Moved d s zero m h = record { copied = λ i l. absurd (omega arith); kept = λ x k. refl }
copy_down-Moved d s (suc n) m h =
    let r = copy_down-Moved d s n (store (d + n) (m (s + n)) m) h in
    record {
      copied = λ i l.
          last_or_earlier d s n m (copy_down d s n (store (d + n) (m (s + n)) m)) i
            (r.kept (d + n) (inr (omega arith)) ∙ store_self (d + n) (m (s + n)) m)
            (λ j k. r.copied j k ∙ store_ne (d + n) (m (s + n)) m (s + j) (inl (omega arith))) l;
      kept = λ x k. r.kept x (ground arith) ∙ store_ne (d + n) (m (s + n)) m x (ground arith);
    }

-- memmove copies the n bytes as they were before the call and changes no other byte, also when the
-- two regions overlap.
pub memmove-Moved : (d s n : ℕ) (m : Memory) → Moved d s n m (memmove d s n m)
unfolding memmove
memmove-Moved d s n m = elim (Bool-cases (ltb s d && ltb d (s + n))) [
  | inl over ↦ rw over (copy_down-Moved d s n m (ground arith))
  | inr apart ↦ rw apart (copy_up-Moved d s n m (ground arith))
]
