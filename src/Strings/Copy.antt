-- ===== src/Strings/Copy.antt =====
-- strncpy and safestrcpy of string.c: the text that arrives, and the bytes that they write.
use os_system_calls_scheduli.Base.{
  ℕ, zero, suc, ◌+◌, ◌≤◌, ◌<◌, ◌≡◌, refl, ◌⊎◌, inl, inr, ◌∙◌, ap, List, ◌∷◌, ◌==◌, Bool-cases,
  arith, length, ==_iff, ◌-◌,
}
use os_system_calls_scheduli.Strings.{Memory, store, pad, strncpy, copy_string, safestrcpy}
use os_system_calls_scheduli.Strings.Move.{store_self, store_ne}
use os_system_calls_scheduli.Strings.Text.{text_at}

-- Two regions without a common byte.
abbrev pub Apart : ℕ → ℕ → ℕ → ℕ → Type 0
Apart s n t k = (s + n ≤ t) ⊎ (t + k ≤ s)

-- The text `xs` stands at s, in a region of n bytes; no other byte has changed.
pub record Placed (s n : ℕ) (xs : List ℕ) (m m' : Memory) : Type 0 where
  pub text : text_at s n m' ≡ xs
  pub kept : (x : ℕ) → (x < s) ⊎ (s + n ≤ x) → m' x ≡ m x

text_at-store :
    (p n s v : ℕ) (m : Memory) → (s < p) ⊎ (p + n ≤ s) → text_at p n (store s v m) ≡ text_at p n m
text_at-store p zero s v m h = refl
text_at-store p (suc n) s v m h =
    rw (store_ne s v m p (ground arith), text_at-store (p + 1) n s v m (ground arith)) refl

pad_kept : (s n : ℕ) (m : Memory) (x : ℕ) → (x < s) ⊎ (s + n ≤ x) → pad s n m x ≡ m x
unfolding pad
pad_kept s zero m x h = refl
pad_kept s (suc n) m x h =
    pad_kept (s + 1) n (store s 0 m) x (ground arith) ∙ store_ne s 0 m x (ground arith)

strncpy-Placed :
    (s t n : ℕ) (m : Memory) → Apart s n t n → Placed s n (text_at t n m) m (strncpy s t n m)
unfolding strncpy
strncpy-Placed s t zero m h = record { text = refl; kept = λ x k. refl }
strncpy-Placed s t (suc n) m h =
    let m1 = store s (m t) m in
    elim (Bool-cases (m t == 0)) [
      | inl ends ↦
          let head : pad (s + 1) n m1 s ≡ m t =
            pad_kept (s + 1) n m1 s (inl (omega arith)) ∙ store_self s (m t) m in
          rw ends (record {
            text = rw (head, ends) refl;
            kept =
                λ x k. pad_kept (s + 1) n m1 x (ground arith) ∙ store_ne s (m t) m x (ground arith);
          })
      | inr more ↦
          let r = strncpy-Placed (s + 1) (t + 1) n m1 (ground arith) in
          let head : strncpy (s + 1) (t + 1) n m1 s ≡ m t =
            r.kept s (inl (omega arith)) ∙ store_self s (m t) m in
          rw more (record {
            text =
                rw (head, more)
                  (ap (λ (xs : List ℕ). m t ∷ xs)
                    (r.text ∙ text_at-store (t + 1) n s (m t) m (ground arith)));
            kept = λ x k. r.kept x (ground arith) ∙ store_ne s (m t) m x (ground arith);
          })
    ]

copy_string-Placed :
    (s t n : ℕ) (m : Memory)
    → Apart s (suc n) t n
    → Placed s (suc n) (text_at t n m) m (copy_string s t n m)
unfolding copy_string
copy_string-Placed s t zero m h = record {
  text = rw (store_self s 0 m) refl;
  kept = λ x k. store_ne s 0 m x (ground arith);
}
copy_string-Placed s t (suc n) m h =
    let m1 = store s (m t) m in
    elim (Bool-cases (m t == 0)) [
      | inl ends ↦
          let head : store (s + 1) 0 m1 s ≡ m t =
            store_ne (s + 1) 0 m1 s (inl (omega arith)) ∙ store_self s (m t) m in
          rw ends (record {
            text = rw (head, ends) refl;
            kept =
                λ x k. store_ne (s + 1) 0 m1 x (ground arith) ∙ store_ne s (m t) m x (ground arith);
          })
      | inr more ↦
          let r = copy_string-Placed (s + 1) (t + 1) n m1 (ground arith) in
          let head : copy_string (s + 1) (t + 1) n m1 s ≡ m t =
            r.kept s (inl (omega arith)) ∙ store_self s (m t) m in
          rw more (record {
            text =
                rw (head, more)
                  (ap (λ (xs : List ℕ). m t ∷ xs)
                    (r.text ∙ text_at-store (t + 1) n s (m t) m (ground arith)));
            kept = λ x k. r.kept x (ground arith) ∙ store_ne s (m t) m x (ground arith);
          })
    ]

-- safestrcpy into a room of n + 1 bytes that is apart from the source leaves there the source's
-- text, cut to n bytes and ended by a 0, and changes no byte outside the room.
pub safestrcpy-Placed :
    (s t n : ℕ) (m : Memory)
    → Apart s (suc n) t n
    → Placed s (suc n) (text_at t n m) m (safestrcpy s t (suc n) m)
unfolding safestrcpy
safestrcpy-Placed s t n m h = copy_string-Placed s t n m h

pad_zero : (s n i : ℕ) (m : Memory) → i < n → pad s n m (s + i) ≡ 0
unfolding pad
pad_zero s zero i m h = absurd (omega arith)
pad_zero s (suc n) zero m h =
    ap (pad (s + 1) n (store s 0 m)) (omega arith)
    ∙ pad_kept (s + 1) n (store s 0 m) s (inl (omega arith))
    ∙ store_self s 0 m
pad_zero s (suc n) (suc i) m h =
    ap (pad (s + 1) n (store s 0 m)) (omega arith)
    ∙ pad_zero (s + 1) n i (store s 0 m) (omega arith)

ended_padded :
    (s v n i : ℕ) (m : Memory) → v ≡ 0 → i < suc n → pad (s + 1) n (store s v m) (s + i) ≡ 0
ended_padded s v n zero m e h =
    ap (pad (s + 1) n (store s v m)) (omega arith)
    ∙ pad_kept (s + 1) n (store s v m) s (inl (omega arith))
    ∙ store_self s v m
    ∙ e
ended_padded s v n (suc i) m e h =
    ap (pad (s + 1) n (store s v m)) (omega arith)
    ∙ pad_zero (s + 1) n i (store s v m) (omega arith)

strncpy_padded :
    (s t n i : ℕ) (m : Memory)
    → Apart s n t n
    → length (text_at t n m) ≤ i
    → i < n
    → strncpy s t n m (s + i) ≡ 0
unfolding strncpy
strncpy_padded s t zero i m h l u = absurd (omega arith)
strncpy_padded s t (suc n) i m h l u = elim (Bool-cases (m t == 0)) [
  | inl ends ↦ rw ends (ended_padded s (m t) n i m ((==_iff (m t) 0).0 ends) u)
  | inr more ↦
      let m1 = store s (m t) m in
      let l' : suc (length (text_at (t + 1) n m)) ≤ i = rw more at l in
      let e = ap (λ (xs : List ℕ). length xs) (text_at-store (t + 1) n s (m t) m (ground arith)) in
      rw more (
        ap (strncpy (s + 1) (t + 1) n m1) (omega arith)
        ∙ strncpy_padded (s + 1) (t + 1) n (i - 1) m1 (ground arith) (omega arith) (omega arith))
]

-- strncpy between two regions of n bytes that are apart brings the source's text, cut to n bytes,
-- makes the bytes of the region behind it 0, and changes no byte outside the region.
pub strncpy_lem :
    (s t n : ℕ) (m : Memory)
    → Apart s n t n
    → Placed s n (text_at t n m) m (strncpy s t n m)
      × ((i : ℕ) → length (text_at t n m) ≤ i → i < n → strncpy s t n m (s + i) ≡ 0)
strncpy_lem s t n m h = (strncpy-Placed s t n m h, λ i l u. strncpy_padded s t n i m h l u)
