-- ===== src/SchedDs/Sorted.antt =====
-- The specification of a priority queue: entries sorted by key, the oldest first among equals.
use os_system_calls_scheduli.Base.{
  ℕ, ◌+◌, Bool, false, ◌||◌, ◌==◌, length, ◌≡◌, refl, List, [], ◌∷◌, ◌++◌, inl, inr, arith, All,
  if◌then◌else◌, Bool-cases,
}
use os_system_calls_scheduli.Base.Int.{ℤ, ltb_ℤ, ◌≤ℤ◌, ◌<ℤ◌}

abbrev pub Entry : Type 0
Entry = ℤ × ℕ

-- Behind every entry whose key is not larger.
unfoldable pub insert : ℤ → ℕ → List Entry → List Entry
insert k p [] = (k, p) ∷ []
insert k p ((k', q) ∷ xs) = if ltb_ℤ k k' then (k, p) ∷ (k', q) ∷ xs else (k', q) ∷ insert k p xs

abbrev pub Le : ℤ → List Entry → Type 0
Le k = All (λ e. e.0 ≤ℤ k)

abbrev pub Lt : ℤ → List Entry → Type 0
Lt k = All (λ e. e.0 <ℤ k)

abbrev pub Gt : ℤ → List Entry → Type 0
Gt k = All (λ e. k <ℤ e.0)

pub insert-append_le :
    (k : ℤ) (p : ℕ) (xs ys : List Entry) → Le k xs → insert k p (xs ++ ys) ≡ xs ++ insert k p ys
unfolding insert
insert-append_le k p [] ys h = refl
insert-append_le k p ((k', q) ∷ xs) ys h = ground (arith, insert-append_le k p xs ys h.1)

pub insert_gt : (k : ℤ) (p : ℕ) (ys : List Entry) → Gt k ys → insert k p ys ≡ (k, p) ∷ ys
unfolding insert
insert_gt k p [] h = refl
insert_gt k p ((k', q) ∷ ys) h = ground arith

pub insert-append_gt :
    (k : ℤ) (p : ℕ) (xs ys : List Entry) → Gt k ys → insert k p (xs ++ ys) ≡ insert k p xs ++ ys
unfolding insert
insert-append_gt k p [] ys h = insert_gt k p ys h
insert-append_gt k p ((k', q) ∷ xs) ys h = ground (arith, insert-append_gt k p xs ys h)

pub All-insert {κ} :
    (P : Entry → Type κ) (k : ℤ) (p : ℕ) (xs : List Entry)
    → P (k, p)
    → All P xs
    → All P (insert k p xs)
unfolding insert
All-insert P k p [] hk h = (hk, tt)
All-insert P k p ((k', q) ∷ xs) hk h = elim (Bool-cases (ltb_ℤ k k')) [
  | inl lt ↦ rw lt (hk, h)
  | inr ge ↦ rw ge (h.0, All-insert P k p xs hk h.1)
]

-- Some entry is of process `p`.
unfoldable pub has : ℕ → List Entry → Bool
has p [] = false
has p ((k, q) ∷ xs) = q == p || has p xs

pub has-insert :
    (i : ℕ) (k : ℤ) (p : ℕ) (xs : List Entry) → has i (insert k p xs) ≡ (p == i || has i xs)
unfolding has insert
has-insert i k p [] = refl
has-insert i k p ((k', q) ∷ xs) = ground (arith, has-insert i k p xs)

pub length-insert : (k : ℤ) (p : ℕ) (xs : List Entry) → length (insert k p xs) ≡ length xs + 1
unfolding insert
length-insert k p [] = omega arith
length-insert k p ((k', q) ∷ xs) = ground (arith, length-insert k p xs)

-- How many entries are of process `p`.
unfoldable pub count : ℕ → List Entry → ℕ
count p [] = 0
count p ((k, q) ∷ xs) = (if q == p then 1 else 0) + count p xs

pub count-insert :
    (i : ℕ) (k : ℤ) (p : ℕ) (xs : List Entry)
    → count i (insert k p xs) ≡ (if p == i then 1 else 0) + count i xs
unfolding count insert
count-insert i k p [] = refl
count-insert i k p ((k', q) ∷ xs) = ground (arith, count-insert i k p xs)
