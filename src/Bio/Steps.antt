-- ===== src/Bio/Steps.antt =====
-- The loops of bget of bio.c, and the contents that the blocks of the disk have by way of the cache.
use os_system_calls_scheduli.Base.{
  ℕ, ◌<◌, ◌≡◌, refl, sym, ◌∙◌, subst, ◌≢◌, ◌⊎◌, inl, inr, true, false, List, [], ◌∷◌, Option, none,
  some, ◌==◌, Bool-cases, Any, arith, ℕ_discrete,
}
use os_system_calls_scheduli.Strings.{Memory}
use os_system_calls_scheduli.Bio.{Buf, Cache, holds, cached, idle, or_here, unused, without}

-- The buffer `i` is in the list.
abbrev pub In : ℕ → List ℕ → Type 0
In i is = Any (λ j. j ≡ i) is

-- The buffer holds the block of the disk.
abbrev pub Has : Cache → ℕ → ℕ → Type 0
Has c i n = In i c.order × ((c.buf i).dev ≡ 1) × ((c.buf i).blockno ≡ n)

-- A reason for the buffer to stay what it is.
abbrev pub Kept : Buf → Type 0
Kept b = (b.dirty ≡ true) ⊎ (0 < b.refcnt)

-- The contents `now` that the blocks have: a buffer that is valid has its block's, and so has the disk
-- unless a buffer that is kept has it. No block has two buffers.
pub record IsCurrent (c : Cache) (now : ℕ → Memory) : Type 0 where
  pub apart : (i j n : ℕ) → Has c i n → Has c j n → i ≡ j
  pub in_cache : (i n : ℕ) → Has c i n → (c.buf i).valid ≡ true → (c.buf i).bytes ≡ now n
  pub on_disk :
      (n : ℕ)
      → (c.disk n ≡ now n) ⊎ ((i : ℕ) × Has c i n × ((c.buf i).valid ≡ true) × Kept (c.buf i))

holds-yes : (d n : ℕ) (b : Buf) → holds d n b ≡ true → (b.dev ≡ d) × (b.blockno ≡ n)
holds-yes d n b h = (ground arith, ground arith)

holds-no : (d n : ℕ) (b : Buf) → holds d n b ≡ false → b.dev ≡ d → b.blockno ≢ n
holds-no d n b h e e' = ground arith

-- What the first loop finds.
abbrev pub Cached : ℕ → ℕ → (ℕ → Buf) → List ℕ → Option ℕ → Type 0
Cached d n buf is none = (i : ℕ) → In i is → (buf i).dev ≡ d → (buf i).blockno ≢ n
Cached d n buf is (some i) = In i is × ((buf i).dev ≡ d) × ((buf i).blockno ≡ n)

Cached-cons :
    (d n : ℕ) (buf : ℕ → Buf) (j : ℕ) (is : List ℕ) (r : Option ℕ)
    → holds d n (buf j) ≡ false
    → Cached d n buf is r
    → Cached d n buf (j ∷ is) r
Cached-cons d n buf j is none e h = λ i k p. elim k [
  | inl s ↦ holds-no d n (buf i) (subst (λ x. holds d n (buf x) ≡ false) s e) p
  | inr k ↦ h i k p
]
Cached-cons d n buf j is (some i) e (k, p, q) = (inr k, p, q)

pub cached-Cached : (d n : ℕ) (buf : ℕ → Buf) (is : List ℕ) → Cached d n buf is (cached d n buf is)
unfolding cached
cached-Cached d n buf [] = λ i k. elim k [ ]
cached-Cached d n buf (j ∷ is) = elim (Bool-cases (holds d n (buf j))) [
  | inl y ↦ let (p, q) = holds-yes d n (buf j) y in rw y (inl refl, p, q)
  | inr e ↦ rw e (Cached-cons d n buf j is (cached d n buf is) e (cached-Cached d n buf is))
]

-- What the second loop finds.
abbrev pub Unused : (ℕ → Buf) → List ℕ → Option ℕ → Type 0
Unused buf is none = (i : ℕ) → In i is → idle (buf i) ≡ false
Unused buf is (some i) = In i is × (idle (buf i) ≡ true)

Unused-or_here :
    (buf : ℕ → Buf) (i : ℕ) (is : List ℕ) (r : Option ℕ)
    → Unused buf is r
    → Unused buf (i ∷ is) (or_here (idle (buf i)) i r)
Unused-or_here buf i is (some j) (k, e) = (inr k, e)
Unused-or_here buf i is none h = elim (Bool-cases (idle (buf i))) [
  | inl y ↦ rw y (inl refl, y)
  | inr n ↦ rw n (λ j k. elim k [ inl s ↦ subst (λ x. idle (buf x) ≡ false) s n | inr k ↦ h j k ])
]

pub unused-Unused : (buf : ℕ → Buf) (is : List ℕ) → Unused buf is (unused buf is)
unfolding unused
unused-Unused buf [] = λ i k. elim k [ ]
unused-Unused buf (i ∷ is) = Unused-or_here buf i is (unused buf is) (unused-Unused buf is)

-- Moving a buffer to the head keeps the list's members.
In-without : (i j : ℕ) (is : List ℕ) → In j is → (i ≡ j) ⊎ In j (without i is)
unfolding without
In-without i j [] h = elim h [ ]
In-without i j (k ∷ is) h = elim (ℕ_discrete k i) [
  | yes e ↦
      let b : (k == i) ≡ true = ground arith in
      rw b (elim h [ inl s ↦ inl (sym e ∙ s) | inr m ↦ inr m ])
  | no ne ↦
      let b : (k == i) ≡ false = ground arith in
      rw b (elim h [
        | inl s ↦ inr (inl s)
        | inr m ↦ elim (In-without i j is m) [ inl s ↦ inl s | inr m' ↦ inr (inr m') ]
      ])
]

pub In-front : (i j : ℕ) (is : List ℕ) → In j is → In j (i ∷ without i is)
In-front i j is h = In-without i j is h

without-In : (i j : ℕ) (is : List ℕ) → In j (without i is) → In j is
unfolding without
without-In i j [] h = elim h [ ]
without-In i j (k ∷ is) h = elim (ℕ_discrete k i) [
  | yes e ↦ let b : (k == i) ≡ true = ground arith in inr (rw b at h)
  | no ne ↦
      let b : (k == i) ≡ false = ground arith in
      elim (rw b at h) [ inl s ↦ inl s | inr m ↦ inr (without-In i j is m) ]
]

pub front-In : (i j : ℕ) (is : List ℕ) → In i is → In j (i ∷ without i is) → In j is
front-In i j is hi h = elim h [ inl e ↦ subst (λ x. In x is) e hi | inr m ↦ without-In i j is m ]
