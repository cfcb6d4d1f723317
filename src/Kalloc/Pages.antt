-- ===== src/Kalloc/Pages.antt =====
-- The list of free pages of kalloc.c, and the range of addresses that freerange is given.
use os_system_calls_scheduli.Base.{
  ℕ, zero, suc, ◌+◌, ◌*◌, ◌/◌, ◌%◌, ◌≤◌, ◌<◌, ◌≡◌, refl, ◌≢◌, true, false, List, [], ◌∷◌, Option,
  none, some, ltb, leb, ◌==◌, All, All-imp, Any, ◌↔◌, ◌⊎◌, inl, inr, sym, ap, ◌∙◌, ℕ_discrete,
  dec_lt, length, arith,
}
use os_system_calls_scheduli.Kalloc.{
  page_size, kernbase, phystop, v2p, kfree, page_round_up, free_pages, freerange,
}

pub record IsPage (bottom v : ℕ) : Type 0 where
  pub aligned : v % page_size ≡ 0
  pub above : bottom ≤ v
  pub below : v2p v < phystop

abbrev pub Distinct : List ℕ → Type 0
Distinct [] = Unit
Distinct (x ∷ xs) = All (λ y. x ≢ y) xs × Distinct xs

abbrev pub IsPool : ℕ → List ℕ → Type 0
IsPool bottom free = All (IsPage bottom) free × Distinct free

kfree_page :
    (bottom v : ℕ) (free : List ℕ) → IsPage bottom v → kfree bottom v free ≡ some (v ∷ free)
unfolding kfree
kfree_page bottom v free h =
    let a : (v % page_size == 0) ≡ true = ground (arith, h.aligned) in
    let b : ltb v bottom ≡ false = ground (arith, h.above) in
    let c : leb phystop (v2p v) ≡ false = ground (arith, h.below) in rw (a, b, c) refl

-- What kalloc hands out and keeps.
abbrev pub AllocOutcome : ℕ → List ℕ → Option ℕ × List ℕ → Type 0
AllocOutcome bottom free (none, rest) = (free ≡ []) × (rest ≡ [])
AllocOutcome bottom free (some p, rest) =
    IsPage bottom p × All (λ q. p ≢ q) rest × IsPool bottom rest × (length free ≡ length rest + 1)

abbrev pub In : ℕ → List ℕ → Type 0
In v vs = Any (λ w. w ≡ v) vs

-- A whole page at a page boundary between the two addresses.
abbrev pub PageBetween : ℕ → ℕ → ℕ → Type 0
PageBetween lo hi v = (v % page_size ≡ 0) × (lo ≤ v) × (v + page_size ≤ hi)

-- The call returns, and the list has the pages between the two addresses besides those it had, none of
-- them twice.
pub record Freed (bottom lo hi : ℕ) (free : List ℕ) (result : Option (List ℕ)) : Type 0 where
  pub free' : List ℕ
  pub returns : result ≡ some free'
  pub pool : IsPool bottom free'
  pub has : (v : ℕ) → In v free' ↔ (In v free ⊎ PageBetween lo hi v)

-- No page fits behind `lo` any more.
Freed-none :
    (bottom lo hi : ℕ) (free : List ℕ)
    → hi < lo + page_size
    → IsPool bottom free
    → Freed bottom lo hi free (some free)
Freed-none bottom lo hi free l h = record {
  free' = free;
  returns = refl;
  pool = h;
  has = λ v. (λ i. inl i, λ s. elim s [ inl i ↦ i | inr (a, b, c) ↦ absurd (omega arith) ]);
}

page_or_later :
    (p hi v : ℕ)
    → p % page_size ≡ 0
    → PageBetween p hi v
    → (p ≡ v) ⊎ PageBetween (p + page_size) hi v
page_or_later p hi v a (b, c, d) = elim (ℕ_discrete p v) [
  | yes e ↦ inl e
  | no ne ↦ inr (b, omega arith, d)
]

-- The page `p` is freed, and then those behind it.
Freed-suc :
    (bottom p hi : ℕ) (free : List ℕ) (result : Option (List ℕ))
    → p % page_size ≡ 0
    → p + page_size ≤ hi
    → Freed bottom (p + page_size) hi (p ∷ free) result
    → Freed bottom p hi free result
Freed-suc bottom p hi free result a l r = record {
  free' = r.free';
  returns = r.returns;
  pool = r.pool;
  has = λ v.
      let (to, from) = r.has v in
      (
        λ i. elim (to i) [
          | inl (inl e) ↦ inr (ap (λ x. x % page_size) (sym e) ∙ a, omega arith, omega arith)
          | inl (inr j) ↦ inl j
          | inr (b, c, d) ↦ inr (b, omega arith, d)
        ],
        λ s. elim s [
          | inl j ↦ from (inl (inr j))
          | inr g ↦ elim (page_or_later p hi v a g) [
            | inl e ↦ from (inl (inl e))
            | inr g' ↦ from (inr g')
          ]
        ],
      );
}

free_pages-Freed :
    (bottom fuel p top : ℕ) (free : List ℕ)
    → top < p + (fuel + 1) * page_size
    → p % page_size ≡ 0
    → kernbase ≤ bottom
    → bottom ≤ p
    → top ≤ kernbase + phystop
    → IsPool bottom free
    → All (λ q. q < p) free
    → Freed bottom p top free (free_pages bottom fuel p top (some free))
unfolding free_pages
free_pages-Freed bottom zero p top free f a k b t h o = Freed-none bottom p top free (omega arith) h
free_pages-Freed bottom (suc fuel) p top free f a k b t h o = elim (dec_lt top (p + page_size)) [
  | yes less ↦
      let e : leb (p + page_size) top ≡ false = ground arith in
      rw e (Freed-none bottom p top free less h)
  | no more ↦
      let e : leb (p + page_size) top ≡ true = ground arith in
      let page : IsPage bottom p = record { aligned = a; above = b; below = omega arith } in
      let r =
        free_pages-Freed bottom fuel (p + page_size) top (p ∷ free) (omega arith) (omega arith) k
          (omega arith) t ((page, h.0), (All-imp _ _ free (λ q l n. omega arith) o, h.1))
          (omega arith, All-imp _ _ free (λ q l. omega arith) o) in
      rw (e, kfree_page bottom p free page)
        (Freed-suc bottom p top free (free_pages bottom fuel (p + page_size) top (some (p ∷ free)))
          a (omega arith) r)
]

page_round_up_lem :
    (vstart vend v : ℕ)
    → vstart ≤ vend
    → vend ≤ kernbase + phystop
    → PageBetween (page_round_up vstart) vend v ↔ PageBetween vstart vend v
page_round_up_lem vstart vend v l t =
    (λ (a, b, c). (a, omega arith, c), λ (a, b, c). (a, omega arith, c))

-- freerange on a range that is not behind its end, begins at the end of the kernel or later, which is not
-- below KERNBASE, ends at PHYSTOP or earlier, and lies behind all pages of the free list, which are pages
-- without repetition, does not panic. The list then has, besides its pages, just the whole pages of the range that stand at
-- a page boundary, and no page twice.
pub freerange-Freed :
    (bottom vstart vend : ℕ) (free : List ℕ)
    → kernbase ≤ bottom
    → bottom ≤ vstart
    → vstart ≤ vend
    → vend ≤ kernbase + phystop
    → IsPool bottom free
    → All (λ q. q < vstart) free
    → Freed bottom vstart vend free (freerange bottom vstart vend free)
unfolding freerange
freerange-Freed bottom vstart vend free k b l t h o =
    let p = page_round_up vstart in
    let r =
      free_pages-Freed bottom (vend / page_size) p vend free (omega arith) (omega arith) k
        (omega arith) t h (All-imp _ _ free (λ q n. omega arith) o) in
    record {
      free' = r.free';
      returns = r.returns;
      pool = r.pool;
      has = λ v.
          let (to, from) = r.has v in
          let (up, down) = page_round_up_lem vstart vend v l t in
          (
            λ i. elim (to i) [ inl j ↦ inl j | inr g ↦ inr (up g) ],
            λ s. elim s [ inl j ↦ from (inl j) | inr g ↦ from (inr (down g)) ],
          );
    }
