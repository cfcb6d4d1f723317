-- ===== src/File/Counts.antt =====
-- What filealloc, filedup and fileclose of file.c do to the reference counts.
use os_system_calls_scheduli.Base.{
  ℕ, zero, suc, ◌+◌, ◌-◌, ◌<◌, ◌≡◌, refl, sym, ap, ◌∙◌, subst, ◌≢◌, true, false, ltb, ◌==◌, ==_refl,
  if◌then◌else◌, List, [], ◌∷◌, Option, none, some, length, set, replicate, get_or-set_self,
  get_or-set_ne, some-eq, arith, dec_lt, ℕ_discrete,
}
use os_system_calls_scheduli.File.{
  fd_none, File, Ftable, no_file, file_at, find_unused, allocated, filealloc, filedup, Closing,
  nothing, closing, fileclose,
}

-- How many of the pointers held name the entry `i`.
abbrev pub count : ℕ → List ℕ → ℕ
count i [] = 0
count i (h ∷ hs) = if h == i then suc (count i hs) else count i hs

-- One pointer to `i` less.
abbrev pub remove : ℕ → List ℕ → List ℕ
remove i [] = []
remove i (h ∷ hs) = if h == i then hs else h ∷ remove i hs

-- Every count is the number of pointers to its entry.
abbrev pub IsCounted : Ftable → List ℕ → Type 0
IsCounted t hs = (i : ℕ) → (file_at t i).ref ≡ count i hs

count-remove :
    (i j : ℕ) (hs : List ℕ)
    → count j (remove i hs) ≡ (if i == j then count j hs - 1 else count j hs)
count-remove i j [] = ground arith
count-remove i j (h ∷ hs) = let r = count-remove i j hs in ground arith

pub in_table : (t : Ftable) (i : ℕ) → 0 < (file_at t i).ref → i < length t
in_table [] i h = absurd (omega arith)
in_table (f ∷ fs) zero h = omega arith
in_table (f ∷ fs) (suc i) h = let r = in_table fs i h in omega arith

pub file_at-replicate : (n i : ℕ) → (file_at (replicate n no_file) i).ref ≡ 0
file_at-replicate zero i = refl
file_at-replicate (suc n) zero = refl
file_at-replicate (suc n) (suc i) = file_at-replicate n i

-- What find_unused gives: an entry of the table from `k` on with no pointer.
abbrev Unused : ℕ → Ftable → Option ℕ → Type 0
Unused k t none = (j : ℕ) → j < length t → 0 < (file_at t j).ref
Unused k t (some i) = (j : ℕ) × (i ≡ k + j) × (j < length t) × ((file_at t j).ref ≡ 0)

held_cons :
    (f : File) (t : Ftable)
    → f.ref ≢ 0
    → ((j : ℕ) → j < length t → 0 < (file_at t j).ref)
    → (j : ℕ) → j < length (f ∷ t)
    → 0 < (file_at (f ∷ t) j).ref
held_cons f t n h zero l = omega arith
held_cons f t n h (suc j) l = h j (omega arith)

Unused-cons :
    (k : ℕ) (f : File) (t : Ftable) (r : Option ℕ)
    → Unused (suc k) t r
    → f.ref ≢ 0
    → Unused k (f ∷ t) r
Unused-cons k f t none h n = λ j l. held_cons f t n h j l
Unused-cons k f t (some i) (j, e, l, z) n = (suc j, omega arith, omega arith, z)

find_unused-Unused : (k : ℕ) (t : Ftable) → Unused k t (find_unused k t)
unfolding find_unused
find_unused-Unused k [] = λ j l. absurd (omega arith)
find_unused-Unused k (f ∷ fs) = elim (ℕ_discrete f.ref 0) [
  | yes z ↦ let e : (f.ref == 0) ≡ true = ground arith in rw e (0, omega arith, omega arith, z)
  | no nz ↦
      let e : (f.ref == 0) ≡ false = ground arith in
      rw e (Unused-cons k f fs (find_unused (suc k) fs) (find_unused-Unused (suc k) fs) nz)
]

-- An entry with another count.
pub IsCounted-set :
    (t : Ftable) (hs hs' : List ℕ) (i : ℕ) (f : File)
    → IsCounted t hs
    → i < length t
    → f.ref ≡ count i hs'
    → ((j : ℕ) → j ≢ i → count j hs' ≡ count j hs)
    → IsCounted (set t i f) hs'
IsCounted-set t hs hs' i f c l r o j = elim (ℕ_discrete j i) [
  | yes e ↦ rw (e, get_or-set_self t i f no_file l) r
  | no ne ↦ rw (get_or-set_ne t i j f no_file (λ e. ne (sym e))) (c j ∙ sym (o j ne))
]

allocated-IsCounted :
    (t : Ftable) (hs : List ℕ) (r : Option ℕ) (i : ℕ) (t' : Ftable)
    → IsCounted t hs
    → Unused 0 t r
    → allocated t r ≡ some (i, t')
    → IsCounted t' (i ∷ hs) × (count i hs ≡ 0)
unfolding allocated
allocated-IsCounted t hs none i t' c u e = absurd (let g : none ≡ some (i, t') = e in cc)
allocated-IsCounted t hs (some k) i t' c (j, q, l, z) e =
    let p = some-eq e in
    let ki : k ≡ i = ap (λ r. r.0) p in
    let st : set t k (record (file_at t k) { ref = 1 }) ≡ t' = ap (λ r. r.1) p in
    let jk : j ≡ k = omega arith in
    let n : count k hs ≡ 0 = sym (c k) ∙ ap (λ x. (file_at t x).ref) (sym jk) ∙ z in
    let o : count k (k ∷ hs) ≡ 1 = ground arith in
    let d : IsCounted (set t k (record (file_at t k) { ref = 1 })) (k ∷ hs) =
      IsCounted-set t hs (k ∷ hs) k (record (file_at t k) { ref = 1 }) c (omega arith) (sym o)
        (λ x m. let y : (k == x) ≡ false = ground arith in rw y refl) in
    subst (λ x. IsCounted t' (x ∷ hs) × (count x hs ≡ 0)) ki
      (subst (λ x. IsCounted x (k ∷ hs) × (count k hs ≡ 0)) st (d, n))

pub filealloc-IsCounted :
    (t : Ftable) (hs : List ℕ) (i : ℕ) (t' : Ftable)
    → IsCounted t hs
    → filealloc t ≡ some (i, t')
    → IsCounted t' (i ∷ hs) × (count i hs ≡ 0)
unfolding filealloc
filealloc-IsCounted t hs i t' c e =
    allocated-IsCounted t hs (find_unused 0 t) i t' c (find_unused-Unused 0 t) e

allocated-others :
    (t : Ftable) (r : Option ℕ) (i : ℕ) (t' : Ftable)
    → allocated t r ≡ some (i, t')
    → (j : ℕ) → j ≢ i
    → file_at t' j ≡ file_at t j
unfolding allocated
allocated-others t none i t' e j n = absurd (let g : none ≡ some (i, t') = e in cc)
allocated-others t (some k) i t' e j n =
    let p = some-eq e in
    let f = record (file_at t k) { ref = 1 } in
    ap (λ x. file_at x j) (sym (ap (λ r. r.1) p))
    ∙ get_or-set_ne t k j f no_file (λ q. n (sym q ∙ ap (λ r. r.0) p))

pub filealloc-others :
    (t : Ftable) (i : ℕ) (t' : Ftable)
    → filealloc t ≡ some (i, t')
    → (j : ℕ) → j ≢ i
    → file_at t' j ≡ file_at t j
unfolding filealloc
filealloc-others t i t' e = allocated-others t (find_unused 0 t) i t' e

allocated-none :
    (t : Ftable) (r : Option ℕ)
    → Unused 0 t r
    → allocated t r ≡ none
    → (i : ℕ) → i < length t
    → 0 < (file_at t i).ref
unfolding allocated
allocated-none t none u e = u
allocated-none t (some k) u e = absurd cc

pub filealloc-none :
    (t : Ftable) → filealloc t ≡ none → (i : ℕ) → i < length t → 0 < (file_at t i).ref
unfolding filealloc
filealloc-none t e = allocated-none t (find_unused 0 t) (find_unused-Unused 0 t) e

pub filedup-some :
    (t : Ftable) (hs : List ℕ) (i : ℕ)
    → IsCounted t hs
    → 0 < count i hs
    → filedup i t ≡ some (set t i (record (file_at t i) { ref = (file_at t i).ref + 1 }))
unfolding filedup
filedup-some t hs i c h =
    let r = c i in let e : ltb (file_at t i).ref 1 ≡ false = ground arith in rw e refl

pub filedup-IsCounted :
    (t : Ftable) (hs : List ℕ) (i : ℕ) (t' : Ftable)
    → IsCounted t hs
    → 0 < count i hs
    → filedup i t ≡ some t'
    → IsCounted t' (i ∷ hs)
filedup-IsCounted t hs i t' c h e =
    let r = c i in
    let n = in_table t i (omega arith) in
    let o : count i (i ∷ hs) ≡ suc (count i hs) = ground arith in
    subst (λ x. IsCounted x (i ∷ hs)) (some-eq (sym (filedup-some t hs i c h) ∙ e))
      (IsCounted-set t hs (i ∷ hs) i (record (file_at t i) { ref = (file_at t i).ref + 1 }) c n
        (omega arith) (λ x m. let y : (i == x) ≡ false = ground arith in rw y refl))

-- A pointer that is not the last.
pub fileclose-more :
    (t : Ftable) (hs : List ℕ) (i : ℕ)
    → IsCounted t hs
    → 1 < count i hs
    → fileclose i t ≡ some (nothing, set t i (record (file_at t i) { ref = (file_at t i).ref - 1 }))
unfolding fileclose
fileclose-more t hs i c h =
    let r = c i in
    let e : ltb (file_at t i).ref 1 ≡ false = ground arith in
    let e' : ltb 0 ((file_at t i).ref - 1) ≡ true = ground arith in rw (e, e') refl

pub fileclose-last :
    (t : Ftable) (hs : List ℕ) (i : ℕ)
    → IsCounted t hs
    → count i hs ≡ 1
    → fileclose i t
      ≡ some (
        closing (file_at t i).type (file_at t i),
        set t i (record (file_at t i) { ref = 0; type = fd_none }),
      )
unfolding fileclose
fileclose-last t hs i c h =
    let r = c i in
    let e : ltb (file_at t i).ref 1 ≡ false = ground arith in
    let e' : ltb 0 ((file_at t i).ref - 1) ≡ false = ground arith in rw (e, e') refl

-- The table after a count has gone down.
lowered :
    (t : Ftable) (hs : List ℕ) (i : ℕ) (f : File)
    → IsCounted t hs
    → 0 < count i hs
    → f.ref + 1 ≡ count i hs
    → IsCounted (set t i f) (remove i hs)
lowered t hs i f c h e =
    let r = c i in
    let own : count i (remove i hs) ≡ count i hs - 1 =
      count-remove i i hs ∙ ap (λ b. if b then count i hs - 1 else count i hs) (==_refl i) in
    IsCounted-set t hs (remove i hs) i f c (in_table t i (omega arith)) (omega arith)
      (λ x m. let y : (i == x) ≡ false = ground arith in count-remove i x hs ∙ rw y refl)

pub fileclose-IsCounted :
    (t : Ftable) (hs : List ℕ) (i : ℕ) (d : Closing) (t' : Ftable)
    → IsCounted t hs
    → 0 < count i hs
    → fileclose i t ≡ some (d, t')
    → IsCounted t' (remove i hs)
fileclose-IsCounted t hs i d t' c h e =
    let r = c i in
    elim (dec_lt 1 (count i hs)) [
      | yes m ↦
          let s = some-eq (sym (fileclose-more t hs i c m) ∙ e) in
          subst (λ x. IsCounted x (remove i hs)) (ap (λ p. p.1) s)
            (lowered t hs i (record (file_at t i) { ref = (file_at t i).ref - 1 }) c h
              (omega arith))
      | no nm ↦
          let s = some-eq (sym (fileclose-last t hs i c (omega arith)) ∙ e) in
          subst (λ x. IsCounted x (remove i hs)) (ap (λ p. p.1) s)
            (lowered t hs i (record (file_at t i) { ref = 0; type = fd_none }) c h (omega arith))
    ]
