-- ===== src/Bio/Writes.antt =====
-- Marking, writing and giving back a buffer of bio.c.
use os_system_calls_scheduli.Base.{
  ℕ, ◌-◌, ◌^◌, ◌<◌, ◌≡◌, refl, sym, ap, ◌∙◌, subst, ◌⊎◌, inl, inr, true, false, ◌∷◌, none, some,
  ltb, ◌==◌, if◌then◌else◌, some-eq, Bool-cases, arith, ℕ_discrete,
}
use os_system_calls_scheduli.Strings.{Memory}
use os_system_calls_scheduli.Fs.{update}
use os_system_calls_scheduli.Fs.Slots.{update_self, update_ne}
use os_system_calls_scheduli.Bio.{Buf, Cache, with_buf, iderw, bwrite, without, pred_uint, brelse}
use os_system_calls_scheduli.Bio.Steps.{In, Has, Kept, IsCurrent, In-front, front-In}
use os_system_calls_scheduli.Bio.Same.{Has-into, with_buf-field, with_buf-Same, IsCurrent-Same}
use os_system_calls_scheduli.Bio.Current.{write-IsCurrent}
use os_system_calls_scheduli.Bio.Calls.{IsSane, with_buf-IsSane}

-- The contents of the buffer are on the disk, or what keeps it stays when a reference goes.
abbrev pub Saved : Cache → ℕ → Type 0
Saved c i =
    (1 < (c.buf i).refcnt) ⊎ ((c.buf i).dirty ≡ true) ⊎ (c.disk (c.buf i).blockno ≡ (c.buf i).bytes)

abbrev pub dirtied : Buf → Buf
dirtied b = record b { dirty = true }

-- What stays true of the cache.
abbrev pub Good : Cache → (ℕ → Memory) → Type 0
Good c now = IsCurrent c now × IsSane c

module _ (c : Cache) (now : ℕ → Memory) (i n : ℕ) (g : Good c now) (h : Has c i n)
    (v : (c.buf i).valid ≡ true) where
  pub mark-Good : Good (with_buf i (dirtied (c.buf i)) c) now
  mark-Good =
      let b = dirtied (c.buf i) in
      let self = update_self c.buf i b in
      (
        IsCurrent-Same c (with_buf i b c) now (with_buf-Same i b c refl refl)
            (with_buf-field (λ x. x.valid) i b c refl) (with_buf-field (λ x. x.bytes) i b c refl)
            refl
            (λ j m k kept. inl (elim (ℕ_discrete j i) [
              | yes e ↦ subst Kept (sym (ap (with_buf i b c).buf e ∙ self)) (inl refl)
              | no ne ↦ subst Kept (sym (update_ne c.buf i b j ne)) kept
            ]))
            g.0,
        with_buf-IsSane i b c g.1 (λ w. absurd (let e : true ≡ false = sym v ∙ w in cc)),
      )

  -- A reference less.
  lowered-Good :
      (r : ℕ)
      → (0 < r) ⊎ ((c.buf i).dirty ≡ true) ⊎ (c.disk (c.buf i).blockno ≡ (c.buf i).bytes)
      → Good (with_buf i (record (c.buf i) { refcnt = r }) c) now
  lowered-Good r saved =
      let b = record (c.buf i) { refcnt = r } in
      let self = update_self c.buf i b in
      (
        IsCurrent-Same c (with_buf i b c) now (with_buf-Same i b c refl refl)
            (with_buf-field (λ x. x.valid) i b c refl) (with_buf-field (λ x. x.bytes) i b c refl)
            refl
            (λ j m k kept. elim (ℕ_discrete j i) [
              | yes e ↦
                  let put : Kept b → Kept ((with_buf i b c).buf j) =
                    λ p. subst Kept (sym (ap (with_buf i b c).buf e ∙ self)) p in
                  elim saved [
                    | inl p ↦ inl (put (inr p))
                    | inr (inl d) ↦ inl (put (inl d))
                    | inr (inr d) ↦ inr (
                        ap c.disk (sym k.2 ∙ ap (λ x. (c.buf x).blockno) e)
                        ∙ d
                        ∙ ap (λ x. (c.buf x).bytes) (sym e)
                        ∙ (g.0).in_cache j m k (ap (λ x. (c.buf x).valid) e ∙ v))
                  ]
              | no ne ↦ inl (subst Kept (sym (update_ne c.buf i b j ne)) kept)
            ])
            g.0,
        with_buf-IsSane i b c g.1 (g.1 i),
      )

-- The buffer moves to the head of the list.
moved-Good :
    (c : Cache) (now : ℕ → Memory) (i : ℕ)
    → In i c.order
    → Good c now
    → Good (record c { order = i ∷ without i c.order }) now
moved-Good c now i h g = (
  IsCurrent-Same c (record c { order = i ∷ without i c.order }) now
      (record {
        into = λ j k. In-front i j c.order k;
        back = λ j k. front-In i j c.order h k;
        dev = λ j. refl;
        blockno = λ j. refl;
      })
      (λ j. refl) (λ j. refl) refl (λ j m k kept. inl kept) g.0,
  g.1,
)

pub brelse-Good :
    (c : Cache) (now : ℕ → Memory) (i n : ℕ)
    → Good c now
    → Has c i n
    → (c.buf i).valid ≡ true
    → 0 < (c.buf i).refcnt
    → (c.buf i).refcnt < 2 ^ 32
    → Saved c i
    → Good (brelse i c) now
unfolding brelse
brelse-Good c now i n g h v p q saved =
    let r = pred_uint (c.buf i).refcnt in
    let e : r ≡ (c.buf i).refcnt - 1 = omega arith in
    let b = record (c.buf i) { refcnt = r } in
    let low =
      lowered-Good c now i n g h v r
        (elim saved [ inl more ↦ inl (omega arith) | inr other ↦ inr other ]) in
    elim (Bool-cases (r == 0)) [
      | inl y ↦ rw y (moved-Good (with_buf i b c) now i h.0 low)
      | inr y ↦ rw y low
    ]

-- The buffer's block goes to the disk.
abbrev pub written_cache : ℕ → Buf → Cache → Cache
written_cache i b c = record (with_buf i (record b { dirty = false; valid = true }) c) {
  disk = update c.disk b.blockno b.bytes;
}

iderw_dirty :
    (i : ℕ) (c : Cache)
    → (c.buf i).dirty ≡ true
    → (c.buf i).dev ≡ 1
    → iderw i c
      ≡ (if ltb (c.buf i).blockno c.disksize then some (written_cache i (c.buf i) c) else none)
unfolding iderw
iderw_dirty i c d e =
    let t : ((c.buf i).dev == 1) ≡ true = ground arith in
    elim (Bool-cases (c.buf i).valid) [
      | inl v ↦ elim (Bool-cases (ltb (c.buf i).blockno c.disksize)) [
        | inl y ↦ rw (v, d, t, y) refl
        | inr y ↦ rw (v, d, t, y) refl
      ]
      | inr v ↦ elim (Bool-cases (ltb (c.buf i).blockno c.disksize)) [
        | inl y ↦ rw (v, d, t, y) refl
        | inr y ↦ rw (v, d, t, y) refl
      ]
    ]

module _ (c : Cache) (now : ℕ → Memory) (i n : ℕ) (g : Good c now) (h : Has c i n)
    (v : (c.buf i).valid ≡ true) where
  written-Good : Good (written_cache i (c.buf i) c) now
  written-Good =
      let b = record (c.buf i) { dirty = false; valid = true } in
      (
        subst (λ x. IsCurrent (record (with_buf i b c) { disk = update c.disk x b.bytes }) now)
            (sym h.2) (write-IsCurrent c now g.0 i n b h v refl refl (sym v) refl),
        with_buf-IsSane i b c g.1 (λ w. refl),
      )

  iderw-Good : (c' : Cache) → (c.buf i).dirty ≡ true → iderw i c ≡ some c' → Good c' now
  iderw-Good c' d e = elim (Bool-cases (ltb (c.buf i).blockno c.disksize)) [
    | inl y ↦
        let w : some (written_cache i (c.buf i) c) ≡ some c' =
          sym (
            iderw_dirty i c d h.1
            ∙ ap (λ x. if x then some (written_cache i (c.buf i) c) else none) y)
          ∙ e in
        subst (λ x. Good x now) (some-eq w) written-Good
    | inr y ↦
        let w : none ≡ some c' =
          sym (
            iderw_dirty i c d h.1
            ∙ ap (λ x. if x then some (written_cache i (c.buf i) c) else none) y)
          ∙ e in
        absurd cc
  ]

pub bwrite-Good :
    (c : Cache) (now : ℕ → Memory) (i n : ℕ) (c' : Cache)
    → Good c now
    → Has c i n
    → (c.buf i).valid ≡ true
    → bwrite i c ≡ some c'
    → Good c' now
unfolding bwrite
bwrite-Good c now i n c' g h v e =
    let b = dirtied (c.buf i) in
    let self = update_self c.buf i b in
    let s = with_buf-Same i b c refl refl in
    iderw-Good (with_buf i b c) now i n (mark-Good c now i n g h v)
      (Has-into c (with_buf i b c) i n s h) (ap (λ x. x.valid) self ∙ v) c' (ap (λ x. x.dirty) self)
      e
