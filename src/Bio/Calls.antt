-- ===== src/Bio/Calls.antt =====
-- What bread, bwrite and brelse of bio.c do to the contents of the cache.
use os_system_calls_scheduli.Base.{
  ℕ, ◌+◌, ◌%◌, ◌^◌, ◌<◌, ◌≤◌, ◌≡◌, refl, sym, ap, ◌∙◌, subst, ◌⊎◌, inl, inr, true, false, Option,
  none, some, ltb, ◌==◌, if◌then◌else◌, Bool-cases, arith, dec_lt, ℕ_discrete,
}
use os_system_calls_scheduli.Strings.{Memory}
use os_system_calls_scheduli.Fs.Slots.{update_self, update_ne}
use os_system_calls_scheduli.Bio.{
  Buf, Cache, with_buf, idle, cached, unused, recycled, found, bget, iderw, with_index, filled,
  bread,
}
use os_system_calls_scheduli.Bio.Steps.{
  In, Has, Kept, IsCurrent, Cached, cached-Cached, Unused, unused-Unused,
}
use os_system_calls_scheduli.Bio.Same.{Has-into, with_buf-field, with_buf-Same, IsCurrent-Same}
use os_system_calls_scheduli.Bio.Current.{recycle-IsCurrent, read-IsCurrent}

-- Only a buffer with contents is marked for the disk.
abbrev pub IsSane : Cache → Type 0
IsSane c = (i : ℕ) → (c.buf i).valid ≡ false → (c.buf i).dirty ≡ false

-- No reference count is about to overflow.
abbrev pub Few : Cache → Type 0
Few c = (i : ℕ) → (c.buf i).refcnt + 1 < 2 ^ 32

pub with_buf-IsSane :
    (i : ℕ) (b : Buf) (c : Cache)
    → IsSane c
    → (b.valid ≡ false → b.dirty ≡ false)
    → IsSane (with_buf i b c)
with_buf-IsSane i b c s h j v = elim (ℕ_discrete j i) [
  | yes e ↦
      let o = ap (with_buf i b c).buf e ∙ update_self c.buf i b in
      ap (λ x. x.dirty) o ∙ h (sym (ap (λ x. x.valid) o) ∙ v)
  | no ne ↦
      let o = update_ne c.buf i b j ne in ap (λ x. x.dirty) o ∙ s j (sym (ap (λ x. x.valid) o) ∙ v)
]

-- A held buffer for the block.
abbrev pub Held : Cache → (ℕ → Memory) → ℕ → ℕ → Type 0
Held c now i n = IsCurrent c now × IsSane c × Has c i n × (0 < (c.buf i).refcnt)

-- The block has no buffer, and none is idle.
abbrev pub Full : Cache → ℕ → Type 0
Full c n = ((i : ℕ) → ¬ Has c i n) × ((i : ℕ) → In i c.order → idle (c.buf i) ≡ false)

abbrev pub Got : Cache → (ℕ → Memory) → ℕ → Option (ℕ × Cache) → Type 0
Got c now n none = Full c n
Got c now n (some (i, c')) = Held c' now i n × (c'.disksize ≡ c.disksize)

module _ (c : Cache) (now : ℕ → Memory) (n : ℕ) (r : IsCurrent c now) (s : IsSane c) where
  recycled-Got :
      (o : Option ℕ)
      → ((i : ℕ) → ¬ Has c i n)
      → Unused c.buf c.order o
      → Got c now n (recycled 1 n c o)
  unfolding recycled
  recycled-Got none no_has u = (no_has, u)
  recycled-Got (some i) no_has (h, e) =
      let b = record (c.buf i) { dev = 1; blockno = n; valid = false; dirty = false; refcnt = 1 } in
      let self = update_self c.buf i b in
      (
        (
          recycle-IsCurrent c now r i n b e no_has refl refl,
          with_buf-IsSane i b c s (λ v. refl),
          (h, ap (λ x. x.dev) self, ap (λ x. x.blockno) self),
          subst (λ x. 0 < x.refcnt) (sym self) (omega arith),
        ),
        refl,
      )

  -- One more reference to a buffer.
  shared-Held :
      (i : ℕ)
      → Few c
      → Has c i n
      → Held (with_buf i (record (c.buf i) { refcnt = ((c.buf i).refcnt + 1) % 2 ^ 32 }) c) now i n
  shared-Held i few h =
      let b = record (c.buf i) { refcnt = ((c.buf i).refcnt + 1) % 2 ^ 32 } in
      let self = update_self c.buf i b in
      let f = few i in
      let p : 0 < ((c.buf i).refcnt + 1) % 2 ^ 32 = omega arith in
      let same = with_buf-Same i b c refl refl in
      (
        IsCurrent-Same c (with_buf i b c) now same (with_buf-field (λ x. x.valid) i b c refl)
            (with_buf-field (λ x. x.bytes) i b c refl) refl
            (λ j m k kept. inl (elim (ℕ_discrete j i) [
              | yes e ↦ subst Kept (sym (ap (with_buf i b c).buf e ∙ self)) (inr p)
              | no ne ↦ subst Kept (sym (update_ne c.buf i b j ne)) kept
            ]))
            r,
        with_buf-IsSane i b c s (s i),
        Has-into c (with_buf i b c) i n same h,
        subst (λ x. 0 < x.refcnt) (sym self) p,
      )

  found-Got : (o : Option ℕ) → Few c → Cached 1 n c.buf c.order o → Got c now n (found 1 n c o)
  unfolding found
  found-Got none few h =
      recycled-Got (unused c.buf c.order) (λ i k. h i k.0 k.1 k.2) (unused-Unused c.buf c.order)
  found-Got (some i) few h = (shared-Held i few h, refl)

  pub bget-Got : Few c → Got c now n (bget 1 n c)
  unfolding bget
  bget-Got few = found-Got (cached 1 n c.buf c.order) few (cached-Cached 1 n c.buf c.order)

iderw_read :
    (i : ℕ) (c : Cache)
    → (c.buf i).valid ≡ false
    → (c.buf i).dirty ≡ false
    → (c.buf i).dev ≡ 1
    → iderw i c ≡ (
        if ltb (c.buf i).blockno c.disksize
        then some
            (with_buf i (record (c.buf i) { bytes = c.disk (c.buf i).blockno; valid = true }) c)
        else none)
unfolding iderw
iderw_read i c v d e =
    let t : ((c.buf i).dev == 1) ≡ true = ground arith in
    elim (Bool-cases (ltb (c.buf i).blockno c.disksize)) [
      | inl y ↦ rw (v, d, t, y) refl
      | inr y ↦ rw (v, d, t, y) refl
    ]

-- What bread gives: a held buffer of the block with its contents, and panic only for a block behind the
-- disk or with no buffer to use.
abbrev pub Reads : Cache → (ℕ → Memory) → ℕ → Option (ℕ × Cache) → Type 0
Reads c now n none = Full c n ⊎ (c.disksize ≤ n)
Reads c now n (some (i, c')) =
    Held c' now i n × ((c'.buf i).valid ≡ true) × ((c'.buf i).bytes ≡ now n)

filled-Reads :
    (c : Cache) (now : ℕ → Memory) (n : ℕ) (o : Option (ℕ × Cache))
    → Got c now n o
    → Reads c now n (filled o)
unfolding filled with_index
filled-Reads c now n none g = inl g
filled-Reads c now n (some (i, c')) ((r, s, h, p), size) = elim (Bool-cases (c'.buf i).valid) [
  | inl v ↦ rw v ((r, s, h, p), v, r.in_cache i n h v)
  | inr v ↦
      let b = record (c'.buf i) { bytes = c'.disk (c'.buf i).blockno; valid = true } in
      let self = update_self c'.buf i b in
      let r' = read-IsCurrent c' now r i n b h v refl refl (ap c'.disk h.2) in
      let h' = Has-into c' (with_buf i b c') i n (with_buf-Same i b c' refl refl) h in
      let v' = ap (λ x. x.valid) self in
      elim (dec_lt n c'.disksize) [
        | yes l ↦
            let y : ltb (c'.buf i).blockno c'.disksize ≡ true =
              ap (λ x. ltb x c'.disksize) h.2 ∙ ground arith in
            let e =
              iderw_read i c' v (s i v) h.1
              ∙ ap (λ x. if x then some (with_buf i b c') else none) y in
            rw (v, e)
              (
                (
                  r',
                  with_buf-IsSane i b c' s (λ q. s i v),
                  h',
                  subst (λ x. 0 < x.refcnt) (sym self) p,
                ),
                v',
                r'.in_cache i n h' v',
              )
        | no nl ↦
            let y : ltb (c'.buf i).blockno c'.disksize ≡ false =
              ap (λ x. ltb x c'.disksize) h.2 ∙ ground arith in
            let e =
              iderw_read i c' v (s i v) h.1
              ∙ ap (λ x. if x then some (with_buf i b c') else none) y in
            rw (v, e) (inr (omega arith))
      ]
]

pub bread-Reads :
    (c : Cache) (now : ℕ → Memory) (n : ℕ)
    → IsCurrent c now
    → IsSane c
    → Few c
    → Reads c now n (bread 1 n c)
unfolding bread
bread-Reads c now n r s few = filled-Reads c now n (bget 1 n c) (bget-Got c now n r s few)
