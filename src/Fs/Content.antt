-- ===== src/Fs/Content.antt =====
-- The bytes of a file of fs.c: reading them from a block, and storing bytes in a block of the file.
use os_system_calls_scheduli.Base.{
  ℕ, ◌+◌, ◌-◌, ◌*◌, ◌/◌, ◌%◌, ◌<◌, ◌≤◌, ◌≡◌, refl, sym, ap, ◌∙◌, ◌≢◌, ◌⊎◌, inl, inr, false, ◌==◌,
  List, length, arith, dec_lt, ℕ_discrete,
}
use os_system_calls_scheduli.Strings.{Memory}
use os_system_calls_scheduli.Fs.{Fs, Inode, update, bsize, maxfile, bytes_at, store_bytes}
use os_system_calls_scheduli.Fs.Slots.{
  slot, index, slots, content, IsMapped, update_self, update_ne, index_lt, index_ne,
}
use os_system_calls_scheduli.Fs.Stored.{slot_direct, slot_indirect, entry_cong}
use os_system_calls_scheduli.Fs.Bytes.{bytes_at_cong, store_bytes_elsewhere, store_bytes_cong}

-- The block that holds the byte `o` of a file.
abbrev pub home : Fs → Inode → ℕ → ℕ
home f ip o = slot f ip (index (o / bsize))

-- The disk with other bytes in the block `a`.
abbrev pub with_block : ℕ → Memory → Fs → Fs
with_block a m f = record f { blocks = update f.blocks a m }

content-home :
    (f : Fs) (ip : Inode) (o : ℕ)
    → home f ip o ≢ 0
    → content f ip o ≡ f.blocks (home f ip o) (o % bsize)
unfolding content
content-home f ip o h =
    let e : (slot f ip (index (o / bsize)) == 0) ≡ false = ground arith in rw e refl

same_block :
    (o i : ℕ)
    → o % bsize + i < bsize
    → ((o + i) / bsize ≡ o / bsize) × ((o + i) % bsize ≡ o % bsize + i)
same_block o i h = (omega arith, omega arith)

content-near :
    (f : Fs) (ip : Inode) (o i : ℕ)
    → home f ip o ≢ 0
    → o % bsize + i < bsize
    → f.blocks (home f ip o) (o % bsize + i) ≡ content f ip (o + i)
content-near f ip o i nz k =
    let (q, r) = same_block o i k in
    let e : home f ip (o + i) ≡ home f ip o = ap (λ b. slot f ip (index b)) q in
    sym (
      content-home f ip (o + i) (λ z. nz (sym e ∙ z))
      ∙ ap (λ a. f.blocks a ((o + i) % bsize)) e
      ∙ ap (f.blocks (home f ip o)) r)

-- The bytes of a block are the file's from there on.
pub bytes_at-content :
    (f : Fs) (ip : Inode) (o n : ℕ)
    → home f ip o ≢ 0
    → n ≤ bsize - o % bsize
    → bytes_at (o % bsize) n (f.blocks (home f ip o)) ≡ bytes_at o n (content f ip)
bytes_at-content f ip o n nz h =
    bytes_at_cong n (o % bsize) o (f.blocks (home f ip o)) (content f ip)
      (λ i k. content-near f ip o i nz (omega arith))

index_inj : (a b : ℕ) → index a ≡ index b → a ≡ b
index_inj a b h = ground arith

module _ (f : Fs) (ip : Inode) (m : IsMapped f ip) (o : ℕ) (lt : o < maxfile * bsize)
    (nz : home f ip o ≢ 0) (c : Memory) where
  -- Another slot that is in use names another block.
  home_ne : (k : ℕ) → k < slots → k ≢ index (o / bsize) → slot f ip k ≢ home f ip o
  home_ne k h n e =
      n (sym (m.apart (index (o / bsize)) k (index_lt (o / bsize) (omega arith)) h nz (sym e)))

  pub slot-with_block : (k : ℕ) → slot (with_block (home f ip o) c f) ip k ≡ slot f ip k
  slot-with_block k = elim (dec_lt k 13) [
    | yes d ↦ slot_direct (with_block (home f ip o) c f) ip k d ∙ sym (slot_direct f ip k d)
    | no nd ↦
        slot_indirect (with_block (home f ip o) c f) ip k (omega arith)
        ∙ entry_cong (ip.addrs 12) (k - 13) f (with_block (home f ip o) c f) (λ z.
          update_ne f.blocks (home f ip o) c (ip.addrs 12) (λ e.
            home_ne 12 (omega arith) (λ i. index_ne (o / bsize) (sym i))
              (slot_direct f ip 12 (omega arith) ∙ e)))
        ∙ sym (slot_indirect f ip k (omega arith))
  ]

  pub with_block-IsMapped : IsMapped (with_block (home f ip o) c f) ip
  with_block-IsMapped = record {
    small = m.small;
    boot = m.boot;
    taken = λ k h n. rw (slot-with_block k) (m.taken k h (λ z. n (slot-with_block k ∙ z)));
    apart = λ j k hj hk n e.
        m.apart j k hj hk (λ z. n (slot-with_block j ∙ z))
          (sym (slot-with_block j) ∙ e ∙ slot-with_block k);
  }

  content-there :
      (x : ℕ) → x / bsize ≡ o / bsize → content (with_block (home f ip o) c f) ip x ≡ c (x % bsize)
  content-there x e =
      let s : home (with_block (home f ip o) c f) ip x ≡ home f ip o =
        slot-with_block (index (x / bsize)) ∙ ap (λ b. slot f ip (index b)) e in
      content-home (with_block (home f ip o) c f) ip x (λ z. nz (sym s ∙ z))
      ∙ ap (λ a. (with_block (home f ip o) c f).blocks a (x % bsize)) s
      ∙ ap (λ b. b (x % bsize)) (update_self f.blocks (home f ip o) c)

  content-apart :
      (x : ℕ)
      → x < maxfile * bsize
      → x / bsize ≢ o / bsize
      → content (with_block (home f ip o) c f) ip x ≡ content f ip x
  unfolding content
  content-apart x h n = elim (ℕ_discrete (home f ip x) 0) [
    | yes z ↦ rw (slot-with_block (index (x / bsize)), z) refl
    | no nz' ↦
        let t : (home f ip x == 0) ≡ false = ground arith in
        rw (slot-with_block (index (x / bsize)), t)
          (ap (λ b. b (x % bsize))
            (update_ne f.blocks (home f ip o) c (home f ip x) (
              home_ne (index (x / bsize)) (index_lt (x / bsize) (omega arith))
                (λ e. n (index_inj (x / bsize) (o / bsize) e)))))
  ]

offsets : (o x : ℕ) → x / bsize ≡ o / bsize → x % bsize + o ≡ x + o % bsize
offsets o x e = omega arith

outside : (o x n : ℕ) → x / bsize ≢ o / bsize → n ≤ bsize - o % bsize → (x < o) ⊎ (o + n ≤ x)
outside o x n ne h = elim (dec_lt x o) [ yes l ↦ inl l | no nl ↦ inr (omega arith) ]

-- Bytes stored in a block are stored in the file, from the place of the block's byte on.
pub store_bytes-content :
    (f : Fs) (ip : Inode) (o : ℕ) (bs : List ℕ)
    → IsMapped f ip
    → o < maxfile * bsize
    → home f ip o ≢ 0
    → length bs ≤ bsize - o % bsize
    → (x : ℕ) → x < maxfile * bsize
    → content
        (with_block (home f ip o) (store_bytes (o % bsize) bs (f.blocks (home f ip o))) f)
        ip
        x
      ≡ store_bytes o bs (content f ip) x
store_bytes-content f ip o bs m lt nz h x k =
    let c = store_bytes (o % bsize) bs (f.blocks (home f ip o)) in
    elim (ℕ_discrete (x / bsize) (o / bsize)) [
      | yes e ↦
          let s : home f ip x ≡ home f ip o = ap (λ b. slot f ip (index b)) e in
          content-there f ip m o lt nz c x e
          ∙ store_bytes_cong bs (o % bsize) o (f.blocks (home f ip o)) (content f ip) (x % bsize) x
              (offsets o x e)
              (sym (content-home f ip x (λ z. nz (sym s ∙ z)) ∙ ap (λ a. f.blocks a (x % bsize)) s))
      | no ne ↦
          content-apart f ip m o lt nz c x k ne
          ∙ sym (store_bytes_elsewhere bs o (content f ip) x (outside o x (length bs) ne h))
    ]
