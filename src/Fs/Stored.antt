-- ===== src/Fs/Stored.antt =====
-- The blocks that stored addresses name: what bmap of fs.c does to the slots when it stores an address
-- in the inode or in the indirect block.
use os_system_calls_scheduli.Base.{
  ℕ, ◌+◌, ◌-◌, ◌*◌, ◌^◌, ◌<◌, ◌≤◌, ◌≡◌, refl, sym, ap, subst, ◌∙◌, ◌≢◌, true, false, ◌==◌, ltb,
  arith, dec_lt, ℕ_discrete,
}
use os_system_calls_scheduli.Strings.{store_word}
use os_system_calls_scheduli.Fs.{Fs, Inode, update, bzero, nindirect, load_word}
use os_system_calls_scheduli.Fs.Blocks.{marked}
use os_system_calls_scheduli.Fs.Slots.{
  slot, entry, IsMapped, update_self, update_ne, load_word-store_word, load_word-elsewhere,
}
use os_system_calls_scheduli.Fs.Grow.{Grown}

-- The inode after the block `b` has been stored at `k`.
abbrev pub with_addr : ℕ → ℕ → Inode → Inode
with_addr k b ip = record ip { addrs = update ip.addrs k b }

-- The disk after the block `b` has been stored at the entry `bn` of the block `addr`.
abbrev pub with_entry : ℕ → ℕ → ℕ → Fs → Fs
with_entry addr bn b f = record f {
  blocks = update f.blocks addr (store_word (4 * bn) b (f.blocks addr));
}

pub slot_direct : (f : Fs) (ip : Inode) (k : ℕ) → k < 13 → slot f ip k ≡ ip.addrs k
unfolding slot
slot_direct f ip k h = let e : ltb k 13 ≡ true = ground arith in rw e refl

pub slot_indirect :
    (f : Fs) (ip : Inode) (k : ℕ) → 13 ≤ k → slot f ip k ≡ entry (ip.addrs 12) (k - 13) f
unfolding slot
slot_indirect f ip k h = let e : ltb k 13 ≡ false = ground arith in rw e refl

pub entry_some :
    (addr i : ℕ) (f : Fs) → addr ≢ 0 → entry addr i f ≡ load_word (4 * i) (f.blocks addr)
entry_some addr i f h = let e : (addr == 0) ≡ false = ground arith in rw e refl

pub entry_cong :
    (addr i : ℕ) (f f' : Fs)
    → (addr ≢ 0 → f'.blocks addr ≡ f.blocks addr)
    → entry addr i f' ≡ entry addr i f
entry_cong addr i f f' h = elim (ℕ_discrete addr 0) [
  | yes z ↦ rw z refl
  | no nz ↦ rw (entry_some addr i f nz, entry_some addr i f' nz, h nz) refl
]

marked_used : (b : ℕ) (f : Fs) (x : ℕ) → (marked b f).used x ≡ update f.used b true x
unfolding bzero
marked_used b f x = refl

marked_size : (b : ℕ) (f : Fs) → (marked b f).size ≡ f.size
unfolding bzero
marked_size b f = refl

marked_clear : (b : ℕ) (f : Fs) (o : ℕ) → (marked b f).blocks b o ≡ 0
unfolding bzero
marked_clear b f o = ap (λ m. m o) (update_self f.blocks b (λ x. 0))

marked_blocks : (b : ℕ) (f : Fs) (x : ℕ) → x ≢ b → (marked b f).blocks x ≡ f.blocks x
unfolding bzero
marked_blocks b f x h = update_ne f.blocks b (λ i. 0) x h

-- A cleared block has no entry.
entry_clear : (b i : ℕ) (f : Fs) → entry b i (marked b f) ≡ 0
unfolding bzero
entry_clear b i f = elim (ℕ_discrete b 0) [
  | yes z ↦ rw z refl
  | no nz ↦ rw (entry_some b i (marked b f) nz, update_self f.blocks b (λ x. 0)) refl
]

module _ (f : Fs) (ip : Inode) (b : ℕ) (m : IsMapped f ip) (free : f.used b ≡ false) where
  free_ne : (x : ℕ) → f.used x ≡ true → x ≢ b
  free_ne x u e = let h : true ≡ false = sym u ∙ ap f.used e ∙ free in cc

  -- The indirect block is not the new one.
  indirect_ne : ip.addrs 12 ≢ 0 → ip.addrs 12 ≢ b
  indirect_ne nz =
      let e = slot_direct f ip 12 (omega arith) in
      free_ne (ip.addrs 12)
        (subst (λ a. f.used a ≡ true) e (m.taken 12 (omega arith) (λ z. nz (sym e ∙ z))))

  -- The entries after the block `b` is stored at `k`.
  entries_after :
      (k i : ℕ)
      → k < 13
      → ip.addrs k ≡ 0
      → entry (update ip.addrs k b 12) i (marked b f) ≡ entry (ip.addrs 12) i f
  entries_after k i h z = elim (ℕ_discrete k 12) [
    | yes e ↦
        let r : update ip.addrs k b 12 ≡ b = rw e (update_self ip.addrs 12 b) in
        let n : ip.addrs 12 ≡ 0 = sym (ap ip.addrs e) ∙ z in rw (r, n) (entry_clear b i f)
    | no ne ↦
        let r : update ip.addrs k b 12 ≡ ip.addrs 12 = update_ne ip.addrs k b 12 (omega arith) in
        rw r (
          entry_cong (ip.addrs 12) i f (marked b f)
            (λ nz. marked_blocks b f (ip.addrs 12) (indirect_ne nz)))
  ]

  -- The block balloc gives becomes one of the inode's own.
  pub direct-Grown :
      (k : ℕ) → k < 13 → ip.addrs k ≡ 0 → Grown f ip k b (marked b f) (with_addr k b ip)
  direct-Grown k h z = record {
    fresh = free;
    place = omega arith;
    was = slot_direct f ip k h ∙ z;
    slot_at = λ j. elim (dec_lt j 13) [
      | yes d ↦ elim (ℕ_discrete j k) [
        | yes e ↦
            rw (e, slot_direct (marked b f) (with_addr k b ip) k h, update_self (slot f ip) k b)
              (update_self ip.addrs k b)
        | no ne ↦
            slot_direct (marked b f) (with_addr k b ip) j d
            ∙ update_ne ip.addrs k b j ne
            ∙ sym (slot_direct f ip j d)
            ∙ sym (update_ne (slot f ip) k b j ne)
      ]
      | no nd ↦
          slot_indirect (marked b f) (with_addr k b ip) j (omega arith)
          ∙ entries_after k (j - 13) h z
          ∙ sym (slot_indirect f ip j (omega arith))
          ∙ sym (update_ne (slot f ip) k b j (omega arith))
    ];
    used_at = λ x. marked_used b f x;
    clear = λ o. marked_clear b f o;
    kept = λ x n i. marked_blocks b f x n;
    fs_size = marked_size b f;
    ip_size = refl;
  }

  -- The indirect block with the new entry.
  stored_block :
      (i : ℕ)
      → ip.addrs 12 ≢ 0
      → (with_entry (ip.addrs 12) i b (marked b f)).blocks (ip.addrs 12)
        ≡ store_word (4 * i) b (f.blocks (ip.addrs 12))
  stored_block i nz =
      update_self (marked b f).blocks (ip.addrs 12)
        (store_word (4 * i) b ((marked b f).blocks (ip.addrs 12)))
      ∙ ap (store_word (4 * i) b) (marked_blocks b f (ip.addrs 12) (indirect_ne nz))

  entries_stored :
      (i j : ℕ)
      → ip.addrs 12 ≢ 0
      → b < 2 ^ 32
      → entry (ip.addrs 12) j (with_entry (ip.addrs 12) i b (marked b f))
        ≡ update (λ n. entry (ip.addrs 12) n f) i b j
  entries_stored i j nz w =
      let e =
        entry_some (ip.addrs 12) j (with_entry (ip.addrs 12) i b (marked b f)) nz
        ∙ ap (load_word (4 * j)) (stored_block i nz) in
      elim (ℕ_discrete j i) [
        | yes s ↦
            e
            ∙ ap (λ n. load_word (4 * n) (store_word (4 * i) b (f.blocks (ip.addrs 12)))) s
            ∙ load_word-store_word (4 * i) b (f.blocks (ip.addrs 12)) w
            ∙ sym (update_self (λ n. entry (ip.addrs 12) n f) i b)
            ∙ ap (update (λ n. entry (ip.addrs 12) n f) i b) (sym s)
        | no ne ↦
            e
            ∙ load_word-elsewhere j i b (f.blocks (ip.addrs 12)) ne
            ∙ sym (entry_some (ip.addrs 12) j f nz)
            ∙ sym (update_ne (λ n. entry (ip.addrs 12) n f) i b j ne)
      ]

  -- The slots after the block has become the entry `i` of the indirect block.
  slots_stored :
      (i j : ℕ)
      → ip.addrs 12 ≢ 0
      → b < 2 ^ 32
      → slot (with_entry (ip.addrs 12) i b (marked b f)) ip j ≡ update (slot f ip) (13 + i) b j
  slots_stored i j nz w = elim (dec_lt j 13) [
    | yes d ↦
        slot_direct (with_entry (ip.addrs 12) i b (marked b f)) ip j d
        ∙ sym (slot_direct f ip j d)
        ∙ sym (update_ne (slot f ip) (13 + i) b j (omega arith))
    | no nd ↦
        let l =
          slot_indirect (with_entry (ip.addrs 12) i b (marked b f)) ip j (omega arith)
          ∙ entries_stored i (j - 13) nz w in
        elim (ℕ_discrete (j - 13) i) [
          | yes s ↦
              let e : j ≡ 13 + i = omega arith in
              l
              ∙ ap (update (λ n. entry (ip.addrs 12) n f) i b) s
              ∙ update_self (λ n. entry (ip.addrs 12) n f) i b
              ∙ sym (update_self (slot f ip) (13 + i) b)
              ∙ ap (update (slot f ip) (13 + i) b) (sym e)
          | no ne ↦
              l
              ∙ update_ne (λ n. entry (ip.addrs 12) n f) i b (j - 13) ne
              ∙ sym (slot_indirect f ip j (omega arith))
              ∙ sym (update_ne (slot f ip) (13 + i) b j (omega arith))
        ]
  ]

  -- The block balloc gives becomes an entry of the indirect block.
  pub indirect-Grown :
      (i : ℕ)
      → i < nindirect
      → ip.addrs 12 ≢ 0
      → b < 2 ^ 32
      → slot f ip (13 + i) ≡ 0
      → Grown f ip (13 + i) b (with_entry (ip.addrs 12) i b (marked b f)) ip
  indirect-Grown i h nz w z = record {
    fresh = free;
    place = omega arith;
    was = z;
    slot_at = λ j. slots_stored i j nz w;
    used_at = λ x. marked_used b f x;
    clear = λ o.
        ap (λ c. c o)
          (update_ne (marked b f).blocks (ip.addrs 12)
            (store_word (4 * i) b ((marked b f).blocks (ip.addrs 12))) b
            (λ e. indirect_ne nz (sym e)))
        ∙ marked_clear b f o;
    kept = λ x n k.
        update_ne (marked b f).blocks (ip.addrs 12)
          (store_word (4 * i) b ((marked b f).blocks (ip.addrs 12))) x
          (λ e. k (e ∙ sym (slot_direct f ip 12 (omega arith))))
        ∙ marked_blocks b f x n;
    fs_size = marked_size b f;
    ip_size = refl;
  }
