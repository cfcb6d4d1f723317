-- ===== src/Fs/Grow.antt =====
-- A block that balloc of fs.c gives becomes a block of an inode: what this changes.
use os_system_calls_scheduli.Base.{
  ℕ, ◌*◌, ◌/◌, ◌%◌, ◌<◌, ◌≡◌, refl, sym, ap, ◌∙◌, ◌≢◌, true, false, ◌==◌, arith, ℕ_discrete,
}
use os_system_calls_scheduli.Fs.{Fs, Inode, update, maxfile, bsize}
use os_system_calls_scheduli.Fs.Slots.{
  slot, index, slots, byte_of, content, IsMapped, update_self, update_ne, index_lt, index_ne,
}

-- The new disk and inode have the block `b`, cleared, in the empty slot `k`.
pub record Grown (f : Fs) (ip : Inode) (k b : ℕ) (f' : Fs) (ip' : Inode) : Type 0 where
  pub fresh : f.used b ≡ false
  pub place : k < slots
  pub was : slot f ip k ≡ 0
  pub slot_at : (j : ℕ) → slot f' ip' j ≡ update (slot f ip) k b j
  pub used_at : (x : ℕ) → f'.used x ≡ update f.used b true x
  pub clear : (o : ℕ) → f'.blocks b o ≡ 0
  pub kept : (x : ℕ) → x ≢ b → x ≢ slot f ip 12 → f'.blocks x ≡ f.blocks x
  pub fs_size : f'.size ≡ f.size
  pub ip_size : ip'.size ≡ ip.size

-- A change of an inode's blocks that no reader of the file can see.
pub record Unseen (f : Fs) (ip : Inode) (f' : Fs) (ip' : Inode) : Type 0 where
  pub mapped : IsMapped f' ip'
  pub ip_size : ip'.size ≡ ip.size
  pub same : (o : ℕ) → o < maxfile * bsize → content f' ip' o ≡ content f ip o
  pub still : (k : ℕ) → slot f ip k ≢ 0 → slot f' ip' k ≡ slot f ip k

pub Unseen-refl : (f : Fs) (ip : Inode) → IsMapped f ip → Unseen f ip f ip
Unseen-refl f ip m = record { mapped = m; ip_size = refl; same = λ o h. refl; still = λ k h. refl }

pub Unseen-trans :
    (f : Fs) (ip : Inode) (f' : Fs) (ip' : Inode) (f'' : Fs) (ip'' : Inode)
    → Unseen f ip f' ip'
    → Unseen f' ip' f'' ip''
    → Unseen f ip f'' ip''
Unseen-trans f ip f' ip' f'' ip'' u v = record {
  mapped = v.mapped;
  ip_size = v.ip_size ∙ u.ip_size;
  same = λ o h. v.same o h ∙ u.same o h;
  still = λ k h. v.still k (λ z. h (sym (u.still k h) ∙ z)) ∙ u.still k h;
}

module _ (f : Fs) (ip : Inode) (k b : ℕ) (f' : Fs) (ip' : Inode) (g : Grown f ip k b f' ip') where
  -- A block in use is not the new one.
  used_ne : (x : ℕ) → f.used x ≡ true → x ≢ b
  used_ne x u e = let h : true ≡ false = sym u ∙ ap f.used e ∙ g.fresh in cc

  pub slot_new : slot f' ip' k ≡ b
  slot_new = g.slot_at k ∙ update_self (slot f ip) k b

  slot_old : (j : ℕ) → j ≢ k → slot f' ip' j ≡ slot f ip j
  slot_old j h = g.slot_at j ∙ update_ne (slot f ip) k b j h

  used_new : f'.used b ≡ true
  used_new = g.used_at b ∙ update_self f.used b true

  used_old : (x : ℕ) → f.used x ≡ true → f'.used x ≡ true
  used_old x u = g.used_at x ∙ update_ne f.used b true x (used_ne x u) ∙ u

  module _ (m : IsMapped f ip) where
    pub new_nonzero : b ≢ 0
    new_nonzero e = used_ne 0 m.boot (sym e)

    old_ne : (j : ℕ) → j < slots → slot f ip j ≢ 0 → slot f ip j ≢ b
    old_ne j h n = used_ne (slot f ip j) (m.taken j h n)

    grown-taken : (j : ℕ) → j < slots → slot f' ip' j ≢ 0 → f'.used (slot f' ip' j) ≡ true
    grown-taken j h n = elim (ℕ_discrete j k) [
      | yes e ↦ rw (e, slot_new) used_new
      | no ne ↦
          rw (slot_old j ne) (used_old (slot f ip j) (m.taken j h (λ z. n (slot_old j ne ∙ z))))
    ]

    grown-apart :
        (i j : ℕ)
        → i < slots
        → j < slots
        → slot f' ip' i ≢ 0
        → slot f' ip' i ≡ slot f' ip' j
        → i ≡ j
    grown-apart i j hi hj n e = elim (ℕ_discrete i k) [
      | yes ei ↦ elim (ℕ_discrete j k) [
        | yes ej ↦ ei ∙ sym ej
        | no nj ↦
            let s : slot f ip j ≡ b =
              sym (slot_old j nj) ∙ sym e ∙ ap (slot f' ip') ei ∙ slot_new in
            absurd (old_ne j hj (λ z. new_nonzero (sym s ∙ z)) s)
      ]
      | no ni ↦ elim (ℕ_discrete j k) [
        | yes ej ↦
            let s : slot f ip i ≡ b = sym (slot_old i ni) ∙ e ∙ ap (slot f' ip') ej ∙ slot_new in
            absurd (old_ne i hi (λ z. new_nonzero (sym s ∙ z)) s)
        | no nj ↦
            m.apart i j hi hj (λ z. n (slot_old i ni ∙ z)) (sym (slot_old i ni) ∙ e ∙ slot_old j nj)
      ]
    ]

    grown-IsMapped : IsMapped f' ip'
    grown-IsMapped = record {
      small = rw g.fs_size m.small;
      boot = used_old 0 m.boot;
      taken = grown-taken;
      apart = grown-apart;
    }

    -- The bytes of the block in a slot that is not the indirect block's.
    grown-byte :
        (j o : ℕ) → j < slots → j ≢ 12 → byte_of (slot f' ip' j) f' o ≡ byte_of (slot f ip j) f o
    grown-byte j o h n = elim (ℕ_discrete j k) [
      | yes e ↦
          let z : (b == 0) ≡ false = ground arith in
          rw (e, slot_new, g.was, z) (g.clear (o % bsize))
      | no ne ↦ elim (ℕ_discrete (slot f ip j) 0) [
        | yes z ↦ rw (slot_old j ne, z) refl
        | no nz ↦
            let t : (slot f ip j == 0) ≡ false = ground arith in
            rw (slot_old j ne, t)
              (ap (λ c. c (o % bsize))
                (g.kept (slot f ip j) (old_ne j h nz) (λ e. n (m.apart j 12 h (omega arith) nz e))))
      ]
    ]

    grown-content : (o : ℕ) → o < maxfile * bsize → content f' ip' o ≡ content f ip o
    unfolding content
    grown-content o h =
        grown-byte (index (o / bsize)) o (index_lt (o / bsize) (omega arith)) (index_ne (o / bsize))

    -- A block that becomes part of an inode leaves the file as it was.
    pub grown-Unseen : Unseen f ip f' ip'
    grown-Unseen = record {
      mapped = grown-IsMapped;
      ip_size = g.ip_size;
      same = grown-content;
      still = λ j n. slot_old j (λ e. n (ap (slot f ip) e ∙ g.was));
    }
