-- ===== src/Fs/Bmap.antt =====
-- bmap of fs.c: the block of a file, with balloc where there is none.
use os_system_calls_scheduli.Base.{
  ℕ, ◌+◌, ◌-◌, ◌*◌, ◌^◌, ◌<◌, ◌≤◌, ◌≡◌, refl, sym, ap, subst, ◌∙◌, ◌≢◌, true, false, Option, none,
  some, ◌==◌, ltb, arith, dec_lt, ℕ_discrete,
}
use os_system_calls_scheduli.Fs.{
  Fs, Inode, maxfile, nindirect, balloc, load_word, Mapped, stored_at, direct_addr, stored_word,
  indirect_addr, through_indirect, bmap,
}
use os_system_calls_scheduli.Fs.Blocks.{FirstFree, balloc-FirstFree}
use os_system_calls_scheduli.Fs.Slots.{slot, entry, index, IsMapped}
use os_system_calls_scheduli.Fs.Grow.{
  Grown, Unseen, Unseen-refl, Unseen-trans, slot_new, new_nonzero, grown-Unseen,
}
use os_system_calls_scheduli.Fs.Stored.{
  with_addr, with_entry, slot_direct, slot_indirect, entry_some, direct-Grown, indirect-Grown,
}

-- What bmap gives for the slot `k`: none only when the slot is empty, otherwise its block, with all else
-- unseen.
abbrev pub Mapping : Fs → Inode → ℕ → Mapped → Type 0
Mapping f ip k none = slot f ip k ≡ 0
Mapping f ip k (some (a, ip', f')) =
    (a ≢ 0) × (slot f' ip' k ≡ a) × Unseen f ip f' ip' × (slot f ip k ≢ 0 → (ip' ≡ ip) × (f' ≡ f))

stored_at-Mapping :
    (f : Fs) (ip : Inode) (k : ℕ) (r : Option (ℕ × Fs))
    → IsMapped f ip
    → k < 13
    → ip.addrs k ≡ 0
    → FirstFree 0 f.size f r
    → Mapping f ip k (stored_at k ip r)
unfolding stored_at
stored_at-Mapping f ip k none m h z q = slot_direct f ip k h ∙ z
stored_at-Mapping f ip k (some (b, f')) m h z (free, _, _, _, e) =
    let g : Grown f ip k b f' (with_addr k b ip) =
      subst (λ c. Grown f ip k b c (with_addr k b ip)) (sym e) (direct-Grown f ip b m free k h z) in
    (
      new_nonzero f ip k b f' (with_addr k b ip) g m,
      slot_new f ip k b f' (with_addr k b ip) g,
      grown-Unseen f ip k b f' (with_addr k b ip) g m,
      λ n. absurd (n (slot_direct f ip k h ∙ z)),
    )

direct_addr-Mapping :
    (f : Fs) (ip : Inode) (k : ℕ) → IsMapped f ip → k < 13 → Mapping f ip k (direct_addr k ip f)
unfolding direct_addr
direct_addr-Mapping f ip k m h = elim (ℕ_discrete (ip.addrs k) 0) [
  | yes z ↦ rw z (stored_at-Mapping f ip k (balloc f) m h z (balloc-FirstFree f))
  | no nz ↦
      let t : (ip.addrs k == 0) ≡ false = ground arith in
      rw t (nz, slot_direct f ip k h, Unseen-refl f ip m, λ n. (refl, refl))
]

stored_word-Mapping :
    (f : Fs) (ip : Inode) (i : ℕ) (r : Option (ℕ × Fs))
    → IsMapped f ip
    → i < nindirect
    → ip.addrs 12 ≢ 0
    → slot f ip (13 + i) ≡ 0
    → FirstFree 0 f.size f r
    → Mapping f ip (13 + i) (stored_word (ip.addrs 12) i ip r)
unfolding stored_word
stored_word-Mapping f ip i none m h nz z q = z
stored_word-Mapping f ip i (some (b, f')) m h nz z (free, _, lt, _, e) =
    let w : b < 2 ^ 32 = let s = m.small in omega arith in
    let g : Grown f ip (13 + i) b (with_entry (ip.addrs 12) i b f') ip =
      subst (λ c. Grown f ip (13 + i) b (with_entry (ip.addrs 12) i b c) ip) (sym e)
        (indirect-Grown f ip b m free i h nz w z) in
    (
      new_nonzero f ip (13 + i) b (with_entry (ip.addrs 12) i b f') ip g m,
      slot_new f ip (13 + i) b (with_entry (ip.addrs 12) i b f') ip g,
      grown-Unseen f ip (13 + i) b (with_entry (ip.addrs 12) i b f') ip g m,
      λ n. absurd (n z),
    )

indirect_addr-Mapping :
    (f : Fs) (ip : Inode) (i : ℕ)
    → IsMapped f ip
    → i < nindirect
    → ip.addrs 12 ≢ 0
    → Mapping f ip (13 + i) (indirect_addr (ip.addrs 12) i ip f)
unfolding indirect_addr
indirect_addr-Mapping f ip i m h nz =
    let s : slot f ip (13 + i) ≡ load_word (4 * i) (f.blocks (ip.addrs 12)) =
      slot_indirect f ip (13 + i) (omega arith)
      ∙ ap (λ n. entry (ip.addrs 12) n f) (let e : 13 + i - 13 ≡ i = omega arith in e)
      ∙ entry_some (ip.addrs 12) i f nz in
    elim (ℕ_discrete (load_word (4 * i) (f.blocks (ip.addrs 12))) 0) [
      | yes z ↦ rw z (stored_word-Mapping f ip i (balloc f) m h nz (s ∙ z) (balloc-FirstFree f))
      | no ne ↦
          let t : (load_word (4 * i) (f.blocks (ip.addrs 12)) == 0) ≡ false = ground arith in
          rw t (ne, s, Unseen-refl f ip m, λ n. (refl, refl))
    ]

-- An entry of the indirect block needs the block.
pub no_indirect : (f : Fs) (ip : Inode) (k : ℕ) → 13 ≤ k → slot f ip 12 ≡ 0 → slot f ip k ≡ 0
no_indirect f ip k h z =
    let e : ip.addrs 12 ≡ 0 = sym (slot_direct f ip 12 (omega arith)) ∙ z in
    slot_indirect f ip k h ∙ rw e refl

-- The second of two steps that map the slot `k`.
Mapping-after :
    (f : Fs) (ip : Inode) (k : ℕ) (f' : Fs) (ip' : Inode) (r : Mapped)
    → Unseen f ip f' ip'
    → (slot f ip k ≢ 0 → (ip' ≡ ip) × (f' ≡ f))
    → Mapping f' ip' k r
    → Mapping f ip k r
Mapping-after f ip k f' ip' none u s z = elim (ℕ_discrete (slot f ip k) 0) [
  | yes e ↦ e
  | no ne ↦ absurd (ne (sym (u.still k ne) ∙ z))
]
Mapping-after f ip k f' ip' (some (a, ip'', f'')) u s (nz, e, v, t) = (
  nz,
  e,
  Unseen-trans f ip f' ip' f'' ip'' u v,
  λ n. let (p, q) = s n in let (p', q') = t (λ z. n (sym (u.still k n) ∙ z)) in (p' ∙ p, q' ∙ q),
)

through_indirect-Mapping :
    (f : Fs) (ip : Inode) (i : ℕ) (r : Mapped)
    → i < nindirect
    → Mapping f ip 12 r
    → Mapping f ip (13 + i) (through_indirect i r)
unfolding through_indirect
through_indirect-Mapping f ip i none h z = no_indirect f ip (13 + i) (omega arith) z
through_indirect-Mapping f ip i (some (a, ip', f')) h (nz, e, u, s) =
    let d : ip'.addrs 12 ≡ a = sym (slot_direct f' ip' 12 (omega arith)) ∙ e in
    Mapping-after f ip (13 + i) f' ip' (indirect_addr a i ip' f') u
      (λ n. s (λ z. n (no_indirect f ip (13 + i) (omega arith) z)))
      (subst (λ x. Mapping f' ip' (13 + i) (indirect_addr x i ip' f')) d
        (indirect_addr-Mapping f' ip' i u.mapped h (λ z. nz (sym d ∙ z))))

-- bmap of a block number that a file can have gives the address that is then in the block's slot,
-- never 0. The inode's blocks stay apart from each other and from the free ones, no byte of the file
-- and no slot in use changes, and nothing at all changes if the slot was in use. It panics only if the
-- slot was empty.
pub bmap-Mapping :
    (f : Fs) (ip : Inode) (bn : ℕ)
    → IsMapped f ip
    → bn < maxfile
    → Mapping f ip (index bn) (bmap bn ip f)
unfolding bmap
bmap-Mapping f ip bn m h = elim (dec_lt bn 12) [
  | yes d ↦
      let e : ltb bn 12 ≡ true = ground arith in rw e (direct_addr-Mapping f ip bn m (omega arith))
  | no nd ↦
      let e : ltb bn 12 ≡ false = ground arith in
      let e' : ltb (bn - 12) 128 ≡ true = ground arith in
      let k : 13 + (bn - 12) ≡ bn + 1 = omega arith in
      rw (e, e')
        (subst (λ x. Mapping f ip x (through_indirect (bn - 12) (direct_addr 12 ip f))) k
          (through_indirect-Mapping f ip (bn - 12) (direct_addr 12 ip f) (omega arith)
            (direct_addr-Mapping f ip 12 m (omega arith))))
]
