-- ===== src/Fs/Truncate.antt =====
-- itrunc of fs.c gives back the blocks of an inode, each of them once.
use os_system_calls_scheduli.Base.{
  ℕ, ◌<◌, ◌≤◌, ◌≡◌, refl, sym, ap, ◌∙◌, subst, ◌≢◌, inl, inr, Bool, true, false, not, Option, none,
  some, ◌==◌, arith, dec_lt, ℕ_discrete,
}
use os_system_calls_scheduli.Fs.{
  Fs, Inode, update, nindirect, ndirect, bfree, cleared_at, and_then, free_direct, free_entries,
  free_indirect, emptied, itrunc,
}
use os_system_calls_scheduli.Fs.Slots.{slot, slots, IsMapped, update_self, update_ne}
use os_system_calls_scheduli.Fs.Stored.{slot_direct}
use os_system_calls_scheduli.Fs.Freed.{Freed, Frees, Freed-none, bfree-Frees}
use os_system_calls_scheduli.Fs.Bmap.{no_indirect}
use os_system_calls_scheduli.Fs.Read.{IsFile}
use os_system_calls_scheduli.Fs.Entries.{Entries, free_entries-Entries}
use os_system_calls_scheduli.Fs.Directs.{Directs, free_direct-Directs}

module _ (f : Fs) (ip : Inode) (m : IsMapped f ip) where
  -- All blocks of the inode have gone.
  abbrev pub Emptied : Inode → Fs → Type 0
  Emptied ip' g =
      ((k : ℕ) → k < 13 → ip'.addrs k ≡ 0)
      × (g.size ≡ f.size)
      × (g.blocks ≡ f.blocks)
      × ((k : ℕ) → k < slots → slot f ip k ≢ 0 → g.used (slot f ip k) ≡ false)
      × ((x : ℕ) → ((k : ℕ) → k < slots → slot f ip k ≢ 0 → slot f ip k ≢ x) → g.used x ≡ f.used x)

  abbrev pub Empties : Option (Inode × Fs) → Type 0
  Empties none = ⊥
  Empties (some (ip', g)) = Emptied ip' g

  all_gone :
      (gone : ℕ → Bool)
      → ((k : ℕ) → k < 12 → gone k ≡ true)
      → ((k : ℕ) → 13 ≤ k → k < slots → gone k ≡ true)
      → (k : ℕ) → k < slots
      → update gone 12 true k ≡ true
  all_gone gone a b k l = elim (ℕ_discrete k 12) [
    | yes e ↦ ap (update gone 12 true) e ∙ update_self gone 12 true
    | no ne ↦
        update_ne gone 12 true k ne
        ∙ elim (dec_lt k 12) [ yes s ↦ a k s | no ns ↦ b k (omega arith) l ]
  ]

  last_block :
      (cur : Inode) (r : Option Fs) (gone : ℕ → Bool)
      → ((k : ℕ) → k < 12 → cur.addrs k ≡ 0)
      → Frees f ip (update gone 12 true) r
      → ((k : ℕ) → k < 12 → gone k ≡ true)
      → ((k : ℕ) → 13 ≤ k → k < slots → gone k ≡ true)
      → Empties (cleared_at 12 cur r)
  unfolding cleared_at
  last_block cur none gone z h a b = elim h [ ]
  last_block cur (some g') gone z r a b = (
    λ k l. elim (ℕ_discrete k 12) [
      | yes e ↦ ap (update cur.addrs 12 0) e ∙ update_self cur.addrs 12 0
      | no ne ↦ update_ne cur.addrs 12 0 k ne ∙ z k (omega arith)
    ],
    r.size,
    r.blocks,
    λ k l n. r.own k l n ∙ ap not (all_gone gone a b k l),
    r.others,
  )

  Entries-then :
      (cur : Inode) (gone : ℕ → Bool) (r : Option Fs)
      → ip.addrs 12 ≢ 0
      → cur.addrs 12 ≡ ip.addrs 12
      → ((k : ℕ) → k < 12 → cur.addrs k ≡ 0)
      → ((k : ℕ) → k < 12 → gone k ≡ true)
      → gone 12 ≡ false
      → Entries f ip m gone 13 141 r
      → Empties (and_then r (λ g. cleared_at 12 cur (bfree (cur.addrs 12) g)))
  unfolding and_then
  Entries-then cur gone none nz e z a b h = elim h [ ]
  Entries-then cur gone (some g) nz e z a b (gone', (yes_gone, kept), r) =
      let s : slot f ip 12 ≡ ip.addrs 12 = slot_direct f ip 12 (omega arith) in
      last_block cur (bfree (cur.addrs 12) g) gone' z
        (subst (λ x. Frees f ip (update gone' 12 true) (bfree x g)) (s ∙ sym e)
          (bfree-Frees f ip m gone' g 12 (omega arith) (λ q. nz (sym s ∙ q))
            (kept 12 (inl (omega arith)) ∙ b) r))
        (λ k l. kept k (inl (omega arith)) ∙ a k l) (λ k l h. yes_gone k l h)

  direct_gone :
      (gone : ℕ → Bool) (k : ℕ)
      → ((j : ℕ) → j < 12 → gone j ≡ true)
      → slot f ip 12 ≡ 0
      → slot f ip k ≢ 0
      → gone k ≡ true
  direct_gone gone k a s nk = elim (dec_lt k 12) [
    | yes l ↦ a k l
    | no nl ↦ elim (ℕ_discrete k 12) [
      | yes q ↦ absurd (nk (ap (slot f ip) q ∙ s))
      | no nq ↦ absurd (nk (no_indirect f ip k (omega arith) s))
    ]
  ]

  free_indirect-Empties :
      (cur : Inode) (g : Fs) (gone : ℕ → Bool)
      → cur.addrs 12 ≡ ip.addrs 12
      → ((k : ℕ) → k < 12 → cur.addrs k ≡ 0)
      → ((k : ℕ) → k < 12 → gone k ≡ true)
      → ((k : ℕ) → 12 ≤ k → gone k ≡ false)
      → Freed f ip gone g
      → Empties (free_indirect cur g)
  unfolding free_indirect
  free_indirect-Empties cur g gone e z a b r = elim (ℕ_discrete (cur.addrs 12) 0) [
    | yes n ↦
        let t : (cur.addrs 12 == 0) ≡ true = ground arith in
        let s : slot f ip 12 ≡ 0 = slot_direct f ip 12 (omega arith) ∙ sym e ∙ n in
        rw t (
          λ k l. elim (ℕ_discrete k 12) [ yes q ↦ ap cur.addrs q ∙ n | no nq ↦ z k (omega arith) ],
          r.size,
          r.blocks,
          λ k l nk. r.own k l nk ∙ ap not (direct_gone gone k a s nk),
          r.others,
        )
    | no n ↦
        let t : (cur.addrs 12 == 0) ≡ false = ground arith in
        let nz : ip.addrs 12 ≢ 0 = λ q. n (e ∙ q) in
        rw t (
          subst
            (λ x. Empties (
              and_then (free_entries nindirect 0 x g)
                (λ g. cleared_at 12 cur (bfree (cur.addrs 12) g))))
            (ap f.blocks (sym e) ∙ sym (ap (λ x. x (cur.addrs 12)) r.blocks))
            (Entries-then cur gone (free_entries nindirect 0 (f.blocks (ip.addrs 12)) g) nz e z a
              (b 12 (omega arith))
              (free_entries-Entries f ip m nindirect 0 gone g nz (omega arith)
                (λ k p q. b k (omega arith)) r)))
  ]

  Directs-then :
      (r : Option (Inode × Fs))
      → Directs f ip m (λ k. false) ip 0 12 r
      → Empties (and_then r (λ s. free_indirect s.0 s.1))
  unfolding and_then
  Directs-then none h = elim h [ ]
  Directs-then (some (cur, g)) (gone, (a, b), r, z, s) =
      free_indirect-Empties cur g gone (s 12 (inr (omega arith))) (λ k l. z k (omega arith) l)
        (λ k l. a k (omega arith) l) (λ k l. b k (inr l)) r

  freed_all : Empties (and_then (free_direct ndirect 0 ip f) (λ s. free_indirect s.0 s.1))
  freed_all = Directs-then (free_direct ndirect 0 ip f) (
      free_direct-Directs f ip m 12 0 (λ k. false) ip f (omega arith) (λ j p q. refl)
        (λ j p q. refl) (Freed-none f ip m))

-- What itrunc gives: an empty file with no block, and a disk on which just the blocks of the old one
-- have become free.
abbrev pub Truncated : Fs → Inode → Option (Inode × Fs) → Type 0
Truncated f ip none = ⊥
Truncated f ip (some (ip', g)) =
    IsFile g ip'
    × (ip'.size ≡ 0)
    × ((k : ℕ) → k < slots → slot g ip' k ≡ 0)
    × (g.blocks ≡ f.blocks)
    × ((k : ℕ) → k < slots → slot f ip k ≢ 0 → g.used (slot f ip k) ≡ false)
    × ((x : ℕ) → ((k : ℕ) → k < slots → slot f ip k ≢ 0 → slot f ip k ≢ x) → g.used x ≡ f.used x)

no_slots : (g : Fs) (ip : Inode) → ((k : ℕ) → k < 13 → ip.addrs k ≡ 0) → (k : ℕ) → slot g ip k ≡ 0
no_slots g ip z k = elim (dec_lt k 13) [
  | yes l ↦ slot_direct g ip k l ∙ z k l
  | no nl ↦
      no_indirect g ip k (omega arith) (slot_direct g ip 12 (omega arith) ∙ z 12 (omega arith))
]

emptied-Truncated :
    (f : Fs) (ip : Inode) (m : IsMapped f ip) (r : Option (Inode × Fs))
    → Empties f ip m r
    → Truncated f ip (emptied r)
unfolding emptied
emptied-Truncated f ip m none h = h
emptied-Truncated f ip m (some (ip', g)) (z, size, blocks, own, others) =
    let none_left = no_slots g (record ip' { size = 0 }) z in
    (
      record {
        mapped = record {
          small = rw size m.small;
          boot = others 0 (λ k l n e. n e) ∙ m.boot;
          taken = λ k l n. absurd (n (none_left k));
          apart = λ j k hj hk n e. absurd (n (none_left j));
        };
        fits = omega arith;
        whole = λ o l. absurd (omega arith);
      },
      refl,
      λ k l. none_left k,
      blocks,
      own,
      others,
    )

-- itrunc of an inode whose blocks are apart from each other and in use never panics: it gives back each
-- block once and no other, changes no contents, and leaves an empty file with no block.
pub itrunc-Truncated : (f : Fs) (ip : Inode) → IsMapped f ip → Truncated f ip (itrunc ip f)
unfolding itrunc
itrunc-Truncated f ip m =
    emptied-Truncated f ip m (and_then (free_direct ndirect 0 ip f) (λ s. free_indirect s.0 s.1))
      (freed_all f ip m)
