-- ===== src/Fs/Directs.antt =====
-- The loop of itrunc of fs.c over the direct blocks.
use os_system_calls_scheduli.Base.{
  ℕ, zero, suc, ◌+◌, ◌<◌, ◌≤◌, ◌≡◌, refl, sym, ap, ◌∙◌, subst, ◌⊎◌, inl, Bool, true, false, Option,
  none, some, arith, ℕ_discrete,
}
use os_system_calls_scheduli.Fs.{
  Fs, Inode, update, ndirect, free_addr, cleared_at, and_then, free_direct,
}
use os_system_calls_scheduli.Fs.Slots.{IsMapped, update_self, update_ne}
use os_system_calls_scheduli.Fs.Stored.{slot_direct}
use os_system_calls_scheduli.Fs.Freed.{Freed, Frees, free_addr-Frees}
use os_system_calls_scheduli.Fs.Entries.{Gone, Gone-none, Gone-suc}

module _ (f : Fs) (ip : Inode) (m : IsMapped f ip) where
  -- What the loop over the direct blocks gives, from the inode `cur`.
  abbrev pub Directs : (ℕ → Bool) → Inode → ℕ → ℕ → Option (Inode × Fs) → Type 0
  Directs gone cur lo hi none = ⊥
  Directs gone cur lo hi (some (ip', g)) =
      (gone' : ℕ → Bool) × Gone gone lo hi gone'
      × Freed f ip gone' g
      × ((k : ℕ) → lo ≤ k → k < hi → ip'.addrs k ≡ 0)
      × ((k : ℕ) → (k < lo) ⊎ (hi ≤ k) → ip'.addrs k ≡ cur.addrs k)

  Directs-suc :
      (gone : ℕ → Bool) (cur : Inode) (lo hi : ℕ) (r : Option (Inode × Fs))
      → lo < hi
      → Directs (update gone lo true) (record cur { addrs = update cur.addrs lo 0 }) (lo + 1) hi r
      → Directs gone cur lo hi r
  Directs-suc gone cur lo hi none l h = h
  Directs-suc gone cur lo hi (some (ip', g)) l (gone', o, r, z, s) = (
    gone',
    Gone-suc gone lo hi gone' l o,
    r,
    λ k a b. elim (ℕ_discrete k lo) [
      | yes e ↦ s k (inl (omega arith)) ∙ ap (update cur.addrs lo 0) e ∙ update_self cur.addrs lo 0
      | no ne ↦ z k (omega arith) b
    ],
    λ k h. s k (ground arith) ∙ update_ne cur.addrs lo 0 k (ground arith),
  )

  Directs-and_then :
      (gone : ℕ → Bool) (cur : Inode) (lo hi : ℕ) (r : Option Fs)
      (loop : Inode × Fs → Option (Inode × Fs))
      → lo < hi
      → Frees f ip (update gone lo true) r
      → ((g : Fs)
          → Freed f ip (update gone lo true) g
          → Directs
              (update gone lo true)
              (record cur { addrs = update cur.addrs lo 0 })
              (lo + 1)
              hi
              (loop (record cur { addrs = update cur.addrs lo 0 }, g)))
      → Directs gone cur lo hi (and_then (cleared_at lo cur r) loop)
  unfolding and_then cleared_at
  Directs-and_then gone cur lo hi none loop l h rest = elim h [ ]
  Directs-and_then gone cur lo hi (some g) loop l h rest =
      Directs-suc gone cur lo hi (loop (record cur { addrs = update cur.addrs lo 0 }, g)) l
        (rest g h)

  pub free_direct-Directs :
      (n k : ℕ) (gone : ℕ → Bool) (cur : Inode) (g : Fs)
      → k + n ≤ ndirect
      → ((j : ℕ) → k ≤ j → j < k + n → gone j ≡ false)
      → ((j : ℕ) → k ≤ j → j < k + n → cur.addrs j ≡ ip.addrs j)
      → Freed f ip gone g
      → Directs gone cur k (k + n) (free_direct n k cur g)
  unfolding free_direct
  free_direct-Directs zero k gone cur g h still same r =
      let z : k + 0 ≡ k = omega arith in
      rw z (gone, Gone-none gone k, r, λ j a b. absurd (omega arith), λ j p. refl)
  free_direct-Directs (suc n) k gone cur g h still same r =
      let next = record cur { addrs = update cur.addrs k 0 } in
      let hi : k + 1 + n ≡ k + suc n = omega arith in
      Directs-and_then gone cur k (k + suc n) (free_addr (cur.addrs k) g)
        (λ s. free_direct n (k + 1) s.0 s.1) (omega arith)
        (free_addr-Frees f ip m gone g k (cur.addrs k) (omega arith)
          (same k (omega arith) (omega arith) ∙ sym (slot_direct f ip k (omega arith)))
          (still k (omega arith) (omega arith)) r)
        (λ g' r'.
          subst (λ x. Directs (update gone k true) next (k + 1) x (free_direct n (k + 1) next g'))
            hi
            (free_direct-Directs n (k + 1) (update gone k true) next g' (omega arith)
              (λ j p q. update_ne gone k true j (omega arith) ∙ still j (omega arith) (omega arith))
              (λ j p q.
                update_ne cur.addrs k 0 j (omega arith) ∙ same j (omega arith) (omega arith))
              r'))
