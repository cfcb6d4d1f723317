-- ===== src/Fs/Entries.antt =====
-- The loop of itrunc of fs.c over the entries of the indirect block.
use os_system_calls_scheduli.Base.{
  ℕ, zero, suc, ◌+◌, ◌-◌, ◌*◌, ◌<◌, ◌≤◌, ◌≡◌, refl, sym, ap, ◌∙◌, subst, ◌≢◌, ◌⊎◌, inl, Bool, true,
  false, Option, none, some, arith, ℕ_discrete,
}
use os_system_calls_scheduli.Fs.{
  Fs, Inode, update, nindirect, load_word, free_addr, and_then, free_entries,
}
use os_system_calls_scheduli.Fs.Slots.{slot, IsMapped, update_self, update_ne}
use os_system_calls_scheduli.Fs.Stored.{slot_indirect, entry_some}
use os_system_calls_scheduli.Fs.Freed.{Freed, Frees, free_addr-Frees}

-- The slots from `lo` to `hi` have gone, and no others that had not.
abbrev pub Gone : (ℕ → Bool) → ℕ → ℕ → (ℕ → Bool) → Type 0
Gone gone lo hi gone' =
    ((k : ℕ) → lo ≤ k → k < hi → gone' k ≡ true)
    × ((k : ℕ) → (k < lo) ⊎ (hi ≤ k) → gone' k ≡ gone k)

pub Gone-none : (gone : ℕ → Bool) (lo : ℕ) → Gone gone lo lo gone
Gone-none gone lo = (λ k a b. absurd (omega arith), λ k h. refl)

pub Gone-suc :
    (gone : ℕ → Bool) (lo hi : ℕ) (gone' : ℕ → Bool)
    → lo < hi
    → Gone (update gone lo true) (lo + 1) hi gone'
    → Gone gone lo hi gone'
Gone-suc gone lo hi gone' l (a, b) = (
  λ k p q. elim (ℕ_discrete k lo) [
    | yes e ↦ b k (inl (omega arith)) ∙ ap (update gone lo true) e ∙ update_self gone lo true
    | no ne ↦ a k (omega arith) q
  ],
  λ k h. b k (ground arith) ∙ update_ne gone lo true k (ground arith),
)

module _ (f : Fs) (ip : Inode) (m : IsMapped f ip) where
  -- What the loop over the entries gives.
  abbrev pub Entries : (ℕ → Bool) → ℕ → ℕ → Option Fs → Type 0
  Entries gone lo hi none = ⊥
  Entries gone lo hi (some g) = (gone' : ℕ → Bool) × Gone gone lo hi gone' × Freed f ip gone' g

  Entries-suc :
      (gone : ℕ → Bool) (lo hi : ℕ) (r : Option Fs)
      → lo < hi
      → Entries (update gone lo true) (lo + 1) hi r
      → Entries gone lo hi r
  Entries-suc gone lo hi none l h = h
  Entries-suc gone lo hi (some g) l (gone', o, r) = (gone', Gone-suc gone lo hi gone' l o, r)

  Entries-and_then :
      (gone : ℕ → Bool) (lo hi : ℕ) (r : Option Fs) (loop : Fs → Option Fs)
      → lo < hi
      → Frees f ip (update gone lo true) r
      → ((g : Fs)
          → Freed f ip (update gone lo true) g
          → Entries (update gone lo true) (lo + 1) hi (loop g))
      → Entries gone lo hi (and_then r loop)
  unfolding and_then
  Entries-and_then gone lo hi none loop l h rest = elim h [ ]
  Entries-and_then gone lo hi (some g) loop l h rest = Entries-suc gone lo hi (loop g) l (rest g h)

  slot_entry :
      (j : ℕ) → ip.addrs 12 ≢ 0 → slot f ip (13 + j) ≡ load_word (4 * j) (f.blocks (ip.addrs 12))
  slot_entry j nz =
      let e : 13 + j - 13 ≡ j = omega arith in
      slot_indirect f ip (13 + j) (omega arith)
      ∙ entry_some (ip.addrs 12) (13 + j - 13) f nz
      ∙ ap (λ i. load_word (4 * i) (f.blocks (ip.addrs 12))) e

  pub free_entries-Entries :
      (n j : ℕ) (gone : ℕ → Bool) (g : Fs)
      → ip.addrs 12 ≢ 0
      → j + n ≤ nindirect
      → ((k : ℕ) → 13 + j ≤ k → k < 13 + j + n → gone k ≡ false)
      → Freed f ip gone g
      → Entries gone (13 + j) (13 + j + n) (free_entries n j (f.blocks (ip.addrs 12)) g)
  unfolding free_entries
  free_entries-Entries zero j gone g nz h still r =
      let z : 13 + j + 0 ≡ 13 + j = omega arith in rw z (gone, Gone-none gone (13 + j), r)
  free_entries-Entries (suc n) j gone g nz h still r =
      let a = f.blocks (ip.addrs 12) in
      let t : 13 + (j + 1) ≡ 13 + j + 1 = omega arith in
      let hi : 13 + (j + 1) + n ≡ 13 + j + suc n = omega arith in
      Entries-and_then gone (13 + j) (13 + j + suc n) (free_addr (load_word (4 * j) a) g)
        (λ g'. free_entries n (j + 1) a g') (omega arith)
        (free_addr-Frees f ip m gone g (13 + j) (load_word (4 * j) a) (omega arith)
          (sym (slot_entry j nz)) (still (13 + j) (omega arith) (omega arith)) r)
        (λ g' r'.
          subst
            (λ x. Entries (update gone (13 + j) true) (13 + j + 1) x (free_entries n (j + 1) a g'))
            hi
            (subst
              (λ x.
                Entries (update gone (13 + j) true) x (13 + (j + 1) + n)
                  (free_entries n (j + 1) a g'))
              t
              (free_entries-Entries n (j + 1) (update gone (13 + j) true) g' nz (omega arith)
                (λ k p q.
                  update_ne gone (13 + j) true k (omega arith)
                  ∙ still k (omega arith) (omega arith))
                r')))
