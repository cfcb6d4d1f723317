-- ===== src/Fs/Freed.antt =====
-- bfree of fs.c on the blocks of an inode, one slot after another.
use os_system_calls_scheduli.Base.{
  ℕ, ◌<◌, ◌≡◌, refl, sym, ap, ◌∙◌, subst, ◌≢◌, Bool, true, false, not, Option, none, some, ◌==◌,
  arith, ℕ_discrete,
}
use os_system_calls_scheduli.Fs.{Fs, Inode, update, bfree, free_addr}
use os_system_calls_scheduli.Fs.Slots.{slot, slots, IsMapped, update_self, update_ne}

-- The disk `g` differs from `f` in the free map only, where the blocks of the slots in `gone` are free.
pub record Freed (f : Fs) (ip : Inode) (gone : ℕ → Bool) (g : Fs) : Type 0 where
  pub size : g.size ≡ f.size
  pub blocks : g.blocks ≡ f.blocks
  pub own : (k : ℕ) → k < slots → slot f ip k ≢ 0 → g.used (slot f ip k) ≡ not (gone k)
  pub others :
      (x : ℕ) → ((k : ℕ) → k < slots → slot f ip k ≢ 0 → slot f ip k ≢ x) → g.used x ≡ f.used x

-- The call succeeds, and one more slot is gone.
abbrev pub Frees : Fs → Inode → (ℕ → Bool) → Option Fs → Type 0
Frees f ip gone none = ⊥
Frees f ip gone (some g) = Freed f ip gone g

module _ (f : Fs) (ip : Inode) (m : IsMapped f ip) where
  pub Freed-none : Freed f ip (λ k. false) f
  Freed-none = record { size = refl; blocks = refl; own = m.taken; others = λ x h. refl }

  -- The empty slot `k` changes nothing.
  skip :
      (gone : ℕ → Bool) (g : Fs) (k : ℕ)
      → slot f ip k ≡ 0
      → Freed f ip gone g
      → Freed f ip (update gone k true) g
  skip gone g k z r = record {
    size = r.size;
    blocks = r.blocks;
    own = λ j h n.
        r.own j h n ∙ ap not (sym (update_ne gone k true j (λ e. n (ap (slot f ip) e ∙ z))));
    others = r.others;
  }

  pub bfree-Frees :
      (gone : ℕ → Bool) (g : Fs) (k : ℕ)
      → k < slots
      → slot f ip k ≢ 0
      → gone k ≡ false
      → Freed f ip gone g
      → Frees f ip (update gone k true) (bfree (slot f ip k) g)
  unfolding bfree
  bfree-Frees gone g k h n e r =
      let u : g.used (slot f ip k) ≡ true = r.own k h n ∙ ap not e in
      rw u (record {
        size = r.size;
        blocks = r.blocks;
        own = λ j hj nj. elim (ℕ_discrete j k) [
          | yes s ↦
              ap (λ x. update g.used (slot f ip k) false (slot f ip x)) s
              ∙ update_self g.used (slot f ip k) false
              ∙ ap not (sym (ap (update gone k true) s ∙ update_self gone k true))
          | no ns ↦
              update_ne g.used (slot f ip k) false (slot f ip j) (λ q. ns (m.apart j k hj h nj q))
              ∙ r.own j hj nj
              ∙ ap not (sym (update_ne gone k true j ns))
        ];
        others =
            λ x o. update_ne g.used (slot f ip k) false x (λ q. o k h n (sym q)) ∙ r.others x o;
      })

  -- A slot is given back.
  pub free_addr-Frees :
      (gone : ℕ → Bool) (g : Fs) (k a : ℕ)
      → k < slots
      → a ≡ slot f ip k
      → gone k ≡ false
      → Freed f ip gone g
      → Frees f ip (update gone k true) (free_addr a g)
  unfolding free_addr
  free_addr-Frees gone g k a h q e r = elim (ℕ_discrete a 0) [
    | yes z ↦ let t : (a == 0) ≡ true = ground arith in rw t (skip gone g k (sym q ∙ z) r)
    | no nz ↦
        let t : (a == 0) ≡ false = ground arith in
        rw t (
          subst (λ x. Frees f ip (update gone k true) (bfree x g)) (sym q)
            (bfree-Frees gone g k h (λ z. nz (q ∙ z)) e r))
  ]
