-- ===== src/Bio/Same.antt =====
-- Steps of bio.c that leave every buffer its block.
use os_system_calls_scheduli.Base.{
  ℕ, ◌≡◌, refl, sym, ap, ◌∙◌, ◌⊎◌, inl, inr, true, false, ◌==◌, arith, ℕ_discrete,
}
use os_system_calls_scheduli.Strings.{Memory}
use os_system_calls_scheduli.Fs.Slots.{update_self, update_ne}
use os_system_calls_scheduli.Bio.{Buf, Cache, with_buf, idle}
use os_system_calls_scheduli.Bio.Steps.{In, Has, Kept, IsCurrent}

-- The same buffers hold the same blocks.
pub record Same (c c' : Cache) : Type 0 where
  pub into : (i : ℕ) → In i c.order → In i c'.order
  pub back : (i : ℕ) → In i c'.order → In i c.order
  pub dev : (i : ℕ) → (c'.buf i).dev ≡ (c.buf i).dev
  pub blockno : (i : ℕ) → (c'.buf i).blockno ≡ (c.buf i).blockno

pub Has-into : (c c' : Cache) (i n : ℕ) → Same c c' → Has c i n → Has c' i n
Has-into c c' i n s (h, d, b) = (s.into i h, s.dev i ∙ d, s.blockno i ∙ b)

pub Has-back : (c c' : Cache) (i n : ℕ) → Same c c' → Has c' i n → Has c i n
Has-back c c' i n s (h, d, b) = (s.back i h, sym (s.dev i) ∙ d, sym (s.blockno i) ∙ b)

-- A field that the new buffer has from the old one.
pub with_buf-field {ℓ} :
    {A : Type ℓ} (g : Buf → A) (i : ℕ) (b : Buf) (c : Cache)
    → g b ≡ g (c.buf i)
    → (j : ℕ) → g ((with_buf i b c).buf j) ≡ g (c.buf j)
with_buf-field g i b c e j = elim (ℕ_discrete j i) [
  | yes s ↦
      ap (λ k. g ((with_buf i b c).buf k)) s
      ∙ ap g (update_self c.buf i b)
      ∙ e
      ∙ ap (λ k. g (c.buf k)) (sym s)
  | no ne ↦ ap g (update_ne c.buf i b j ne)
]

pub with_buf-Same :
    (i : ℕ) (b : Buf) (c : Cache)
    → b.dev ≡ (c.buf i).dev
    → b.blockno ≡ (c.buf i).blockno
    → Same c (with_buf i b c)
with_buf-Same i b c d n = record {
  into = λ j h. h;
  back = λ j h. h;
  dev = with_buf-field (λ x. x.dev) i b c d;
  blockno = with_buf-field (λ x. x.blockno) i b c n;
}

-- A step that changes neither contents nor disk.
pub IsCurrent-Same :
    (c c' : Cache) (now : ℕ → Memory)
    → Same c c'
    → ((j : ℕ) → (c'.buf j).valid ≡ (c.buf j).valid)
    → ((j : ℕ) → (c'.buf j).bytes ≡ (c.buf j).bytes)
    → c'.disk ≡ c.disk
    → ((j n : ℕ) → Has c j n → Kept (c.buf j) → Kept (c'.buf j) ⊎ (c.disk n ≡ now n))
    → IsCurrent c now
    → IsCurrent c' now
IsCurrent-Same c c' now s v b d k r = record {
  apart = λ i j n hi hj. r.apart i j n (Has-back c c' i n s hi) (Has-back c c' j n s hj);
  in_cache = λ i n h e. b i ∙ r.in_cache i n (Has-back c c' i n s h) (sym (v i) ∙ e);
  on_disk = λ n. elim (r.on_disk n) [
    | inl e ↦ inl (ap (λ x. x n) d ∙ e)
    | inr w ↦
        let (i, h, e, p) = w in
        elim (k i n h p) [
          | inl p' ↦ inr (i, Has-into c c' i n s h, v i ∙ e, p')
          | inr e' ↦ inl (ap (λ x. x n) d ∙ e')
        ]
  ];
}

-- A buffer that is not kept is no witness.
pub idle-unkept : (b : Buf) → idle b ≡ true → ¬ Kept b
idle-unkept b e (inl d) =
    let r : idle b ≡ false = rw d (ground arith) in let g : true ≡ false = sym e ∙ r in cc
idle-unkept b e (inr p) =
    let r : (b.refcnt == 0) ≡ false = ground arith in
    let g : true ≡ false = sym e ∙ (rw r refl) in cc
