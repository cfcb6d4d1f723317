-- ===== src/Bio/Current.antt =====
-- Steps of bio.c that give a buffer another block or other contents.
use os_system_calls_scheduli.Base.{
  ℕ, ◌<◌, ◌≡◌, sym, ap, ◌∙◌, subst, ◌≢◌, inl, inr, true, false, ℕ_discrete,
}
use os_system_calls_scheduli.Strings.{Memory}
use os_system_calls_scheduli.Fs.{update}
use os_system_calls_scheduli.Fs.Slots.{update_self, update_ne}
use os_system_calls_scheduli.Bio.{Buf, Cache, with_buf, idle}
use os_system_calls_scheduli.Bio.Steps.{Has, Kept, IsCurrent}
use os_system_calls_scheduli.Bio.Same.{
  Has-into, Has-back, with_buf-field, with_buf-Same, idle-unkept,
}

module _ (c : Cache) (i : ℕ) (b : Buf) where
  -- A buffer other than the one that changes.
  Has-other : (j n : ℕ) → j ≢ i → Has (with_buf i b c) j n → Has c j n
  Has-other j n ne (h, d, m) =
      let e = update_ne c.buf i b j ne in
      (h, sym (ap (λ x. x.dev) e) ∙ d, sym (ap (λ x. x.blockno) e) ∙ m)

  other-Has : (j n : ℕ) → j ≢ i → Has c j n → Has (with_buf i b c) j n
  other-Has j n ne (h, d, m) =
      let e = update_ne c.buf i b j ne in (h, ap (λ x. x.dev) e ∙ d, ap (λ x. x.blockno) e ∙ m)

  block_self : (j n : ℕ) → j ≡ i → Has (with_buf i b c) j n → b.blockno ≡ n
  block_self j n e (h, d, m) =
      sym (ap (λ x. x.blockno) (ap (with_buf i b c).buf e ∙ update_self c.buf i b)) ∙ m

  -- The reason to keep another buffer.
  Kept-other :
      (j n : ℕ)
      → j ≢ i
      → Has c j n
      → (c.buf j).valid ≡ true
      → Kept (c.buf j)
      → (k : ℕ) × Has (with_buf i b c) k n
        × (((with_buf i b c).buf k).valid ≡ true)
        × Kept ((with_buf i b c).buf k)
  Kept-other j n ne h v k =
      let e = update_ne c.buf i b j ne in
      (j, other-Has j n ne h, ap (λ x. x.valid) e ∙ v, subst Kept (sym e) k)

true_false : {A : Type 0} → true ≡ false → A
true_false e = absurd (let g : true ≡ false = e in cc)

module _ (c : Cache) (now : ℕ → Memory) (r : IsCurrent c now) where
  -- A new buffer for a block that has none.
  pub recycle-IsCurrent :
      (i n : ℕ) (b : Buf)
      → idle (c.buf i) ≡ true
      → ((j : ℕ) → ¬ Has c j n)
      → b.valid ≡ false
      → b.blockno ≡ n
      → IsCurrent (with_buf i b c) now
  recycle-IsCurrent i n b e no_has v m = record {
    apart = λ j k l hj hk. elim (ℕ_discrete j i) [
      | yes ej ↦ elim (ℕ_discrete k i) [
        | yes ek ↦ ej ∙ sym ek
        | no nk ↦ absurd (
            no_has k
              (subst (Has c k) (sym (block_self c i b j l ej hj) ∙ m) (Has-other c i b k l nk hk)))
      ]
      | no nj ↦ elim (ℕ_discrete k i) [
        | yes ek ↦ absurd (
            no_has j
              (subst (Has c j) (sym (block_self c i b k l ek hk) ∙ m) (Has-other c i b j l nj hj)))
        | no nk ↦ r.apart j k l (Has-other c i b j l nj hj) (Has-other c i b k l nk hk)
      ]
    ];
    in_cache = λ j l h t. elim (ℕ_discrete j i) [
      | yes ej ↦
          true_false
            (sym t ∙ ap (λ x. x.valid) (ap (with_buf i b c).buf ej ∙ update_self c.buf i b) ∙ v)
      | no nj ↦
          let o = update_ne c.buf i b j nj in
          ap (λ x. x.bytes) o
          ∙ r.in_cache j l (Has-other c i b j l nj h) (sym (ap (λ x. x.valid) o) ∙ t)
    ];
    on_disk = λ l. elim (r.on_disk l) [
      | inl d ↦ inl d
      | inr w ↦
          let (j, h, t, k) = w in
          elim (ℕ_discrete j i) [
            | yes ej ↦ absurd (idle-unkept (c.buf i) e (subst (λ x. Kept (c.buf x)) ej k))
            | no nj ↦ inr (Kept-other c i b j l nj h t k)
          ]
    ];
  }

  -- The disk has the block of a buffer that is not valid.
  invalid_disk : (i n : ℕ) → Has c i n → (c.buf i).valid ≡ false → c.disk n ≡ now n
  invalid_disk i n h v = elim (r.on_disk n) [
    | inl e ↦ e
    | inr w ↦
        let (j, k, e, p) = w in
        true_false (sym e ∙ ap (λ x. (c.buf x).valid) (r.apart j i n k h) ∙ v)
  ]

  -- The block is read into its buffer.
  pub read-IsCurrent :
      (i n : ℕ) (b : Buf)
      → Has c i n
      → (c.buf i).valid ≡ false
      → b.dev ≡ (c.buf i).dev
      → b.blockno ≡ (c.buf i).blockno
      → b.bytes ≡ c.disk n
      → IsCurrent (with_buf i b c) now
  read-IsCurrent i n b h v d m y =
      let s = with_buf-Same i b c d m in
      record {
        apart = λ j k l hj hk.
            r.apart j k l (Has-back c (with_buf i b c) j l s hj)
              (Has-back c (with_buf i b c) k l s hk);
        in_cache = λ j l hj t. elim (ℕ_discrete j i) [
          | yes ej ↦
              let q : n ≡ l = sym h.2 ∙ sym m ∙ block_self c i b j l ej hj in
              ap (λ x. x.bytes) (ap (with_buf i b c).buf ej ∙ update_self c.buf i b)
              ∙ y
              ∙ invalid_disk i n h v
              ∙ ap now q
          | no nj ↦
              let o = update_ne c.buf i b j nj in
              ap (λ x. x.bytes) o
              ∙ r.in_cache j l (Has-other c i b j l nj hj) (sym (ap (λ x. x.valid) o) ∙ t)
        ];
        on_disk = λ l. elim (r.on_disk l) [
          | inl e ↦ inl e
          | inr w ↦
              let (j, k, t, p) = w in
              elim (ℕ_discrete j i) [
                | yes ej ↦ true_false (sym t ∙ ap (λ x. (c.buf x).valid) ej ∙ v)
                | no nj ↦ inr (Kept-other c i b j l nj k t p)
              ]
        ];
      }

  -- The block is written from its buffer.
  pub write-IsCurrent :
      (i n : ℕ) (b : Buf)
      → Has c i n
      → (c.buf i).valid ≡ true
      → b.dev ≡ (c.buf i).dev
      → b.blockno ≡ (c.buf i).blockno
      → b.valid ≡ (c.buf i).valid
      → b.bytes ≡ (c.buf i).bytes
      → IsCurrent (record (with_buf i b c) { disk = update c.disk n b.bytes }) now
  write-IsCurrent i n b h v d m t y =
      let c' = with_buf i b c in
      let s = with_buf-Same i b c d m in
      record {
        apart = λ j k l hj hk. r.apart j k l (Has-back c c' j l s hj) (Has-back c c' k l s hk);
        in_cache = λ j l hj e.
            with_buf-field (λ x. x.bytes) i b c y j
            ∙ r.in_cache j l (Has-back c c' j l s hj)
                (sym (with_buf-field (λ x. x.valid) i b c t j) ∙ e);
        on_disk = λ l. elim (ℕ_discrete l n) [
          | yes e ↦ inl (
              ap (update c.disk n b.bytes) e
              ∙ update_self c.disk n b.bytes
              ∙ y
              ∙ r.in_cache i n h v
              ∙ ap now (sym e))
          | no ne ↦ elim (r.on_disk l) [
            | inl e ↦ inl (update_ne c.disk n b.bytes l ne ∙ e)
            | inr w ↦
                let (j, k, u, p) = w in
                inr (
                  Kept-other c i b j l (λ e. ne (sym k.2 ∙ ap (λ x. (c.buf x).blockno) e ∙ h.2)) k u
                    p)
          ]
        ];
      }

  -- The holder of a buffer changes its contents.
  pub change-IsCurrent :
      (i n : ℕ) (b : Buf)
      → Has c i n
      → b.dev ≡ (c.buf i).dev
      → b.blockno ≡ (c.buf i).blockno
      → b.valid ≡ true
      → 0 < b.refcnt
      → IsCurrent (with_buf i b c) (update now n b.bytes)
  change-IsCurrent i n b h d m t p =
      let c' = with_buf i b c in
      let s = with_buf-Same i b c d m in
      let self = update_self c.buf i b in
      record {
        apart = λ j k l hj hk. r.apart j k l (Has-back c c' j l s hj) (Has-back c c' k l s hk);
        in_cache = λ j l hj e. elim (ℕ_discrete j i) [
          | yes ej ↦
              let q : l ≡ n = sym (block_self c i b j l ej hj) ∙ m ∙ h.2 in
              ap (λ x. x.bytes) (ap (with_buf i b c).buf ej ∙ self)
              ∙ sym (ap (update now n b.bytes) q ∙ update_self now n b.bytes)
          | no nj ↦
              let o = update_ne c.buf i b j nj in
              let k = Has-other c i b j l nj hj in
              ap (λ x. x.bytes) o
              ∙ r.in_cache j l k (sym (ap (λ x. x.valid) o) ∙ e)
              ∙ sym (update_ne now n b.bytes l (λ q. nj (r.apart j i n (subst (Has c j) q k) h)))
        ];
        on_disk = λ l. elim (ℕ_discrete l n) [
          | yes q ↦ inr (
            i,
            Has-into c c' i l s (subst (Has c i) (sym q) h),
            ap (λ x. x.valid) self ∙ t,
            inr (subst (λ x. 0 < x.refcnt) (sym self) p),
          )
          | no ne ↦ elim (r.on_disk l) [
            | inl e ↦ inl (e ∙ sym (update_ne now n b.bytes l ne))
            | inr w ↦
                let (j, k, u, p') = w in
                inr (
                  Kept-other c i b j l (λ e. ne (sym k.2 ∙ ap (λ x. (c.buf x).blockno) e ∙ h.2)) k u
                    p')
          ]
        ];
      }
