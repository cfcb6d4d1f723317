-- ===== src/Fs/Write.antt =====
-- writei of fs.c stores bytes in the file.
use os_system_calls_scheduli.Base.{
  ℕ, zero, suc, ◌+◌, ◌-◌, ◌*◌, ◌/◌, ◌%◌, ◌<◌, ◌≤◌, ◌≡◌, refl, sym, ap, ◌∙◌, subst, ◌≢◌, true, ltb,
  List, [], ◌∷◌, Option, none, some, min, length, take, drop, arith, dec_lt, ℕ_discrete,
}
use os_system_calls_scheduli.Fs.{
  Fs, Inode, bsize, maxfile, bmap, store_bytes, Mapped, write_chunk, write_loop,
}
use os_system_calls_scheduli.Fs.Slots.{slot, index, content, IsMapped}
use os_system_calls_scheduli.Fs.Bmap.{Mapping, bmap-Mapping}
use os_system_calls_scheduli.Fs.Grow.{Unseen}
use os_system_calls_scheduli.Fs.Bytes.{
  length-take, length-drop, store_bytes_cong, store_bytes-split,
}
use os_system_calls_scheduli.Fs.Content.{
  home, with_block, slot-with_block, with_block-IsMapped, store_bytes-content,
}

-- The bytes `bs` have been stored in the file from `off` on, in blocks of their own; the other bytes
-- and the slots in use are as they were.
pub record Wrote (f : Fs) (ip : Inode) (off : ℕ) (bs : List ℕ) (f' : Fs) (ip' : Inode)
    : Type 0 where
  pub mapped : IsMapped f' ip'
  pub ip_size : ip'.size ≡ ip.size
  pub same : (x : ℕ) → x < maxfile * bsize → content f' ip' x ≡ store_bytes off bs (content f ip) x
  pub still : (k : ℕ) → slot f ip k ≢ 0 → slot f' ip' k ≡ slot f ip k
  pub there : (x : ℕ) → off ≤ x → x < off + length bs → home f' ip' x ≢ 0

-- What the loop of writei gives; without a result a byte of the range had no block.
abbrev pub Writes : Fs → Inode → ℕ → List ℕ → Option (Inode × Fs) → Type 0
Writes f ip off bs none = (x : ℕ) × (off ≤ x) × (x < off + length bs) × (home f ip x ≡ 0)
Writes f ip off bs (some (ip', f')) = Wrote f ip off bs f' ip'

Wrote-none : (f : Fs) (ip : Inode) (off : ℕ) → IsMapped f ip → Wrote f ip off [] f ip
unfolding store_bytes
Wrote-none f ip off m = record {
  mapped = m;
  ip_size = refl;
  same = λ x h. refl;
  still = λ k h. refl;
  there = λ x l h. absurd (omega arith);
}

block_same :
    (off x n : ℕ) → n ≤ bsize - off % bsize → off ≤ x → x < off + n → x / bsize ≡ off / bsize
block_same off x n l a b = omega arith

-- A round of the loop: the bytes that fit in the block of the byte `off`.
Wrote-block :
    (f : Fs) (ip : Inode) (f' : Fs) (ip' : Inode) (off : ℕ) (bs : List ℕ)
    → Unseen f ip f' ip'
    → off < maxfile * bsize
    → home f' ip' off ≢ 0
    → length bs ≤ bsize - off % bsize
    → Wrote f ip off bs
        (with_block
          (home f' ip' off)
          (store_bytes (off % bsize) bs (f'.blocks (home f' ip' off)))
          f')
        ip'
Wrote-block f ip f' ip' off bs u h nz l =
    let c = store_bytes (off % bsize) bs (f'.blocks (home f' ip' off)) in
    record {
      mapped = with_block-IsMapped f' ip' u.mapped off h nz c;
      ip_size = u.ip_size;
      same = λ x k.
          store_bytes-content f' ip' off bs u.mapped h nz l x k
          ∙ store_bytes_cong bs off off (content f' ip') (content f ip) x x refl (u.same x k);
      still = λ k n. slot-with_block f' ip' u.mapped off h nz c k ∙ u.still k n;
      there = λ x a b.
          let e : x / bsize ≡ off / bsize = block_same off x (length bs) l a b in
          λ z. nz (
            ap (λ d. slot f' ip' (index d)) (sym e)
            ∙ sym (slot-with_block f' ip' u.mapped off h nz c (index (x / bsize)))
            ∙ z);
    }

-- Bytes stored in two parts.
Wrote-split :
    (f : Fs) (ip : Inode) (f' : Fs) (ip' : Inode) (f'' : Fs) (ip'' : Inode) (off k : ℕ)
    (bs : List ℕ)
    → k ≤ length bs
    → Wrote f ip off (take k bs) f' ip'
    → Wrote f' ip' (off + k) (drop k bs) f'' ip''
    → Wrote f ip off bs f'' ip''
Wrote-split f ip f' ip' f'' ip'' off k bs h u v = record {
  mapped = v.mapped;
  ip_size = v.ip_size ∙ u.ip_size;
  same = λ x l.
      v.same x l
      ∙ store_bytes_cong (drop k bs) (off + k) (off + k) (content f' ip')
          (store_bytes off (take k bs) (content f ip)) x x refl (u.same x l)
      ∙ ap (λ m. m x) (store_bytes-split k bs off (content f ip) h);
  still = λ j n. v.still j (λ z. n (sym (u.still j n) ∙ z)) ∙ u.still j n;
  there = λ x a b. elim (dec_lt x (off + k)) [
    | yes l ↦
        let e = length-take k bs h in
        let n = u.there x a (omega arith) in λ z. n (sym (v.still (index (x / bsize)) n) ∙ z)
    | no nl ↦ let e = length-drop k bs in v.there x (omega arith) (omega arith)
  ];
}

-- The rounds after one that has stored the first bytes.
writes_after :
    (f : Fs) (ip : Inode) (f' : Fs) (ip' : Inode) (off k : ℕ) (bs : List ℕ)
    (r : Option (Inode × Fs))
    → k ≤ length bs
    → Wrote f ip off (take k bs) f' ip'
    → Writes f' ip' (off + k) (drop k bs) r
    → Writes f ip off bs r
writes_after f ip f' ip' off k bs none h u (x, a, b, z) =
    let e = length-drop k bs in
    (
      x,
      omega arith,
      omega arith,
      elim (ℕ_discrete (home f ip x) 0) [
        | yes y ↦ y
        | no ny ↦ absurd (ny (sym (u.still (index (x / bsize)) ny) ∙ z))
      ],
    )
writes_after f ip f' ip' off k bs (some (ip'', f'')) h u v =
    Wrote-split f ip f' ip' f'' ip'' off k bs h u v

write_chunk-Writes :
    (f : Fs) (ip : Inode) (off : ℕ) (bs : List ℕ)
    (loop : ℕ → List ℕ → Inode → Fs → Option (Inode × Fs)) (r : Mapped)
    → 0 < length bs
    → off + length bs ≤ maxfile * bsize
    → ((o : ℕ) (cs : List ℕ) (ip' : Inode) (f' : Fs)
        → IsMapped f' ip'
        → length cs < length bs
        → o + length cs ≤ maxfile * bsize
        → Writes f' ip' o cs (loop o cs ip' f'))
    → Mapping f ip (index (off / bsize)) r
    → Writes f ip off bs (write_chunk off bs loop r)
unfolding write_chunk
write_chunk-Writes f ip off bs loop none p h w z = (off, omega arith, omega arith, z)
write_chunk-Writes f ip off bs loop (some (a, ip', f')) p h w (nz, e, u, s) =
    let m = min (length bs) (bsize - off % bsize) in
    let t = length-take m bs (omega arith) in
    let d = length-drop m bs in
    let g : Wrote f ip off (take m bs)
        (with_block a (store_bytes (off % bsize) (take m bs) (f'.blocks a)) f') ip' =
      subst
        (λ c.
          Wrote f ip off (take m bs)
            (with_block c (store_bytes (off % bsize) (take m bs) (f'.blocks c)) f') ip')
        e
        (Wrote-block f ip f' ip' off (take m bs) u (omega arith) (λ z. nz (sym e ∙ z))
          (omega arith)) in
    let f2 = with_block a (store_bytes (off % bsize) (take m bs) (f'.blocks a)) f' in
    writes_after f ip f2 ip' off m bs (loop (off + m) (drop m bs) ip' f2) (omega arith) g
      (w (off + m) (drop m bs) ip' f2 g.mapped (omega arith) (omega arith))

pub write_loop-Writes :
    (fuel off : ℕ) (bs : List ℕ) (ip : Inode) (f : Fs)
    → IsMapped f ip
    → length bs ≤ fuel
    → off + length bs ≤ maxfile * bsize
    → Writes f ip off bs (write_loop fuel off bs ip f)
unfolding write_loop
write_loop-Writes zero off [] ip f m l h = Wrote-none f ip off m
write_loop-Writes zero off (b ∷ bs) ip f m l h = absurd (omega arith)
write_loop-Writes (suc fuel) off [] ip f m l h = Wrote-none f ip off m
write_loop-Writes (suc fuel) off (b ∷ bs) ip f m l h =
    let e : ltb 0 (length (b ∷ bs)) ≡ true = ground arith in
    rw e (
      write_chunk-Writes f ip off (b ∷ bs) (λ o cs. write_loop fuel o cs) (bmap (off / bsize) ip f)
        (omega arith) h
        (λ o cs ip' f' m' l' h'. write_loop-Writes fuel o cs ip' f' m' (omega arith) h')
        (bmap-Mapping f ip (off / bsize) m (omega arith)))
