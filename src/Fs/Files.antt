-- ===== src/Fs/Files.antt =====
-- writei of fs.c keeps a file a file, and readi gives back what it wrote.
use os_system_calls_scheduli.Base.{
  ◌≢◌, ℕ, ◌+◌, ◌-◌, ◌*◌, ◌/◌, ◌%◌, ◌^◌, ◌<◌, ◌≤◌, ◌≡◌, refl, sym, ap, ◌∙◌, subst, ◌⊎◌, inl, inr,
  true, false, ltb, List, Option, none, some, min, max, length, arith, dec_lt,
}
use os_system_calls_scheduli.Fs.{
  Fs, Inode, bsize, maxfile, bytes_at, store_bytes, write_loop, grow, written, Result, done, fails,
  panics, writei, readi,
}
use os_system_calls_scheduli.Fs.Slots.{slot, index, content, IsMapped}
use os_system_calls_scheduli.Fs.Bytes.{bytes_at_cong, bytes_at-store_bytes}
use os_system_calls_scheduli.Fs.Content.{home}
use os_system_calls_scheduli.Fs.Read.{IsFile, readi_lem}
use os_system_calls_scheduli.Fs.Write.{Wrote, Writes, write_loop-Writes}

-- What writei gives for a range: -1 if it starts behind the end or is too long; panic only if a byte of
-- it has no block yet; otherwise a file, as long as the range needs, with the bytes stored.
abbrev pub Outcome : Fs → Inode → ℕ → List ℕ → Result (Inode × Fs) → Type 0
Outcome f ip off bs fails = (ip.size < off) ⊎ (maxfile * bsize < off + length bs)
Outcome f ip off bs panics =
    (off ≤ ip.size)
    × (off + length bs ≤ maxfile * bsize)
    × ((x : ℕ) × (off ≤ x) × (x < off + length bs) × (home f ip x ≡ 0))
Outcome f ip off bs (done (ip', f')) =
    (off ≤ ip.size)
    × (off + length bs ≤ maxfile * bsize)
    × IsFile f' ip'
    × (ip'.size ≡ max ip.size (off + length bs))
    × ((x : ℕ) → x < maxfile * bsize → content f' ip' x ≡ store_bytes off bs (content f ip) x)
    × ((k : ℕ) → slot f ip k ≢ 0 → slot f' ip' k ≡ slot f ip k)

slot-grow : (f : Fs) (ip : Inode) (off n k : ℕ) → slot f (grow off n ip) k ≡ slot f ip k
unfolding slot grow
slot-grow f ip off n k = elim (dec_lt 0 n) [
  | yes p ↦
      let e : ltb 0 n ≡ true = ground arith in
      elim (dec_lt ip.size off) [
        | yes q ↦ let d : ltb ip.size off ≡ true = ground arith in rw (e, d) refl
        | no nq ↦ let d : ltb ip.size off ≡ false = ground arith in rw (e, d) refl
      ]
  | no np ↦ let e : ltb 0 n ≡ false = ground arith in rw e refl
]

content-grow : (f : Fs) (ip : Inode) (off n o : ℕ) → content f (grow off n ip) o ≡ content f ip o
unfolding content
content-grow f ip off n o = rw (slot-grow f ip off n (index (o / bsize))) refl

size-grow :
    (ip : Inode) (off n : ℕ) → off ≤ ip.size → (grow (off + n) n ip).size ≡ max ip.size (off + n)
unfolding grow
size-grow ip off n h = elim (dec_lt 0 n) [
  | yes p ↦
      let e : ltb 0 n ≡ true = ground arith in
      elim (dec_lt ip.size (off + n)) [
        | yes q ↦ let d : ltb ip.size (off + n) ≡ true = ground arith in rw (e, d) (omega arith)
        | no nq ↦ let d : ltb ip.size (off + n) ≡ false = ground arith in rw (e, d) (omega arith)
      ]
  | no np ↦ let e : ltb 0 n ≡ false = ground arith in rw e (omega arith)
]

grow-IsMapped : (f : Fs) (ip : Inode) (off n : ℕ) → IsMapped f ip → IsMapped f (grow off n ip)
grow-IsMapped f ip off n m = record {
  small = m.small;
  boot = m.boot;
  taken = λ k h z. rw (slot-grow f ip off n k) (m.taken k h (λ y. z (slot-grow f ip off n k ∙ y)));
  apart = λ j k hj hk z e.
      m.apart j k hj hk (λ y. z (slot-grow f ip off n j ∙ y))
        (sym (slot-grow f ip off n j) ∙ e ∙ slot-grow f ip off n k);
}

-- Every byte up to the new size has a block.
Wrote-IsFile :
    (f : Fs) (ip : Inode) (off : ℕ) (bs : List ℕ) (f' : Fs) (ip' : Inode)
    → IsFile f ip
    → off ≤ ip.size
    → off + length bs ≤ maxfile * bsize
    → Wrote f ip off bs f' ip'
    → IsFile f' (grow (off + length bs) (length bs) ip')
Wrote-IsFile f ip off bs f' ip' w h k u =
    let e = u.ip_size in
    let s : (grow (off + length bs) (length bs) ip').size ≡ max ip'.size (off + length bs) =
      size-grow ip' off (length bs) (omega arith) in
    let fits = w.fits in
    record {
      mapped = grow-IsMapped f' ip' (off + length bs) (length bs) u.mapped;
      fits = omega arith;
      whole = λ o l z.
          let y = sym (slot-grow f' ip' (off + length bs) (length bs) (index (o / bsize))) ∙ z in
          elim (dec_lt o ip.size) [
            | yes a ↦ w.whole o a (sym (u.still (index (o / bsize)) (w.whole o a)) ∙ y)
            | no na ↦ u.there o (omega arith) (omega arith) y
          ];
    }

written-Outcome :
    (f : Fs) (ip : Inode) (off : ℕ) (bs : List ℕ) (r : Option (Inode × Fs))
    → IsFile f ip
    → off ≤ ip.size
    → off + length bs ≤ maxfile * bsize
    → Writes f ip off bs r
    → Outcome f ip off bs (written off (length bs) r)
unfolding written
written-Outcome f ip off bs none w h k p = (h, k, p)
written-Outcome f ip off bs (some (ip', f')) w h k u =
    let e = u.ip_size in
    (
      h,
      k,
      Wrote-IsFile f ip off bs f' ip' w h k u,
      size-grow ip' off (length bs) (omega arith) ∙ ap (λ s. max s (off + length bs)) e,
      λ x l. content-grow f' ip' (off + length bs) (length bs) x ∙ u.same x l,
      λ j n. slot-grow f' ip' (off + length bs) (length bs) j ∙ u.still j n,
    )

-- writei of a file, for a place and a count that are uints, fails just when the place is behind the end
-- of the file or the range passes the largest file, panics only if a byte of the range has no block yet,
-- and otherwise gives a file again, as long as the range needs, whose bytes are the old ones with the new
-- ones stored in them and which keeps the blocks it had.
pub writei-Outcome :
    (off : ℕ) (bs : List ℕ) (ip : Inode) (f : Fs)
    → IsFile f ip
    → off < 2 ^ 32
    → length bs < 2 ^ 32
    → Outcome f ip off bs (writei off bs ip f)
unfolding writei
writei-Outcome off bs ip f w h k =
    let fits = w.fits in
    elim (dec_lt ip.size off) [
      | yes p ↦ let a : ltb ip.size off ≡ true = ground arith in rw a (inl p)
      | no np ↦
          let a : ltb ip.size off ≡ false = ground arith in
          elim (dec_lt (maxfile * bsize) (off + length bs)) [
            | yes q ↦ elim (dec_lt (off + length bs) (2 ^ 32)) [
              | yes z ↦
                  let s : (off + length bs) % 2 ^ 32 ≡ off + length bs = omega arith in
                  let b : ltb (off + length bs) off ≡ false = ground arith in
                  let c : ltb (maxfile * bsize) (off + length bs) ≡ true = ground arith in
                  rw (s, a, b, c) (inr q)
              | no nz ↦
                  let s : (off + length bs) % 2 ^ 32 < off = omega arith in
                  let b : ltb ((off + length bs) % 2 ^ 32) off ≡ true = ground arith in
                  rw (a, b) (inr q)
            ]
            | no nq ↦
                let s : (off + length bs) % 2 ^ 32 ≡ off + length bs = omega arith in
                let b : ltb (off + length bs) off ≡ false = ground arith in
                let c : ltb (maxfile * bsize) (off + length bs) ≡ false = ground arith in
                rw (s, a, b, c)
                  (written-Outcome f ip off bs (write_loop (length bs) off bs ip f) w (omega arith)
                    (omega arith)
                    (write_loop-Writes (length bs) off bs ip f w.mapped (omega arith)
                      (omega arith)))
          ]
    ]

wrote_back :
    (f : Fs) (ip : Inode) (off : ℕ) (bs : List ℕ) (r : Result (Inode × Fs)) (ip' : Inode) (f' : Fs)
    → r ≡ done (ip', f')
    → Outcome f ip off bs r
    → readi off (length bs) ip' f' ≡ done (bs, ip', f')
wrote_back f ip off bs r ip' f' e o =
    let (h, k, w, s, same, still) = subst (Outcome f ip off bs) e o in
    let n : min (length bs) (ip'.size - off) ≡ length bs = omega arith in
    let back : bytes_at off (length bs) (content f' ip') ≡ bs =
      bytes_at_cong (length bs) off off (content f' ip') (store_bytes off bs (content f ip))
        (λ i l. same (off + i) (omega arith))
      ∙ bytes_at-store_bytes bs off (content f ip) in
    readi_lem off (length bs) ip' f' w (omega arith) (omega arith)
    ∙ ap (λ m. done (bytes_at off m (content f' ip'), ip', f')) n
    ∙ ap (λ c. done (c, ip', f')) back

-- When writei of a file has returned, readi from the same place gives back the bytes it wrote.
pub readi-writei :
    (off : ℕ) (bs : List ℕ) (ip : Inode) (f : Fs) (ip' : Inode) (f' : Fs)
    → IsFile f ip
    → off < 2 ^ 32
    → length bs < 2 ^ 32
    → writei off bs ip f ≡ done (ip', f')
    → readi off (length bs) ip' f' ≡ done (bs, ip', f')
readi-writei off bs ip f ip' f' w h k e =
    wrote_back f ip off bs (writei off bs ip f) ip' f' e (writei-Outcome off bs ip f w h k)
