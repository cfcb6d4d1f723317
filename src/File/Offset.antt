-- ===== src/File/Offset.antt =====
-- filewrite and fileread of file.c on a file of fs.c, across the calls of writei.
use os_system_calls_scheduli.Base.{
  ℕ, zero, suc, ◌+◌, ◌-◌, ◌*◌, ◌/◌, ◌%◌, ◌^◌, ◌<◌, ◌≤◌, ◌≡◌, refl, sym, ap, ◌∙◌, ◌⊎◌, inl, inr,
  Bool, true, false, ltb, if◌then◌else◌, ◌==◌, List, [], ◌∷◌, none, some, min, max, length, take,
  drop, arith, ℕ_discrete,
}
use os_system_calls_scheduli.Fs.{
  Fs, Inode, bsize, maxfile, store_bytes, Result, done, fails, panics, writei,
}
use os_system_calls_scheduli.Fs.Slots.{index, content}
use os_system_calls_scheduli.Fs.Bytes.{length-take, length-drop, store_bytes_cong}
use os_system_calls_scheduli.Fs.Content.{home}
use os_system_calls_scheduli.Fs.Read.{IsFile}
use os_system_calls_scheduli.Fs.Files.{Outcome, writei-Outcome}
use os_system_calls_scheduli.File.{max_write, Sent, sent_chunk, filewrite_loop, filewrite_inode}

-- The first `k` of the bytes are in the file and the offset is behind them. All are written, or the
-- next round would pass the largest file.
pub record Sending (off : ℕ) (bs : List ℕ) (ip : Inode) (f : Fs) (k : ℕ) (ok : Bool) (off' : ℕ)
    (ip' : Inode) (f' : Fs) : Type 0 where
  pub file : IsFile f' ip'
  pub count : k ≤ length bs
  pub offset : off' ≡ off + k
  pub size : ip'.size ≡ max ip.size (off + k)
  pub same :
      (x : ℕ)
      → x < maxfile * bsize
      → content f' ip' x ≡ store_bytes off (take k bs) (content f ip) x
  pub all : ok ≡ true → k ≡ length bs
  pub too_long : ok ≡ false → maxfile * bsize < off + k + min (length bs - k) max_write

-- What filewrite gives; it panics only if a byte of the range has no block yet.
abbrev pub SentAs : ℕ → List ℕ → Inode → Fs → Sent → Type 0
SentAs off bs ip f none = (x : ℕ) × (off ≤ x) × (x < off + length bs) × (home f ip x ≡ 0)
SentAs off bs ip f (some (ok, off', ip', f')) = (k : ℕ) × Sending off bs ip f k ok off' ip' f'

store_bytes-take :
    (n k : ℕ) (bs : List ℕ) (o : ℕ) (m : ℕ → ℕ)
    → n ≤ length bs
    → store_bytes (o + n) (take k (drop n bs)) (store_bytes o (take n bs) m)
      ≡ store_bytes o (take (n + k) bs) m
unfolding store_bytes
store_bytes-take zero k bs o m h =
    let z : o + 0 ≡ o = omega arith in let z' : 0 + k ≡ k = omega arith in rw (z, z') refl
store_bytes-take (suc n) k [] o m h = absurd (omega arith)
store_bytes-take (suc n) k (b ∷ bs) o m h =
    let s : o + suc n ≡ o + 1 + n = omega arith in
    let t : suc n + k ≡ suc (n + k) = omega arith in
    rw (s, t) (store_bytes-take n k bs (o + 1) (λ x. if x == o then b else m x) (omega arith))

-- Nothing is written.
Sending-none :
    (off : ℕ) (bs : List ℕ) (ip : Inode) (f : Fs) (ok : Bool)
    → IsFile f ip
    → off ≤ ip.size
    → (ok ≡ true → 0 ≡ length bs)
    → (ok ≡ false → maxfile * bsize < off + min (length bs) max_write)
    → Sending off bs ip f 0 ok off ip f
unfolding store_bytes
Sending-none off bs ip f ok w h a t = record {
  file = w;
  count = omega arith;
  offset = omega arith;
  size = omega arith;
  same = λ x l. refl;
  all = a;
  too_long = λ e. let y = t e in omega arith;
}

Sending-all :
    (off : ℕ) (ip : Inode) (f : Fs)
    → IsFile f ip
    → off ≤ ip.size
    → Sending off [] ip f 0 true off ip f
Sending-all off ip f w h =
    Sending-none off [] ip f true w h (λ e. refl) (λ e. absurd (let h : true ≡ false = e in cc))

-- The rounds after one that has stored the first bytes.
SentAs-after :
    (off : ℕ) (bs : List ℕ) (ip : Inode) (f : Fs) (n : ℕ) (ip' : Inode) (f' : Fs) (r : Sent)
    → n ≤ length bs
    → Outcome f ip off (take n bs) (done (ip', f'))
    → SentAs (off + n) (drop n bs) ip' f' r
    → SentAs off bs ip f r
SentAs-after off bs ip f n ip' f' none h (a, b, w, s, same, still) (x, lo, hi, z) =
    let d = length-drop n bs in
    (
      x,
      omega arith,
      omega arith,
      elim (ℕ_discrete (home f ip x) 0) [
        | yes y ↦ y
        | no ny ↦ absurd (ny (sym (still (index (x / bsize)) ny) ∙ z))
      ],
    )
SentAs-after off bs ip f n ip' f' (some (ok, off', ip'', f'')) h (a, b, w, s, same, still) (k, r) =
    let d = length-drop n bs in
    let t = length-take n bs h in
    let c = r.count in
    let o = r.offset in
    let z = r.size in
    (
      n + k,
      record {
        file = r.file;
        count = omega arith;
        offset = omega arith;
        size = z ∙ ap (λ v. max v (off + n + k)) s ∙ omega arith;
        same = λ x l.
            r.same x l
            ∙ store_bytes_cong (take k (drop n bs)) (off + n) (off + n) (content f' ip')
                (store_bytes off (take n bs) (content f ip)) x x refl (same x l)
            ∙ ap (λ m. m x) (store_bytes-take n k bs off (content f ip) h);
        all = λ e. let y = r.all e in omega arith;
        too_long = λ e. let y = r.too_long e in omega arith;
      },
    )

too_long :
    (off : ℕ) (bs : List ℕ) (size n : ℕ)
    → off ≤ size
    → min (length bs) max_write ≡ n
    → length (take n bs) ≡ n
    → (size < off) ⊎ (maxfile * bsize < off + length (take n bs))
    → maxfile * bsize < off + min (length bs) max_write
too_long off bs size n h e t (inl a) = absurd (omega arith)
too_long off bs size n h e t (inr a) = omega arith

sent_chunk-SentAs :
    (off : ℕ) (bs : List ℕ) (ip : Inode) (f : Fs) (n : ℕ) (loop : ℕ → Inode → Fs → Sent)
    (r : Result (Inode × Fs))
    → IsFile f ip
    → off ≤ ip.size
    → min (length bs) max_write ≡ n
    → ((ip' : Inode) (f' : Fs)
        → IsFile f' ip'
        → off + n ≤ ip'.size
        → SentAs (off + n) (drop n bs) ip' f' (loop (off + n) ip' f'))
    → Outcome f ip off (take n bs) r
    → SentAs off bs ip f (sent_chunk off n ip f loop r)
unfolding sent_chunk
sent_chunk-SentAs off bs ip f n loop fails w h e rest o =
    let t = length-take n bs (omega arith) in
    (
      0,
      Sending-none off bs ip f false w h (λ d. absurd (let g : false ≡ true = d in cc))
          (λ d. too_long off bs ip.size n h e t o),
    )
sent_chunk-SentAs off bs ip f n loop panics w h e rest (a, b, (x, lo, hi, z)) =
    let t = length-take n bs (omega arith) in (x, lo, omega arith, z)
sent_chunk-SentAs off bs ip f n loop (done (ip', f')) w h e rest o =
    let (a, b, w', s, same, still) = o in
    let t = length-take n bs (omega arith) in
    let u : (off + n) % 2 ^ 32 ≡ off + n = omega arith in
    rw u (
      SentAs-after off bs ip f n ip' f' (loop (off + n) ip' f') (omega arith) o
        (rest ip' f' w' (omega arith)))

filewrite_loop-SentAs :
    (fuel off : ℕ) (bs : List ℕ) (ip : Inode) (f : Fs)
    → IsFile f ip
    → off ≤ ip.size
    → length bs ≤ fuel
    → SentAs off bs ip f (filewrite_loop fuel off bs ip f)
unfolding filewrite_loop
filewrite_loop-SentAs zero off [] ip f w h l = (0, Sending-all off ip f w h)
filewrite_loop-SentAs zero off (b ∷ bs) ip f w h l = absurd (omega arith)
filewrite_loop-SentAs (suc fuel) off [] ip f w h l = (0, Sending-all off ip f w h)
filewrite_loop-SentAs (suc fuel) off (b ∷ bs) ip f w h l =
    let e : ltb 0 (length (b ∷ bs)) ≡ true = ground arith in
    let n = min (length (b ∷ bs)) max_write in
    let t = length-take n (b ∷ bs) (omega arith) in
    let d = length-drop n (b ∷ bs) in
    let fits = w.fits in
    rw e (
      sent_chunk-SentAs off (b ∷ bs) ip f n (λ o. filewrite_loop fuel o (drop n (b ∷ bs)))
        (writei off (take n (b ∷ bs)) ip f) w h refl
        (λ ip' f' w' h'.
          filewrite_loop-SentAs fuel (off + n) (drop n (b ∷ bs)) ip' f' w' h' (omega arith))
        (writei-Outcome off (take n (b ∷ bs)) ip f w (omega arith) (omega arith)))

-- filewrite to a file at a place that is not behind its end comes to a result: some first bytes are
-- stored in the file as one writei would store them, the offset moves behind them, and the file stays
-- a file. They are all of the bytes if it returns their count; it returns -1 only if its next call of
-- writei would pass the largest file, and what was written before stays. It panics only if a byte of the
-- range has no block yet.
pub filewrite_inode-SentAs :
    (off : ℕ) (bs : List ℕ) (ip : Inode) (f : Fs)
    → IsFile f ip
    → off ≤ ip.size
    → SentAs off bs ip f (filewrite_inode off bs ip f)
unfolding filewrite_inode
filewrite_inode-SentAs off bs ip f w h =
    filewrite_loop-SentAs (length bs) off bs ip f w h (omega arith)
