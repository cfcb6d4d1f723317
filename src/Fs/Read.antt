-- ===== src/Fs/Read.antt =====
-- readi of fs.c gives the bytes of the file.
use os_system_calls_scheduli.Base.{
  ℕ, zero, suc, ◌+◌, ◌-◌, ◌*◌, ◌/◌, ◌%◌, ◌^◌, ◌<◌, ◌≤◌, ◌≡◌, refl, sym, ap, ◌∙◌, ◌≢◌, true, false,
  ltb, List, [], ◌++◌, none, some, min, arith, dec_lt, ℕ_discrete,
}
use os_system_calls_scheduli.Fs.{
  Fs, Inode, bsize, maxfile, bmap, bytes_at, with_bytes, Copied, Mapped, read_chunk, read_loop,
  done, or_panic, readi,
}
use os_system_calls_scheduli.Fs.Slots.{slot, index, content, IsMapped}
use os_system_calls_scheduli.Fs.Bmap.{Mapping, bmap-Mapping}
use os_system_calls_scheduli.Fs.Bytes.{bytes_at-append}
use os_system_calls_scheduli.Fs.Content.{home, bytes_at-content}

-- A file whose blocks are apart from each other and from the free ones, and which has a block for each
-- byte of it.
pub record IsFile (f : Fs) (ip : Inode) : Type 0 where
  pub mapped : IsMapped f ip
  pub fits : ip.size ≤ maxfile * bsize
  pub whole : (o : ℕ) → o < ip.size → home f ip o ≢ 0

Mapping-there :
    (f : Fs) (ip : Inode) (k : ℕ) (r : Mapped)
    → Mapping f ip k r
    → slot f ip k ≢ 0
    → r ≡ some (slot f ip k, ip, f)
Mapping-there f ip k none z nz = absurd (nz z)
Mapping-there f ip k (some (a, ip', f')) (n, e, u, s) nz =
    let (p, q) = s nz in
    let t : slot f' ip' k ≡ slot f ip k = u.still k nz in
    let named : a ≡ slot f ip k = sym e ∙ t in rw (named, p, q) refl

bmap_there :
    (f : Fs) (ip : Inode) (o : ℕ)
    → IsMapped f ip
    → o < maxfile * bsize
    → home f ip o ≢ 0
    → bmap (o / bsize) ip f ≡ some (home f ip o, ip, f)
bmap_there f ip o m h nz =
    Mapping-there f ip (index (o / bsize)) (bmap (o / bsize) ip f)
      (bmap-Mapping f ip (o / bsize) m (omega arith)) nz

read_chunk-some :
    (off n : ℕ) (loop : ℕ → ℕ → Inode → Fs → Copied) (a : ℕ) (ip : Inode) (f : Fs) (m : ℕ)
    → min n (bsize - off % bsize) ≡ m
    → read_chunk off n loop (some (a, ip, f))
      ≡ with_bytes (bytes_at (off % bsize) m (f.blocks a)) (loop (off + m) (n - m) ip f)
unfolding read_chunk
read_chunk-some off n loop a ip f m e = rw e refl

read_loop-suc :
    (fuel off n : ℕ) (ip : Inode) (f : Fs)
    → 0 < n
    → read_loop (suc fuel) off n ip f
      ≡ read_chunk off n (λ o k. read_loop fuel o k) (bmap (off / bsize) ip f)
unfolding read_loop
read_loop-suc fuel off n ip f h = let e : ltb 0 n ≡ true = ground arith in rw e refl

read_loop_none : (fuel off : ℕ) (ip : Inode) (f : Fs) → read_loop fuel off 0 ip f ≡ some ([], ip, f)
unfolding read_loop
read_loop_none zero off ip f = refl
read_loop_none (suc fuel) off ip f = refl

with_bytes-some :
    (bs cs : List ℕ) (ip : Inode) (f : Fs)
    → with_bytes bs (some (cs, ip, f)) ≡ some (bs ++ cs, ip, f)
unfolding with_bytes
with_bytes-some bs cs ip f = refl

bytes_at_none : (o : ℕ) (m : ℕ → ℕ) → bytes_at o 0 m ≡ []
unfolding bytes_at
bytes_at_none o m = refl

read_loop_lem :
    (fuel off n : ℕ) (ip : Inode) (f : Fs)
    → IsFile f ip
    → n ≤ fuel
    → off + n ≤ ip.size
    → read_loop fuel off n ip f ≡ some (bytes_at off n (content f ip), ip, f)
read_loop_lem zero off n ip f w l h =
    let z : n ≡ 0 = omega arith in
    rw (z, bytes_at_none off (content f ip)) (read_loop_none 0 off ip f)
read_loop_lem (suc fuel) off n ip f w l h = elim (ℕ_discrete n 0) [
  | yes z ↦ rw (z, bytes_at_none off (content f ip)) (read_loop_none (suc fuel) off ip f)
  | no nz ↦
      let m = min n (bsize - off % bsize) in
      let fits = w.fits in
      let there = w.whole off (omega arith) in
      let rest = read_loop_lem fuel (off + m) (n - m) ip f w (omega arith) (omega arith) in
      let s : m + (n - m) ≡ n = omega arith in
      read_loop-suc fuel off n ip f (omega arith)
      ∙ ap (read_chunk off n (λ o k. read_loop fuel o k))
          (bmap_there f ip off w.mapped (omega arith) there)
      ∙ read_chunk-some off n (λ o k. read_loop fuel o k) (home f ip off) ip f m refl
      ∙ ap (with_bytes (bytes_at (off % bsize) m (f.blocks (home f ip off)))) rest
      ∙ with_bytes-some (bytes_at (off % bsize) m (f.blocks (home f ip off)))
          (bytes_at (off + m) (n - m) (content f ip)) ip f
      ∙ ap (λ c. some (c ++ bytes_at (off + m) (n - m) (content f ip), ip, f))
          (bytes_at-content f ip off m there (omega arith))
      ∙ ap (λ c. some (c, ip, f)) (bytes_at-append m (n - m) off (content f ip))
      ∙ ap (λ k. some (bytes_at off k (content f ip), ip, f)) s
]

-- readi from a place in a file, if the place and the count do not overflow a uint, gives the bytes of
-- the file from there on, as many as were asked for or are left, and changes nothing.
pub readi_lem :
    (off n : ℕ) (ip : Inode) (f : Fs)
    → IsFile f ip
    → off ≤ ip.size
    → off + n < 2 ^ 32
    → readi off n ip f ≡ done (bytes_at off (min n (ip.size - off)) (content f ip), ip, f)
unfolding readi
readi_lem off n ip f w h k =
    let e : (off + n) % 2 ^ 32 ≡ off + n = omega arith in
    let a : ltb ip.size off ≡ false = ground arith in
    let b : ltb (off + n) off ≡ false = ground arith in
    elim (dec_lt ip.size (off + n)) [
      | yes d ↦
          let c : ltb ip.size (off + n) ≡ true = ground arith in
          let s : min n (ip.size - off) ≡ ip.size - off = omega arith in
          rw (e, a, b, c, s)
            (ap or_panic (
              read_loop_lem (ip.size - off) off (ip.size - off) ip f w (omega arith) (omega arith)))
      | no nd ↦
          let c : ltb ip.size (off + n) ≡ false = ground arith in
          let s : min n (ip.size - off) ≡ n = omega arith in
          rw (e, a, b, c, s)
            (ap or_panic (read_loop_lem n off n ip f w (omega arith) (omega arith)))
    ]
