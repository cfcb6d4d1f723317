-- ===== src/Fs.antt =====
-- fs.c: the blocks of the disk as bread gives them, the free map, and the contents of an inode. A
-- bit of the free map is a Boolean of its block; where the bit stands in the map's blocks is left
-- out. log_write records a block that is given already, so it does not show here; `none` panics.
pub mod Blocks
pub mod Slots
pub mod Grow
pub mod Stored
pub mod Bmap
pub mod Bytes
pub mod Content
pub mod Read
pub mod Write
pub mod Files
pub mod Freed
pub mod Entries
pub mod Directs
pub mod Truncate
use os_system_calls_scheduli.Base.{
  ℕ, zero, suc, ◌+◌, ◌-◌, ◌*◌, ◌/◌, ◌%◌, ◌^◌, Bool, true, false, not, ◌||◌, ◌&&◌, List, [], ◌∷◌,
  ◌++◌, Option, none, some, ltb, ◌==◌, if◌then◌else◌, min, length, take, drop,
}
use os_system_calls_scheduli.Strings.{Memory, store, store_word}

abbrev pub bsize : ℕ
bsize = 512

abbrev pub ndirect : ℕ
ndirect = 12

abbrev pub nindirect : ℕ
nindirect = 128

-- The superblock's size, the free map, and the bytes of each block.
pub record Fs : Type 0 where
  pub size : ℕ
  pub used : ℕ → Bool
  pub blocks : ℕ → Memory

pub record Inode : Type 0 where
  pub size : ℕ
  pub addrs : ℕ → ℕ

abbrev pub update {ℓ} : {A : Type ℓ} → (ℕ → A) → ℕ → A → ℕ → A
update f a v x = if x == a then v else f x

unfoldable pub bzero : ℕ → Fs → Fs
bzero b f = record f { blocks = update f.blocks b (λ i. 0) }

-- The loops of balloc from block `b` on, for at most `fuel` blocks.
unfoldable pub balloc_from : ℕ → ℕ → Fs → Option (ℕ × Fs)
balloc_from zero b f = none
balloc_from (suc fuel) b f =
    let rest = balloc_from fuel (b + 1) f in
    if not (f.used b) then some (b, bzero b (record f { used = update f.used b true })) else rest

unfoldable pub balloc : Fs → Option (ℕ × Fs)
balloc f = balloc_from f.size 0 f

unfoldable pub bfree : ℕ → Fs → Option Fs
bfree b f = if not (f.used b) then none else some (record f { used = update f.used b false })

-- A word of a block, its low byte first.
abbrev pub load_word : ℕ → Memory → ℕ
load_word d m = m d + m (d + 1) * 2 ^ 8 + m (d + 2) * 2 ^ 16 + m (d + 3) * 2 ^ 24

-- The block address, the inode and the disk after a call that may allocate.
abbrev pub Mapped : Type 0
Mapped = Option (ℕ × Inode × Fs)

-- `ip->addrs[k]`, allocated if it is 0.
unfoldable pub stored_at : ℕ → Inode → Option (ℕ × Fs) → Mapped
stored_at k ip none = none
stored_at k ip (some (a, f)) = some (a, record ip { addrs = update ip.addrs k a }, f)

unfoldable pub direct_addr : ℕ → Inode → Fs → Mapped
direct_addr k ip f = if ip.addrs k == 0 then stored_at k ip (balloc f) else some (ip.addrs k, ip, f)

-- `a[bn]` of the indirect block `addr`, allocated if it is 0.
unfoldable pub stored_word : ℕ → ℕ → Inode → Option (ℕ × Fs) → Mapped
stored_word addr bn ip none = none
stored_word addr bn ip (some (a, f)) =
    some (a, ip, record f { blocks = update f.blocks addr (store_word (4 * bn) a (f.blocks addr)) })

unfoldable pub indirect_addr : ℕ → ℕ → Inode → Fs → Mapped
indirect_addr addr bn ip f =
    let a = load_word (4 * bn) (f.blocks addr) in
    if a == 0 then stored_word addr bn ip (balloc f) else some (a, ip, f)

unfoldable pub through_indirect : ℕ → Mapped → Mapped
through_indirect bn none = none
through_indirect bn (some (addr, ip, f)) = indirect_addr addr bn ip f

unfoldable pub bmap : ℕ → Inode → Fs → Mapped
bmap bn ip f =
    if ltb bn ndirect
    then direct_addr bn ip f
    else if ltb (bn - ndirect) nindirect
    then through_indirect (bn - ndirect) (direct_addr ndirect ip f)
    else none

-- The bytes of a block from `o` on.
unfoldable pub bytes_at : ℕ → ℕ → Memory → List ℕ
bytes_at o zero m = []
bytes_at o (suc n) m = m o ∷ bytes_at (o + 1) n m

-- Bytes stored in a block from `o` on.
unfoldable pub store_bytes : ℕ → List ℕ → Memory → Memory
store_bytes o [] m = m
store_bytes o (b ∷ bs) m = store_bytes (o + 1) bs (store o b m)

unfoldable pub with_bytes : List ℕ → Option (List ℕ × Inode × Fs) → Option (List ℕ × Inode × Fs)
with_bytes bs none = none
with_bytes bs (some (rest, ip, f)) = some (bs ++ rest, ip, f)

abbrev pub maxfile : ℕ
maxfile = ndirect + nindirect

-- The addition of two uint.
abbrev pub add_uint : ℕ → ℕ → ℕ
add_uint a b = (a + b) % 2 ^ 32

-- What readi has copied, with the inode and the disk after it.
abbrev pub Copied : Type 0
Copied = Option (List ℕ × Inode × Fs)

-- A round of the loop of readi behind bmap; `loop` are the rounds after it.
unfoldable pub read_chunk : ℕ → ℕ → (ℕ → ℕ → Inode → Fs → Copied) → Mapped → Copied
read_chunk off n loop none = none
read_chunk off n loop (some (a, ip, f)) =
    let m = min n (bsize - off % bsize) in
    with_bytes (bytes_at (off % bsize) m (f.blocks a)) (loop (off + m) (n - m) ip f)

-- The loop of readi for `n` bytes from `off` on; a round copies a byte at least, so `n` rounds are
-- enough.
unfoldable pub read_loop : ℕ → ℕ → ℕ → Inode → Fs → Copied
read_loop zero off n ip f = some ([], ip, f)
read_loop (suc fuel) off n ip f =
    let more = read_chunk off n (λ o k. read_loop fuel o k) (bmap (off / bsize) ip f) in
    if ltb 0 n then more else some ([], ip, f)

-- `fails` is the result -1.
pub data Result {ℓ} (A : Type ℓ) : Type ℓ where
  done : A → Result A
  fails : Result A
  panics : Result A

abbrev pub or_panic {ℓ} : {A : Type ℓ} → Option A → Result A
or_panic none = panics
or_panic (some a) = done a

-- readi of an inode that is no device.
unfoldable pub readi : ℕ → ℕ → Inode → Fs → Result (List ℕ × Inode × Fs)
readi off n ip f =
    if ltb ip.size off || ltb (add_uint off n) off
    then fails
    else (let n' = if ltb ip.size (add_uint off n) then ip.size - off else n in
        or_panic (read_loop n' off n' ip f))

unfoldable pub write_chunk :
    ℕ → List ℕ → (ℕ → List ℕ → Inode → Fs → Option (Inode × Fs)) → Mapped → Option (Inode × Fs)
write_chunk off bs loop none = none
write_chunk off bs loop (some (a, ip, f)) =
    let m = min (length bs) (bsize - off % bsize) in
    let f' = record f {
      blocks = update f.blocks a (store_bytes (off % bsize) (take m bs) (f.blocks a));
    } in
    loop (off + m) (drop m bs) ip f'

-- The loop of writei for the bytes that are left, from `off` on; as many rounds as there are bytes.
unfoldable pub write_loop : ℕ → ℕ → List ℕ → Inode → Fs → Option (Inode × Fs)
write_loop zero off bs ip f = some (ip, f)
write_loop (suc fuel) off bs ip f =
    let more = write_chunk off bs (λ o cs. write_loop fuel o cs) (bmap (off / bsize) ip f) in
    if ltb 0 (length bs) then more else some (ip, f)

-- The size after a write of `n` bytes that ends at `off`.
unfoldable pub grow : ℕ → ℕ → Inode → Inode
grow off n ip = if ltb 0 n && ltb ip.size off then record ip { size = off } else ip

unfoldable pub written : ℕ → ℕ → Option (Inode × Fs) → Result (Inode × Fs)
written off n none = panics
written off n (some (ip, f)) = done (grow (off + n) n ip, f)

-- writei of an inode that is no device.
unfoldable pub writei : ℕ → List ℕ → Inode → Fs → Result (Inode × Fs)
writei off bs ip f =
    let n = length bs in
    if ltb ip.size off || ltb (add_uint off n) off
    then fails
    else if ltb (maxfile * bsize) (add_uint off n)
    then fails
    else written off n (write_loop n off bs ip f)

-- `if(a) bfree(a)`.
unfoldable pub free_addr : ℕ → Fs → Option Fs
free_addr a f = if a == 0 then some f else bfree a f

unfoldable pub cleared_at : ℕ → Inode → Option Fs → Option (Inode × Fs)
cleared_at k ip none = none
cleared_at k ip (some f) = some (record ip { addrs = update ip.addrs k 0 }, f)

-- The calls of bfree that are left, behind one; `loop` makes them.
unfoldable pub and_then {ℓ} : {A B : Type ℓ} → Option A → (A → Option B) → Option B
and_then none loop = none
and_then (some a) loop = loop a

-- The loop of itrunc over the direct blocks, `n` of them from `k` on.
unfoldable pub free_direct : ℕ → ℕ → Inode → Fs → Option (Inode × Fs)
free_direct zero k ip f = some (ip, f)
free_direct (suc n) k ip f =
    and_then (cleared_at k ip (free_addr (ip.addrs k) f)) (λ s. free_direct n (k + 1) s.0 s.1)

-- The loop of itrunc over the entries of the indirect block, `n` of them from `j` on; `a` is its data.
unfoldable pub free_entries : ℕ → ℕ → Memory → Fs → Option Fs
free_entries zero j a f = some f
free_entries (suc n) j a f =
    and_then (free_addr (load_word (4 * j) a) f) (λ g. free_entries n (j + 1) a g)

unfoldable pub free_indirect : Inode → Fs → Option (Inode × Fs)
free_indirect ip f =
    let freed =
      and_then (free_entries nindirect 0 (f.blocks (ip.addrs ndirect)) f)
        (λ g. cleared_at ndirect ip (bfree (ip.addrs ndirect) g)) in
    if not (ip.addrs ndirect == 0) then freed else some (ip, f)

unfoldable pub emptied : Option (Inode × Fs) → Option (Inode × Fs)
emptied none = none
emptied (some (ip, f)) = some (record ip { size = 0 }, f)

unfoldable pub itrunc : Inode → Fs → Option (Inode × Fs)
itrunc ip f = emptied (and_then (free_direct ndirect 0 ip f) (λ s. free_indirect s.0 s.1))
