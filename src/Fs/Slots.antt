-- ===== src/Fs/Slots.antt =====
-- The block addresses of an inode of fs.c as bmap finds them, in one sequence: the direct ones, the
-- indirect block's own, and those it holds.
use os_system_calls_scheduli.Base.{
  ℕ, ◌+◌, ◌-◌, ◌*◌, ◌/◌, ◌%◌, ◌^◌, ◌<◌, ◌≤◌, ◌≡◌, refl, ◌≢◌, ◌⊎◌, true, false, ◌==◌, ltb,
  if◌then◌else◌, ==_refl, arith,
}
use os_system_calls_scheduli.Strings.{Memory, store_word}
use os_system_calls_scheduli.Fs.{Fs, Inode, update, load_word, maxfile, bsize}

-- The entry `i` of an indirect block `addr`, 0 when there is none.
abbrev pub entry : ℕ → ℕ → Fs → ℕ
entry addr i f = if addr == 0 then 0 else load_word (4 * i) (f.blocks addr)

unfoldable pub slot : Fs → Inode → ℕ → ℕ
slot f ip k = if ltb k 13 then ip.addrs k else entry (ip.addrs 12) (k - 13) f

-- The place of the block `bn` of a file among the slots.
abbrev pub index : ℕ → ℕ
index bn = if ltb bn 12 then bn else bn + 1

abbrev pub slots : ℕ
slots = 141

abbrev pub byte_of : ℕ → Fs → ℕ → ℕ
byte_of a f o = if a == 0 then 0 else f.blocks a (o % bsize)

-- The byte `o` of a file, 0 where no block is mapped.
unfoldable pub content : Fs → Inode → ℕ → ℕ
content f ip o = byte_of (slot f ip (index (o / bsize))) f o

-- No block stands in two slots or in a slot and the free map, and block 0 is never free.
pub record IsMapped (f : Fs) (ip : Inode) : Type 0 where
  pub small : f.size ≤ 2 ^ 32
  pub boot : f.used 0 ≡ true
  pub taken : (k : ℕ) → k < slots → slot f ip k ≢ 0 → f.used (slot f ip k) ≡ true
  pub apart :
      (j k : ℕ) → j < slots → k < slots → slot f ip j ≢ 0 → slot f ip j ≡ slot f ip k → j ≡ k

pub update_self {ℓ} : {A : Type ℓ} (g : ℕ → A) (a : ℕ) (v : A) → update g a v a ≡ v
update_self g a v = rw (==_refl a) refl

pub update_ne {ℓ} : {A : Type ℓ} (g : ℕ → A) (a : ℕ) (v : A) (x : ℕ) → x ≢ a → update g a v x ≡ g x
update_ne g a v x h = let e : (x == a) ≡ false = ground arith in rw e refl

bytes-value :
    (v : ℕ)
    → v < 2 ^ 32
    → v % 256 + v / 2 ^ 8 % 256 * 2 ^ 8 + v / 2 ^ 16 % 256 * 2 ^ 16 + v / 2 ^ 24 % 256 * 2 ^ 24 ≡ v
bytes-value v h = omega arith

-- What store_word leaves at its four bytes and elsewhere.
pub store_word-elsewhere :
    (d v : ℕ) (m : Memory) (x : ℕ) → (x < d) ⊎ (d + 4 ≤ x) → store_word d v m x ≡ m x
store_word-elsewhere d v m x h =
    let e0 : (x == d) ≡ false = ground arith in
    let e1 : (x == d + 1) ≡ false = ground arith in
    let e2 : (x == d + 2) ≡ false = ground arith in
    let e3 : (x == d + 3) ≡ false = ground arith in rw (e3, e2, e1, e0) refl

store_word-0 : (d v : ℕ) (m : Memory) → store_word d v m d ≡ v % 256
store_word-0 d v m =
    let e1 : (d == d + 1) ≡ false = ground arith in
    let e2 : (d == d + 2) ≡ false = ground arith in
    let e3 : (d == d + 3) ≡ false = ground arith in rw (e3, e2, e1, ==_refl d) refl

store_word-1 : (d v : ℕ) (m : Memory) → store_word d v m (d + 1) ≡ v / 2 ^ 8 % 256
store_word-1 d v m =
    let e2 : (d + 1 == d + 2) ≡ false = ground arith in
    let e3 : (d + 1 == d + 3) ≡ false = ground arith in rw (e3, e2, ==_refl (d + 1)) refl

store_word-2 : (d v : ℕ) (m : Memory) → store_word d v m (d + 2) ≡ v / 2 ^ 16 % 256
store_word-2 d v m =
    let e3 : (d + 2 == d + 3) ≡ false = ground arith in rw (e3, ==_refl (d + 2)) refl

store_word-3 : (d v : ℕ) (m : Memory) → store_word d v m (d + 3) ≡ v / 2 ^ 24 % 256
store_word-3 d v m = rw (==_refl (d + 3)) refl

pub load_word-store_word : (d v : ℕ) (m : Memory) → v < 2 ^ 32 → load_word d (store_word d v m) ≡ v
load_word-store_word d v m h =
    rw (store_word-0 d v m, store_word-1 d v m, store_word-2 d v m, store_word-3 d v m)
      (bytes-value v h)

pub load_word-elsewhere :
    (i j v : ℕ) (m : Memory)
    → i ≢ j
    → load_word (4 * i) (store_word (4 * j) v m) ≡ load_word (4 * i) m
load_word-elsewhere i j v m h =
    let e0 = store_word-elsewhere (4 * j) v m (4 * i) (omega arith) in
    let e1 = store_word-elsewhere (4 * j) v m (4 * i + 1) (omega arith) in
    let e2 = store_word-elsewhere (4 * j) v m (4 * i + 2) (omega arith) in
    let e3 = store_word-elsewhere (4 * j) v m (4 * i + 3) (omega arith) in rw (e0, e1, e2, e3) refl

pub index_lt : (bn : ℕ) → bn < maxfile → index bn < slots
index_lt bn h = ground arith

pub index_ne : (bn : ℕ) → index bn ≢ 12
index_ne bn = ground arith
