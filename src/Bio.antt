-- ===== src/Bio.antt =====
-- bio.c: the buffer cache, over the disk in memory of memide.c. A pointer to a buffer is its index in
-- bcache.buf, and the linked list is the list of the indices, the most recently used first. A buffer's
-- sleep lock does not show: a call on a buffer is one by its holder. `none` panics.
pub mod Steps
pub mod Same
pub mod Current
pub mod Calls
pub mod Writes
pub mod Runs
use os_system_calls_scheduli.Base.{
  ℕ, ◌+◌, ◌-◌, ◌%◌, ◌^◌, Bool, true, false, not, ◌&&◌, ◌||◌, List, [], ◌∷◌, Option, none, some, ltb,
  ◌==◌, if◌then◌else◌,
}
use os_system_calls_scheduli.Strings.{Memory}
use os_system_calls_scheduli.Fs.{update}

-- The two flags are fields.
pub record Buf : Type 0 where
  pub dev : ℕ
  pub blockno : ℕ
  pub refcnt : ℕ
  pub valid : Bool
  pub dirty : Bool
  pub bytes : Memory

pub record Cache : Type 0 where
  pub buf : ℕ → Buf
  pub order : List ℕ
  pub disk : ℕ → Memory
  pub disksize : ℕ

-- The list after binit has put `n` buffers in front, one by one.
unfoldable pub binit : ℕ → List ℕ
binit ℕ.zero = []
binit (ℕ.suc n) = n ∷ binit n

abbrev pub with_buf : ℕ → Buf → Cache → Cache
with_buf i b c = record c { buf = update c.buf i b }

abbrev pub holds : ℕ → ℕ → Buf → Bool
holds d n b = b.dev == d && b.blockno == n

-- The first loop of bget, over the list from its head.
unfoldable pub cached : ℕ → ℕ → (ℕ → Buf) → List ℕ → Option ℕ
cached d n buf [] = none
cached d n buf (i ∷ is) =
    let later = cached d n buf is in if holds d n (buf i) then some i else later

abbrev pub idle : Buf → Bool
idle b = b.refcnt == 0 && not b.dirty

abbrev pub or_here : Bool → ℕ → Option ℕ → Option ℕ
or_here b i none = if b then some i else none
or_here b i (some j) = some j

-- The second loop of bget, over the list from its tail.
unfoldable pub unused : (ℕ → Buf) → List ℕ → Option ℕ
unused buf [] = none
unused buf (i ∷ is) = or_here (idle (buf i)) i (unused buf is)

unfoldable pub recycled : ℕ → ℕ → Cache → Option ℕ → Option (ℕ × Cache)
recycled d n c none = none
recycled d n c (some i) = some (
  i,
  with_buf i (record (c.buf i) { dev = d; blockno = n; valid = false; dirty = false; refcnt = 1 })
      c,
)

unfoldable pub found : ℕ → ℕ → Cache → Option ℕ → Option (ℕ × Cache)
found d n c none = recycled d n c (unused c.buf c.order)
found d n c (some i) =
    some (i, with_buf i (record (c.buf i) { refcnt = ((c.buf i).refcnt + 1) % 2 ^ 32 }) c)

unfoldable pub bget : ℕ → ℕ → Cache → Option (ℕ × Cache)
bget d n c = found d n c (cached d n c.buf c.order)

-- iderw of memide.c, on the buffer `i`.
unfoldable pub iderw : ℕ → Cache → Option Cache
iderw i c =
    let b = c.buf i in
    if b.valid && not b.dirty
    then none
    else if not (b.dev == 1)
    then none
    else if not (ltb b.blockno c.disksize)
    then none
    else if b.dirty
    then some (record (with_buf i (record b { dirty = false; valid = true }) c) {
      disk = update c.disk b.blockno b.bytes;
    })
    else some (with_buf i (record b { bytes = c.disk b.blockno; valid = true }) c)

unfoldable pub with_index : ℕ → Option Cache → Option (ℕ × Cache)
with_index i none = none
with_index i (some c) = some (i, c)

unfoldable pub filled : Option (ℕ × Cache) → Option (ℕ × Cache)
filled none = none
filled (some (i, c)) =
    let read = with_index i (iderw i c) in if not (c.buf i).valid then read else some (i, c)

unfoldable pub bread : ℕ → ℕ → Cache → Option (ℕ × Cache)
bread d n c = filled (bget d n c)

unfoldable pub bwrite : ℕ → Cache → Option Cache
bwrite i c = iderw i (with_buf i (record (c.buf i) { dirty = true }) c)

unfoldable pub without : ℕ → List ℕ → List ℕ
without i [] = []
without i (j ∷ js) = if j == i then js else j ∷ without i js

-- The decrement of a uint.
abbrev pub pred_uint : ℕ → ℕ
pred_uint n = (n + 2 ^ 32 - 1) % 2 ^ 32

unfoldable pub brelse : ℕ → Cache → Cache
brelse i c =
    let n = pred_uint (c.buf i).refcnt in
    let c' = with_buf i (record (c.buf i) { refcnt = n }) c in
    if n == 0 then record c' { order = i ∷ without i c.order } else c'
