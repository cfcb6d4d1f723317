-- ===== src/File.antt =====
-- file.c: the table of open files, and reading and writing a file through an entry of it. A pointer to
-- an entry is its index, and a pointer to a pipe or an inode a number. Reference counts stay below 2 ^ 31.
pub mod Counts
pub mod Handles
pub mod Offset
use os_system_calls_scheduli.Base.{
  ℕ, zero, suc, ◌+◌, ◌-◌, ◌*◌, ◌/◌, ◌^◌, Bool, true, false, List, [], ◌∷◌, Option, none, some, ltb,
  ◌==◌, if◌then◌else◌, min, length, take, drop, get_or, set,
}
use os_system_calls_scheduli.Fs.{Fs, Inode, add_uint, Result, done, fails, panics, readi, writei}

pub data FileType : Type 0 where
  fd_none : FileType
  fd_pipe : FileType
  fd_inode : FileType

pub record File : Type 0 where
  pub type : FileType
  pub ref : ℕ
  pub readable : Bool
  pub writable : Bool
  pub pipe : ℕ
  pub ip : ℕ
  pub off : ℕ

abbrev pub Ftable : Type 0
Ftable = List File

-- An entry that no pointer names.
abbrev pub no_file : File
no_file = record {
  type = fd_none;
  ref = 0;
  readable = false;
  writable = false;
  pipe = 0;
  ip = 0;
  off = 0;
}

abbrev pub file_at : Ftable → ℕ → File
file_at t i = get_or t i no_file

-- The loop of filealloc, from the entry `i` on.
unfoldable pub find_unused : ℕ → Ftable → Option ℕ
find_unused i [] = none
find_unused i (f ∷ fs) = let later = find_unused (suc i) fs in if f.ref == 0 then some i else later

unfoldable pub allocated : Ftable → Option ℕ → Option (ℕ × Ftable)
allocated t none = none
allocated t (some i) = some (i, set t i (record (file_at t i) { ref = 1 }))

unfoldable pub filealloc : Ftable → Option (ℕ × Ftable)
filealloc t = allocated t (find_unused 0 t)

-- `none` panics.
unfoldable pub filedup : ℕ → Ftable → Option Ftable
filedup i t =
    let f = file_at t i in
    if ltb f.ref 1 then none else some (set t i (record f { ref = f.ref + 1 }))

-- What fileclose calls behind the lock.
pub data Closing : Type 0 where
  nothing : Closing
  pipeclose : ℕ → Bool → Closing
  iput : ℕ → Closing

unfoldable pub closing : FileType → File → Closing
closing fd_none ff = nothing
closing fd_pipe ff = pipeclose ff.pipe ff.writable
closing fd_inode ff = iput ff.ip

unfoldable pub fileclose : ℕ → Ftable → Option (Closing × Ftable)
fileclose i t =
    let f = file_at t i in
    if ltb f.ref 1
    then none
    else if ltb 0 (f.ref - 1)
    then some (nothing, set t i (record f { ref = f.ref - 1 }))
    else some (closing f.type f, set t i (record f { ref = 0; type = fd_none }))

-- `max` of filewrite, with MAXOPBLOCKS = 10.
abbrev pub max_write : ℕ
max_write = (10 - 1 - 1 - 2) / 2 * 512

-- Whether all is written, the offset, the inode and the disk; `none` panics.
abbrev pub Sent : Type 0
Sent = Option (Bool × ℕ × Inode × Fs)

-- A round of the loop of filewrite behind writei, which returns the count it is given when it does not
-- fail; `loop` are the rounds after it.
unfoldable pub sent_chunk :
    ℕ → ℕ → Inode → Fs → (ℕ → Inode → Fs → Sent) → Result (Inode × Fs) → Sent
sent_chunk off n1 ip f loop fails = some (false, off, ip, f)
sent_chunk off n1 ip f loop panics = none
sent_chunk off n1 ip f loop (done (ip', f')) = loop (add_uint off n1) ip' f'

-- The loop of filewrite for the bytes that are left; a round writes a byte at least.
unfoldable pub filewrite_loop : ℕ → ℕ → List ℕ → Inode → Fs → Sent
filewrite_loop zero off bs ip f = some (true, off, ip, f)
filewrite_loop (suc fuel) off bs ip f =
    let n1 = min (length bs) max_write in
    let more =
      sent_chunk off n1 ip f (λ o. filewrite_loop fuel o (drop n1 bs))
        (writei off (take n1 bs) ip f) in
    if ltb 0 (length bs) then more else some (true, off, ip, f)

-- filewrite of a writable file with an inode.
unfoldable pub filewrite_inode : ℕ → List ℕ → Inode → Fs → Sent
filewrite_inode off bs ip f = filewrite_loop (length bs) off bs ip f

-- The bytes read and the new offset.
unfoldable pub received : ℕ → Result (List ℕ × Inode × Fs) → Result (List ℕ × ℕ × Inode × Fs)
received off fails = fails
received off panics = panics
received off (done (bs, ip, f)) = done (bs, add_uint off (length bs), ip, f)

-- fileread of a readable file with an inode.
unfoldable pub fileread_inode : ℕ → ℕ → Inode → Fs → Result (List ℕ × ℕ × Inode × Fs)
fileread_inode off n ip f = received off (readi off n ip f)
