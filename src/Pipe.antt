-- ===== src/Pipe.antt =====
-- pipe.c: a ring of PIPESIZE bytes between two files. A call runs with the pipe's lock held; where
-- it sleeps, the model returns what is left to do, and a later call goes on from there.
pub mod Window
pub mod Refine
pub mod Calls
use os_system_calls_scheduli.Base.{
  ℕ, suc, ◌+◌, ◌%◌, ◌^◌, Bool, true, false, not, ◌&&◌, ◌||◌, List, [], ◌∷◌, ◌++◌, ◌==◌,
  if◌then◌else◌, get_or, set, replicate,
}

abbrev pub pipe_size : ℕ
pipe_size = 512

-- The addition of two uint.
abbrev pub add_uint : ℕ → ℕ → ℕ
add_uint a b = (a + b) % 2 ^ 32

pub record Pipe : Type 0 where
  pub bytes : List ℕ
  pub nread : ℕ
  pub nwrite : ℕ
  pub readopen : Bool
  pub writeopen : Bool

-- What pipealloc sets up; the page that kalloc returns holds any bytes.
unfoldable pub pipealloc : List ℕ → Pipe
pipealloc page = record { bytes = page; nread = 0; nwrite = 0; readopen = true; writeopen = true }

-- pipeclose: the pipe, and whether it is freed.
unfoldable pub pipeclose : Bool → Pipe → Pipe × Bool
pipeclose writable p =
    let p' = if writable then record p { writeopen = false } else record p { readopen = false } in
    (p', not p'.readopen && not p'.writeopen)

unfoldable pub is_full : Pipe → Bool
is_full p = p.nwrite == add_uint p.nread pipe_size

unfoldable pub is_empty : Pipe → Bool
is_empty p = p.nread == p.nwrite

-- `p->data[p->nwrite++ % PIPESIZE] = b`
unfoldable pub put : ℕ → Pipe → Pipe
put b p = record p { bytes = set p.bytes (p.nwrite % pipe_size) b; nwrite = add_uint p.nwrite 1 }

pub data Written : Type 0 where
  written : Pipe → Written
  broken : Pipe → Written
  write_sleeps : List ℕ → Pipe → Written

-- The loop of pipewrite over the bytes still to be written; `killed` is that of the caller.
-- `write_sleeps` has woken the readers and gives the bytes that are left.
unfoldable pub pipewrite : Bool → List ℕ → Pipe → Written
unfolding is_full put
pipewrite killed [] p = written p
pipewrite killed (b ∷ bs) p =
    let rest = pipewrite killed bs (put b p) in
    if is_full p
    then (if not p.readopen || killed then broken p else write_sleeps (b ∷ bs) p)
    else rest

-- `p->data[p->nread++ % PIPESIZE]` and the pipe after it.
unfoldable pub take_byte : Pipe → ℕ × Pipe
take_byte p = (get_or p.bytes (p.nread % pipe_size) 0, record p { nread = add_uint p.nread 1 })

-- The copy loop of piperead for at most `n` bytes.
unfoldable pub copy_loop : ℕ → Pipe → List ℕ × Pipe
unfolding is_empty take_byte
copy_loop ℕ.zero p = ([], p)
copy_loop (suc n) p =
    let (b, p') = take_byte p in
    let (bs, p'') = copy_loop n p' in if is_empty p then ([], p) else (b ∷ bs, p'')

pub data Got : Type 0 where
  got : List ℕ → Pipe → Got
  read_killed : Got
  read_sleeps : Got

unfoldable pub piperead : Bool → ℕ → Pipe → Got
unfolding copy_loop
piperead killed n p =
    let (bs, p') = copy_loop n p in
    if is_empty p && p.writeopen then (if killed then read_killed else read_sleeps) else got bs p'
