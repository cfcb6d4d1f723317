-- ===== src/Proc/Types.antt =====
-- proc.h and the process table of proc.c: `struct proc`, the table, and what the kernel keeps.
use os_system_calls_scheduli.Base.{
  ℕ, ◌+◌, ◌-◌, ◌%◌, ◌^◌, Bool, true, false, Option, none, List, [], ◌∷◌, ◌++◌, ltb, ◌==◌,
  if◌then◌else◌, get_or, set,
}
use os_system_calls_scheduli.Base.Int.{ℤ, pos, negsuc}
use os_system_calls_scheduli.SchedDs.Queues.{Queues}

-- enum procstate
pub data ProcState : Type 0 where
  unused embryo sleeping runnable running zombie : ProcState

unfoldable pub state_eq : ProcState → ProcState → Bool
state_eq unused unused = true
state_eq embryo embryo = true
state_eq sleeping sleeping = true
state_eq runnable runnable = true
state_eq running running = true
state_eq zombie zombie = true
state_eq _ _ = false

-- A `void *chan`: null, the address of a process (as in wait), or another address.
pub data Chan : Type 0 where
  null : Chan
  of_proc : ℕ → Chan
  address : ℕ → Chan

unfoldable pub chan_eq : Chan → Chan → Bool
chan_eq null null = true
chan_eq (of_proc i) (of_proc j) = i == j
chan_eq (address i) (address j) = i == j
chan_eq _ _ = false

-- struct proc. A pointer to a process is its index in the table, any other pointer a number with 0
-- for null. An int that is only compared or copied is its bit pattern.
pub record Proc : Type 0 where
  pub sz : ℕ
  pub pgdir : ℕ
  pub kstack : ℕ
  pub state : ProcState
  pub pid : ℕ
  pub parent : Option ℕ
  pub chan : Chan
  pub killed : Bool
  pub ofile : List ℕ
  pub cwd : ℕ
  pub status : ℕ
  pub priority : ℤ
  pub accumulator : ℤ

-- Calls into the other subsystems, in the order in which they are made.
pub data Call : Type 0 where
  filedup fileclose idup iput kfree freevm : ℕ → Call
  begin_op end_op : Call

pub record Kernel : Type 0 where
  pub procs : List Proc
  pub nextpid : ℕ
  pub initproc : ℕ
  pub queues : Queues
  pub calls : List Call

abbrev pub nproc : ℕ
nproc = 64

abbrev pub no_proc : Proc
no_proc = record {
  sz = 0;
  pgdir = 0;
  kstack = 0;
  state = unused;
  pid = 0;
  parent = none;
  chan = null;
  killed = false;
  ofile = [];
  cwd = 0;
  status = 0;
  priority = pos 0;
  accumulator = pos 0;
}

-- ptable.proc[i]
abbrev pub proc_at : Kernel → ℕ → Proc
proc_at k i = get_or k.procs i no_proc

abbrev pub set_proc : Kernel → ℕ → Proc → Kernel
set_proc k i p = record k { procs = set k.procs i p }

-- getAccumulator(p)
abbrev pub accumulator_of : Kernel → ℕ → ℤ
accumulator_of k i = (proc_at k i).accumulator

unfoldable pub call : Kernel → Call → Kernel
call k c = record k { calls = k.calls ++ c ∷ [] }

-- The 64-bit pattern of a long long, and the number that a pattern stands for.
abbrev pub pattern64 : ℤ → ℕ
pattern64 (pos n) = n % 2 ^ 64
pattern64 (negsuc n) = 2 ^ 64 - 1 - n % 2 ^ 64

abbrev pub signed64 : ℕ → ℤ
signed64 w = if ltb w (2 ^ 63) then pos w else negsuc (2 ^ 64 - 1 - w)

-- The addition of two long long, with wrap-around.
unfoldable pub add64 : ℤ → ℤ → ℤ
add64 a b = signed64 ((pattern64 a + pattern64 b) % 2 ^ 64)

-- nextpid++ on the pattern of an int.
unfoldable pub next_int : ℕ → ℕ
next_int n = (n + 1) % 2 ^ 32
