-- ===== src/Proc/Life.antt =====
-- proc.c: allocproc, userinit, fork, exit, wait, kill, detach and priority.
use os_system_calls_scheduli.Base.{
  ℕ, zero, suc, ◌+◌, Bool, true, false, ◌&&◌, Option, none, some, List, [], ◌∷◌, ◌++◌, ◌==◌,
  if◌then◌else◌, length, map,
}
use os_system_calls_scheduli.Base.Int.{ℤ, pos}
use os_system_calls_scheduli.Proc.Types.{
  unused, embryo, sleeping, runnable, zombie, state_eq, Chan, null, of_proc, Proc, Kernel, Call,
  filedup, fileclose, idup, iput, kfree, freevm, begin_op, end_op, proc_at, set_proc, call,
  next_int,
}
use os_system_calls_scheduli.Proc.Table.{find_first}
use os_system_calls_scheduli.Proc.Sched.{get_min, pq_put, make_runnable, wakeup}

-- allocproc; `stack` is what kalloc returns. The trap frame and the context that it writes on the
-- stack are machine state.
unfoldable pub allocproc : ℕ → Kernel → Option ℕ × Kernel
allocproc stack k = elim (find_first (λ p. state_eq p.state unused) k.procs) [
  | none ↦ (none, k)
  | some i ↦
      let p = record (proc_at k i) { state = embryo; pid = k.nextpid } in
      let k' = record (set_proc k i p) { nextpid = next_int k.nextpid } in
      if stack == 0
      then (none, set_proc k' i (record p { kstack = 0; state = unused }))
      else (some i, set_proc k' i (record p { kstack = stack }))
]

-- `p->state = RUNNABLE; p->priority = 5; p->accumulator = get_min(); pq.put(p);`
unfoldable pub make_ready : ℕ → Kernel → Kernel
make_ready i k =
    let p = record (proc_at k i) { state = runnable; priority = pos 5 } in
    let k' = set_proc k i p in pq_put (set_proc k' i (record p { accumulator = get_min k' })) i

-- userinit; `pgdir` is what setupkvm returns, `root` the inode of "/". `none` is the panic, and the
-- null dereference when there is no entry for the process.
unfoldable pub userinit : ℕ → ℕ → ℕ → Kernel → Option Kernel
unfolding allocproc make_ready
userinit stack pgdir root k =
    let (found, k') = allocproc stack k in
    elim found [
      | none ↦ none
      | some i ↦
          if pgdir == 0
          then none
          else some (
              make_ready i (
                set_proc (record k' { initproc = i }) i
                  (record (proc_at k' i) { pgdir = pgdir; sz = 4096; cwd = root })))
    ]

-- The loop over the descriptors of fork: `filedup` returns its argument.
unfoldable pub dup_files : List ℕ → List ℕ → List ℕ
dup_files [] child = child
dup_files (f ∷ fs) [] = []
dup_files (f ∷ fs) (g ∷ gs) = (if f == 0 then g else f) ∷ dup_files fs gs

unfoldable pub dup_calls : List ℕ → List Call
dup_calls [] = []
dup_calls (f ∷ fs) = if f == 0 then dup_calls fs else filedup f ∷ dup_calls fs

-- The copies that fork makes of the caller `cur` for the child `i`.
unfoldable pub copy_proc : ℕ → ℕ → ℕ → Kernel → Kernel
unfolding dup_files dup_calls
copy_proc pgdir cur i k =
    let np = proc_at k i in
    let parent = proc_at k cur in
    record (set_proc k i (record np {
      pgdir = pgdir;
      sz = parent.sz;
      parent = some cur;
      ofile = dup_files parent.ofile np.ofile;
      cwd = parent.cwd;
    })) { calls = k.calls ++ dup_calls parent.ofile ++ idup parent.cwd ∷ [] }

-- What fork gives back when copyuvm fails.
unfoldable pub undo_alloc : ℕ → Kernel → Kernel
undo_alloc i k =
    let np = proc_at k i in
    set_proc (call k (kfree np.kstack)) i (record np { kstack = 0; state = unused })

-- fork by `cur`; `stack` and `pgdir` are what kalloc and copyuvm return. The result is the pid of
-- the child, `none` for -1.
unfoldable pub fork : ℕ → ℕ → ℕ → Kernel → Option ℕ × Kernel
unfolding copy_proc undo_alloc
fork stack pgdir cur k =
    let (found, k') = allocproc stack k in
    elim found [
      | none ↦ (none, k')
      | some i ↦
          if pgdir == 0
          then (none, undo_alloc i k')
          else (some (proc_at k' i).pid, make_ready i (copy_proc pgdir cur i k'))
    ]

unfoldable pub close_calls : List ℕ → List Call
close_calls [] = []
close_calls (f ∷ fs) = if f == 0 then close_calls fs else fileclose f ∷ close_calls fs

-- The channel that `wakeup1(curproc->parent)` names.
unfoldable pub parent_chan : Option ℕ → Chan
parent_chan none = null
parent_chan (some i) = of_proc i

unfoldable pub is_child : ℕ → Proc → Bool
is_child cur p = elim (p.parent) [ none ↦ false | some j ↦ j == cur ]

-- One round of the loop that passes the children of `cur` to initproc.
unfoldable pub adopt_one : ℕ → ℕ → Kernel → Kernel
unfolding is_child
adopt_one cur i k =
    if is_child cur (proc_at k i)
    then (let k' = set_proc k i (record (proc_at k i) { parent = some k.initproc }) in
        if state_eq (proc_at k i).state zombie then wakeup (of_proc k.initproc) k' else k')
    else k

unfoldable pub adopt_from : ℕ → ℕ → ℕ → Kernel → Kernel
adopt_from zero cur i k = k
adopt_from (suc n) cur i k = adopt_from n cur (i + 1) (adopt_one cur i k)

-- exit with all files closed and the directory given back.
unfoldable pub close_all : ℕ → ℕ → Kernel → Kernel
unfolding close_calls
close_all status cur k =
    let p = record (proc_at k cur) { status = status } in
    record (set_proc k cur (record p { ofile = map (λ f. 0) p.ofile; cwd = 0 })) {
      calls = k.calls ++ close_calls p.ofile ++ begin_op ∷ iput p.cwd ∷ end_op ∷ [];
    }

-- The parent woken, and the children passed to initproc.
unfoldable pub leave_family : ℕ → Kernel → Kernel
unfolding adopt_from parent_chan
leave_family cur k =
    let woken = wakeup (parent_chan (proc_at k cur).parent) k in
    adopt_from (length woken.procs) cur 0 woken

-- exit up to sched. `none` is the panic of the first process.
unfoldable pub exit : ℕ → ℕ → Kernel → Option Kernel
unfolding close_all leave_family
exit status cur k =
    let left = leave_family cur (close_all status cur k) in
    if cur == k.initproc
    then none
    else some (set_proc left cur (record (proc_at left cur) { state = zombie }))

-- One pass of the loop of wait: a child was reaped (its pid and its exit status), the call fails,
-- or the caller sleeps and tries again.
pub data Waited : Type 0 where
  reaped : ℕ → ℕ → Kernel → Waited
  failed : Waited
  must_sleep : Waited

-- `p` as wait leaves it.
unfoldable pub reap_proc : Proc → Proc
reap_proc p = record p { kstack = 0; pid = 0; parent = none; killed = false; state = unused }

unfoldable pub reap : ℕ → Kernel → Kernel
unfolding reap_proc call
reap i k =
    let p = proc_at k i in
    set_proc (call (call k (kfree p.kstack)) (freevm p.pgdir)) i (reap_proc p)

unfoldable pub wait_pass : ℕ → Kernel → Waited
unfolding is_child reap
wait_pass cur k = elim (find_first (λ p. is_child cur p && state_eq p.state zombie) k.procs) [
  | some i ↦ reaped (proc_at k i).pid (proc_at k i).status (reap i k)
  | none ↦ elim (find_first (is_child cur) k.procs) [
    | none ↦ failed
    | some j ↦ if (proc_at k cur).killed then failed else must_sleep
  ]
]

-- kill; the result is `true` for 0 and `false` for -1.
unfoldable pub kill : ℕ → Kernel → Bool × Kernel
kill pid k = elim (find_first (λ p. p.pid == pid) k.procs) [
  | none ↦ (false, k)
  | some i ↦
      let k' = set_proc k i (record (proc_at k i) { killed = true }) in
      (true, if state_eq (proc_at k i).state sleeping then make_runnable i k' else k')
]

unfoldable pub detach : ℕ → ℕ → Kernel → Bool × Kernel
unfolding is_child
detach pid cur k = elim (find_first (λ p. p.pid == pid && is_child cur p) k.procs) [
  | none ↦ (false, k)
  | some i ↦ (true, set_proc k i (record (proc_at k i) { parent = some k.initproc }))
]

unfoldable pub priority : ℤ → ℕ → Kernel → Kernel
priority prio cur k = set_proc k cur (record (proc_at k cur) { priority = prio })
