-- ===== src/Proc/Sched.antt =====
-- proc.c: get_min, Priority_Scheduler and Round_Robin_Scheduler, sched, yield, sleep, wakeup1 and
-- wakeup. A function that runs with ptable.lock held from end to end is one step; one that gives up
-- the processor by sched is the part before swtch.
use os_system_calls_scheduli.Base.{
  ℕ, zero, suc, ◌+◌, Bool, not, ◌&&◌, Option, none, some, ◌==◌, if◌then◌else◌, length,
}
use os_system_calls_scheduli.Base.Int.{ℤ, pos, ltb_ℤ}
use os_system_calls_scheduli.SchedDs.LinkedList
use os_system_calls_scheduli.SchedDs.Map
use os_system_calls_scheduli.SchedDs.Map.{is_leaf}
use os_system_calls_scheduli.SchedDs.Queues
use os_system_calls_scheduli.SchedDs.Queues.{Queues}
use os_system_calls_scheduli.Proc.Types.{
  sleeping, runnable, running, state_eq, Chan, null, chan_eq, Proc, Kernel, proc_at, set_proc,
  accumulator_of, add64,
}

-- `*pkey` is left at its initial 0 when the call fails.
abbrev pub or_zero : Option ℤ → ℤ
or_zero none = pos 0
or_zero (some key) = key

unfoldable pub get_min : Kernel → ℤ
get_min k =
    let min_pq = or_zero (Map.get_min_key k.queues.prio) in
    let min_running = or_zero (LinkedList.get_min_key (accumulator_of k) k.queues.running) in
    if is_leaf k.queues.prio
    then pos 0
    else if LinkedList.is_empty k.queues.running
    then min_pq
    else if ltb_ℤ min_pq min_running
    then min_pq
    else min_running

-- pq.put(p), its result thrown away as every caller does.
unfoldable pub pq_put : Kernel → ℕ → Kernel
pq_put k p = record k { queues = (Queues.put (accumulator_of k p) p k.queues).1 }

-- What Priority_Scheduler does before swtch; the option is the process that it switches to.
unfoldable pub dispatch : Kernel → Option ℕ × Kernel
dispatch k =
    if is_leaf k.queues.prio
    then (none, k)
    else (let (first, q) = Queues.extract_min k.queues in
        elim first [
          | none ↦ (none, record k { queues = q })
          | some p ↦
              if state_eq (proc_at k p).state runnable
              then (
                some p,
                record k {
                  procs = (set_proc k p (record (proc_at k p) { state = running })).procs;
                  queues = (Queues.add p q).1;
                },
              )
              else (none, record k { queues = q })
        ])

-- What Priority_Scheduler does after swtch, when `p` is back.
unfoldable pub retire : ℕ → Kernel → Kernel
unfolding pq_put
retire p k =
    let k' = record k { queues = (Queues.remove p k.queues).1 } in
    if state_eq (proc_at k p).state runnable
    then pq_put
        (set_proc k' p (record (proc_at k p) {
          accumulator = add64 (accumulator_of k p) (proc_at k p).priority;
        }))
        p
    else k'

-- Round_Robin_Scheduler, in the same two parts.
unfoldable pub dispatch_round_robin : Kernel → Option ℕ × Kernel
dispatch_round_robin k =
    let (first, q) = Queues.dequeue k.queues in
    elim first [
      | none ↦ (none, k)
      | some p ↦
          if state_eq (proc_at k p).state runnable
          then (
            some p,
            record k {
              procs = (set_proc k p (record (proc_at k p) { state = running })).procs;
              queues = (Queues.add p q).1;
            },
          )
          else (none, record k { queues = q })
    ]

unfoldable pub retire_round_robin : ℕ → Kernel → Kernel
retire_round_robin p k =
    if state_eq (proc_at k p).state runnable
    then record k { queues = (Queues.enqueue p k.queues).1 }
    else k

-- The state in which `sched` finds its processor.
pub record Cpu : Type 0 where
  pub holds_ptable : Bool
  pub ncli : ℕ
  pub interrupts : Bool

-- The checks of `sched`: `false` is a panic.
unfoldable pub sched_ok : Cpu → Proc → Bool
sched_ok c p = c.holds_ptable && (c.ncli == 1) && not (state_eq p.state running) && not c.interrupts

-- yield up to sched.
unfoldable pub yield_proc : ℕ → Kernel → Kernel
yield_proc p k =
    let k' = set_proc k p (record (proc_at k p) { state = runnable }) in
    pq_put (record k' { queues = (Queues.remove p k'.queues).1 }) p

-- sleep up to sched, and the line after it.
unfoldable pub sleep_on : Chan → ℕ → Kernel → Kernel
sleep_on chan p k =
    let k' = set_proc k p (record (proc_at k p) { chan = chan; state = sleeping }) in
    record k' { queues = (Queues.remove p k'.queues).1 }

unfoldable pub after_sleep : ℕ → Kernel → Kernel
after_sleep p k = set_proc k p (record (proc_at k p) { chan = null })

-- `p->state = RUNNABLE; p->accumulator = get_min(); pq.put(p);`
unfoldable pub make_runnable : ℕ → Kernel → Kernel
unfolding pq_put
make_runnable i k =
    let p = record (proc_at k i) { state = runnable } in
    let k' = set_proc k i p in pq_put (set_proc k' i (record p { accumulator = get_min k' })) i

-- The body of the loop of wakeup1.
unfoldable pub wake_one : Chan → ℕ → Kernel → Kernel
wake_one chan i k =
    if state_eq (proc_at k i).state sleeping && chan_eq (proc_at k i).chan chan
    then make_runnable i k
    else k

-- Entry `i` of the table and the `n` behind it.
unfoldable pub wake_from : ℕ → Chan → ℕ → Kernel → Kernel
wake_from zero chan i k = k
wake_from (suc n) chan i k = wake_from n chan (i + 1) (wake_one chan i k)

-- wakeup1, and wakeup with the lock taken.
unfoldable pub wakeup : Chan → Kernel → Kernel
wakeup chan k = wake_from (length k.procs) chan 0 k
