-- ===== src/Tests/Kernel.antt =====
-- The kernel of proc.c at a concrete state: process 0 runs, 1 sleeps, 2 is queued, 3 is free.
use os_system_calls_scheduli.Base.{ℕ, zero, suc, ◌+◌, ◌≡◌, refl, ◌≢◌, true, some, [], ◌∷◌, arith}
use os_system_calls_scheduli.Base.Int.{pos}
use os_system_calls_scheduli.SchedDs.Map.{leaf, node}
use os_system_calls_scheduli.SchedDs.Queues.{Queues}
use os_system_calls_scheduli.SchedDs.Order.{entries, IsSearch}
use os_system_calls_scheduli.SchedDs.Sorted.{has, insert, count}
use os_system_calls_scheduli.Proc.Types.{
  sleeping, runnable, running, state_eq, chan_eq, address, Kernel, no_proc, proc_at, accumulator_of,
  add64,
}
use os_system_calls_scheduli.Proc.Sched.{
  get_min, wakeup, wake_from, wake_one, make_runnable, retire, yield_proc,
}
use os_system_calls_scheduli.Proc.Life.{allocproc, wait_pass, kill}
use os_system_calls_scheduli.Proc.Sleepers.{sleepers}
use os_system_calls_scheduli.Proc.Wake.{Woken, wakeup-Woken}
use os_system_calls_scheduli.Proc.GetMin.{IsMinimum, get_min-IsMinimum}
use os_system_calls_scheduli.Proc.Wait.{WaitOutcome, wait_pass-WaitOutcome}
use os_system_calls_scheduli.Proc.Kill.{
  KillOutcome, AllocOutcome, kill-KillOutcome, allocproc-AllocOutcome,
}
use os_system_calls_scheduli.Proc.Twice.{yield_queued_twice}
use os_system_calls_scheduli.Proc.System.{stop, step, woken}
use os_system_calls_scheduli.Proc.Queued.{Ready}
use os_system_calls_scheduli.Proc.Queued.Runs.{Run-queued}

abbrev queues : Queues
queues = record {
  prio = node (pos 3) (2 ∷ []) leaf leaf;
  round_robin = [];
  running = 0 ∷ [];
  pool = record { free_links = 126; free_nodes = 127 };
}

abbrev kernel : Kernel
kernel = record {
  procs =
      record no_proc { state = running; pid = 1; priority = pos 5; accumulator = pos 4 }
      ∷ record no_proc { state = sleeping; pid = 2; parent = some 0; chan = address 7 }
      ∷ record no_proc { state = runnable; pid = 3; parent = some 0; accumulator = pos 3 }
      ∷ no_proc
      ∷ [];
  nextpid = 4;
  initproc = 0;
  queues = queues;
  calls = [];
}

search : IsSearch queues.prio
unfolding entries
search = ((λ e. cc), tt, tt, tt, tt)

all_queued :
    (i : ℕ) → (proc_at kernel i).state ≡ runnable → has i (entries kernel.queues.prio) ≡ true
unfolding has entries
all_queued zero e = cc
all_queued (suc zero) e = cc
all_queued (suc (suc zero)) e = refl
all_queued (suc (suc (suc zero))) e = cc
all_queued (suc (suc (suc (suc i)))) e = cc

kernel-Ready : Ready 2 kernel
unfolding sleepers state_eq
kernel-Ready = record {
  queued = all_queued;
  room = record { search = search; links = omega arith; nodes = omega arith };
}

Run-queued_example : has 1 (entries (wakeup (address 7) kernel).queues.prio) ≡ true
unfolding wakeup wake_from wake_one chan_eq make_runnable state_eq
Run-queued_example = Run-queued 1 (step stop (woken (address 7))) kernel-Ready 1 refl

yield_queued_twice_example :
    (entries (retire 0 (yield_proc 0 kernel)).queues.prio
      ≡ insert (add64 (pos 4) (pos 5)) 0 (insert (pos 4) 0 (entries kernel.queues.prio)))
    × (count 0 (entries (retire 0 (yield_proc 0 kernel)).queues.prio)
        ≡ count 0 (entries kernel.queues.prio) + 2)
    × ((proc_at (retire 0 (yield_proc 0 kernel)) 0).state ≡ runnable)
yield_queued_twice_example =
    yield_queued_twice kernel 0 (omega arith)
      (record { search = search; links = omega arith; nodes = omega arith })

wakeup-Woken_example : Woken (address 7) (proc_at kernel 1) (proc_at (wakeup (address 7) kernel) 1)
wakeup-Woken_example = wakeup-Woken (address 7) kernel 1 (omega arith)

get_min-IsMinimum_example :
    (kernel.queues.prio ≢ leaf
      → IsMinimum
          (accumulator_of kernel)
          (entries kernel.queues.prio)
          kernel.queues.running
          (get_min kernel))
    × (kernel.queues.prio ≡ leaf → get_min kernel ≡ pos 0)
get_min-IsMinimum_example = get_min-IsMinimum kernel search

wait_pass_example : WaitOutcome 0 kernel (wait_pass 0 kernel)
wait_pass_example = wait_pass-WaitOutcome 0 kernel

kill_example : KillOutcome 2 kernel (kill 2 kernel)
kill_example = kill-KillOutcome 2 kernel

allocproc_example : AllocOutcome 4096 kernel (allocproc 4096 kernel)
allocproc_example = allocproc-AllocOutcome 4096 kernel
