-- ===== src/Proc/Queued/Runs.antt =====
-- Runs of the machine lose no RUNNABLE process while the pool of ass1ds.cpp lasts.
use os_system_calls_scheduli.Base.{ℕ, zero, suc, ◌+◌, ◌*◌, ◌≡◌, true, arith, subst}
use os_system_calls_scheduli.SchedDs.Order.{entries}
use os_system_calls_scheduli.SchedDs.Sorted.{has}
use os_system_calls_scheduli.Proc.Types.{Kernel, proc_at, runnable}
use os_system_calls_scheduli.Proc.Sched.{yield_proc, sleep_on}
use os_system_calls_scheduli.Proc.System.{
  Step, schedule, yielded, slept, exited, woken, forked, killed, detached, waited, resumed,
  prioritised, Run, stop, step,
}
use os_system_calls_scheduli.Proc.Queued.{Ready, Ready-weaken, wakeup-Ready}
use os_system_calls_scheduli.Proc.Queued.Switch.{
  dispatch-Ready, yield-Ready, retire-Ready, sleep-Ready, after_sleep-Ready, length-yield,
  length-sleep,
}
use os_system_calls_scheduli.Proc.Queued.Life.{kill-Ready, detach-Ready, priority-Ready, wait-Ready}
use os_system_calls_scheduli.Proc.Queued.Family.{fork-Ready, exit-Ready}

-- A step takes the room of two entries at most: yield queues its process twice.
pub Step-Ready : (n : ℕ) {k k' : Kernel} → Step k k' → Ready (suc (suc n)) k → Ready n k'
Step-Ready n {k} schedule r = dispatch-Ready n k (Ready-weaken n k (Ready-weaken (suc n) k r))
Step-Ready n {k} (yielded i h) r =
    retire-Ready n (yield_proc i k) i (omega (arith, length-yield i k))
      (yield-Ready (suc n) k i h r)
Step-Ready n {k} (slept chan i h) r =
    retire-Ready n (sleep_on chan i k) i (omega (arith, length-sleep chan i k))
      (sleep-Ready (suc n) chan k i h r)
Step-Ready n {k} (exited status i {k'} h e) r =
    let (r', size) = exit-Ready (suc n) status i k k' h e (Ready-weaken (suc n) k r) in
    retire-Ready n k' i (omega arith) r'
Step-Ready n {k} (woken chan) r =
    wakeup-Ready n chan k (Ready-weaken n k (Ready-weaken (suc n) k r))
Step-Ready n {k} (forked stack pgdir i) r = fork-Ready n stack pgdir i k (Ready-weaken (suc n) k r)
Step-Ready n {k} (killed pid) r = kill-Ready n pid k (Ready-weaken n k (Ready-weaken (suc n) k r))
Step-Ready n {k} (detached pid i) r =
    detach-Ready n pid i k (Ready-weaken n k (Ready-weaken (suc n) k r))
Step-Ready n {k} (waited i pid status {k'} e) r =
    wait-Ready n i pid status k k' e (Ready-weaken n k (Ready-weaken (suc n) k r))
Step-Ready n {k} (resumed i h) r =
    after_sleep-Ready n k i h (Ready-weaken n k (Ready-weaken (suc n) k r))
Step-Ready n {k} (prioritised prio i h) r =
    priority-Ready n prio i k h (Ready-weaken n k (Ready-weaken (suc n) k r))

Run-Ready : (m n : ℕ) {k k' : Kernel} → Run k m k' → Ready (n + 2 * m) k → Ready n k'
Run-Ready zero n {k} stop r = subst (λ x. Ready x k) (omega arith) r
Run-Ready (suc m) n {k} (step {k' = k'} run st) r =
    Step-Ready n st (Run-Ready m (suc (suc n)) run (subst (λ x. Ready x k) (omega arith) r))

-- In a run of `m` steps from a state in which every RUNNABLE process is queued, and whose pool has
-- room for the sleepers and `2 * m` entries more, no RUNNABLE process is without a queue entry.
pub Run-queued :
    (m : ℕ) {k k' : Kernel}
    → Run k m k'
    → Ready (2 * m) k
    → (i : ℕ) → (proc_at k' i).state ≡ runnable
    → has i (entries k'.queues.prio) ≡ true
Run-queued m {k} run r = (Run-Ready m 0 run (subst (λ x. Ready x k) (omega arith) r)).queued
