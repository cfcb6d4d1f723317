-- ===== src/Proc/System.antt =====
-- The kernel of proc.c as a machine: which step follows which. A step runs with ptable.lock held.
-- yield, sleep and exit end in sched, so the step goes on to the release in Priority_Scheduler.
use os_system_calls_scheduli.Base.{ℕ, suc, ◌<◌, ◌≡◌, some, length}
use os_system_calls_scheduli.Base.Int.{ℤ}
use os_system_calls_scheduli.Proc.Types.{Chan, Kernel}
use os_system_calls_scheduli.Proc.Sched.{
  dispatch, retire, yield_proc, sleep_on, after_sleep, wakeup,
}
use os_system_calls_scheduli.Proc.Life.{fork, exit, reaped, wait_pass, kill, detach, priority}

-- `i` is the process that the processor runs.
pub data Step (k : Kernel) : Kernel → Type 0 where
  schedule : Step k (dispatch k).1
  yielded : (i : ℕ) → i < length k.procs → Step k (retire i (yield_proc i k))
  slept : (chan : Chan) (i : ℕ) → i < length k.procs → Step k (retire i (sleep_on chan i k))
  exited :
      (status i : ℕ) {k' : Kernel}
      → i < length k.procs
      → exit status i k ≡ some k'
      → Step k (retire i k')
  woken : (chan : Chan) → Step k (wakeup chan k)
  forked : (stack pgdir i : ℕ) → Step k (fork stack pgdir i k).1
  killed : (pid : ℕ) → Step k (kill pid k).1
  detached : (pid i : ℕ) → Step k (detach pid i k).1
  waited : (i pid status : ℕ) {k' : Kernel} → wait_pass i k ≡ reaped pid status k' → Step k k'
  resumed : (i : ℕ) → i < length k.procs → Step k (after_sleep i k)
  prioritised : (prio : ℤ) (i : ℕ) → i < length k.procs → Step k (priority prio i k)

-- Runs of `m` steps.
pub data Run (k : Kernel) : ℕ → Kernel → Type 0 where
  stop : Run k 0 k
  step : {m : ℕ} {k' k'' : Kernel} → Run k m k' → Step k' k'' → Run k (suc m) k''
