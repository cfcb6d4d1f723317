-- ===== src/Proc/Wake.antt =====
-- wakeup1 and wakeup of proc.c: who is woken, and that each is queued.
use os_system_calls_scheduli.Base.{
  ℕ, zero, suc, ◌+◌, ◌≤◌, ◌<◌, ◌≡◌, refl, ◌≢◌, Bool, false, ◌&&◌, inl, inr, arith, ◌==◌,
  if◌then◌else◌, length, ◌∙◌, Bool-cases, ==_refl, ℕ_discrete,
}
use os_system_calls_scheduli.Proc.Types.{
  sleeping, runnable, state_eq, Chan, chan_eq, Proc, Kernel, proc_at,
}
use os_system_calls_scheduli.Proc.Sched.{wake_one, wake_from, wakeup}
use os_system_calls_scheduli.Proc.Frame.{make_runnable_procs, length-make_runnable}

abbrev pub sleeps_on : Chan → Proc → Bool
sleeps_on chan p = state_eq p.state sleeping && chan_eq p.chan chan

-- What `wakeup chan` makes of one entry of the table.
pub record Woken (chan : Chan) (p p' : Proc) : Type 0 where
  pub state : p'.state ≡ (if sleeps_on chan p then runnable else p.state)
  pub kept : record p' { state = p.state; accumulator = p.accumulator } ≡ p
  pub others : sleeps_on chan p ≡ false → p' ≡ p

pub length-wake_one :
    (chan : Chan) (i : ℕ) (k : Kernel) → length (wake_one chan i k).procs ≡ length k.procs
unfolding wake_one
length-wake_one chan i k = elim (Bool-cases (sleeps_on chan (proc_at k i))) [
  | inl hit ↦ rw hit (length-make_runnable k i)
  | inr miss ↦ rw miss
]

wake_one-Woken :
    (chan : Chan) (i : ℕ) (k : Kernel)
    → i < length k.procs
    → Woken chan (proc_at k i) (proc_at (wake_one chan i k) i)
unfolding wake_one
wake_one-Woken chan i k h = elim (Bool-cases (sleeps_on chan (proc_at k i))) [
  | inl hit ↦
      rw (hit, make_runnable_procs k i i h, ==_refl i)
        (record { state = rw hit; kept = refl; others = λ e. cc })
  | inr miss ↦ rw miss (record { state = rw miss; kept = refl; others = λ e. refl })
]

wake_one_ne :
    (chan : Chan) (i j : ℕ) (k : Kernel)
    → i < length k.procs
    → i ≢ j
    → proc_at (wake_one chan i k) j ≡ proc_at k j
unfolding wake_one
wake_one_ne chan i j k h ne = elim (Bool-cases (sleeps_on chan (proc_at k i))) [
  | inl hit ↦ let e : (i == j) ≡ false = ground arith in rw (hit, make_runnable_procs k i j h, e)
  | inr miss ↦ rw miss
]

wake_from_before :
    (n : ℕ) (chan : Chan) (i j : ℕ) (k : Kernel)
    → i + n ≤ length k.procs
    → j < i
    → proc_at (wake_from n chan i k) j ≡ proc_at k j
unfolding wake_from
wake_from_before zero chan i j k h lt = refl
wake_from_before (suc n) chan i j k h lt =
    wake_from_before n chan (i + 1) j (wake_one chan i k) (omega (arith, length-wake_one chan i k))
      (omega arith)
    ∙ wake_one_ne chan i j k (omega arith) (omega arith)

wake_from-Woken :
    (n : ℕ) (chan : Chan) (i j : ℕ) (k : Kernel)
    → i + n ≤ length k.procs
    → i ≤ j
    → j < i + n
    → Woken chan (proc_at k j) (proc_at (wake_from n chan i k) j)
unfolding wake_from
wake_from-Woken zero chan i j k h lo hi = absurd (omega arith)
wake_from-Woken (suc n) chan i j k h lo hi = elim (ℕ_discrete i j) [
  | yes same ↦ rw (← same) (
      rw
        (wake_from_before n chan (i + 1) i (wake_one chan i k)
          (omega (arith, length-wake_one chan i k)) (omega arith))
        (wake_one-Woken chan i k (omega arith)))
  | no ne ↦
      let w =
        wake_from-Woken n chan (i + 1) j (wake_one chan i k)
          (omega (arith, length-wake_one chan i k)) (omega arith) (omega arith) in
      rw (wake_one_ne chan i j k (omega arith) ne) at w
]

-- `wakeup chan` makes exactly the processes that sleep on `chan` RUNNABLE, changes nothing else of
-- them but the accumulator, and nothing of the other processes.
pub wakeup-Woken :
    (chan : Chan) (k : Kernel) (i : ℕ)
    → i < length k.procs
    → Woken chan (proc_at k i) (proc_at (wakeup chan k) i)
unfolding wakeup
wakeup-Woken chan k i h =
    wake_from-Woken (length k.procs) chan 0 i k (omega arith) (omega arith) (omega arith)
