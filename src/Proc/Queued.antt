-- ===== src/Proc/Queued.antt =====
-- The RUNNABLE processes of proc.c and the entries of the priority queue.
pub mod Switch
pub mod Life
pub mod Family
pub mod Runs
use os_system_calls_scheduli.Base.{
  ℕ, zero, suc, ◌+◌, ◌≤◌, ◌<◌, ◌≡◌, ◌≢◌, true, false, inl, inr, arith, ◌==◌, length, Bool-cases,
  ==_refl, ℕ_discrete, set, get_or,
}
use os_system_calls_scheduli.SchedDs.Queues.{Queues}
use os_system_calls_scheduli.SchedDs.Order.{entries}
use os_system_calls_scheduli.SchedDs.Sorted.{has, has-insert}
use os_system_calls_scheduli.Proc.Types.{
  ProcState, unused, embryo, sleeping, runnable, running, zombie, state_eq, Chan, Proc, Kernel,
  proc_at, set_proc, accumulator_of, no_proc,
}
use os_system_calls_scheduli.Proc.Sched.{pq_put, make_runnable, wake_one, wake_from, wakeup}
use os_system_calls_scheduli.Proc.Frame.{
  Room, proc_at-set_proc, pq_put_lem, pq_put_frame, woken_proc, set_twice,
}
use os_system_calls_scheduli.Proc.Wake.{sleeps_on, length-wake_one}
use os_system_calls_scheduli.Proc.Sleepers.{sleeps, sleepers, sleepers-set, sleepers-set_twice}

-- Every RUNNABLE process has an entry in the queue; there is room for all that sleep and `n` more.
pub record Ready (n : ℕ) (k : Kernel) : Type 0 where
  pub queued : (i : ℕ) → (proc_at k i).state ≡ runnable → has i (entries k.queues.prio) ≡ true
  pub room : Room (sleepers k.procs + n) k.queues

pub Room-weaken : {m n : ℕ} {q : Queues} → n ≤ m → Room m q → Room n q
Room-weaken h r = record {
  search = r.search;
  links = omega (arith, r.links);
  nodes = omega (arith, r.nodes);
}

pub Ready-weaken : (n : ℕ) (k : Kernel) → Ready (suc n) k → Ready n k
Ready-weaken n k r = record { queued = r.queued; room = Room-weaken (omega arith) r.room }

pub state_eq-eq : (a b : ProcState) → state_eq a b ≡ true → a ≡ b
unfolding state_eq
state_eq-eq unused b h = ground arith
state_eq-eq embryo b h = ground arith
state_eq-eq sleeping b h = ground arith
state_eq-eq runnable b h = ground arith
state_eq-eq running b h = ground arith
state_eq-eq zombie b h = ground arith

-- A change of one entry that makes no process RUNNABLE; room is moved if one goes to sleep.
pub set_proc-Ready :
    (m n : ℕ) (k : Kernel) (i : ℕ) (p : Proc)
    → i < length k.procs
    → (p.state ≡ runnable → (proc_at k i).state ≡ runnable)
    → sleeps p + n ≤ sleeps (proc_at k i) + m
    → Ready m k
    → Ready n (set_proc k i p)
set_proc-Ready m n k i p h keep le r = record {
  queued = λ j e. r.queued j (back j e);
  room = Room-weaken (omega (arith, sleepers-set k.procs i p h)) r.room;
}
  where
    back : (j : ℕ) → (proc_at (set_proc k i p) j).state ≡ runnable → (proc_at k j).state ≡ runnable
    back j e = elim (ℕ_discrete i j) [
      | yes same ↦
          rw (← same) (keep (rw (proc_at-set_proc k i i p h, ==_refl i) at (rw (← same) at e)))
      | no ne ↦ let f : (i == j) ≡ false = ground arith in rw (proc_at-set_proc k i j p h, f) at e
    ]

-- pq.put of a process that only the queue still misses.
pub pq_put-Ready :
    (n : ℕ) (k : Kernel) (i : ℕ)
    → ((j : ℕ) → i ≢ j → (proc_at k j).state ≡ runnable → has j (entries k.queues.prio) ≡ true)
    → Room (suc (sleepers k.procs + n)) k.queues
    → Ready n (pq_put k i)
pq_put-Ready n k i others r = record {
  queued = found;
  room = rw (pq_put_frame k i).0 (pq_put_lem k i (sleepers k.procs + n) r).1;
}
  where
    found :
        (j : ℕ)
        → (proc_at (pq_put k i) j).state ≡ runnable
        → has j (entries (pq_put k i).queues.prio) ≡ true
    found j e =
        rw
          (
            (pq_put_lem k i (sleepers k.procs + n) r).0,
            has-insert j (accumulator_of k i) i (entries k.queues.prio),
          )
          (elim (Bool-cases (i == j)) [
            | inl same ↦ rw same
            | inr ne ↦ rw ne (others j (ground arith) (rw (pq_put_frame k i).0 at e))
          ])

-- An entry is changed twice and its process queued, in the room that its sleep or `m` gives.
pub put_twice-Ready :
    (m n : ℕ) (k : Kernel) (i : ℕ) (u v : Proc)
    → i < length k.procs
    → sleeps v + suc n ≤ sleeps (proc_at k i) + m
    → Ready m k
    → Ready n (pq_put (set_proc (set_proc k i u) i v) i)
put_twice-Ready m n k i u v h le r =
    pq_put-Ready n (set_proc (set_proc k i u) i v) i others
      (Room-weaken (omega (arith, sleepers-set_twice k.procs i u v h)) r.room)
  where
    others :
        (j : ℕ)
        → i ≢ j
        → (get_or (set (set k.procs i u) i v) j no_proc).state ≡ runnable
        → has j (entries k.queues.prio) ≡ true
    others j ne e =
        let f : (i == j) ≡ false = ground arith in r.queued j (rw (set_twice k i j u v h, f) at e)

-- make_runnable on a sleeping process takes the room that was held for it.
pub make_runnable-Ready :
    (n : ℕ) (k : Kernel) (i : ℕ)
    → i < length k.procs
    → sleeps (proc_at k i) ≡ 1
    → Ready n k
    → Ready n (make_runnable i k)
unfolding make_runnable state_eq
make_runnable-Ready n k i h asleep r =
    put_twice-Ready n n k i (record (proc_at k i) { state = runnable }) (woken_proc k i) h
      (omega arith) r

wake_one-Ready :
    (n : ℕ) (chan : Chan) (i : ℕ) (k : Kernel)
    → i < length k.procs
    → Ready n k
    → Ready n (wake_one chan i k)
unfolding wake_one
wake_one-Ready n chan i k h r = elim (Bool-cases (sleeps_on chan (proc_at k i))) [
  | inl hit ↦ rw hit (make_runnable-Ready n k i h (ground arith) r)
  | inr miss ↦ rw miss r
]

wake_from-Ready :
    (m n : ℕ) (chan : Chan) (i : ℕ) (k : Kernel)
    → i + m ≤ length k.procs
    → Ready n k
    → Ready n (wake_from m chan i k)
unfolding wake_from
wake_from-Ready zero n chan i k h r = r
wake_from-Ready (suc m) n chan i k h r =
    wake_from-Ready m n chan (i + 1) (wake_one chan i k) (omega (arith, length-wake_one chan i k))
      (wake_one-Ready n chan i k (omega arith) r)

-- wakeup queues every process that it wakes, and needs no room but the sleepers' own.
pub wakeup-Ready : (n : ℕ) (chan : Chan) (k : Kernel) → Ready n k → Ready n (wakeup chan k)
unfolding wakeup
wakeup-Ready n chan k r = wake_from-Ready (length k.procs) n chan 0 k (omega arith) r
