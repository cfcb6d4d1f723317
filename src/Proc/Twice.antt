-- ===== src/Proc/Twice.antt =====
-- What a yield does to the priority queue of proc.c: yield queues the process, and Priority_Scheduler
-- queues it once more when it comes back.
use os_system_calls_scheduli.Base.{
  ℕ, ◌+◌, ◌<◌, ◌≡◌, refl, true, arith, length, length-set, ==_refl, ◌∙◌, ap,
}
use native.Mathlib.Numerals.{add-one}
use os_system_calls_scheduli.Base.Int.{ℤ}
use os_system_calls_scheduli.SchedDs.Queues
use os_system_calls_scheduli.SchedDs.Sorted.{insert, count, count-insert}
use os_system_calls_scheduli.SchedDs.Order.{entries}
use os_system_calls_scheduli.Proc.Types.{
  runnable, state_eq, Proc, Kernel, proc_at, set_proc, accumulator_of, add64,
}
use os_system_calls_scheduli.Proc.Sched.{pq_put, retire, yield_proc}
use os_system_calls_scheduli.Proc.Frame.{Room, proc_at-set_proc, pq_put_lem, pq_put_frame}
use os_system_calls_scheduli.Proc.Queued.Switch.{remove-Room}

-- One entry is changed and its process queued: the queue and the entry afterwards.
record Put (k : Kernel) (i n : ℕ) (p : Proc) (k' : Kernel) : Type 0 where
  queue : entries k'.queues.prio ≡ insert p.accumulator i (entries k.queues.prio)
  room : Room n k'.queues
  entry : proc_at k' i ≡ p
  size : length k'.procs ≡ length k.procs

requeue :
    (k : Kernel) (i n : ℕ) (p : Proc)
    → i < length k.procs
    → Room (n + 1) k.queues
    → Put k i n p (pq_put (record (set_proc k i p) { queues = (Queues.remove i k.queues).1 }) i)
unfolding Queues.remove
requeue k i n p h r = record {
  queue =
      f.0
      ∙ ap (λ (a : ℤ). insert a i (entries k.queues.prio)) (ap (λ (q : Proc). q.accumulator) here);
  room = f.1;
  entry = rw (pq_put_frame k' i).0 here;
  size = rw (pq_put_frame k' i).0 (length-set k.procs i p);
}
  where
    k' : Kernel
    k' = record (set_proc k i p) { queues = (Queues.remove i k.queues).1 }

    here : proc_at k' i ≡ p
    here = rw (proc_at-set_proc k i i p h, ==_refl i)

    f :
        (entries (pq_put k' i).queues.prio
          ≡ insert (accumulator_of k' i) i (entries k'.queues.prio))
        × Room n (pq_put k' i).queues
    f = pq_put_lem k' i n (rw add-one at (remove-Room i (n + 1) k.queues r))

yield-Put :
    (k : Kernel) (i n : ℕ)
    → i < length k.procs
    → Room (n + 1) k.queues
    → Put k i n (record (proc_at k i) { state = runnable }) (yield_proc i k)
unfolding yield_proc
yield-Put k i n h r = requeue k i n (record (proc_at k i) { state = runnable }) h r

-- `p` as Priority_Scheduler leaves it when it comes back RUNNABLE.
abbrev charged : Proc → Proc
charged p = record p { accumulator = add64 p.accumulator p.priority }

retire-Put :
    (k : Kernel) (i n : ℕ)
    → i < length k.procs
    → (proc_at k i).state ≡ runnable
    → Room (n + 1) k.queues
    → Put k i n (charged (proc_at k i)) (retire i k)
unfolding retire
retire-Put k i n h e r =
    let f : state_eq (proc_at k i).state runnable ≡ true = rw e (unfold state_eq in refl) in
    rw f (requeue k i n (charged (proc_at k i)) h r)

-- With room for two entries, a process that yields is queued twice: under its accumulator, and
-- under its accumulator with its priority added. It is RUNNABLE, and has two entries more than
-- before.
pub yield_queued_twice :
    (k : Kernel) (i : ℕ)
    → i < length k.procs
    → Room 2 k.queues
    → let k' = retire i (yield_proc i k) in
      let a = accumulator_of k i in
      (entries k'.queues.prio
        ≡ insert (add64 a (proc_at k i).priority) i (insert a i (entries k.queues.prio)))
      × (count i (entries k'.queues.prio) ≡ count i (entries k.queues.prio) + 2)
      × ((proc_at k' i).state ≡ runnable)
yield_queued_twice k i h r =
    (queue, rw (queue, count-insert, count-insert, ==_refl i) (omega arith), rw (z.entry, y.entry))
  where
    p : Proc
    p = record (proc_at k i) { state = runnable }

    y : Put k i 1 p (yield_proc i k)
    y = yield-Put k i 1 h r

    z : Put (yield_proc i k) i 0 (charged (proc_at (yield_proc i k) i)) (retire i (yield_proc i k))
    z = retire-Put (yield_proc i k) i 0 (omega (arith, y.size)) (rw y.entry) y.room

    queue :
        entries (retire i (yield_proc i k)).queues.prio
        ≡ insert
            (add64 (accumulator_of k i) (proc_at k i).priority)
            i
            (insert (accumulator_of k i) i (entries k.queues.prio))
    queue = z.queue ∙ rw (y.entry, y.queue)
