-- ===== src/Proc/Queued/Switch.antt =====
-- The steps of proc.c that switch processes lose no RUNNABLE process.
use os_system_calls_scheduli.Base.{
  ℕ, length-set, zero, suc, ◌+◌, ◌≤◌, ◌<◌, ◌≡◌, ◌≢◌, true, false, Option, List, [], ◌∷◌, inl, inr,
  arith, ◌==◌, length, Bool-cases, ℕ_discrete, get_or,
}
use os_system_calls_scheduli.SchedDs.LinkedList.{enqueue_room}
use os_system_calls_scheduli.SchedDs.LinkedList
use os_system_calls_scheduli.SchedDs.Map.{Tree, leaf, node, is_leaf}
use os_system_calls_scheduli.SchedDs.Map
use os_system_calls_scheduli.SchedDs.Queues
use os_system_calls_scheduli.SchedDs.Queues.{Queues}
use os_system_calls_scheduli.SchedDs.Pools.{remove-Removed}
use os_system_calls_scheduli.SchedDs.Order.{entries}
use os_system_calls_scheduli.SchedDs.Extract.{Extract, extract_min-Extract}
use os_system_calls_scheduli.SchedDs.Sorted.{has}
use os_system_calls_scheduli.Proc.Types.{
  ProcState, sleeping, runnable, running, state_eq, Chan, null, Proc, Kernel, proc_at, set_proc,
  no_proc,
}
use os_system_calls_scheduli.Proc.Sched.{
  pq_put, dispatch, retire, yield_proc, sleep_on, after_sleep,
}
use os_system_calls_scheduli.Proc.Frame.{Room, proc_at-set_proc}
use os_system_calls_scheduli.Proc.Sleepers.{sleeps, sleepers, sleepers-set}
use os_system_calls_scheduli.Proc.Queued.{
  Ready, Room-weaken, state_eq-eq, set_proc-Ready, pq_put-Ready,
}

-- rpholder.remove gives a link back or changes nothing.
pub remove-Room : (p n : ℕ) (q : Queues) → Room n q → Room n (Queues.remove p q).1
unfolding Queues.remove
remove-Room p n q r =
    let f = remove-Removed q.pool q.running p in
    record {
      search = r.search;
      links = omega (arith, r.links, f.links, f.shorter);
      nodes = omega (arith, r.nodes, f.nodes);
    }

-- rpholder.add takes at most one link.
add-Room : (p n : ℕ) (q : Queues) → n + 1 ≤ q.pool.free_links → Room n q → Room n (Queues.add p q).1
unfolding Queues.add
add-Room p n q one r = elim (ℕ_discrete q.pool.free_links 0) [
  | yes z ↦ absurd (omega arith)
  | no some_left ↦
      rw (enqueue_room q.pool q.running p some_left)
        (record { search = r.search; links = omega arith; nodes = r.nodes })
]

remove-Ready :
    (p n : ℕ) (k : Kernel)
    → Ready n k
    → Ready n (record k { queues = (Queues.remove p k.queues).1 })
unfolding Queues.remove
remove-Ready p n k r = record {
  queued = r.queued;
  room = remove-Room p (sleepers k.procs + n) k.queues r.room;
}

-- An entry is changed, its process put into the queue, and the running list shortened.
requeue-Ready :
    (n : ℕ) (k : Kernel) (i : ℕ) (p : Proc)
    → i < length k.procs
    → sleeps p ≤ sleeps (proc_at k i)
    → Ready (suc n) k
    → Ready n (pq_put (record (set_proc k i p) { queues = (Queues.remove i k.queues).1 }) i)
unfolding Queues.remove
requeue-Ready n k i p h le r =
    pq_put-Ready n (record (set_proc k i p) { queues = (Queues.remove i k.queues).1 }) i others
      (Room-weaken (omega (arith, sleepers-set k.procs i p h))
        (remove-Room i (sleepers k.procs + suc n) k.queues r.room))
  where
    others :
        (j : ℕ)
        → i ≢ j
        → (proc_at (set_proc k i p) j).state ≡ runnable
        → has j (entries k.queues.prio) ≡ true
    others j ne e =
        let f : (i == j) ≡ false = ground arith in
        r.queued j (rw (proc_at-set_proc k i j p h, f) at e)

-- yield queues the process that gives up the processor.
pub yield-Ready :
    (n : ℕ) (k : Kernel) (i : ℕ) → i < length k.procs → Ready (suc n) k → Ready n (yield_proc i k)
unfolding yield_proc state_eq
yield-Ready n k i h r =
    requeue-Ready n k i (record (proc_at k i) { state = runnable }) h (omega arith) r

pub retire-Ready :
    (n : ℕ) (k : Kernel) (i : ℕ) → i < length k.procs → Ready (suc n) k → Ready n (retire i k)
unfolding retire
retire-Ready n k i h r = elim (Bool-cases (state_eq (proc_at k i).state runnable)) [
  | inl yes_runnable ↦ rw yes_runnable (requeue-Ready n k i _ h (omega arith) r)
  | inr not_runnable ↦
      rw not_runnable
        (remove-Ready i n k (record { queued = r.queued; room = Room-weaken (omega arith) r.room }))
]

-- sleep keeps room for the wakeup to come.
pub sleep-Ready :
    (n : ℕ) (chan : Chan) (k : Kernel) (i : ℕ)
    → i < length k.procs
    → Ready (suc n) k
    → Ready n (sleep_on chan i k)
unfolding sleep_on state_eq
sleep-Ready n chan k i h r =
    remove-Ready i n (set_proc k i (record (proc_at k i) { chan = chan; state = sleeping })) (
      set_proc-Ready (suc n) n k i (record (proc_at k i) { chan = chan; state = sleeping }) h
        (λ e. cc) (omega arith) r)

-- Behind the table there is only the default entry, which is UNUSED.
get_or_inside : (ps : List Proc) (i : ℕ) → (get_or ps i no_proc).state ≡ runnable → i < length ps
get_or_inside [] i e = cc
get_or_inside (p ∷ ps) zero e = omega arith
get_or_inside (p ∷ ps) (suc i) e = omega (arith, get_or_inside ps i e)

pub runnable_inside : (k : Kernel) (i : ℕ) → (proc_at k i).state ≡ runnable → i < length k.procs
runnable_inside k i e = get_or_inside k.procs i e

-- The queue without its first entry, once that entry's process is not RUNNABLE.
record Rest (n : ℕ) (k : Kernel) (first : ℕ) (q : Queues) : Type 0 where
  others : (j : ℕ) → first ≢ j → (proc_at k j).state ≡ runnable → has j (entries q.prio) ≡ true
  room : Room (sleepers k.procs + n) q
  one : sleepers k.procs + n + 1 ≤ q.pool.free_links

after_first :
    (n : ℕ) (k : Kernel) (out : Option ℕ × Tree × LinkedList.Pool)
    → (x : Extract k.queues.prio k.queues.pool out) → Ready n k
    → Rest n k x.first (record k.queues { prio = out.1; pool = out.2 })
unfolding has
after_first n k out x r = record {
  others = λ j ne e. ground (arith, rw x.rest at r.queued j e);
  room = record {
    search = x.search;
    links = omega (arith, x.links, r.room.links);
    nodes = omega (arith, x.nodes, r.room.nodes, x.shrinks);
  };
  one = omega (arith, x.links, r.room.links);
}

Rest-drop :
    (n : ℕ) (k : Kernel) (first : ℕ) (q : Queues)
    → Rest n k first q
    → (proc_at k first).state ≢ runnable
    → Ready n (record k { queues = q })
Rest-drop n k first q s ne = record {
  queued = λ j e. s.others j (λ same. ne (rw same e)) e;
  room = s.room;
}

not_running : ¬ (running ≡ runnable)
not_running e = cc

not_leaf : (t : Tree) → is_leaf t ≡ false → t ≢ leaf
unfolding is_leaf
not_leaf t h = λ e. cc

not_runnable : (s : ProcState) → state_eq s runnable ≡ false → s ≢ runnable
unfolding state_eq
not_runnable s h = λ e. ground arith

Rest-run :
    (n : ℕ) (k : Kernel) (first : ℕ) (q : Queues)
    → Rest n k first q
    → (proc_at k first).state ≡ runnable
    → Ready n (record k {
      procs = (set_proc k first (record (proc_at k first) { state = running })).procs;
      queues = (Queues.add first q).1;
    })
unfolding state_eq Queues.add
Rest-run n k first q s e = record {
  queued = left;
  room =
      add-Room first _ q (omega (arith, s.one, sleepers-set k.procs first p inside))
        (Room-weaken (omega (arith, sleepers-set k.procs first p inside)) s.room);
}
  where
    p : Proc
    p = record (proc_at k first) { state = running }

    inside : first < length k.procs
    inside = runnable_inside k first e

    left :
        (j : ℕ)
        → (proc_at (set_proc k first p) j).state ≡ runnable
        → has j (entries (Queues.add first q).1.prio) ≡ true
    left j g = elim (Bool-cases (first == j)) [
      | inl same ↦ absurd (not_running (rw (proc_at-set_proc k first j p inside, same) at g))
      | inr other ↦ s.others j (ground arith) (rw (proc_at-set_proc k first j p inside, other) at g)
    ]

pub dispatch-Ready : (n : ℕ) (k : Kernel) → Ready n k → Ready n (dispatch k).1
unfolding dispatch Queues.extract_min
dispatch-Ready n k r = elim (Bool-cases (is_leaf k.queues.prio)) [
  | inl empty ↦ rw empty r
  | inr more ↦
      let x =
        extract_min-Extract k.queues.prio k.queues.pool (not_leaf k.queues.prio more)
          r.room.search in
      let s = after_first n k (Map.extract_min k.queues.prio k.queues.pool) x r in
      rw (more, x.got)
        (elim (Bool-cases (state_eq (proc_at k x.first).state runnable)) [
          | inl ok ↦ rw ok (Rest-run n k x.first _ s (state_eq-eq _ runnable ok))
          | inr stale ↦ rw stale (Rest-drop n k x.first _ s (not_runnable _ stale))
        ])
]

pub length-yield : (i : ℕ) (k : Kernel) → length (yield_proc i k).procs ≡ length k.procs
unfolding yield_proc pq_put
length-yield i k = length-set k.procs i (record (proc_at k i) { state = runnable })

pub length-sleep :
    (chan : Chan) (i : ℕ) (k : Kernel) → length (sleep_on chan i k).procs ≡ length k.procs
unfolding sleep_on
length-sleep chan i k =
    length-set k.procs i (record (proc_at k i) { chan = chan; state = sleeping })

pub after_sleep-Ready :
    (n : ℕ) (k : Kernel) (i : ℕ) → i < length k.procs → Ready n k → Ready n (after_sleep i k)
unfolding after_sleep
after_sleep-Ready n k i h r =
    set_proc-Ready n n k i (record (proc_at k i) { chan = null }) h (λ e. e) (omega arith) r
