-- ===== src/Proc/Frame.antt =====
-- What the basic steps of proc.c leave in the table and in the priority queue.
use os_system_calls_scheduli.Base.{
  ℕ, suc, ◌≤◌, ◌<◌, ◌≡◌, refl, Bool, true, false, inl, inr, arith, ◌==◌, if◌then◌else◌, length,
  length-set, get_or, set, get_or-set_self, get_or-set_ne, Bool-cases, ◌∙◌,
}
use os_system_calls_scheduli.Base.Int.{ℤ}
use os_system_calls_scheduli.SchedDs.Map.{Tree}
use os_system_calls_scheduli.SchedDs.Map
use os_system_calls_scheduli.SchedDs.LinkedList
use os_system_calls_scheduli.SchedDs.Queues
use os_system_calls_scheduli.SchedDs.Queues.{Queues}
use os_system_calls_scheduli.SchedDs.Order.{entries, IsSearch, Put, put-Put}
use os_system_calls_scheduli.SchedDs.Sorted.{insert}
use os_system_calls_scheduli.Proc.Types.{
  Proc, Kernel, no_proc, proc_at, set_proc, accumulator_of, runnable,
}
use os_system_calls_scheduli.Proc.Sched.{get_min, pq_put, make_runnable}

pub proc_at-set_proc :
    (k : Kernel) (i j : ℕ) (p : Proc)
    → i < length k.procs
    → proc_at (set_proc k i p) j ≡ (if i == j then p else proc_at k j)
proc_at-set_proc k i j p h = elim (Bool-cases (i == j)) [
  | inl same ↦
      let e : i ≡ j = ground arith in rw (same, ← e) (get_or-set_self k.procs i p no_proc h)
  | inr other ↦ rw other (get_or-set_ne k.procs i j p no_proc (ground arith))
]

-- The priority queue is a search tree, and the pool has links and nodes for `n` more entries.
pub record Room (n : ℕ) (q : Queues) : Type 0 where
  pub search : IsSearch q.prio
  pub links : n ≤ q.pool.free_links
  pub nodes : n ≤ q.pool.free_nodes

Put-Room :
    (key : ℤ) (p : ℕ) (t : Tree) (m : LinkedList.Pool) (out : Bool × Tree × LinkedList.Pool) (n : ℕ)
    → suc n ≤ m.free_links
    → suc n ≤ m.free_nodes
    → Put key p t m out
    → (out.0 ≡ true)
      × (entries out.1 ≡ insert key p (entries t))
      × IsSearch out.1
      × (n ≤ out.2.free_links)
      × (n ≤ out.2.free_nodes)
Put-Room key p t m (true, t', m') n hl hn c =
    (refl, c.same, c.search, omega (arith, c.links), omega (arith, c.nodes, c.grows))
Put-Room key p t m (false, t', m') n hl hn c = absurd (omega (arith, c.fails refl))

-- With room, pq.put succeeds: it adds the process behind its equals, and takes one of the room.
pub pq_put_lem :
    (k : Kernel) (p n : ℕ)
    → Room (suc n) k.queues
    → (entries (pq_put k p).queues.prio ≡ insert (accumulator_of k p) p (entries k.queues.prio))
      × Room n (pq_put k p).queues
unfolding pq_put Queues.put
pq_put_lem k p n r =
    let f =
      Put-Room (accumulator_of k p) p k.queues.prio k.queues.pool
        (Map.put (accumulator_of k p) p k.queues.prio k.queues.pool) n r.links r.nodes
        (put-Put (accumulator_of k p) p k.queues.prio k.queues.pool r.search) in
    (f.1, record { search = f.2; links = f.3; nodes = f.4 })

-- pq.put touches only the queue and the pool.
pub pq_put_frame :
    (k : Kernel) (p : ℕ)
    → ((pq_put k p).procs ≡ k.procs)
      × ((pq_put k p).nextpid ≡ k.nextpid)
      × ((pq_put k p).initproc ≡ k.initproc)
      × ((pq_put k p).calls ≡ k.calls)
      × ((pq_put k p).queues.running ≡ k.queues.running)
unfolding pq_put Queues.put
pq_put_frame k p = (refl, refl, refl, refl, refl)

-- `p` as make_runnable leaves it.
abbrev pub woken_proc : Kernel → ℕ → Proc
woken_proc k i =
    let p = record (proc_at k i) { state = runnable } in
    record p { accumulator = get_min (set_proc k i p) }

pub set_twice :
    (k : Kernel) (i j : ℕ) (u v : Proc)
    → i < length k.procs
    → get_or (set (set k.procs i u) i v) j no_proc ≡ (if i == j then v else proc_at k j)
set_twice k i j u v h = elim (Bool-cases (i == j)) [
  | inl same ↦
      let e : i ≡ j = ground arith in
      rw (same, ← e)
        (get_or-set_self (set k.procs i u) i v no_proc (omega (arith, length-set k.procs i u)))
  | inr other ↦ rw other (
      get_or-set_ne (set k.procs i u) i j v no_proc (ground arith)
      ∙ get_or-set_ne k.procs i j u no_proc (ground arith))
]

pub make_runnable_procs :
    (k : Kernel) (i j : ℕ)
    → i < length k.procs
    → proc_at (make_runnable i k) j ≡ (if i == j then woken_proc k i else proc_at k j)
unfolding make_runnable pq_put
make_runnable_procs k i j h =
    set_twice k i j (record (proc_at k i) { state = runnable }) (woken_proc k i) h

pub length-make_runnable : (k : Kernel) (i : ℕ) → length (make_runnable i k).procs ≡ length k.procs
unfolding make_runnable pq_put
length-make_runnable k i =
    length-set (set k.procs i (record (proc_at k i) { state = runnable })) i (woken_proc k i)
    ∙ length-set k.procs i (record (proc_at k i) { state = runnable })

-- make_runnable puts the process into the queue, if there is room.
pub make_runnable_queue :
    (k : Kernel) (i n : ℕ)
    → Room (suc n) k.queues
    → ((key : ℤ) × (entries (make_runnable i k).queues.prio ≡ insert key i (entries k.queues.prio)))
      × Room n (make_runnable i k).queues
unfolding make_runnable
make_runnable_queue k i n r = ((_, f.0), f.1)
  where
    k' : Kernel
    k' = set_proc (set_proc k i (record (proc_at k i) { state = runnable })) i (woken_proc k i)

    f :
        (entries (pq_put k' i).queues.prio
          ≡ insert (accumulator_of k' i) i (entries k'.queues.prio))
        × Room n (pq_put k' i).queues
    f = pq_put_lem k' i n (record { search = r.search; links = r.links; nodes = r.nodes })
