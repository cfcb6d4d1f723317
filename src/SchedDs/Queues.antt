-- ===== src/SchedDs/Queues.antt =====
-- ass1ds.cpp, the three structures that initSchedDS sets up (priorityQ, roundRobinQ and
-- runningProcHolder) over one pool, with the operations that schedulinginterface.h names.
use os_system_calls_scheduli.Base.{
  ℕ, zero, suc, Bool, true, false, not, Option, none, some, [], ◌==◌, if◌then◌else◌, length,
}
use os_system_calls_scheduli.Base.Int.{ℤ, pos}
use os_system_calls_scheduli.SchedDs.LinkedList
use os_system_calls_scheduli.SchedDs.LinkedList.{Pool, Procs}
use os_system_calls_scheduli.SchedDs.Map
use os_system_calls_scheduli.SchedDs.Map.{Tree, leaf, node, is_leaf, take_node}
use os_system_calls_scheduli.SchedDs.Order.{entries}

pub record Queues : Type 0 where
  pub prio : Tree
  pub round_robin : Procs
  pub running : Procs
  pub pool : Pool

abbrev pub pool_size : ℕ
pool_size = 128

-- NPROCLIST links and NPROCMAP nodes, all free.
abbrev pub init : Queues
init = record {
  prio = leaf;
  round_robin = [];
  running = [];
  pool = record { free_links = pool_size; free_nodes = pool_size };
}

-- pq.put(p); `key` is getAccumulator(p).
unfoldable pub put : ℤ → ℕ → Queues → Bool × Queues
put key p q =
    let (done, t, m) = Map.put key p q.prio q.pool in (done, record q { prio = t; pool = m })

-- pq.extractMin()
unfoldable pub extract_min : Queues → Option ℕ × Queues
extract_min q =
    let (p, t, m) = Map.extract_min q.prio q.pool in (p, record q { prio = t; pool = m })

-- rrq.enqueue(p)
unfoldable pub enqueue : ℕ → Queues → Bool × Queues
enqueue p q =
    let (done, xs, m) = LinkedList.enqueue q.pool q.round_robin p in
    (done, record q { round_robin = xs; pool = m })

-- rrq.dequeue()
unfoldable pub dequeue : Queues → Option ℕ × Queues
dequeue q =
    let (p, xs, m) = LinkedList.dequeue q.pool q.round_robin in
    (p, record q { round_robin = xs; pool = m })

-- rpholder.add(p)
unfoldable pub add : ℕ → Queues → Bool × Queues
add p q =
    let (done, xs, m) = LinkedList.enqueue q.pool q.running p in
    (done, record q { running = xs; pool = m })

-- rpholder.remove(p)
unfoldable pub remove : ℕ → Queues → Bool × Queues
remove p q =
    let (found, xs, m) = LinkedList.remove q.pool q.running p in
    (found, record q { running = xs; pool = m })

-- The loop of Map::transfer, given a round for each entry.
unfoldable pub transfer_loop : ℕ → Queues → Queues
unfolding extract_min enqueue
transfer_loop zero q = q
transfer_loop (suc n) q =
    let (p, q') = extract_min q in elim p [ none ↦ q | some p ↦ transfer_loop n (enqueue p q').1 ]

-- pq.switchToRoundRobinPolicy()
unfoldable pub switch_to_round_robin : Queues → Bool × Queues
unfolding transfer_loop
switch_to_round_robin q =
    if LinkedList.is_empty q.round_robin
    then (true, transfer_loop (length (entries q.prio)) q)
    else (false, q)

-- rrq.switchToPriorityQueuePolicy(): the whole list becomes the list of one node of key 0.
unfoldable pub switch_to_priority : Queues → Bool × Queues
unfolding take_node
switch_to_priority q =
    if not (is_leaf q.prio)
    then (false, q)
    else if LinkedList.is_empty q.round_robin
    then (true, q)
    else elim (take_node q.pool) [
      | none ↦ (false, q)
      | some m ↦ (
        true,
        record q { prio = node (pos 0) q.round_robin leaf leaf; round_robin = []; pool = m },
      )
    ]

-- One round of the loop of Map::extractProc: a process other than `p` goes to `tempMap`, under the
-- accumulator that it has now.
unfoldable pub keep_other : (ℕ → ℤ) → ℕ → ℕ → Tree → Bool → Pool → Bool × Tree × Pool
keep_other accumulator p other temp ans m =
    if other == p
    then (true, temp, m)
    else (let (done, temp', m') = Map.put (accumulator other) other temp m in (ans, temp', m'))

unfoldable pub extract_loop : (ℕ → ℤ) → ℕ → ℕ → Tree → Tree → Bool → Pool → Bool × Tree × Pool
unfolding keep_other
extract_loop accumulator p zero t temp ans m = (ans, temp, m)
extract_loop accumulator p (suc n) t temp ans m =
    let (first, t', m') = Map.extract_min t m in
    elim first [
      | none ↦ (ans, temp, m)
      | some other ↦
          (let (ans', temp', m'') = keep_other accumulator p other temp ans m' in
            extract_loop accumulator p n t' temp' ans' m'')
    ]

-- pq.extractProc(p)
unfoldable pub extract_proc : (ℕ → ℤ) → ℕ → Queues → Bool × Queues
unfolding extract_loop
extract_proc accumulator p q =
    if q.pool.free_nodes == 0
    then (false, q)
    else (let (ans, temp, m) =
          extract_loop accumulator p (length (entries q.prio)) q.prio leaf false q.pool in
        (ans, record q { prio = temp; pool = m }))
