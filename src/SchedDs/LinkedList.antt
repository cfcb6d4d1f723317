-- ===== src/SchedDs/LinkedList.antt =====
-- ass1ds.cpp, the class LinkedList and the pool of its links. A Link belongs to one list or to the
-- free list, so a list is the sequence of its processes, and the free list is its length. A process
-- is its index in the process table.
use os_system_calls_scheduli.Base.{
  ℕ, ◌≡◌, ◌≢◌, arith, ◌+◌, ◌-◌, Bool, true, false, Option, none, some, List, [], ◌∷◌, ◌++◌, ◌==◌,
  if◌then◌else◌,
}
use os_system_calls_scheduli.Base.Int.{ℤ, ltb_ℤ}

-- The static lists freeLinks and freeNodes.
pub record Pool : Type 0 where
  pub free_links : ℕ
  pub free_nodes : ℕ

abbrev pub Procs : Type 0
Procs = List ℕ

unfoldable pub is_empty : Procs → Bool
is_empty [] = true
is_empty (x ∷ xs) = false

-- `none` is the null of an empty pool.
unfoldable pub alloc_link : Pool → Option Pool
alloc_link m = if m.free_links == 0 then none else some (record m { free_links = m.free_links - 1 })

unfoldable pub dealloc_link : Pool → Pool
dealloc_link m = record m { free_links = m.free_links + 1 }

unfoldable pub enqueue : Pool → Procs → ℕ → Bool × Procs × Pool
unfolding alloc_link
enqueue m xs p = elim (alloc_link m) [ none ↦ (false, xs, m) | some m' ↦ (true, xs ++ p ∷ [], m') ]

unfoldable pub dequeue : Pool → Procs → Option ℕ × Procs × Pool
unfolding dealloc_link
dequeue m [] = (none, [], m)
dequeue m (x ∷ xs) = (some x, xs, dealloc_link m)

-- The loop over `prev` and `cur` unlinks the first link that holds `p`.
unfoldable pub remove : Pool → Procs → ℕ → Bool × Procs × Pool
unfolding dealloc_link
remove m [] p = (false, [], m)
remove m (x ∷ xs) p =
    if x == p
    then (true, xs, dealloc_link m)
    else (let (found, ys, m') = remove m xs p in (found, x ∷ ys, m'))

-- The body of `forEach` in getMinKey, over all links, the first one included.
unfoldable pub min_loop : (ℕ → ℤ) → ℤ → Procs → ℤ
min_loop accumulator min_key [] = min_key
min_loop accumulator min_key (x ∷ xs) =
    min_loop accumulator (if ltb_ℤ (accumulator x) min_key then accumulator x else min_key) xs

unfoldable pub get_min_key : (ℕ → ℤ) → Procs → Option ℤ
unfolding min_loop
get_min_key accumulator [] = none
get_min_key accumulator (x ∷ xs) = some (min_loop accumulator (accumulator x) (x ∷ xs))

-- With no free link nothing happens.
pub enqueue_full :
    (m : Pool) (xs : Procs) (p : ℕ) → m.free_links ≡ 0 → enqueue m xs p ≡ (false, xs, m)
unfolding enqueue
enqueue_full m xs p h = ground arith

pub enqueue_room :
    (m : Pool) (xs : Procs) (p : ℕ)
    → m.free_links ≢ 0
    → enqueue m xs p ≡ (true, xs ++ p ∷ [], record m { free_links = m.free_links - 1 })
unfolding enqueue
enqueue_room m xs p h = ground arith
