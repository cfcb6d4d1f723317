-- ===== src/Proc/GetMin.antt =====
-- get_min of proc.c, and LinkedList::getMinKey of ass1ds.cpp that it calls.
use os_system_calls_scheduli.Base.{
  ℕ, ◌≡◌, refl, ◌≢◌, ◌⊎◌, inl, inr, Bool, true, false, some, List, [], ◌∷◌, arith, All, Any,
  All-imp, if◌then◌else◌, Bool-cases,
}
use os_system_calls_scheduli.Base.Int.{ℤ, pos, ltb_ℤ, ◌≤ℤ◌}
use os_system_calls_scheduli.SchedDs.LinkedList
use os_system_calls_scheduli.SchedDs.LinkedList.{Pool, Procs, min_loop}
use os_system_calls_scheduli.SchedDs.Map
use os_system_calls_scheduli.SchedDs.Map.{Tree, leaf, is_leaf}
use os_system_calls_scheduli.SchedDs.Sorted.{Entry}
use os_system_calls_scheduli.SchedDs.Order.{entries, IsSearch}
use os_system_calls_scheduli.SchedDs.Extract.{
  Extract, extract_min-Extract, IsSorted, entries-IsSorted,
}
use os_system_calls_scheduli.Proc.Types.{Kernel, accumulator_of}
use os_system_calls_scheduli.Proc.Sched.{get_min, or_zero}

-- `key` is the least accumulator of a list.
pub record IsLeast (accumulator : ℕ → ℤ) (xs : Procs) (key : ℤ) : Type 0 where
  pub bound : All (λ p. key ≤ℤ accumulator p) xs
  pub reached : Any (λ p. key ≡ accumulator p) xs

module _ (accumulator : ℕ → ℤ) where
  -- A lower bound of `m` and the list, which is `m` or one of the list's accumulators.
  abbrev LoopMin : ℤ → Procs → ℤ → Type 0
  LoopMin m xs r =
      (r ≤ℤ m) × All (λ p. r ≤ℤ accumulator p) xs × ((r ≡ m) ⊎ Any (λ p. r ≡ accumulator p) xs)

  LoopMin-cons :
      (m : ℤ) (x : ℕ) (xs : Procs) (r : ℤ) (less : Bool)
      → ltb_ℤ (accumulator x) m ≡ less
      → LoopMin (if less then accumulator x else m) xs r
      → LoopMin m (x ∷ xs) r
  LoopMin-cons m x xs r true e (le, below, hit) = (ground (arith, le), (le, below), inr hit)
  LoopMin-cons m x xs r false e (le, below, inl hit) = (le, (ground (arith, le), below), inl hit)
  LoopMin-cons m x xs r false e (le, below, inr hit) =
      (le, (ground (arith, le), below), inr (inr hit))

  min_loop-LoopMin : (m : ℤ) (xs : Procs) → LoopMin m xs (min_loop accumulator m xs)
  unfolding min_loop
  min_loop-LoopMin m [] = (omega arith, tt, inl refl)
  min_loop-LoopMin m (x ∷ xs) =
      LoopMin-cons m x xs _ (ltb_ℤ (accumulator x) m) refl
        (min_loop-LoopMin (if ltb_ℤ (accumulator x) m then accumulator x else m) xs)

  LoopMin-IsLeast :
      (x : ℕ) (xs : Procs) (r : ℤ)
      → LoopMin (accumulator x) (x ∷ xs) r
      → IsLeast accumulator (x ∷ xs) r
  LoopMin-IsLeast x xs r (le, below, inl hit) = record { bound = below; reached = inl hit }
  LoopMin-IsLeast x xs r (le, below, inr hit) = record { bound = below; reached = hit }

  -- getMinKey returns the least accumulator of a list that is not empty.
  pub get_min_key-IsLeast :
      (x : ℕ) (xs : Procs)
      → (key : ℤ) × (LinkedList.get_min_key accumulator (x ∷ xs) ≡ some key)
        × IsLeast accumulator (x ∷ xs) key
  unfolding LinkedList.get_min_key
  get_min_key-IsLeast x xs =
      (_, refl, LoopMin-IsLeast x xs _ (min_loop-LoopMin (accumulator x) (x ∷ xs)))

-- `m` is the least of the keys in the queue and the accumulators of the running processes.
pub record IsMinimum (accumulator : ℕ → ℤ) (es : List Entry) (xs : Procs) (m : ℤ) : Type 0 where
  pub queue : All (λ (e : Entry). m ≤ℤ e.0) es
  pub running : All (λ p. m ≤ℤ accumulator p) xs
  pub reached : Any (λ (e : Entry). m ≡ e.0) es ⊎ Any (λ p. m ≡ accumulator p) xs

-- The key of the first entry, which bounds all others.
tree_min :
    (t : Tree)
    → t ≢ leaf
    → IsSearch t
    → (key : ℤ) × (Map.get_min_key t ≡ some key)
      × All (λ (e : Entry). key ≤ℤ e.0) (entries t)
      × Any (λ (e : Entry). key ≡ e.0) (entries t)
tree_min t ne s = (x.key, x.minimum, rw x.rest (omega arith, sorted.0), rw x.rest (inl refl))
  where
    m : Pool
    m = record { free_links = 0; free_nodes = 0 }

    x : Extract t m (Map.extract_min t m)
    x = extract_min-Extract t m ne s

    sorted : IsSorted ((x.key, x.first) ∷ entries (Map.extract_min t m).1)
    sorted = rw x.rest at (entries-IsSorted t s)

-- The choice that get_min makes between the least key and the running processes.
choose_min :
    (accumulator : ℕ → ℤ) (es : List Entry) (xs : Procs) (key : ℤ)
    → All (λ (e : Entry). key ≤ℤ e.0) es
    → Any (λ (e : Entry). key ≡ e.0) es
    → IsMinimum accumulator es xs (
        if LinkedList.is_empty xs
        then key
        else (if ltb_ℤ key (or_zero (LinkedList.get_min_key accumulator xs))
            then key
            else or_zero (LinkedList.get_min_key accumulator xs)))
unfolding LinkedList.is_empty
choose_min accumulator es [] key below hit = record {
  queue = below;
  running = tt;
  reached = inl hit;
}
choose_min accumulator es (x ∷ xs) key below hit =
    let (least, e, l) = get_min_key-IsLeast accumulator x xs in
    rw e (elim (Bool-cases (ltb_ℤ key least)) [
      | inl less ↦ rw less (record {
        queue = below;
        running = All-imp _ _ (x ∷ xs) (λ p h. ground (arith, h, less)) l.bound;
        reached = inl hit;
      })
      | inr not_less ↦ rw not_less (record {
        queue = All-imp _ _ es (λ f h. ground (arith, h, not_less)) below;
        running = l.bound;
        reached = inr l.reached;
      })
    ])

-- With a queue that is not empty, get_min returns the least of the queue's keys and the running
-- processes' accumulators; with an empty queue it returns 0, whoever is running.
pub get_min-IsMinimum :
    (k : Kernel)
    → IsSearch k.queues.prio
    → (k.queues.prio ≢ leaf
        → IsMinimum (accumulator_of k) (entries k.queues.prio) k.queues.running (get_min k))
      × (k.queues.prio ≡ leaf → get_min k ≡ pos 0)
unfolding get_min is_leaf
get_min-IsMinimum k s = (full, λ e. rw e refl)
  where
    not_empty : (t : Tree) → t ≢ leaf → is_leaf t ≡ false
    not_empty leaf ne = absurd (ne refl)
    not_empty (Tree.node key ps l r) ne = refl

    full :
        k.queues.prio ≢ leaf
        → IsMinimum (accumulator_of k) (entries k.queues.prio) k.queues.running (get_min k)
    full ne =
        let (key, e, below, hit) = tree_min k.queues.prio ne s in
        rw (not_empty k.queues.prio ne, e)
          (choose_min (accumulator_of k) (entries k.queues.prio) k.queues.running key below hit)
