-- ===== src/SchedDs/Transfer.antt =====
-- The changes of policy in ass1ds.cpp: Map::transfer and LinkedList::transfer.
use os_system_calls_scheduli.Base.{
  ℕ, zero, suc, ◌+◌, ◌-◌, ◌≤◌, ◌≡◌, refl, ◌≢◌, ◌⊎◌, inl, inr, true, false, List, [], ◌∷◌, ◌++◌,
  arith, length, append-nil, append_assoc, ◌∙◌, none, ap,
}
use os_system_calls_scheduli.SchedDs.LinkedList
use os_system_calls_scheduli.SchedDs.LinkedList.{Procs, enqueue_room}
use os_system_calls_scheduli.SchedDs.Map
use os_system_calls_scheduli.SchedDs.Map.{Tree, leaf, node, node_count, is_leaf, take_node}
use os_system_calls_scheduli.SchedDs.Sorted.{Entry}
use os_system_calls_scheduli.SchedDs.Order.{entries, IsSearch}
use os_system_calls_scheduli.SchedDs.Extract.{Extract, extract_min-Extract}
use os_system_calls_scheduli.SchedDs.Queues.{
  Queues, transfer_loop, switch_to_round_robin, extract_min, enqueue,
}

-- The processes of a list of entries, in its order.
abbrev pub procs_of : List Entry → Procs
procs_of [] = []
procs_of (e ∷ es) = e.1 ∷ procs_of es

pub Tree-cases : (t : Tree) → (t ≡ leaf) ⊎ (t ≢ leaf)
Tree-cases leaf = inl refl
Tree-cases (node k ps l r) = inr (λ e. cc)

-- What moving the whole queue to the round-robin list leaves.
pub record Moved (q q' : Queues) : Type 0 where
  pub prio : q'.prio ≡ leaf
  pub round_robin : q'.round_robin ≡ q.round_robin ++ procs_of (entries q.prio)
  pub running : q'.running ≡ q.running
  pub links : q'.pool.free_links ≡ q.pool.free_links
  pub nodes : q'.pool.free_nodes ≡ q.pool.free_nodes + node_count q.prio

Moved-leaf : (q : Queues) → q.prio ≡ leaf → Moved q q
unfolding entries node_count
Moved-leaf q e = record {
  prio = e;
  round_robin = rw (e, append-nil);
  running = refl;
  links = refl;
  nodes = rw e (omega arith);
}

-- The queues after one round of the loop.
abbrev moved_one : (q : Queues) → ℕ → Tree → LinkedList.Pool → Queues
moved_one q p t m = record q {
  prio = t;
  round_robin = q.round_robin ++ p ∷ [];
  pool = record m { free_links = m.free_links - 1 };
}

Moved-step :
    (q q' : Queues)
    → (x : Extract q.prio q.pool (Map.extract_min q.prio q.pool))
    → Moved
        (moved_one q x.first (Map.extract_min q.prio q.pool).1 (Map.extract_min q.prio q.pool).2)
        q'
    → Moved q q'
Moved-step q q' x v = record {
  prio = v.prio;
  round_robin = rw x.rest (v.round_robin ∙ append_assoc q.round_robin (x.first ∷ []) _);
  running = v.running;
  links = omega (arith, v.links, x.links);
  nodes = omega (arith, v.nodes, x.nodes);
}

extract_leaf : (t : Tree) (m : LinkedList.Pool) → t ≡ leaf → (Map.extract_min t m).0 ≡ none
unfolding Map.extract_min
extract_leaf t m e = rw e refl

transfer_loop-Moved :
    (n : ℕ) (q : Queues)
    → IsSearch q.prio
    → length (entries q.prio) ≤ n
    → Moved q (transfer_loop n q)
unfolding transfer_loop extract_min enqueue
transfer_loop-Moved zero q s h = elim (Tree-cases q.prio) [
  | inl empty ↦ Moved-leaf q empty
  | inr more ↦
      let x = extract_min-Extract q.prio q.pool more s in absurd (omega (arith, ap length x.rest))
]
transfer_loop-Moved (suc n) q s h = elim (Tree-cases q.prio) [
  | inl empty ↦ rw (extract_leaf q.prio q.pool empty, transfer_loop) (Moved-leaf q empty)
  | inr more ↦
      let x = extract_min-Extract q.prio q.pool more s in
      let (first, t, m) = Map.extract_min q.prio q.pool in
      rw (x.got, transfer_loop, enqueue_room m q.round_robin x.first (omega (arith, x.links)))
        (Moved-step q _ x (
          transfer_loop-Moved n (moved_one q x.first t m) x.search
            (omega (arith, ap length x.rest))))
]

-- pq.switchToRoundRobinPolicy moves the processes in key order, the oldest first among equals, and
-- loses none; it uses as many links as it frees. With a round-robin list that is not empty it
-- fails and changes nothing.
pub switch_to_round_robin_lem :
    (q : Queues)
    → IsSearch q.prio
    → (q.round_robin ≡ []
        → ((switch_to_round_robin q).0 ≡ true)
          × Moved q (switch_to_round_robin q).1
          × ((switch_to_round_robin q).1.round_robin ≡ procs_of (entries q.prio)))
      × (q.round_robin ≢ [] → switch_to_round_robin q ≡ (false, q))
unfolding switch_to_round_robin LinkedList.is_empty
switch_to_round_robin_lem q s = (moves, refuses)
  where
    v : Moved q (transfer_loop (length (entries q.prio)) q)
    v = transfer_loop-Moved (length (entries q.prio)) q s (omega arith)

    moves :
        q.round_robin ≡ []
        → ((switch_to_round_robin q).0 ≡ true)
          × Moved q (switch_to_round_robin q).1
          × ((switch_to_round_robin q).1.round_robin ≡ procs_of (entries q.prio))
    moves e =
        let f : LinkedList.is_empty q.round_robin ≡ true = rw e refl in
        rw f (refl, v, v.round_robin ∙ ap (λ (xs : Procs). xs ++ procs_of (entries q.prio)) e)

    not_empty : (xs : Procs) → xs ≢ [] → LinkedList.is_empty xs ≡ false
    not_empty [] ne = absurd (ne refl)
    not_empty (x ∷ xs) ne = refl

    refuses : q.round_robin ≢ [] → switch_to_round_robin q ≡ (false, q)
    refuses ne = rw (not_empty q.round_robin ne)
