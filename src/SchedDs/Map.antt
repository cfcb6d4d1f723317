-- ===== src/SchedDs/Map.antt =====
-- ass1ds.cpp, the classes MapNode and Map: a binary search tree from accumulators to lists of
-- processes. A node has one parent, so the pointers `left`, `right` and `parent` are a tree; the
-- loops that walk it are recursions.
use os_system_calls_scheduli.Base.{
  ℕ, ◌+◌, ◌-◌, Bool, true, false, Option, none, some, [], ◌==◌, if◌then◌else◌,
}
use os_system_calls_scheduli.Base.Int.{ℤ, ltb_ℤ, eqb_ℤ}
use os_system_calls_scheduli.SchedDs.LinkedList.{Pool, Procs, is_empty, enqueue, dequeue}

-- `leaf` is a null MapNode*.
pub data Tree : Type 0 where
  leaf : Tree
  node : (key : ℤ) → (procs : Procs) → (left right : Tree) → Tree

unfoldable pub is_leaf : Tree → Bool
is_leaf leaf = true
is_leaf (node k ps l r) = false

-- allocNode(key): takes a node from the pool.
unfoldable pub take_node : Pool → Option Pool
take_node m = if m.free_nodes == 0 then none else some (record m { free_nodes = m.free_nodes - 1 })

unfoldable pub dealloc_node : Pool → Pool
dealloc_node m = record m { free_nodes = m.free_nodes + 1 }

-- allocNode(p, key): the node goes back when there is no link for `p`.
unfoldable pub alloc_node : Pool → ℕ → ℤ → Tree × Pool
unfolding take_node dealloc_node
alloc_node m p key = elim (take_node m) [
  | none ↦ (leaf, m)
  | some m' ↦
      (let (done, ps, m'') = enqueue m' [] p in
        if done then (node key ps leaf leaf, m'') else (leaf, dealloc_node m''))
]

-- MapNode::put from a child pointer on, and Map::put from the root. A null pointer becomes the
-- result of allocNode, which is null when the pool is used up.
unfoldable pub put : ℤ → ℕ → Tree → Pool → Bool × Tree × Pool
unfolding is_leaf
put key p leaf m = let (t, m') = alloc_node m p key in (if is_leaf t then false else true, t, m')
put key p (node k ps l r) m =
    let here = enqueue m ps p in
    let below = put key p l m in
    let above = put key p r m in
    if eqb_ℤ key k
    then (here.0, node k here.1 l r, here.2)
    else if ltb_ℤ key k
    then (below.0, node k ps below.1 r, below.2)
    else (above.0, node k ps l above.1, above.2)

-- The nodes of a tree.
unfoldable pub node_count : Tree → ℕ
node_count leaf = 0
node_count (node k ps l r) = node_count l + 1 + node_count r

-- getMinNode()->key
unfoldable pub get_min_key : Tree → Option ℤ
get_min_key leaf = none
get_min_key (node k ps leaf r) = some k
get_min_key (node k ps (node k' ps' l' r') r) = get_min_key (node k' ps' l' r')

-- What extractMin does at the leftmost node; the tree is what its parent's pointer becomes.
unfoldable pub take_first : ℤ → Procs → Tree → Pool → Option ℕ × Tree × Pool
unfolding dealloc_node
take_first k ps r m =
    let (p, ps', m') = dequeue m ps in
    if is_empty ps' then (p, r, dealloc_node m') else (p, node k ps' leaf r, m')

unfoldable pub extract_min : Tree → Pool → Option ℕ × Tree × Pool
extract_min leaf m = (none, leaf, m)
extract_min (node k ps leaf r) m = take_first k ps r m
extract_min (node k ps (node k' ps' l' r') r) m =
    let (p, l, m') = extract_min (node k' ps' l' r') m in (p, node k ps l r, m')
