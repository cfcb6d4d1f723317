-- ===== src/Tests/Queue.antt =====
-- The structures of ass1ds.cpp at concrete inputs.
use os_system_calls_scheduli.Base.{ℕ, ◌-◌, ◌^◌, ◌≡◌, refl, ◌≢◌, true, false, some, [], ◌∷◌, arith}
use os_system_calls_scheduli.Base.Int.{pos, negsuc}
use os_system_calls_scheduli.SchedDs.LinkedList
use os_system_calls_scheduli.SchedDs.LinkedList.{Pool}
use os_system_calls_scheduli.SchedDs.Map
use os_system_calls_scheduli.SchedDs.Map.{Tree, leaf, node}
use os_system_calls_scheduli.SchedDs.Order.{entries, IsSearch, Put, put-Put}
use os_system_calls_scheduli.SchedDs.Extract.{Extract, extract_min-Extract}
use os_system_calls_scheduli.SchedDs.Pools.{Removed, remove-Removed}
use os_system_calls_scheduli.SchedDs.Queues.{Queues, switch_to_round_robin}
use os_system_calls_scheduli.SchedDs.Transfer.{Moved, procs_of, switch_to_round_robin_lem}
use os_system_calls_scheduli.SchedDs.Modulo.{
  moddi3, with_sign, reduce_loop, reduce_after, subtract_loop,
}

abbrev pool : Pool
pool = record { free_links = 10; free_nodes = 10 }

abbrev tree : Tree
tree = node (pos 5) (1 ∷ 4 ∷ []) (node (negsuc 1) (2 ∷ []) leaf leaf) leaf

tree-IsSearch : IsSearch tree
unfolding entries
tree-IsSearch = ((λ e. cc), (omega arith, tt), tt, ((λ e. cc), tt, tt, tt, tt), tt)

-- Behind the entries of the same key, in front of none of them.
put_runs :
    entries (Map.put (pos 5) 7 tree pool).1
    ≡ (negsuc 1, 2) ∷ (pos 5, 1) ∷ (pos 5, 4) ∷ (pos 5, 7) ∷ []
unfolding Map.put LinkedList.enqueue entries
put_runs = refl

put-Put_example : Put (pos 3) 7 tree pool (Map.put (pos 3) 7 tree pool)
put-Put_example = put-Put (pos 3) 7 tree pool tree-IsSearch

tree_ne_leaf : tree ≢ leaf
tree_ne_leaf = λ e. cc

extract_min-Extract_example : Extract tree pool (Map.extract_min tree pool)
extract_min-Extract_example = extract_min-Extract tree pool tree_ne_leaf tree-IsSearch

remove-Removed_example : Removed pool (3 ∷ 8 ∷ 3 ∷ []) 3 (LinkedList.remove pool (3 ∷ 8 ∷ 3 ∷ []) 3)
remove-Removed_example = remove-Removed pool (3 ∷ 8 ∷ 3 ∷ []) 3

abbrev queues : Queues
queues = record { prio = tree; round_robin = []; running = 9 ∷ []; pool = pool }

switch_to_round_robin_example :
    (queues.round_robin ≡ []
      → ((switch_to_round_robin queues).0 ≡ true)
        × Moved queues (switch_to_round_robin queues).1
        × ((switch_to_round_robin queues).1.round_robin ≡ procs_of (entries queues.prio)))
    × (queues.round_robin ≢ [] → switch_to_round_robin queues ≡ (false, queues))
switch_to_round_robin_example = switch_to_round_robin_lem queues tree-IsSearch

-- The pattern of -7.
abbrev minus_7 : ℕ
minus_7 = 2 ^ 64 - 7

abbrev three : ℕ
three = 3

moddi3_runs : moddi3 (2 ^ 64 - 1_000_000_007) 10 ≡ some (2 ^ 64 - 7)
unfolding moddi3 with_sign reduce_loop reduce_after subtract_loop
moddi3_runs = refl

-- The least long long is its own remainder by 10.
moddi3_least : moddi3 (2 ^ 63) 10 ≡ some (2 ^ 63)
unfolding moddi3 with_sign reduce_loop reduce_after subtract_loop
moddi3_least = refl
