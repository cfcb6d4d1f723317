-- ===== src/SchedDs/Extract.antt =====
-- Map::extractMin and Map::getMinKey of ass1ds.cpp against the entries in key order.
use os_system_calls_scheduli.Base.{
  ℕ, ◌+◌, ◌≤◌, ◌≡◌, refl, ◌≢◌, Option, some, List, [], ◌∷◌, ◌++◌, arith, All, All-append, All-imp,
}
use os_system_calls_scheduli.Base.Int.{ℤ, ◌≤ℤ◌}
use os_system_calls_scheduli.SchedDs.LinkedList.{Pool, Procs, dequeue, is_empty}
use os_system_calls_scheduli.SchedDs.Map.{
  Tree, leaf, node, node_count, extract_min, get_min_key, take_first,
}
use os_system_calls_scheduli.SchedDs.Sorted.{Entry}
use os_system_calls_scheduli.SchedDs.Order.{at_key, at_key-All, entries, IsSearch}

-- What a call of `extractMin` on a tree that is not empty did.
pub record Extract (t : Tree) (m : Pool) (out : Option ℕ × Tree × Pool) : Type 0 where
  pub key : ℤ
  pub first : ℕ
  pub got : out.0 ≡ some first
  pub minimum : get_min_key t ≡ some key
  pub rest : entries t ≡ (key, first) ∷ entries out.1
  pub search : IsSearch out.1
  pub links : out.2.free_links ≡ m.free_links + 1
  pub nodes : out.2.free_nodes + node_count out.1 ≡ m.free_nodes + node_count t
  pub shrinks : node_count out.1 ≤ node_count t

take_first-Extract :
    (k : ℤ) (ps : Procs) (r : Tree) (m : Pool)
    → IsSearch (node k ps leaf r)
    → Extract (node k ps leaf r) m (take_first k ps r m)
unfolding take_first dequeue is_empty entries node_count get_min_key
take_first-Extract k [] r m s = absurd (s.0 refl)
take_first-Extract k (p ∷ []) r m s = record {
  key = k;
  first = p;
  got = refl;
  minimum = refl;
  rest = refl;
  search = s.4;
  links = refl;
  nodes = omega arith;
  shrinks = omega arith;
}
take_first-Extract k (p ∷ q ∷ ps) r m s = record {
  key = k;
  first = p;
  got = refl;
  minimum = refl;
  rest = refl;
  search = ((λ e. cc), s.1, s.2, s.3, s.4);
  links = refl;
  nodes = refl;
  shrinks = omega arith;
}

-- The step at a node with a left child: the child's result under the node.
Extract-left :
    (k : ℤ) (ps : Procs) (l r : Tree) (m : Pool) (out : Option ℕ × Tree × Pool)
    → IsSearch (node k ps l r)
    → get_min_key (node k ps l r) ≡ get_min_key l
    → Extract l m out
    → Extract (node k ps l r) m (out.0, node k ps out.1 r, out.2)
unfolding entries node_count
Extract-left k ps l r m out s e x = record {
  key = x.key;
  first = x.first;
  got = x.got;
  minimum = rw e x.minimum;
  rest = rw x.rest refl;
  search = (s.0, (rw x.rest at s.1).1, s.2, x.search, s.4);
  links = x.links;
  nodes = omega (arith, x.nodes);
  shrinks = omega (arith, x.shrinks);
}

-- On a search tree that is not a null pointer, extractMin returns the process of the first entry in
-- key order, whose key getMinKey gives, and leaves the other entries in their order; one link goes
-- back to the pool, and nodes are neither lost nor made.
pub extract_min-Extract :
    (t : Tree) (m : Pool) → t ≢ leaf → IsSearch t → Extract t m (extract_min t m)
unfolding extract_min get_min_key
extract_min-Extract leaf m ne s = absurd (ne refl)
extract_min-Extract (node k ps leaf r) m ne s = take_first-Extract k ps r m s
extract_min-Extract (node k ps (node k' ps' l' r') r) m ne s =
    Extract-left k ps (node k' ps' l' r') r m (extract_min (node k' ps' l' r') m) s refl
      (extract_min-Extract (node k' ps' l' r') m (λ e. cc) s.3)

-- Sorted by key.
abbrev pub IsSorted : List Entry → Type 0
IsSorted [] = Unit
IsSorted (e ∷ es) = All (λ f. e.0 ≤ℤ f.0) es × IsSorted es

IsSorted-append :
    (k : ℤ) (xs ys : List Entry)
    → IsSorted xs
    → IsSorted ys
    → All (λ e. e.0 ≤ℤ k) xs
    → All (λ e. k ≤ℤ e.0) ys
    → IsSorted (xs ++ ys)
IsSorted-append k [] ys sx sy lo hi = sy
IsSorted-append k (x ∷ xs) ys sx sy lo hi = (
  All-append _ xs ys sx.0 (All-imp _ _ ys (λ e h. omega arith) hi),
  IsSorted-append k xs ys sx.1 sy lo.1 hi,
)

at_key-IsSorted : (k : ℤ) (ps : Procs) → IsSorted (at_key k ps)
at_key-IsSorted k [] = tt
at_key-IsSorted k (p ∷ ps) = (at_key-All _ k ps (λ q. omega arith), at_key-IsSorted k ps)

-- The entries of a search tree are in key order.
pub entries-IsSorted : (t : Tree) → IsSearch t → IsSorted (entries t)
unfolding entries
entries-IsSorted leaf s = tt
entries-IsSorted (node k ps l r) s =
    IsSorted-append k (entries l) (at_key k ps ++ entries r) (entries-IsSorted l s.3)
      (IsSorted-append k (at_key k ps) (entries r) (at_key-IsSorted k ps) (entries-IsSorted r s.4)
        (at_key-All _ k ps (λ q. omega arith)) above)
      (All-imp _ _ (entries l) (λ e h. omega arith) s.1)
      (All-append _ (at_key k ps) (entries r) (at_key-All _ k ps (λ q. omega arith)) above)
  where
    above : All (λ e. k ≤ℤ e.0) (entries r)
    above = All-imp _ _ (entries r) (λ e h. omega arith) s.2
