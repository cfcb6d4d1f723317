-- ===== src/SchedDs/Order.antt =====
-- The search tree of ass1ds.cpp as a priority queue: its entries in key order, and what `put`,
-- `getMinKey` and `extractMin` do to them.
use os_system_calls_scheduli.Base.{
  ℕ, ◌+◌, ◌≤◌, length, length-append, ◌⊎◌, ◌≡◌, refl, ◌≢◌, sym, ap, ◌∙◌, ◌≡⟨◌⟩◌, ◌∎, Bool, true,
  false, List, [], ◌∷◌, ◌++◌, inl, inr, arith, All, ℕ_discrete, All-append, All-imp, append_assoc,
  if◌then◌else◌, Bool-cases,
}
use os_system_calls_scheduli.Base.Int.{ℤ, eqb_ℤ, ltb_ℤ, ◌<ℤ◌, eq_of_parts}
use os_system_calls_scheduli.SchedDs.LinkedList.{Pool, Procs, enqueue, enqueue_full, enqueue_room}
use os_system_calls_scheduli.SchedDs.Map.{Tree, leaf, node, node_count, put, alloc_node}
use os_system_calls_scheduli.SchedDs.Sorted.{
  Entry, insert, Le, Lt, Gt, insert-append_le, insert_gt, insert-append_gt, All-insert,
}

-- The entries that one node stands for.
abbrev pub at_key : ℤ → Procs → List Entry
at_key k [] = []
at_key k (p ∷ ps) = (k, p) ∷ at_key k ps

-- All entries, in key order.
unfoldable pub entries : Tree → List Entry
entries leaf = []
entries (node k ps l r) = entries l ++ (at_key k ps ++ entries r)

-- A search tree none of whose nodes is empty.
abbrev pub IsSearch : Tree → Type 0
IsSearch leaf = Unit
IsSearch (node k ps l r) = (ps ≢ []) × Lt k (entries l) × Gt k (entries r) × IsSearch l × IsSearch r

at_key-append : (k : ℤ) (ps : Procs) (p : ℕ) → at_key k (ps ++ p ∷ []) ≡ at_key k ps ++ (k, p) ∷ []
at_key-append k [] p = refl
at_key-append k (q ∷ ps) p = rw (at_key-append k ps p)

at_key-Le : (k : ℤ) (ps : Procs) → Le k (at_key k ps)
at_key-Le k [] = tt
at_key-Le k (p ∷ ps) = (omega arith, at_key-Le k ps)

pub at_key-All {κ} :
    (P : Entry → Type κ) (k : ℤ) (ps : Procs) → ((p : ℕ) → P (k, p)) → All P (at_key k ps)
at_key-All P k [] f = tt
at_key-All P k (p ∷ ps) f = (f p, at_key-All P k ps f)

Lt-Le : (k : ℤ) (xs : List Entry) → Lt k xs → Le k xs
Lt-Le k xs = All-imp _ _ xs (λ e h. omega arith)

-- The entry of a node's own key goes behind the node's list.
insert-equal :
    (k : ℤ) (p : ℕ) (ps : Procs) (xs ys : List Entry)
    → Lt k xs
    → Gt k ys
    → insert k p (xs ++ (at_key k ps ++ ys)) ≡ xs ++ (at_key k (ps ++ p ∷ []) ++ ys)
insert-equal k p ps xs ys lt gt =
    insert k p (xs ++ (at_key k ps ++ ys))
    ≡⟨ insert-append_le k p xs _ (Lt-Le k xs lt) ⟩ xs ++ insert k p (at_key k ps ++ ys)
    ≡⟨ ap (λ e. xs ++ e) (insert-append_le k p (at_key k ps) ys (at_key-Le k ps)) ⟩
      xs ++ (at_key k ps ++ insert k p ys)
    ≡⟨ ap (λ e. xs ++ (at_key k ps ++ e)) (insert_gt k p ys gt) ⟩ xs ++ (at_key k ps ++ (k, p) ∷ ys)
    ≡⟨ (rw (at_key-append k ps p, append_assoc)) ⟩ xs ++ (at_key k (ps ++ p ∷ []) ++ ys) ∎

insert-left :
    (key k : ℤ) (p : ℕ) (ps : Procs) (xs ys : List Entry)
    → key <ℤ k
    → Gt k ys
    → insert key p (xs ++ (at_key k ps ++ ys)) ≡ insert key p xs ++ (at_key k ps ++ ys)
insert-left key k p ps xs ys lt gt = insert-append_gt key p xs (at_key k ps ++ ys) (
    All-append _ (at_key k ps) ys (at_key-All _ k ps (λ q. lt))
      (All-imp _ _ ys (λ e h. omega arith) gt))

insert-right :
    (key k : ℤ) (p : ℕ) (ps : Procs) (xs ys : List Entry)
    → k <ℤ key
    → Lt k xs
    → insert key p (xs ++ (at_key k ps ++ ys)) ≡ xs ++ (at_key k ps ++ insert key p ys)
insert-right key k p ps xs ys lt below =
    insert-append_le key p xs _ (All-imp _ _ xs (λ e h. omega arith) below)
    ∙ ap (λ e. xs ++ e)
        (insert-append_le key p (at_key k ps) ys (at_key-All _ k ps (λ q. omega arith)))

pub length-at_key-append :
    (k : ℤ) (ps : Procs) (p : ℕ) (ys : List Entry)
    → length (at_key k (ps ++ p ∷ []) ++ ys) ≡ length (at_key k ps ++ ys) + 1
length-at_key-append k [] p ys = omega arith
length-at_key-append k (q ∷ ps) p ys = omega (arith, length-at_key-append k ps p ys)

pub length-entries-node :
    (k : ℤ) (ps : Procs) (l r : Tree)
    → length (entries (node k ps l r))
      ≡ length (entries l) + length (at_key k ps) + length (entries r)
unfolding entries
length-entries-node k ps l r = omega (
  arith,
  length-append (entries l) (at_key k ps ++ entries r),
  length-append (at_key k ps) (entries r),
)

-- What a call of `put` did: the sorted insertion if it says so, and nothing if not; the links and
-- nodes of the tree and of the pool add up as before; and it fails only with a pool used up.
pub record Put (key : ℤ) (p : ℕ) (t : Tree) (m : Pool) (out : Bool × Tree × Pool) : Type 0 where
  pub same : entries out.1 ≡ (if out.0 then insert key p (entries t) else entries t)
  pub search : IsSearch out.1
  pub links : out.2.free_links + (if out.0 then 1 else 0) ≡ m.free_links
  pub nodes : out.2.free_nodes + node_count out.1 ≡ m.free_nodes + node_count t
  pub grows : node_count out.1 ≤ node_count t + 1
  pub fails : out.0 ≡ false → (m.free_links ≡ 0) ⊎ (m.free_nodes ≡ 0)

append-ne-nil : (ps : Procs) (p : ℕ) → ps ++ p ∷ [] ≢ []
append-ne-nil [] p = λ e. cc
append-ne-nil (q ∷ ps) p = λ e. cc

Put-leaf : (key : ℤ) (p : ℕ) (m : Pool) → Put key p leaf m (put key p leaf m)
unfolding put entries node_count insert alloc_node enqueue
Put-leaf key p m = ground arith

module _ {key : ℤ} {p : ℕ} {k : ℤ} {ps : Procs} {l r : Tree} {m : Pool}
    (s : IsSearch (node k ps l r)) where
  Put-here :
      (eqb_ℤ key k ≡ true)
      → let (done, ps', m') = enqueue m ps p in
        Put key p (node k ps l r) m (done, node k ps' l r, m')
  unfolding entries node_count
  Put-here eq = elim (ℕ_discrete m.free_links 0) [
    | yes none_left ↦ rw (enqueue_full m ps p none_left) (record {
      same = refl;
      search = s;
      links = omega arith;
      nodes = refl;
      grows = omega arith;
      fails = λ e. inl none_left;
    })
    | no some_left ↦ rw (enqueue_room m ps p some_left) (record {
      same =
          let e : key ≡ k = eq_of_parts key k (ground arith) in
          rw e (sym (insert-equal k p ps (entries l) (entries r) s.1 s.2));
      search = (append-ne-nil ps p, s.1, s.2, s.3, s.4);
      links = omega arith;
      nodes = refl;
      grows = omega arith;
      fails = λ e. cc;
    })
  ]

  Put-left :
      (key <ℤ k)
      → (done : Bool) (l' : Tree) (m' : Pool) → Put key p l m (done, l', m')
      → Put key p (node k ps l r) m (done, node k ps l' r, m')
  unfolding entries node_count
  Put-left lt true l' m' c = record {
    same = rw (c.same) (sym (insert-left key k p ps (entries l) (entries r) lt s.2));
    search = (s.0, rw c.same (All-insert _ key p (entries l) lt s.1), s.2, c.search, s.4);
    links = c.links;
    nodes = omega (arith, c.nodes);
    grows = omega (arith, c.grows);
    fails = λ e. cc;
  }
  Put-left lt false l' m' c = record {
    same = rw c.same refl;
    search = (s.0, rw c.same s.1, s.2, c.search, s.4);
    links = c.links;
    nodes = omega (arith, c.nodes);
    grows = omega (arith, c.grows);
    fails = c.fails;
  }

  Put-right :
      (k <ℤ key)
      → (done : Bool) (r' : Tree) (m' : Pool) → Put key p r m (done, r', m')
      → Put key p (node k ps l r) m (done, node k ps l r', m')
  unfolding entries node_count
  Put-right lt true r' m' c = record {
    same = rw (c.same) (sym (insert-right key k p ps (entries l) (entries r) lt s.1));
    search = (s.0, s.1, rw c.same (All-insert _ key p (entries r) lt s.2), s.3, c.search);
    links = c.links;
    nodes = omega (arith, c.nodes);
    grows = omega (arith, c.grows);
    fails = λ e. cc;
  }
  Put-right lt false r' m' c = record {
    same = rw c.same refl;
    search = (s.0, s.1, rw c.same s.2, s.3, c.search);
    links = c.links;
    nodes = omega (arith, c.nodes);
    grows = omega (arith, c.grows);
    fails = c.fails;
  }

-- On a search tree without empty nodes, put either inserts the process behind the entries of keys
-- not larger, or leaves the entries as they are; the latter only with no free link or no free node.
-- The tree stays such a tree, and links and nodes are neither lost nor made.
pub put-Put : (key : ℤ) (p : ℕ) (t : Tree) (m : Pool) → IsSearch t → Put key p t m (put key p t m)
unfolding put
put-Put key p leaf m s = Put-leaf key p m
put-Put key p (node k ps l r) m s = elim (Bool-cases (eqb_ℤ key k)) [
  | inl eq ↦ rw eq (Put-here s eq)
  | inr ne ↦ rw ne (elim (Bool-cases (ltb_ℤ key k)) [
    | inl lt ↦ rw lt (Put-left s (ground arith) _ _ _ (put-Put key p l m s.3))
    | inr gt ↦ rw gt (Put-right s (ground arith) _ _ _ (put-Put key p r m s.4))
  ])
]
