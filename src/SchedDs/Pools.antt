-- ===== src/SchedDs/Pools.antt =====
-- What the operations of ass1ds.cpp on the running list and on the queue leave of the pool.
use os_system_calls_scheduli.Base.{
  ℕ, ◌+◌, ◌-◌, ◌≤◌, ◌≡◌, refl, ◌≢◌, Bool, true, false, [], ◌∷◌, inl, inr, arith, ◌==◌,
  if◌then◌else◌, length, Bool-cases,
}
use os_system_calls_scheduli.SchedDs.LinkedList
use os_system_calls_scheduli.SchedDs.LinkedList.{Pool, Procs}

-- How often `p` stands in a list.
unfoldable pub occurs : ℕ → Procs → ℕ
occurs p [] = 0
occurs p (x ∷ xs) = (if x == p then 1 else 0) + occurs p xs

-- What LinkedList::remove did: it says whether `p` was in the list, takes out one link of it and no
-- other, and gives that link back to the pool.
pub record Removed (m : Pool) (xs : Procs) (p : ℕ) (out : Bool × Procs × Pool) : Type 0 where
  pub found : out.0 ≡ (if occurs p xs == 0 then false else true)
  pub taken : occurs p out.1 ≡ occurs p xs - 1
  pub others : (q : ℕ) → q ≢ p → occurs q out.1 ≡ occurs q xs
  pub links : out.2.free_links + length out.1 ≡ m.free_links + length xs
  pub nodes : out.2.free_nodes ≡ m.free_nodes
  pub shorter : length out.1 ≤ length xs

Removed-cons :
    (m : Pool) (x : ℕ) (xs : Procs) (p : ℕ) (out : Bool × Procs × Pool)
    → (x == p) ≡ false
    → Removed m xs p out
    → Removed m (x ∷ xs) p (out.0, x ∷ out.1, out.2)
unfolding occurs
Removed-cons m x xs p out ne r = record {
  found = ground (arith, r.found);
  taken = rw ne (omega (arith, r.taken));
  others = λ q h. omega (arith, r.others q h);
  links = omega (arith, r.links);
  nodes = r.nodes;
  shorter = omega (arith, r.shorter);
}

-- LinkedList::remove says whether the process is in the list, takes one link of it out and no link
-- of another process, and gives that link back to the pool.
pub remove-Removed : (m : Pool) (xs : Procs) (p : ℕ) → Removed m xs p (LinkedList.remove m xs p)
unfolding LinkedList.remove occurs
remove-Removed m [] p = record {
  found = refl;
  taken = refl;
  others = λ q h. refl;
  links = refl;
  nodes = refl;
  shorter = omega arith;
}
remove-Removed m (x ∷ xs) p = elim (Bool-cases (x == p)) [
  | inl hit ↦ rw hit (record {
    found = ground (arith, hit);
    taken = ground arith;
    others = λ q h. ground arith;
    links = omega arith;
    nodes = refl;
    shorter = omega arith;
  })
  | inr miss ↦
      rw miss (Removed-cons m x xs p (LinkedList.remove m xs p) miss (remove-Removed m xs p))
]
