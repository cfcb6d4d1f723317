-- ===== src/Log/Absorb.antt =====
-- log_write of log.c as an insertion into a set of block numbers.
use os_system_calls_scheduli.Base.{
  ℕ, ◌≡◌, refl, Bool, true, false, List, [], ◌∷◌, ◌++◌, some, ◌==◌, ==_iff, if◌then◌else◌,
  Bool-cases, inl, inr, arith,
}
use os_system_calls_scheduli.Log.{Log, log_write}
use os_system_calls_scheduli.Log.Disk.{mem}
use os_system_calls_scheduli.Log.Operations.{log_write-some}

abbrev pub Distinct : List ℕ → Type 0
Distinct [] = Unit
Distinct (x ∷ xs) = (mem x xs ≡ false) × Distinct xs

-- The list `ys` is `xs` with `b` in it.
pub record Absorbed (b : ℕ) (xs ys : List ℕ) : Type 0 where
  pub members : (x : ℕ) → mem x ys ≡ (if x == b then true else mem x xs)
  pub distinct : Distinct xs → Distinct ys

mem-append : (x b : ℕ) (xs : List ℕ) → mem x (xs ++ (b ∷ [])) ≡ (if x == b then true else mem x xs)
unfolding mem
mem-append x b [] = refl
mem-append x b (y ∷ ys) = elim (Bool-cases (x == y)) [
  | inl e ↦ rw e (ground arith)
  | inr e ↦ rw e (mem-append x b ys)
]

Distinct-append : (b : ℕ) (xs : List ℕ) → mem b xs ≡ false → Distinct xs → Distinct (xs ++ (b ∷ []))
unfolding mem
Distinct-append b [] e d = (refl, tt)
Distinct-append b (x ∷ xs) e d =
    (rw (mem-append x b xs) (ground (arith, d.0)), Distinct-append b xs (ground arith) d.1)

mem_at : (x b : ℕ) (xs : List ℕ) → mem b xs ≡ true → mem x xs ≡ (if x == b then true else mem x xs)
mem_at x b xs e = elim (Bool-cases (x == b)) [
  | inl same ↦ rw (same, (==_iff x b).0 same) e
  | inr other ↦ rw other refl
]

absorb :
    (known : Bool) (b : ℕ) (g : Log)
    → mem b g.lh ≡ known
    → Absorbed b g.lh (if known then g else record g { lh = g.lh ++ (b ∷ []) }).lh
absorb true b g e = record { members = λ x. mem_at x b g.lh e; distinct = λ d. d }
absorb false b g e = record {
  members = λ x. mem-append x b g.lh;
  distinct = Distinct-append b g.lh e;
}

-- A log_write that does not panic adds the block to the set of logged blocks, and lists no block
-- twice if none was.
pub log_write-Absorbed : (b : ℕ) (g g' : Log) → log_write b g ≡ some g' → Absorbed b g.lh g'.lh
log_write-Absorbed b g g' e = rw (log_write-some b g g' e) (absorb (mem b g.lh) b g refl)
