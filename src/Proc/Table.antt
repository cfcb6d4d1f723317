-- ===== src/Proc/Table.antt =====
-- The loops of proc.c that search ptable for the first entry that meets a test.
use os_system_calls_scheduli.Base.{
  ℕ, zero, suc, ◌<◌, ◌≡◌, Bool, true, false, Option, none, some, List, [], ◌∷◌, inl, inr, arith,
  length, get_or, if◌then◌else◌, Bool-cases, Option-cases, subst,
}
use os_system_calls_scheduli.Proc.Types.{Proc, no_proc}

-- The index of the first entry that passes `test`, `none` behind the last.
unfoldable pub find_first : (Proc → Bool) → List Proc → Option ℕ
find_first test [] = none
find_first test (p ∷ ps) =
    let rest = find_first test ps in
    if test p then some 0 else elim rest [ none ↦ none | some i ↦ some (suc i) ]

-- An entry that is found is in the table, passes the test, and those before it do not.
pub record First (test : Proc → Bool) (ps : List Proc) (i : ℕ) : Type 0 where
  pub inside : i < length ps
  pub passes : test (get_or ps i no_proc) ≡ true
  pub least : (j : ℕ) → j < i → test (get_or ps j no_proc) ≡ false

First-suc :
    (test : Proc → Bool) (p : Proc) (ps : List Proc) (i : ℕ)
    → test p ≡ false
    → First test ps i
    → First test (p ∷ ps) (suc i)
First-suc test p ps i miss f = record {
  inside = omega (arith, f.inside);
  passes = f.passes;
  least = earlier;
}
  where
    earlier : (j : ℕ) → j < suc i → test (get_or (p ∷ ps) j no_proc) ≡ false
    earlier zero h = miss
    earlier (suc j) h = f.least j (omega arith)

pub find_first-First :
    (test : Proc → Bool) (ps : List Proc) (i : ℕ) → find_first test ps ≡ some i → First test ps i
unfolding find_first
find_first-First test [] i e = cc
find_first-First test (p ∷ ps) i e = elim (Bool-cases (test p)) [
  | inl hit ↦
      let z : 0 ≡ i = ground arith in
      subst (First test (p ∷ ps)) z
        (record { inside = omega arith; passes = hit; least = λ j h. absurd (omega arith) })
  | inr miss ↦ elim (Option-cases (find_first test ps)) [
    | inl out ↦ ground arith
    | inr (j, found) ↦
        let z : suc j ≡ i = ground arith in
        subst (First test (p ∷ ps)) z
          (First-suc test p ps j miss (find_first-First test ps j found))
  ]
]

pub find_first-none :
    (test : Proc → Bool) (ps : List Proc)
    → find_first test ps ≡ none
    → (i : ℕ) → i < length ps
    → test (get_or ps i no_proc) ≡ false
unfolding find_first
find_first-none test [] e i h = elim h [ ]
find_first-none test (p ∷ ps) e zero h = ground arith
find_first-none test (p ∷ ps) e (suc i) h = find_first-none test ps (ground arith) i (omega arith)
