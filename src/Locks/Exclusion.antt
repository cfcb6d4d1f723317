-- ===== src/Locks/Exclusion.antt =====
-- acquire and release of spinlock.c on several processors: the order of their steps is any.
use os_system_calls_scheduli.Base.{
  ℕ, ◌≡◌, refl, sym, ◌≢◌, ◌⊎◌, inl, inr, ◌∙◌, ap, Bool, true, false, some, ◌==◌, ==_iff,
  if◌then◌else◌, Bool-cases, arith,
}
use os_system_calls_scheduli.Locks.{
  Cpu, Spinlock, xchg, acquire_enter, release_enter, record_cpu, unlock,
}

-- Where a processor stands in acquire and release. From `taken` up to the store of 0 it has the lock.
pub data Stage : Type 0 where
  idle : Stage
  spinning : Stage
  taken : Stage
  critical : Stage
  clearing : Stage
  leaving : Stage

abbrev pub has_lock : Stage → Bool
has_lock idle = false
has_lock spinning = false
has_lock taken = true
has_lock critical = true
has_lock clearing = true
has_lock leaving = false

abbrev pub move : ℕ → Stage → (ℕ → Stage) → ℕ → Stage
move i g at j = if j == i then g else at j

pub data Step : Spinlock × (ℕ → Stage) → Spinlock × (ℕ → Stage) → Type 0 where
  enters :
      {lk : Spinlock} {at : ℕ → Stage} (i : ℕ) (c c' : Cpu)
      → at i ≡ idle
      → acquire_enter i lk c ≡ some c'
      → Step (lk, at) (lk, move i spinning at)
  spins :
      {lk : Spinlock} {at : ℕ → Stage} (i : ℕ)
      → at i ≡ spinning
      → (xchg lk).0 ≡ true
      → Step (lk, at) ((xchg lk).1, at)
  takes :
      {lk : Spinlock} {at : ℕ → Stage} (i : ℕ)
      → at i ≡ spinning
      → (xchg lk).0 ≡ false
      → Step (lk, at) ((xchg lk).1, move i taken at)
  records :
      {lk : Spinlock} {at : ℕ → Stage} (i : ℕ)
      → at i ≡ taken
      → Step (lk, at) (record_cpu i lk, move i critical at)
  clears :
      {lk lk' : Spinlock} {at : ℕ → Stage} (i : ℕ) (c c' : Cpu)
      → at i ≡ critical
      → release_enter i lk c ≡ some (lk', c')
      → Step (lk, at) (lk', move i clearing at)
  frees :
      {lk : Spinlock} {at : ℕ → Stage} (i : ℕ)
      → at i ≡ clearing
      → Step (lk, at) (unlock lk, move i leaving at)
  leaves :
      {lk : Spinlock} {at : ℕ → Stage} (i : ℕ) → at i ≡ leaving → Step (lk, at) (lk, move i idle at)

pub data Run : Spinlock × (ℕ → Stage) → Spinlock × (ℕ → Stage) → Type 0 where
  start : {s : Spinlock × (ℕ → Stage)} → Run s s
  step : {s t u : Spinlock × (ℕ → Stage)} → Run s t → Step t u → Run s u

-- One processor at most has the lock, the lock knows it, and `cpu` is the one in its critical part.
pub record IsExclusive (lk : Spinlock) (at : ℕ → Stage) : Type 0 where
  pub one : (i j : ℕ) → has_lock (at i) ≡ true → has_lock (at j) ≡ true → i ≡ j
  pub held : (i : ℕ) → has_lock (at i) ≡ true → lk.locked ≡ true
  pub owns : (i : ℕ) → at i ≡ critical → lk.cpu ≡ some i
  pub owner : (i : ℕ) → lk.cpu ≡ some i → at i ≡ critical

pub move_cases :
    (i : ℕ) (g : Stage) (at : ℕ → Stage) (j : ℕ)
    → ((j ≡ i) × (move i g at j ≡ g)) ⊎ ((j ≢ i) × (move i g at j ≡ at j))
move_cases i g at j = elim (Bool-cases (j == i)) [
  | inl e ↦ inl ((==_iff j i).0 e, rw e refl)
  | inr e ↦ inr (ground arith, rw e refl)
]

pub clash : {b : Bool} → b ≡ true → b ≡ false → ⊥
clash e f = cc

pub critical_has_lock : {g : Stage} → g ≡ critical → has_lock g ≡ true
critical_has_lock e = ap has_lock e

-- No other processor has the lock.
abbrev pub Alone : ℕ → (ℕ → Stage) → Type 0
Alone i at = (j : ℕ) → j ≢ i → has_lock (at j) ≡ true → ⊥

pub Alone-IsExclusive :
    (i : ℕ) (g : Stage) (lk : Spinlock) (at : ℕ → Stage)
    → Alone i at
    → (has_lock g ≡ true → lk.locked ≡ true)
    → (g ≡ critical → lk.cpu ≡ some i)
    → ((j : ℕ) → lk.cpu ≡ some j → (j ≡ i) × (g ≡ critical))
    → IsExclusive lk (move i g at)
Alone-IsExclusive i g lk at alone held owns owner =
    let only : (j : ℕ) → has_lock (move i g at j) ≡ true → (j ≡ i) × (has_lock g ≡ true) = λ j h.
      elim (move_cases i g at j) [
        | inl (same, e) ↦ (same, ap has_lock (sym e) ∙ h)
        | inr (other, e) ↦ absurd (alone j other (ap has_lock (sym e) ∙ h))
      ] in
    record {
      one = λ j k hj hk. (only j hj).0 ∙ sym (only k hk).0;
      held = λ j h. held (only j h).1;
      owns = λ j e. elim (move_cases i g at j) [
        | inl (same, f) ↦ owns (sym f ∙ e) ∙ ap some (sym same)
        | inr (other, f) ↦ absurd (alone j other (critical_has_lock (sym f ∙ e)))
      ];
      owner = λ j e. elim (move_cases i g at j) [
        | inl (same, f) ↦ f ∙ (owner j e).1
        | inr (other, f) ↦ absurd (other (owner j e).0)
      ];
    }
