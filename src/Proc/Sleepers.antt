-- ===== src/Proc/Sleepers.antt =====
-- How many processes sleep: the puts that wakeups can still make.
use os_system_calls_scheduli.Base.{
  ℕ, zero, suc, ◌+◌, ◌<◌, ◌≡◌, List, [], ◌∷◌, arith, if◌then◌else◌, length, get_or, set,
}
use os_system_calls_scheduli.Proc.Types.{sleeping, state_eq, Proc, no_proc}

abbrev pub sleeps : Proc → ℕ
sleeps p = if state_eq p.state sleeping then 1 else 0

unfoldable pub sleepers : List Proc → ℕ
sleepers [] = 0
sleepers (p ∷ ps) = sleeps p + sleepers ps

pub sleepers-set :
    (ps : List Proc) (i : ℕ) (p : Proc)
    → i < length ps
    → sleepers (set ps i p) + sleeps (get_or ps i no_proc) ≡ sleepers ps + sleeps p
unfolding sleepers
sleepers-set [] i p h = elim h [ ]
sleepers-set (q ∷ ps) zero p h = omega arith
sleepers-set (q ∷ ps) (suc i) p h = omega (arith, sleepers-set ps i p (omega arith))

pub sleepers-set_twice :
    (ps : List Proc) (i : ℕ) (p q : Proc)
    → i < length ps
    → sleepers (set (set ps i p) i q) + sleeps (get_or ps i no_proc) ≡ sleepers ps + sleeps q
unfolding sleepers
sleepers-set_twice [] i p q h = elim h [ ]
sleepers-set_twice (r ∷ ps) zero p q h = omega arith
sleepers-set_twice (r ∷ ps) (suc i) p q h = omega (arith, sleepers-set_twice ps i p q (omega arith))
