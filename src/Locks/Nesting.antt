-- ===== src/Locks/Nesting.antt =====
-- pushcli and popcli of spinlock.c are matched.
use os_system_calls_scheduli.Base.{
  ◌-◌, ◌≤◌, ◌≡◌, refl, sym, inl, inr, ◌∙◌, true, false, ◌&&◌, List, [], ◌∷◌, ◌++◌, Option, none,
  some, ◌==◌, Bool-cases, arith,
}
use os_system_calls_scheduli.Locks.{Cpu, pushcli, popcli}

pub data Call : Type 0 where
  push : Call
  pop : Call

-- A run of calls; `none` panics.
unfoldable pub run : List Call → Option Cpu → Option Cpu
run [] o = o
run (c ∷ cs) none = none
run (push ∷ cs) (some c) = run cs (some (pushcli c))
run (pop ∷ cs) (some c) = run cs (popcli c)

-- As many popcli as pushcli, each behind its own.
pub data Matched : List Call → Type 0 where
  nothing : Matched []
  around : {cs ds : List Call} → Matched cs → Matched ds → Matched (push ∷ cs ++ (pop ∷ ds))

-- Between pushcli and popcli no interrupt comes.
abbrev pub IsMasked : Cpu → Type 0
IsMasked c = 1 ≤ c.ncli → c.ints ≡ false

-- The same depth and interrupts, and the same interrupts to come back to.
pub record Same (c d : Cpu) : Type 0 where
  pub depth : d.ncli ≡ c.ncli
  pub interrupts : d.ints ≡ c.ints
  pub saved : 1 ≤ c.ncli → d.intena ≡ c.intena

run-append : (xs ys : List Call) (o : Option Cpu) → run (xs ++ ys) o ≡ run ys (run xs o)
unfolding run
run-append [] ys o = refl
run-append (x ∷ xs) [] none = refl
run-append (x ∷ xs) (y ∷ ys) none = refl
run-append (push ∷ xs) ys (some c) = run-append xs ys (some (pushcli c))
run-append (pop ∷ xs) ys (some c) = run-append xs ys (popcli c)

-- popcli undoes pushcli, whatever has been matched in between.
pub popcli_undoes :
    (c d : Cpu) → IsMasked c → Same (pushcli c) d → (e : Cpu) × (popcli d ≡ some e) × Same c e
unfolding popcli pushcli
popcli_undoes c d m s =
    let deep : (d.ncli == 0) ≡ false = ground (arith, s.depth) in
    let back = s.saved (omega arith) in
    elim (Bool-cases (c.ncli == 0)) [
      | inl outer ↦
          let z : (d.ncli - 1 == 0) ≡ true = ground (arith, s.depth) in
          let b : d.intena ≡ c.ints = back ∙ rw outer refl in
          (
            record d { ncli = d.ncli - 1; ints = d.ncli - 1 == 0 && d.intena },
            rw (s.interrupts, deep) refl,
            record {
              depth = omega (arith, s.depth);
              interrupts = rw z b;
              saved = λ l. absurd (ground arith);
            },
          )
      | inr inner ↦
          let z : (d.ncli - 1 == 0) ≡ false = ground (arith, s.depth) in
          let b : d.intena ≡ c.intena = back ∙ rw inner refl in
          (
            record d { ncli = d.ncli - 1; ints = d.ncli - 1 == 0 && d.intena },
            rw (s.interrupts, deep) refl,
            record {
              depth = omega (arith, s.depth);
              interrupts = rw z (sym (m (ground arith)));
              saved = λ l. b;
            },
          )
    ]

pub pushcli-IsMasked : (c : Cpu) → IsMasked (pushcli c)
unfolding pushcli
pushcli-IsMasked c l = refl

Same-IsMasked : {c d : Cpu} → Same c d → IsMasked c → IsMasked d
Same-IsMasked s m l = s.interrupts ∙ m (omega (arith, s.depth))

Same-trans : {b c d : Cpu} → Same b c → Same c d → Same b d
Same-trans r s = record {
  depth = s.depth ∙ r.depth;
  interrupts = s.interrupts ∙ r.interrupts;
  saved = λ l. s.saved (omega (arith, r.depth)) ∙ r.saved l;
}

-- Matched calls on a processor without interrupts inside pushcli do not panic, and leave its depth,
-- its interrupts and, inside pushcli, what it will come back to as they were.
pub run-Same :
    {cs : List Call}
    → Matched cs
    → (c : Cpu) → IsMasked c
    → (d : Cpu) × (run cs (some c) ≡ some d) × Same c d
unfolding run
run-Same nothing c m = (c, refl, record { depth = refl; interrupts = refl; saved = λ l. refl })
run-Same (around {cs} {ds} inside behind) c m =
    let (d, e, s) = run-Same inside (pushcli c) (pushcli-IsMasked c) in
    let (d', e', s') = popcli_undoes c d m s in
    let (d'', e'', s'') = run-Same behind d' (Same-IsMasked s' m) in
    (d'', rw (run-append cs (pop ∷ ds) (some (pushcli c)), e, e') e'', Same-trans s' s'')
