-- ===== src/Locks.antt =====
-- spinlock.c: interrupts of a processor, and a lock as the steps that the processors make on it.
pub mod Nesting
pub mod Exclusion
pub mod Mutex
use os_system_calls_scheduli.Base.{
  ℕ, ◌+◌, ◌-◌, Bool, true, false, not, ◌&&◌, Option, none, some, ◌==◌, if◌then◌else◌,
}

-- `ints` is the flag FL_IF of the processor.
pub record Cpu : Type 0 where
  pub ncli : ℕ
  pub intena : Bool
  pub ints : Bool

unfoldable pub pushcli : Cpu → Cpu
pushcli c = record {
  ncli = c.ncli + 1;
  intena = if c.ncli == 0 then c.ints else c.intena;
  ints = false;
}

-- `none` panics.
unfoldable pub popcli : Cpu → Option Cpu
popcli c =
    if c.ints
    then none
    else if c.ncli == 0
    then none
    else some (record c { ncli = c.ncli - 1; ints = c.ncli - 1 == 0 && c.intena })

pub record Spinlock : Type 0 where
  pub locked : Bool
  pub cpu : Option ℕ

unfoldable pub initlock : Spinlock → Spinlock
initlock lk = record { locked = false; cpu = none }

unfoldable pub is_cpu : Option ℕ → ℕ → Bool
is_cpu none i = false
is_cpu (some j) i = j == i

unfoldable pub with_answer : Bool → Option Cpu → Option (Bool × Cpu)
with_answer r none = none
with_answer r (some c) = some (r, c)

-- What processor `i` finds, and its interrupts after the call.
unfoldable pub holding : ℕ → Spinlock → Cpu → Option (Bool × Cpu)
holding i lk c = with_answer (lk.locked && is_cpu lk.cpu i) (popcli (pushcli c))

-- A panic unless the answer is `r`.
unfoldable pub expect : Bool → Option (Bool × Cpu) → Option Cpu
expect r none = none
expect true (some (true, c)) = some c
expect true (some (false, c)) = none
expect false (some (true, c)) = none
expect false (some (false, c)) = some c

-- acquire up to its loop.
unfoldable pub acquire_enter : ℕ → Spinlock → Cpu → Option Cpu
acquire_enter i lk c = expect false (holding i lk (pushcli c))

-- The old value of `locked`, and the lock after the exchange with 1.
unfoldable pub xchg : Spinlock → Bool × Spinlock
xchg lk = (lk.locked, record lk { locked = true })

-- `lk->cpu = mycpu()` in acquire.
unfoldable pub record_cpu : ℕ → Spinlock → Spinlock
record_cpu i lk = record lk { cpu = some i }

-- `lk->cpu = 0` in release, for the processor after the test, if there was no panic.
unfoldable pub clear_cpu : Spinlock → Option Cpu → Option (Spinlock × Cpu)
clear_cpu lk none = none
clear_cpu lk (some c) = some (record lk { cpu = none }, c)

-- release up to the store into `locked`.
unfoldable pub release_enter : ℕ → Spinlock → Cpu → Option (Spinlock × Cpu)
release_enter i lk c = clear_cpu lk (expect true (holding i lk c))

-- The store into `locked` in release.
unfoldable pub unlock : Spinlock → Spinlock
unlock lk = record lk { locked = false }
