-- ===== src/Tests/Processors.antt =====
-- spinlock.c at concrete inputs.
use os_system_calls_scheduli.Base.{ℕ, ◌≡◌, refl, true, false, List, [], ◌∷◌, some, arith}
use os_system_calls_scheduli.Locks.{Cpu, Spinlock, pushcli, popcli}
use os_system_calls_scheduli.Locks.Nesting.{Call, push, pop, run, nothing, around, Same, run-Same}
use os_system_calls_scheduli.Locks.Exclusion.{Stage, idle, spinning, taken, critical, move}

abbrev running : Cpu
running = record { ncli = 0; intena = false; ints = true }

abbrev masked : Cpu
masked = record { ncli = 1; intena = true; ints = false }

abbrev some_lock : Spinlock
some_lock = record { locked = true; cpu = some 3 }

abbrev all_idle : ℕ → Stage
all_idle i = idle

abbrev after : ℕ → Stage
after = move 1 critical (move 1 taken (move 1 spinning all_idle))

abbrev twice : List Call
twice = push ∷ push ∷ pop ∷ pop ∷ []

twice_runs : run twice (some running) ≡ some (record running { intena = true })
unfolding run pushcli popcli
twice_runs = refl

run-Same_example : (d : Cpu) × (run twice (some running) ≡ some d) × Same running d
run-Same_example =
    run-Same (around (around nothing nothing) nothing) running (λ l. absurd (omega arith))
