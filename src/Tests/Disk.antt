-- ===== src/Tests/Disk.antt =====
-- log.c at concrete inputs.
use os_system_calls_scheduli.Base.{
  ℕ, ◌≡◌, refl, ◌≢◌, ◌⊎◌, inr, ◌≤◌, true, false, List, [], ◌∷◌, arith, some, none, Option, length,
  ◌==◌, if◌then◌else◌,
}
use os_system_calls_scheduli.Log.{
  Log, commit, recover_from_log, begin_op, end_op, panics, unmatched, log_write, log_size,
}
use os_system_calls_scheduli.Log.Disk.{Block, Machine, restart, decode, mem}
use os_system_calls_scheduli.Log.Recovery.{Home}
use os_system_calls_scheduli.Log.Commit.{Fits, committed, commit_atomic}
use os_system_calls_scheduli.Log.Absorb.{Absorbed, log_write-Absorbed}
use os_system_calls_scheduli.Log.Space.{start, step, begins, Spends, log_never_overflows}

-- Two blocks of a transaction, in a log of 31 blocks from block 2 on.
abbrev two_logged : Log
two_logged = record { start = 2; size = 31; outstanding = 0; committing = true; lh = 40 ∷ 50 ∷ [] }

abbrev old_disk : ℕ → Block
old_disk b = 0 ∷ []

abbrev dirty : ℕ → Option Block
dirty b = if b == 40 then some (4 ∷ []) else if b == 50 then some (5 ∷ []) else none

-- The power ends after the commit's header write and one home write.
abbrev stopping : Machine
stopping = record { disk = old_disk; cache = dirty; power = 4 }

two_logged-Fits : Fits two_logged
two_logged-Fits = record {
  room = omega arith;
  homes = (inr (omega arith), (inr (omega arith), tt));
}

commit_atomic_example :
    let crashed = (commit two_logged stopping).1 in
    let again = (recover_from_log two_logged (restart 1 crashed)).1 in
    let d = (recover_from_log two_logged (restart 40 again)).1.disk in
    ((b : ℕ) → Home two_logged b → d b ≡ old_disk b)
    ⊎ ((b : ℕ) → Home two_logged b → d b ≡ committed two_logged stopping b)
unfolding decode
commit_atomic_example = commit_atomic two_logged stopping 1 40 two_logged-Fits refl (omega arith)

abbrev idle : Log
idle = record { start = 2; size = 31; outstanding = 0; committing = false; lh = [] }

abbrev busy : Log
busy = record { start = 2; size = 31; outstanding = 1; committing = false; lh = [] }

abbrev none_written : List ℕ
none_written = 0 ∷ []

begins_once : begin_op idle ≡ some busy
unfolding begin_op
begins_once = refl

log_never_overflows_example :
    (length busy.lh ≤ log_size)
    × ((b : ℕ) (ops' : List ℕ) → Spends none_written ops' → log_write b busy ≢ none)
    × (none_written ≢ [] → (end_op busy ≢ panics) × (end_op busy ≢ unmatched))
log_never_overflows_example =
    log_never_overflows idle busy none_written refl refl (omega arith)
      (step start (begins begins_once))

abbrev one_logged : Log
one_logged = record { start = 2; size = 31; outstanding = 1; committing = false; lh = 7 ∷ [] }

logs_once : log_write 7 busy ≡ some one_logged
unfolding log_write mem
logs_once = refl

log_write-Absorbed_example : Absorbed 7 [] (7 ∷ [])
log_write-Absorbed_example = log_write-Absorbed 7 busy one_logged logs_once

-- In the log of 30 blocks that mkfs makes, the last block that begin_op lets in panics.
abbrev mkfs_full : Log
mkfs_full = record {
  start = 2;
  size = 30;
  outstanding = 3;
  committing = false;
  lh =
      100 ∷ 101 ∷ 102 ∷ 103 ∷ 104 ∷ 105 ∷ 106 ∷ 107 ∷ 108 ∷ 109 ∷ 110 ∷ 111 ∷ 112 ∷ 113 ∷ 114 ∷ 115
      ∷ 116 ∷ 117 ∷ 118 ∷ 119 ∷ 120 ∷ 121 ∷ 122 ∷ 123 ∷ 124 ∷ 125 ∷ 126 ∷ 127 ∷ 128 ∷ [];
}

mkfs_panics : log_write 129 mkfs_full ≡ none
unfolding log_write
mkfs_panics = refl
