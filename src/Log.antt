-- ===== src/Log.antt =====
-- log.c: the redo log of the file system. Blocks are lists of words, the disk a function of the
-- block number, and the in-memory header the list of its first n block numbers.
pub mod Disk
pub mod Trace
pub mod Phases
pub mod Recovery
pub mod Commit
pub mod Operations
pub mod Absorb
pub mod Space
use os_system_calls_scheduli.Base.{
  ℕ, suc, ◌+◌, ◌-◌, ◌*◌, Bool, true, false, List, [], ◌∷◌, ◌++◌, Option, none, some, ltb, leb, ◌==◌,
  if◌then◌else◌, length,
}
use os_system_calls_scheduli.Log.Disk.{Block, Machine, bread, bwrite, encode, decode, mem}

abbrev pub max_op_blocks : ℕ
max_op_blocks = 10

abbrev pub log_size : ℕ
log_size = 30

pub record Log : Type 0 where
  pub start : ℕ
  pub size : ℕ
  pub outstanding : ℕ
  pub committing : Bool
  pub lh : List ℕ

-- The loop of install_trans from the log block `at` on.
unfoldable pub install_from : ℕ → List ℕ → Machine → Machine
install_from at [] m = m
install_from at (b ∷ bs) m = install_from (suc at) bs (bwrite b (bread at m) m)

-- The loop of write_log from the log block `at` on.
unfoldable pub write_log_from : ℕ → List ℕ → Machine → Machine
write_log_from at [] m = m
write_log_from at (b ∷ bs) m = write_log_from (suc at) bs (bwrite at (bread b m) m)

unfoldable pub read_head : Log → Machine → Log
read_head g m = record g { lh = decode (bread g.start m) }

unfoldable pub write_head : Log → Machine → Machine
write_head g m = bwrite g.start (encode g.lh (bread g.start m)) m

unfoldable pub recover_from_log : Log → Machine → Log × Machine
recover_from_log g m =
    let g' = read_head g m in
    let m' = install_from (suc g'.start) g'.lh m in
    let g'' = record g' { lh = [] } in (g'', write_head g'' m')

unfoldable pub commit_blocks : Log → Machine → Log × Machine
commit_blocks g m =
    let m' = write_head g (write_log_from (suc g.start) g.lh m) in
    let m'' = install_from (suc g.start) g.lh m' in
    let g' = record g { lh = [] } in (g', write_head g' m'')

unfoldable pub commit : Log → Machine → Log × Machine
commit g m = if ltb 0 (length g.lh) then commit_blocks g m else (g, m)

-- One pass of the loop of begin_op; `none` sleeps on the log.
unfoldable pub begin_op : Log → Option Log
begin_op g =
    if g.committing
    then none
    else if ltb log_size (length g.lh + (g.outstanding + 1) * max_op_blocks)
    then none
    else some (record g { outstanding = g.outstanding + 1 })

-- `unmatched` is an end_op with no begin_op before it, which takes the counter below 0.
pub data Ended : Type 0 where
  panics : Ended
  unmatched : Ended
  last_one : Log → Ended
  others_left : Log → Ended

-- end_op up to the first release of the lock.
unfoldable pub end_op : Log → Ended
end_op g =
    if g.committing
    then panics
    else if g.outstanding == 0
    then unmatched
    else if g.outstanding == 1
    then last_one (record g { outstanding = 0; committing = true })
    else others_left (record g { outstanding = g.outstanding - 1 })

-- end_op when it commits.
unfoldable pub end_commit : Log → Machine → Log × Machine
end_commit g m = let (g', m') = commit g m in (record g' { committing = false }, m')

-- log_write on the header: `none` panics.
unfoldable pub log_write : ℕ → Log → Option Log
log_write b g =
    if leb log_size (length g.lh)
    then none
    else if leb g.size (length g.lh + 1)
    then none
    else if ltb g.outstanding 1
    then none
    else some (if mem b g.lh then g else record g { lh = g.lh ++ (b ∷ []) })
