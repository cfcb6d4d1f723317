-- ===== src/Log/Operations.antt =====
-- What begin_op, log_write, end_op and commit of log.c do to the log's counters.
use os_system_calls_scheduli.Base.{
  ℕ, ◌+◌, ◌*◌, ◌-◌, ◌<◌, ◌≤◌, ◌≡◌, refl, ◌≢◌, sym, Bool, true, false, [], ◌∷◌, ◌++◌, length, arith,
  some, none, ltb, leb, some-eq, if◌then◌else◌, ◌==◌, length-append,
}
use os_system_calls_scheduli.Log.{
  Log, begin_op, end_op, end_commit, panics, unmatched, last_one, others_left, log_write, log_size,
  max_op_blocks, commit, commit_blocks,
}
use os_system_calls_scheduli.Log.Disk.{Machine, mem}

none_ne : {g : Log} → none ≡ some g → ⊥
none_ne e = cc

-- What a begin_op that gets in has tested and does.
pub record Begun (g g' : Log) : Type 0 where
  pub free : g.committing ≡ false
  pub space : length g.lh + (g.outstanding + 1) * max_op_blocks ≤ log_size
  pub after : g' ≡ record g { outstanding = g.outstanding + 1 }

guarded :
    (c t : Bool) (g h : Log)
    → (if c then none else if t then none else some g) ≡ some h
    → (c ≡ false) × (t ≡ false) × (h ≡ g)
guarded true t g h e = absurd (none_ne e)
guarded false true g h e = absurd (none_ne e)
guarded false false g h e = (refl, refl, sym (some-eq e))

pub begin_op_lem : (g g' : Log) → begin_op g ≡ some g' → Begun g g'
unfolding begin_op
begin_op_lem g g' e =
    let full = ltb log_size (length g.lh + (g.outstanding + 1) * max_op_blocks) in
    let (free, short, after) =
      guarded g.committing full (record g { outstanding = g.outstanding + 1 }) g' e in
    record { free = free; space = ground arith; after = after }

-- What log_write leaves when it does not panic: the list may be one block longer.
pub record Logged (g g' : Log) : Type 0 where
  pub longer : length g'.lh ≤ length g.lh + 1
  pub rest : (g'.outstanding ≡ g.outstanding) × (g'.committing ≡ g.committing) × (g'.size ≡ g.size)

absorbed :
    (known : Bool) (b : ℕ) (g : Log)
    → Logged g (if known then g else record g { lh = g.lh ++ (b ∷ []) })
absorbed true b g = record { longer = omega arith; rest = (refl, refl, refl) }
absorbed false b g = record {
  longer = omega (arith, length-append g.lh (b ∷ []));
  rest = (refl, refl, refl);
}

passed :
    (c t o : Bool) (g h : Log)
    → (if c then none else if t then none else if o then none else some g) ≡ some h
    → h ≡ g
passed true t o g h e = absurd (none_ne e)
passed false true o g h e = absurd (none_ne e)
passed false false true g h e = absurd (none_ne e)
passed false false false g h e = sym (some-eq e)

pub log_write-some :
    (b : ℕ) (g g' : Log)
    → log_write b g ≡ some g'
    → g' ≡ (if mem b g.lh then g else record g { lh = g.lh ++ (b ∷ []) })
unfolding log_write
log_write-some b g g' e =
    passed (leb log_size (length g.lh)) (leb g.size (length g.lh + 1)) (ltb g.outstanding 1)
      (if mem b g.lh then g else record g { lh = g.lh ++ (b ∷ []) }) g' e

pub log_write_lem : (b : ℕ) (g g' : Log) → log_write b g ≡ some g' → Logged g g'
log_write_lem b g g' e = rw (log_write-some b g g' e) (absorbed (mem b g.lh) b g)

-- What end_op leaves when it neither panics nor takes the counter below 0.
pub record Ending (g g' : Log) : Type 0 where
  pub fewer : g.outstanding ≡ g'.outstanding + 1
  pub rest : (g'.lh ≡ g.lh) × (g'.size ≡ g.size)

leaves_others :
    (c z o : Bool) (g h k : Log)
    → (if c then panics else if z then unmatched else if o then last_one g else others_left h)
      ≡ others_left k
    → (z ≡ false) × (k ≡ h)
leaves_others true z o g h k e = absurd (distinct e)
  where
    distinct : panics ≡ others_left k → ⊥
    distinct e = cc
leaves_others false true o g h k e = absurd (distinct e)
  where
    distinct : unmatched ≡ others_left k → ⊥
    distinct e = cc
leaves_others false false true g h k e = absurd (distinct e)
  where
    distinct : last_one g ≡ others_left k → ⊥
    distinct e = cc
leaves_others false false false g h k e = (refl, cc)

leaves_none :
    (c z o : Bool) (g h k : Log)
    → (if c then panics else if z then unmatched else if o then last_one g else others_left h)
      ≡ last_one k
    → (o ≡ true) × (k ≡ g)
leaves_none true z o g h k e = absurd (distinct e)
  where
    distinct : panics ≡ last_one k → ⊥
    distinct e = cc
leaves_none false true o g h k e = absurd (distinct e)
  where
    distinct : unmatched ≡ last_one k → ⊥
    distinct e = cc
leaves_none false false true g h k e = (refl, cc)
leaves_none false false false g h k e = absurd (distinct e)
  where
    distinct : others_left h ≡ last_one k → ⊥
    distinct e = cc

pub end_op_others :
    (g g' : Log) → end_op g ≡ others_left g' → Ending g g' × (g'.committing ≡ g.committing)
unfolding end_op
end_op_others g g' e =
    let (some_run, after) =
      leaves_others g.committing (g.outstanding == 0) (g.outstanding == 1)
        (record g { outstanding = 0; committing = true })
        (record g { outstanding = g.outstanding - 1 }) g' e in
    rw after (record { fewer = ground arith; rest = (refl, refl) }, refl)

pub end_op_last : (g g' : Log) → end_op g ≡ last_one g' → Ending g g' × (g'.outstanding ≡ 0)
unfolding end_op
end_op_last g g' e =
    let (one_runs, after) =
      leaves_none g.committing (g.outstanding == 0) (g.outstanding == 1)
        (record g { outstanding = 0; committing = true })
        (record g { outstanding = g.outstanding - 1 }) g' e in
    rw after (record { fewer = ground arith; rest = (refl, refl) }, refl)

-- The commit of end_op leaves no more blocks in the list than there were.
pub end_commit_lem :
    (g : Log) (m : Machine)
    → (length (end_commit g m).0.lh ≤ length g.lh)
      × ((end_commit g m).0.outstanding ≡ g.outstanding)
      × ((end_commit g m).0.size ≡ g.size)
unfolding end_commit commit commit_blocks
end_commit_lem g m = either (ltb 0 (length g.lh))
  where
    either :
        (b : Bool)
        → (length (if b then commit_blocks g m else (g, m)).0.lh ≤ length g.lh)
          × ((if b then commit_blocks g m else (g, m)).0.outstanding ≡ g.outstanding)
          × ((if b then commit_blocks g m else (g, m)).0.size ≡ g.size)
    either true = (omega arith, refl, refl)
    either false = (omega arith, refl, refl)

-- log_write with room for a block, and end_op with an operation under way, do not panic.
pub log_write_room :
    (b : ℕ) (g : Log)
    → length g.lh < log_size
    → log_size < g.size
    → 1 ≤ g.outstanding
    → log_write b g ≢ none
unfolding log_write
log_write_room b g l s o =
    let l' : leb log_size (length g.lh) ≡ false = ground arith in
    let s' : leb g.size (length g.lh + 1) ≡ false = ground arith in
    let o' : ltb g.outstanding 1 ≡ false = ground arith in rw (l', s', o') (λ e. none_ne (sym e))

pub end_op_runs :
    (g : Log)
    → 1 ≤ g.outstanding
    → g.committing ≢ true
    → (end_op g ≢ panics) × (end_op g ≢ unmatched)
unfolding end_op
end_op_runs g o c =
    runs (record g { outstanding = 0; committing = true })
      (record g { outstanding = g.outstanding - 1 }) g.committing (g.outstanding == 0)
      (g.outstanding == 1) c (ground arith)
  where
    runs :
        (g h : Log) (c z o : Bool)
        → c ≢ true
        → z ≡ false
        → let w =
            if c
            then panics
            else if z
            then unmatched
            else if o
            then last_one g
            else others_left h in
          (w ≢ panics) × (w ≢ unmatched)
    runs g h true z o n f = absurd (n refl)
    runs g h false true o n f = absurd cc
    runs g h false false true n f = (λ e. cc, λ e. cc)
    runs g h false false false n f = (λ e. cc, λ e. cc)
