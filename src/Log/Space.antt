-- ===== src/Log/Space.antt =====
-- The room of the log of log.c: the operations that begin_op lets in, against the blocks that log_write
-- lists.
use os_system_calls_scheduli.Base.{
  ℕ, suc, ◌+◌, ◌*◌, ◌-◌, ◌<◌, ◌≤◌, ◌≡◌, refl, ◌≢◌, ◌⊎◌, inl, inr, ap, Bool, true, false, List, [],
  ◌∷◌, length, arith, some, none,
}
use os_system_calls_scheduli.Log.{
  Log, begin_op, end_op, end_commit, panics, unmatched, last_one, others_left, log_write, log_size,
  max_op_blocks,
}
use os_system_calls_scheduli.Log.Operations.{
  begin_op_lem, log_write_lem, end_op_others, end_op_last, end_commit_lem, log_write_room,
  end_op_runs,
}
use os_system_calls_scheduli.Log.Disk.{Machine}

-- The blocks that the operations under way may still write, by their log_write calls so far.
abbrev pub budget : List ℕ → ℕ
budget [] = 0
budget (used ∷ ops) = (max_op_blocks - used) + budget ops

-- One operation makes a call more.
pub data Spends : List ℕ → List ℕ → Type 0 where
  here : {used : ℕ} {ops : List ℕ} → used < max_op_blocks → Spends (used ∷ ops) (suc used ∷ ops)
  there : {used : ℕ} {ops ops' : List ℕ} → Spends ops ops' → Spends (used ∷ ops) (used ∷ ops')

-- One operation ends.
pub data Leaves : List ℕ → List ℕ → Type 0 where
  first : {used : ℕ} {ops : List ℕ} → Leaves (used ∷ ops) ops
  later : {used : ℕ} {ops ops' : List ℕ} → Leaves ops ops' → Leaves (used ∷ ops) (used ∷ ops')

-- Operations that begin, write and end; the commit of the last one runs with the lock let go.
pub data Step : Log × List ℕ → Log × List ℕ → Type 0 where
  begins : {g g' : Log} {ops : List ℕ} → begin_op g ≡ some g' → Step (g, ops) (g', 0 ∷ ops)
  writes :
      {g g' : Log} {ops ops' : List ℕ} (b : ℕ)
      → Spends ops ops'
      → log_write b g ≡ some g'
      → Step (g, ops) (g', ops')
  ends :
      {g g' : Log} {ops ops' : List ℕ}
      → Leaves ops ops'
      → end_op g ≡ others_left g'
      → Step (g, ops) (g', ops')
  ends_last :
      {g g' : Log} {ops ops' : List ℕ}
      → Leaves ops ops'
      → end_op g ≡ last_one g'
      → Step (g, ops) (g', ops')
  commits : {g : Log} (m : Machine) → g.committing ≡ true → Step (g, []) ((end_commit g m).0, [])

pub data Reaches : Log × List ℕ → Log × List ℕ → Type 0 where
  start : {s : Log × List ℕ} → Reaches s s
  step : {s t u : Log × List ℕ} → Reaches s t → Step t u → Reaches s u

-- The counter counts the operations, none runs during a commit, and the log has room for what they
-- may still write.
pub record HasRoom (g : Log) (ops : List ℕ) : Type 0 where
  pub counted : g.outstanding ≡ length ops
  pub quiet : g.committing ≡ true → ops ≡ []
  pub room : length g.lh + budget ops ≤ log_size
  pub big : log_size < g.size

budget_le : (ops : List ℕ) → budget ops ≤ length ops * max_op_blocks
budget_le [] = omega arith
budget_le (used ∷ ops) = omega (arith, budget_le ops)

budget-Spends : {ops ops' : List ℕ} → Spends ops ops' → budget ops ≡ budget ops' + 1
budget-Spends (here h) = omega arith
budget-Spends (there s) = omega (arith, budget-Spends s)

length-Spends :
    {ops ops' : List ℕ} → Spends ops ops' → (length ops ≡ length ops') × (1 ≤ length ops)
length-Spends (here h) = (refl, omega arith)
length-Spends (there s) = (omega (arith, (length-Spends s).0), omega arith)

budget-Leaves : {ops ops' : List ℕ} → Leaves ops ops' → budget ops' ≤ budget ops
budget-Leaves first = omega arith
budget-Leaves (later l) = omega (arith, budget-Leaves l)

length-Leaves : {ops ops' : List ℕ} → Leaves ops ops' → length ops ≡ length ops' + 1
length-Leaves first = omega arith
length-Leaves (later l) = omega (arith, length-Leaves l)

clash : {b : Bool} → b ≡ true → b ≡ false → ⊥
clash e f = cc

is_nil : (ops : List ℕ) → length ops ≡ 0 → ops ≡ []
is_nil [] e = refl
is_nil (used ∷ ops) e = absurd (omega arith)

length_cases : (ops : List ℕ) → (ops ≡ []) ⊎ (1 ≤ length ops)
length_cases [] = inl refl
length_cases (used ∷ ops) = inr (omega arith)

-- An operation under way keeps a commit away.
not_committing : {g : Log} {ops : List ℕ} → HasRoom g ops → 1 ≤ length ops → g.committing ≡ true → ⊥
not_committing {g} {ops} r l c = absurd (omega (arith, ap (λ (xs : List ℕ). length xs) (r.quiet c)))

Step-HasRoom :
    {g g' : Log} {ops ops' : List ℕ} → HasRoom g ops → Step (g, ops) (g', ops') → HasRoom g' ops'
Step-HasRoom {g} {g'} {ops} {ops'} r (begins e) =
    let b = begin_op_lem g g' e in
    rw b.after (record {
      counted = omega (arith, r.counted);
      quiet = λ c. absurd (clash c b.free);
      room = omega (arith, b.space, r.counted, budget_le ops);
      big = r.big;
    })
Step-HasRoom {g} {g'} {ops} {ops'} r (writes b s e) =
    let l = log_write_lem b g g' e in
    record {
      counted = omega (arith, l.rest.0, r.counted, (length-Spends s).0);
      quiet = λ c. absurd (not_committing r (length-Spends s).1 (rw (← l.rest.1) c));
      room = omega (arith, l.longer, r.room, budget-Spends s);
      big = omega (arith, r.big, l.rest.2);
    }
Step-HasRoom {g} {g'} {ops} {ops'} r (ends l e) =
    let (d, c) = end_op_others g g' e in
    record {
      counted = omega (arith, d.fewer, r.counted, length-Leaves l);
      quiet = λ busy. absurd (not_committing r (omega (arith, length-Leaves l)) (rw (← c) busy));
      room = omega (arith, ap (λ (xs : List ℕ). length xs) d.rest.0, r.room, budget-Leaves l);
      big = omega (arith, r.big, d.rest.1);
    }
Step-HasRoom {g} {g'} {ops} {ops'} r (ends_last l e) =
    let (d, z) = end_op_last g g' e in
    record {
      counted = omega (arith, d.fewer, r.counted, length-Leaves l);
      quiet = λ busy. is_nil ops' (omega (arith, d.fewer, z, r.counted, length-Leaves l));
      room = omega (arith, ap (λ (xs : List ℕ). length xs) d.rest.0, r.room, budget-Leaves l);
      big = omega (arith, r.big, d.rest.1);
    }
Step-HasRoom {g} {g'} {ops} {ops'} r (commits m c) = record {
  counted = omega (arith, (end_commit_lem g m).1, r.counted);
  quiet = λ busy. refl;
  room = omega (arith, (end_commit_lem g m).0, r.room);
  big = omega (arith, (end_commit_lem g m).2, r.big);
}

Reaches-HasRoom : {s t : Log × List ℕ} → HasRoom s.0 s.1 → Reaches s t → HasRoom t.0 t.1
Reaches-HasRoom r start = r
Reaches-HasRoom r (step p q) = Step-HasRoom (Reaches-HasRoom r p) q

-- From an empty log of more than LOGSIZE blocks, whatever operations begin, write and end, the log
-- never holds more than LOGSIZE blocks, an operation that has made fewer than MAXOPBLOCKS calls of
-- log_write does not panic in the next one, and no operation panics in end_op.
pub log_never_overflows :
    (g g' : Log) (ops : List ℕ)
    → g.lh ≡ []
    → g.outstanding ≡ 0
    → log_size < g.size
    → Reaches (g, []) (g', ops)
    → (length g'.lh ≤ log_size)
      × ((b : ℕ) (ops' : List ℕ) → Spends ops ops' → log_write b g' ≢ none)
      × (ops ≢ [] → (end_op g' ≢ panics) × (end_op g' ≢ unmatched))
log_never_overflows g g' ops empty idle big p =
    let r =
      Reaches-HasRoom {s = (g, [])} {t = (g', ops)}
        (record { counted = idle; quiet = λ c. refl; room = rw empty (omega arith); big = big })
        p in
    (
      omega (arith, r.room),
      λ b ops' s.
          log_write_room b g' (omega (arith, r.room, budget-Spends s)) r.big
            (omega (arith, r.counted, (length-Spends s).1)),
      λ ne. elim (length_cases ops) [
        | inl none_run ↦ absurd (ne none_run)
        | inr l ↦ end_op_runs g' (omega (arith, r.counted)) (not_committing r l)
      ],
    )
