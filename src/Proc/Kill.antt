-- ===== src/Proc/Kill.antt =====
-- kill and allocproc of proc.c: which entry each takes, and what it changes there.
use os_system_calls_scheduli.Base.{
  ℕ, ◌<◌, ◌≡◌, refl, ◌≢◌, Bool, true, false, Option, none, some, ◌⊎◌, inl, inr, arith, ◌==◌,
  ==_refl, if◌then◌else◌, length, length-set, Bool-cases, Option-cases, set, get_or, ◌∙◌, sym,
}
use os_system_calls_scheduli.Proc.Types.{
  unused, embryo, sleeping, runnable, state_eq, Proc, Kernel, proc_at, set_proc, no_proc, next_int,
}
use os_system_calls_scheduli.Proc.Table.{find_first, First, find_first-First, find_first-none}
use os_system_calls_scheduli.Proc.Sched.{make_runnable}
use os_system_calls_scheduli.Proc.Life.{allocproc, kill}
use os_system_calls_scheduli.Proc.Frame.{proc_at-set_proc, make_runnable_procs, set_twice}
use os_system_calls_scheduli.Proc.Queued.{state_eq-eq}

abbrev pub has_pid : ℕ → Proc → Bool
has_pid pid p = p.pid == pid

abbrev pub is_unused : Proc → Bool
is_unused p = state_eq p.state unused

-- What each result of kill means.
abbrev pub KillOutcome : ℕ → Kernel → Bool × Kernel → Type 0
KillOutcome pid k (false, k') =
    ((i : ℕ) → i < length k.procs → has_pid pid (proc_at k i) ≡ false) × (k' ≡ k)
KillOutcome pid k (true, k') =
    (i : ℕ) × First (has_pid pid) k.procs i
    × ((proc_at k' i).killed ≡ true)
    × ((proc_at k' i).state
        ≡ (if state_eq (proc_at k i).state sleeping then runnable else (proc_at k i).state))
    × ((j : ℕ) → i ≢ j → proc_at k' j ≡ proc_at k j)

-- kill succeeds just when an entry has the pid, and then marks the first one, wakes it if it
-- sleeps, and leaves the others alone.
pub kill-KillOutcome : (pid : ℕ) (k : Kernel) → KillOutcome pid k (kill pid k)
unfolding kill
kill-KillOutcome pid k = elim (Option-cases (find_first (has_pid pid) k.procs)) [
  | inl out ↦ rw (out, kill) (find_first-none (has_pid pid) k.procs out, refl)
  | inr (i, found) ↦
      let f = find_first-First (has_pid pid) k.procs i found in
      let p = record (proc_at k i) { killed = true } in
      let one = set_lem k i p f.inside in
      rw (found, kill)
        (elim (Bool-cases (state_eq (proc_at k i).state sleeping)) [
          | inl asleep ↦
              let two =
                woken_lem (set_proc k i p) i (omega (arith, f.inside, length-set k.procs i p)) in
              rw asleep (i, f, rw (two.0, one.0), rw asleep two.1, λ j ne. two.2 j ne ∙ one.1 j ne)
          | inr awake ↦ rw awake (i, f, rw one.0, rw (one.0, awake), one.1)
        ])
]
  where
    set_lem :
        (k : Kernel) (i : ℕ) (p : Proc)
        → i < length k.procs
        → (proc_at (set_proc k i p) i ≡ p)
          × ((j : ℕ) → i ≢ j → proc_at (set_proc k i p) j ≡ proc_at k j)
    set_lem k i p h = (
      rw (proc_at-set_proc k i i p h, ==_refl i),
      λ j ne. let e : (i == j) ≡ false = ground arith in rw (proc_at-set_proc k i j p h, e),
    )

    woken_lem :
        (k : Kernel) (i : ℕ)
        → i < length k.procs
        → ((proc_at (make_runnable i k) i).killed ≡ (proc_at k i).killed)
          × ((proc_at (make_runnable i k) i).state ≡ runnable)
          × ((j : ℕ) → i ≢ j → proc_at (make_runnable i k) j ≡ proc_at k j)
    woken_lem k i h = (
      rw (make_runnable_procs k i i h, ==_refl i),
      rw (make_runnable_procs k i i h, ==_refl i),
      λ j ne. let e : (i == j) ≡ false = ground arith in rw (make_runnable_procs k i j h, e),
    )

-- `p` as allocproc leaves it with a kernel stack.
abbrev pub allocated : ℕ → Kernel → Proc → Proc
allocated stack k p = record p { state = embryo; pid = k.nextpid; kstack = stack }

-- What each result of allocproc means.
abbrev pub AllocOutcome : ℕ → Kernel → Option ℕ × Kernel → Type 0
AllocOutcome stack k (some i, k') =
    First is_unused k.procs i
    × (stack ≢ 0)
    × (k'.nextpid ≡ next_int k.nextpid)
    × (k'.queues ≡ k.queues)
    × ((j : ℕ) → proc_at k' j ≡ (if i == j then allocated stack k (proc_at k i) else proc_at k j))
AllocOutcome stack k (none, k') =
    ((i : ℕ) → i < length k.procs → is_unused (proc_at k i) ≡ false)
    ⊎ ((stack ≡ 0) × ((j : ℕ) → (proc_at k' j).state ≡ (proc_at k j).state))

abbrev embryo_of : Kernel → ℕ → Proc
embryo_of k i = record (proc_at k i) { state = embryo; pid = k.nextpid }

-- An UNUSED entry that is changed and UNUSED again.
freed :
    (k : Kernel) (i : ℕ) (u v : Proc)
    → i < length k.procs
    → v.state ≡ unused
    → (proc_at k i).state ≡ unused
    → (j : ℕ) → (get_or (set (set k.procs i u) i v) j no_proc).state ≡ (proc_at k j).state
freed k i u v h ev eo j = elim (Bool-cases (i == j)) [
  | inl same ↦ let z : i ≡ j = ground arith in rw (set_twice k i j u v h, same, ← z) (ev ∙ sym eo)
  | inr other ↦ rw (set_twice k i j u v h, other)
]

-- allocproc takes the first UNUSED entry, gives it the next pid and the stack, and changes nothing
-- else of it; it fails without a free entry, or without a stack and then leaves every state as it
-- was.
pub allocproc-AllocOutcome : (stack : ℕ) (k : Kernel) → AllocOutcome stack k (allocproc stack k)
unfolding allocproc
allocproc-AllocOutcome stack k = elim (Option-cases (find_first is_unused k.procs)) [
  | inl full ↦ rw (full, allocproc) (inl (find_first-none is_unused k.procs full))
  | inr (i, found) ↦
      let f = find_first-First is_unused k.procs i found in
      rw (found, allocproc)
        (elim (Bool-cases (stack == 0)) [
          | inl no_stack ↦ rw no_stack (
              inr (
                ground arith,
                freed k i (embryo_of k i) (record (embryo_of k i) { kstack = 0; state = unused })
                    f.inside refl (state_eq-eq _ unused f.passes),
              ))
          | inr stack_ok ↦
              rw stack_ok (f, ground arith, refl, refl, λ j. set_twice k i j _ _ f.inside)
        ])
]
