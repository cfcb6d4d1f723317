-- ===== src/Proc/Queued/Life.antt =====
-- The system calls of proc.c lose no RUNNABLE process.
use os_system_calls_scheduli.Base.{
  ℕ, ◌<◌, ◌≡◌, refl, ◌≢◌, true, ◌&&◌, Option, some, inl, inr, arith, ◌==◌, length, length-set, ◌∙◌,
  subst, sym, Bool-cases, Option-cases, ==_refl,
}
use os_system_calls_scheduli.Base.Int.{ℤ}
use os_system_calls_scheduli.Proc.Types.{
  unused, embryo, sleeping, runnable, state_eq, Proc, Kernel, proc_at, set_proc, next_int,
}
use os_system_calls_scheduli.Proc.Table.{find_first, find_first-First}
use os_system_calls_scheduli.Proc.Life.{
  allocproc, is_child, kill, detach, priority, reaped, wait_pass, reap_proc, reap,
}
use os_system_calls_scheduli.Proc.Wait.{wait_pass_reaped}
use os_system_calls_scheduli.Proc.Frame.{proc_at-set_proc}
use os_system_calls_scheduli.Proc.Sleepers.{sleeps}
use os_system_calls_scheduli.Proc.Queued.{Ready, set_proc-Ready, make_runnable-Ready}

-- Only the table and the queues count.
pub same-Ready :
    (n : ℕ) (k k' : Kernel) → k'.procs ≡ k.procs → k'.queues ≡ k.queues → Ready n k → Ready n k'
same-Ready n k k' ep eq r = record { queued = rw (ep, eq) r.queued; room = rw (ep, eq) r.room }

-- What allocproc leaves when it finds the entry `i`.
pub record Allocated (n : ℕ) (k : Kernel) (out : Option ℕ × Kernel) : Type 0 where
  pub ready : Ready n out.1
  pub size : length out.1.procs ≡ length k.procs
  pub inside : (i : ℕ) → out.0 ≡ some i → i < length k.procs

module _ (n : ℕ) (k : Kernel) (i : ℕ) (h : i < length k.procs) (r : Ready n k) where
  abbrev pub taken : Kernel
  taken = record (set_proc k i (record (proc_at k i) { state = embryo; pid = k.nextpid })) {
    nextpid = next_int k.nextpid;
  }

  taken-Ready : Ready n taken
  unfolding state_eq
  taken-Ready =
      same-Ready n (set_proc k i (record (proc_at k i) { state = embryo; pid = k.nextpid })) taken
        refl refl
        (set_proc-Ready n n k i (record (proc_at k i) { state = embryo; pid = k.nextpid }) h
          (λ e. cc) (omega arith) r)

  length-taken : length taken.procs ≡ length k.procs
  length-taken = length-set k.procs i (record (proc_at k i) { state = embryo; pid = k.nextpid })

  taken-set : (p : Proc) → p.state ≢ runnable → sleeps p ≡ 0 → Ready n (set_proc taken i p)
  taken-set p ne z =
      set_proc-Ready n n taken i p (omega (arith, length-taken)) (λ e. absurd (ne e)) (omega arith)
        taken-Ready

  length-taken_set : (p : Proc) → length (set_proc taken i p).procs ≡ length k.procs
  length-taken_set p = length-set taken.procs i p ∙ length-taken

pub allocproc-Ready : (n stack : ℕ) (k : Kernel) → Ready n k → Allocated n k (allocproc stack k)
unfolding allocproc state_eq
allocproc-Ready n stack k r =
    elim (Option-cases (find_first (λ p. state_eq p.state unused) k.procs)) [
      | inl full ↦ rw (full, allocproc) (record { ready = r; size = refl; inside = λ i e. cc })
      | inr (i, found) ↦
          let f = find_first-First (λ p. state_eq p.state unused) k.procs i found in
          rw (found, allocproc)
            (elim (Bool-cases (stack == 0)) [
              | inl no_stack ↦ rw no_stack (record {
                ready = taken-set n k i f.inside r _ (λ e. cc) refl;
                size = length-taken_set n k i f.inside r _;
                inside = λ j e. cc;
              })
              | inr stack_ok ↦ rw stack_ok (record {
                ready = taken-set n k i f.inside r _ (λ e. cc) refl;
                size = length-taken_set n k i f.inside r _;
                inside = λ j e. let z : i ≡ j = ground arith in omega (arith, f.inside, z);
              })
            ])
    ]

-- kill wakes a sleeping process, in the room that was held for it.
pub kill-Ready : (n pid : ℕ) (k : Kernel) → Ready n k → Ready n (kill pid k).1
unfolding kill
kill-Ready n pid k r = elim (Option-cases (find_first (λ p. p.pid == pid) k.procs)) [
  | inl out ↦ rw (out, kill) r
  | inr (i, found) ↦
      let f = find_first-First (λ p. p.pid == pid) k.procs i found in
      let p = record (proc_at k i) { killed = true } in
      let r' = set_proc-Ready n n k i p f.inside (λ e. e) (omega arith) r in
      rw (found, kill)
        (elim (Bool-cases (state_eq (proc_at k i).state sleeping)) [
          | inl asleep ↦ rw asleep (
              make_runnable-Ready n (set_proc k i p) i
                (omega (arith, f.inside, length-set k.procs i p))
                (rw (proc_at-set_proc k i i p f.inside, ==_refl i, asleep)) r')
          | inr awake ↦ rw awake r'
        ])
]

pub detach-Ready : (n pid cur : ℕ) (k : Kernel) → Ready n k → Ready n (detach pid cur k).1
unfolding detach
detach-Ready n pid cur k r =
    elim (Option-cases (find_first (λ p. p.pid == pid && is_child cur p) k.procs)) [
      | inl out ↦ rw (out, detach) r
      | inr (i, found) ↦
          let f = find_first-First (λ p. p.pid == pid && is_child cur p) k.procs i found in
          rw (found, detach)
            (set_proc-Ready n n k i (record (proc_at k i) { parent = some k.initproc }) f.inside
              (λ e. e) (omega arith) r)
    ]

pub priority-Ready :
    (n : ℕ) (prio : ℤ) (cur : ℕ) (k : Kernel)
    → cur < length k.procs
    → Ready n k
    → Ready n (priority prio cur k)
unfolding priority
priority-Ready n prio cur k h r =
    set_proc-Ready n n k cur (record (proc_at k cur) { priority = prio }) h (λ e. e) (omega arith) r

reap-Ready : (n i : ℕ) (k : Kernel) → i < length k.procs → Ready n k → Ready n (reap i k)
unfolding reap state_eq
reap-Ready n i k h r =
    same-Ready n (set_proc k i (reap_proc (proc_at k i))) (reap i k) refl refl
      (set_proc-Ready n n k i (reap_proc (proc_at k i)) h (λ e. cc) (omega arith) r)

-- wait frees the entry of a child that is a zombie.
pub wait-Ready :
    (n cur pid status : ℕ) (k k' : Kernel)
    → wait_pass cur k ≡ reaped pid status k'
    → Ready n k
    → Ready n k'
wait-Ready n cur pid status k k' e r =
    let w = wait_pass_reaped cur k pid status k' e in
    subst (Ready n) (sym w.3) (reap-Ready n w.0 k w.1.inside r)
