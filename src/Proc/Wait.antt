-- ===== src/Proc/Wait.antt =====
-- wait of proc.c: one pass over the table.
use os_system_calls_scheduli.Base.{
  ℕ, ◌<◌, ◌≡◌, refl, Bool, true, false, ◌&&◌, inl, inr, ◌⊎◌, length, length-set, get_or-set_self,
  get_or-set_ne, none, some, [], ◌∷◌, ◌++◌, ◌==◌, ◌≢◌, arith, sym, ap, ◌∙◌, Bool-cases,
  Option-cases, subst,
}
use os_system_calls_scheduli.Proc.Types.{
  unused, zombie, state_eq, Proc, Kernel, proc_at, no_proc, call, kfree, freevm,
}
use os_system_calls_scheduli.Proc.Table.{find_first, First, find_first-First, find_first-none}
use os_system_calls_scheduli.Proc.Life.{
  is_child, Waited, reaped, failed, must_sleep, wait_pass, reap_proc, reap,
}
use os_system_calls_scheduli.Proc.Queued.{state_eq-eq}

abbrev pub zombie_child : ℕ → Proc → Bool
zombie_child cur p = is_child cur p && state_eq p.state zombie

-- The cases of a pass by the entries that the loop finds.
abbrev pub PassOutcome : ℕ → Kernel → Waited → Type 0
PassOutcome cur k (reaped pid status k') =
    (i : ℕ) × First (zombie_child cur) k.procs i
    × ((pid ≡ (proc_at k i).pid) × (status ≡ (proc_at k i).status))
    × (k' ≡ reap i k)
PassOutcome cur k failed =
    ((i : ℕ) → i < length k.procs → zombie_child cur (proc_at k i) ≡ false)
    × (((i : ℕ) → i < length k.procs → is_child cur (proc_at k i) ≡ false)
        ⊎ ((proc_at k cur).killed ≡ true))
PassOutcome cur k must_sleep =
    ((i : ℕ) → i < length k.procs → zombie_child cur (proc_at k i) ≡ false)
    × ((j : ℕ) × (j < length k.procs) × (is_child cur (proc_at k j) ≡ true))
    × ((proc_at k cur).killed ≡ false)

wait_pass-PassOutcome : (cur : ℕ) (k : Kernel) → PassOutcome cur k (wait_pass cur k)
unfolding wait_pass
wait_pass-PassOutcome cur k = elim (Option-cases (find_first (zombie_child cur) k.procs)) [
  | inr (i, found) ↦
      rw (found, wait_pass)
        (i, find_first-First (zombie_child cur) k.procs i found, (refl, refl), refl)
  | inl no_zombie ↦
      let without = find_first-none (zombie_child cur) k.procs no_zombie in
      elim (Option-cases (find_first (is_child cur) k.procs)) [
        | inl childless ↦
            rw (no_zombie, childless, wait_pass)
              (without, inl (find_first-none (is_child cur) k.procs childless))
        | inr (j, found) ↦
            let f = find_first-First (is_child cur) k.procs j found in
            rw (no_zombie, found, wait_pass)
              (elim (Bool-cases (proc_at k cur).killed) [
                | inl killed ↦ rw killed (without, inr killed)
                | inr alive ↦ rw alive (without, (j, f.inside, f.passes), alive)
              ])
      ]
]

pub wait_pass_reaped :
    (cur : ℕ) (k : Kernel) (pid status : ℕ) (k' : Kernel)
    → wait_pass cur k ≡ reaped pid status k'
    → PassOutcome cur k (reaped pid status k')
wait_pass_reaped cur k pid status k' e = subst (PassOutcome cur k) e (wait_pass-PassOutcome cur k)

-- `p` is a child of `cur`, and one that has exited.
abbrev pub ChildOf : ℕ → Proc → Type 0
ChildOf cur p = p.parent ≡ some cur

abbrev pub ZombieOf : ℕ → Proc → Type 0
ZombieOf cur p = ChildOf cur p × (p.state ≡ zombie)

-- The entry `i` is free for another process, its stack and its page table have been given back in this
-- order, and nothing else has changed.
pub record Reaped (i : ℕ) (k k' : Kernel) : Type 0 where
  pub entry :
      proc_at k' i
      ≡ record (proc_at k i) { state = unused; pid = 0; parent = none; kstack = 0; killed = false }
  pub others : (j : ℕ) → j ≢ i → proc_at k' j ≡ proc_at k j
  pub number : length k'.procs ≡ length k.procs
  pub calls :
      k'.calls ≡ (k.calls ++ kfree (proc_at k i).kstack ∷ []) ++ freevm (proc_at k i).pgdir ∷ []
  pub nextpid : k'.nextpid ≡ k.nextpid
  pub initproc : k'.initproc ≡ k.initproc
  pub queues : k'.queues ≡ k.queues

-- The first zombie child of `cur` in the table.
pub record FirstZombie (cur : ℕ) (k : Kernel) (i : ℕ) : Type 0 where
  pub inside : i < length k.procs
  pub passes : ZombieOf cur (proc_at k i)
  pub least : (j : ℕ) → j < i → ¬ ZombieOf cur (proc_at k j)

-- What each outcome of a pass of wait by `cur` means.
abbrev pub WaitOutcome : ℕ → Kernel → Waited → Type 0
WaitOutcome cur k (reaped pid status k') =
    (i : ℕ) × FirstZombie cur k i
    × (pid ≡ (proc_at k i).pid)
    × (status ≡ (proc_at k i).status)
    × Reaped i k k'
WaitOutcome cur k failed =
    ((i : ℕ) → i < length k.procs → ¬ ZombieOf cur (proc_at k i))
    × (((i : ℕ) → i < length k.procs → ¬ ChildOf cur (proc_at k i))
        ⊎ ((proc_at k cur).killed ≡ true))
WaitOutcome cur k must_sleep =
    ((i : ℕ) → i < length k.procs → ¬ ZombieOf cur (proc_at k i))
    × ((j : ℕ) × (j < length k.procs) × ChildOf cur (proc_at k j))
    × ((proc_at k cur).killed ≡ false)

ChildOf-test : (cur : ℕ) (p : Proc) → is_child cur p ≡ true → ChildOf cur p
unfolding is_child
ChildOf-test cur p e = elim (Option-cases p.parent) [
  | inl o ↦ let g : false ≡ true = (rw o at e) in absurd cc
  | inr s ↦ let (j, o) = s in let g : (j == cur) ≡ true = (rw o at e) in o ∙ ap some (ground arith)
]

not_child : (cur : ℕ) (p : Proc) → is_child cur p ≡ false → ¬ ChildOf cur p
unfolding is_child
not_child cur p e c = let g : (cur == cur) ≡ false = (rw c at e) in ground arith

ZombieOf-test : (cur : ℕ) (p : Proc) → zombie_child cur p ≡ true → ZombieOf cur p
ZombieOf-test cur p e = elim (Bool-cases (is_child cur p)) [
  | inl c ↦ (ChildOf-test cur p c, state_eq-eq p.state zombie (rw c at e))
  | inr n ↦ let g : false ≡ true = (rw n at e) in absurd cc
]

is_child-true : (cur : ℕ) (p : Proc) → ChildOf cur p → is_child cur p ≡ true
unfolding is_child
is_child-true cur p c = rw c (ground arith)

not_zombie : (cur : ℕ) (p : Proc) → zombie_child cur p ≡ false → ¬ ZombieOf cur p
unfolding state_eq
not_zombie cur p e (c, z) = let g : true ≡ false = (rw (is_child-true cur p c, z) at e) in cc

reap-Reaped : (i : ℕ) (k : Kernel) → i < length k.procs → Reaped i k (reap i k)
unfolding reap reap_proc call
reap-Reaped i k h =
    let p = record (proc_at k i) {
      kstack = 0;
      pid = 0;
      parent = none;
      killed = false;
      state = unused;
    } in
    record {
      entry = get_or-set_self k.procs i p no_proc h;
      others = λ j n. get_or-set_ne k.procs i j p no_proc (λ e. n (sym e));
      number = length-set k.procs i p;
      calls = refl;
      nextpid = refl;
      initproc = refl;
      queues = refl;
    }

first_zombie :
    (cur : ℕ) (k : Kernel) (i : ℕ) → First (zombie_child cur) k.procs i → FirstZombie cur k i
first_zombie cur k i f = record {
  inside = f.inside;
  passes = ZombieOf-test cur (proc_at k i) f.passes;
  least = λ j l. not_zombie cur (proc_at k j) (f.least j l);
}

PassOutcome-WaitOutcome :
    (cur : ℕ) (k : Kernel) (w : Waited) → PassOutcome cur k w → WaitOutcome cur k w
PassOutcome-WaitOutcome cur k (reaped pid status k') (i, f, (p, s), e) =
    (i, first_zombie cur k i f, p, s, subst (Reaped i k) (sym e) (reap-Reaped i k f.inside))
PassOutcome-WaitOutcome cur k failed (z, inl c) =
    (λ i l. not_zombie cur (proc_at k i) (z i l), inl (λ i l. not_child cur (proc_at k i) (c i l)))
PassOutcome-WaitOutcome cur k failed (z, inr d) =
    (λ i l. not_zombie cur (proc_at k i) (z i l), inr d)
PassOutcome-WaitOutcome cur k must_sleep (z, (j, l, c), a) =
    (λ i l. not_zombie cur (proc_at k i) (z i l), (j, l, ChildOf-test cur (proc_at k j) c), a)

-- A pass of wait takes the first child in the table that is a zombie, if there is one: it gives the
-- child's pid and exit status, gives back its stack and its page table, makes the entry UNUSED with no
-- pid, parent, stack or mark of kill, and changes nothing else but the name, which is not modelled.
-- Without one it fails if the caller has no children or is killed, and sleeps otherwise.
pub wait_pass-WaitOutcome : (cur : ℕ) (k : Kernel) → WaitOutcome cur k (wait_pass cur k)
wait_pass-WaitOutcome cur k =
    PassOutcome-WaitOutcome cur k (wait_pass cur k) (wait_pass-PassOutcome cur k)
