-- ===== src/Proc/Queued/Family.antt =====
-- fork and exit of proc.c lose no RUNNABLE process.
use os_system_calls_scheduli.Base.{
  ℕ, zero, suc, ◌+◌, ◌≤◌, ◌<◌, ◌≡◌, refl, some, inl, inr, arith, ◌==◌, length, length-set, ◌∙◌, map,
  subst, some-eq, Bool-cases, Option-cases,
}
use os_system_calls_scheduli.Base.Int.{pos}
use os_system_calls_scheduli.Proc.Types.{
  unused, runnable, zombie, state_eq, Chan, of_proc, Proc, Kernel, call, proc_at, set_proc,
}
use os_system_calls_scheduli.Proc.Sched.{get_min, wakeup, wake_one, wake_from}
use os_system_calls_scheduli.Proc.Life.{
  allocproc, fork, make_ready, copy_proc, undo_alloc, dup_files, exit, adopt_one, adopt_from,
  close_all, leave_family, parent_chan, is_child,
}
use os_system_calls_scheduli.Proc.Wake.{length-wake_one}
use os_system_calls_scheduli.Proc.Queued.{
  Ready, Ready-weaken, set_proc-Ready, put_twice-Ready, wakeup-Ready,
}
use os_system_calls_scheduli.Proc.Queued.Life.{allocproc-Ready, same-Ready}

copy_proc-Ready :
    (n pgdir cur i : ℕ) (k : Kernel)
    → i < length k.procs
    → Ready n k
    → Ready n (copy_proc pgdir cur i k) × (length (copy_proc pgdir cur i k).procs ≡ length k.procs)
unfolding copy_proc
copy_proc-Ready n pgdir cur i k h r = (
  same-Ready n (set_proc k i np) (copy_proc pgdir cur i k) refl refl
      (set_proc-Ready n n k i np h (λ e. e) (omega arith) r),
  length-set k.procs i np,
)
  where
    np : Proc
    np = record (proc_at k i) {
      pgdir = pgdir;
      sz = (proc_at k cur).sz;
      parent = some cur;
      ofile = dup_files (proc_at k cur).ofile (proc_at k i).ofile;
      cwd = (proc_at k cur).cwd;
    }

undo_alloc-Ready :
    (n i : ℕ) (k : Kernel) → i < length k.procs → Ready n k → Ready n (undo_alloc i k)
unfolding undo_alloc call state_eq
undo_alloc-Ready n i k h r =
    same-Ready n (set_proc k i (record (proc_at k i) { kstack = 0; state = unused }))
      (undo_alloc i k) refl refl
      (set_proc-Ready n n k i (record (proc_at k i) { kstack = 0; state = unused }) h (λ e. cc)
        (omega arith) r)

make_ready-Ready :
    (n i : ℕ) (k : Kernel) → i < length k.procs → Ready (suc n) k → Ready n (make_ready i k)
unfolding make_ready state_eq
make_ready-Ready n i k h r =
    let u = record (proc_at k i) { state = runnable; priority = pos 5 } in
    put_twice-Ready (suc n) n k i u (record u { accumulator = get_min (set_proc k i u) }) h
      (omega arith) r

-- fork queues the child, and takes the room of one entry.
pub fork-Ready :
    (n stack pgdir cur : ℕ) (k : Kernel) → Ready (suc n) k → Ready n (fork stack pgdir cur k).1
unfolding fork
fork-Ready n stack pgdir cur k r =
    let a = allocproc-Ready (suc n) stack k r in
    let k' = (allocproc stack k).1 in
    elim (Option-cases (allocproc stack k).0) [
      | inl failed ↦ rw (failed, fork) (Ready-weaken n k' a.ready)
      | inr (i, found) ↦
          let h : i < length k'.procs = omega (arith, a.inside i found, a.size) in
          rw (found, fork)
            (elim (Bool-cases (pgdir == 0)) [
              | inl no_memory ↦
                  rw no_memory (Ready-weaken n _ (undo_alloc-Ready (suc n) i k' h a.ready))
              | inr memory ↦
                  let (r', e) = copy_proc-Ready (suc n) pgdir cur i k' h a.ready in
                  rw memory (make_ready-Ready n i (copy_proc pgdir cur i k') (omega arith) r')
            ])
    ]

length-wake_from :
    (m : ℕ) (chan : Chan) (i : ℕ) (k : Kernel)
    → length (wake_from m chan i k).procs ≡ length k.procs
unfolding wake_from
length-wake_from zero chan i k = refl
length-wake_from (suc m) chan i k =
    length-wake_from m chan (i + 1) (wake_one chan i k) ∙ length-wake_one chan i k

pub length-wakeup : (chan : Chan) (k : Kernel) → length (wakeup chan k).procs ≡ length k.procs
unfolding wakeup
length-wakeup chan k = length-wake_from (length k.procs) chan 0 k

-- One round of the adoption keeps the table's length and every RUNNABLE process queued.
adopt_one-Ready :
    (n cur i : ℕ) (k : Kernel)
    → i < length k.procs
    → Ready n k
    → Ready n (adopt_one cur i k) × (length (adopt_one cur i k).procs ≡ length k.procs)
unfolding adopt_one
adopt_one-Ready n cur i k h r = elim (Bool-cases (is_child cur (proc_at k i))) [
  | inl child ↦
      let p = record (proc_at k i) { parent = some k.initproc } in
      let r' = set_proc-Ready n n k i p h (λ e. e) (omega arith) r in
      rw child (elim (Bool-cases (state_eq (proc_at k i).state zombie)) [
        | inl dead ↦ rw dead (
          wakeup-Ready n (of_proc k.initproc) (set_proc k i p) r',
          length-wakeup (of_proc k.initproc) (set_proc k i p) ∙ length-set k.procs i p,
        )
        | inr alive ↦ rw alive (r', length-set k.procs i p)
      ])
  | inr other ↦ rw other (r, refl)
]

adopt_from-Ready :
    (m n cur i : ℕ) (k : Kernel)
    → i + m ≤ length k.procs
    → Ready n k
    → Ready n (adopt_from m cur i k) × (length (adopt_from m cur i k).procs ≡ length k.procs)
unfolding adopt_from
adopt_from-Ready zero n cur i k h r = (r, refl)
adopt_from-Ready (suc m) n cur i k h r =
    let (r', e) = adopt_one-Ready n cur i k (omega arith) r in
    let (r'', e') = adopt_from-Ready m n cur (i + 1) (adopt_one cur i k) (omega arith) r' in
    (r'', e' ∙ e)

-- exit loses no process either: parent and initproc are queued when they are woken.
pub exit-Ready :
    (n status cur : ℕ) (k k' : Kernel)
    → cur < length k.procs
    → exit status cur k ≡ some k'
    → Ready n k
    → Ready n k' × (length k'.procs ≡ length k.procs)
unfolding exit close_all leave_family state_eq
exit-Ready n status cur k k' h e r = elim (Bool-cases (cur == k.initproc)) [
  | inl first ↦ ground arith
  | inr other ↦
      let p = record (proc_at k cur) {
        status = status;
        ofile = map (λ f. 0) (proc_at k cur).ofile;
        cwd = 0;
      } in
      let closed = close_all status cur k in
      let r1 : Ready n closed =
        same-Ready n (set_proc k cur p) closed refl refl
          (set_proc-Ready n n k cur p h (λ g. g) (omega arith) r) in
      let chan = parent_chan (proc_at closed cur).parent in
      let (r2, size) =
        adopt_from-Ready (length (wakeup chan closed).procs) n cur 0 (wakeup chan closed)
          (omega arith) (wakeup-Ready n chan closed r1) in
      let left = leave_family cur closed in
      let h' : cur < length left.procs =
        omega (arith, h, size, length-wakeup chan closed, length-set k.procs cur p) in
      let f : some (set_proc left cur (record (proc_at left cur) { state = zombie })) ≡ some k' =
        rw other at e in
      subst (λ x. Ready n x × (length x.procs ≡ length k.procs)) (some-eq f)
        (
          set_proc-Ready n n left cur (record (proc_at left cur) { state = zombie }) h' (λ g. cc)
              (omega arith) r2,
          omega (
            arith,
            size,
            length-wakeup chan closed,
            length-set k.procs cur p,
            length-set left.procs cur (record (proc_at left cur) { state = zombie }),
          ),
        )
]
