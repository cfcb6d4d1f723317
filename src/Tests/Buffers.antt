-- ===== src/Tests/Buffers.antt =====
-- The buffer cache of bio.c at a concrete input.
use os_system_calls_scheduli.Base.{
  ℕ, ◌≡◌, refl, ◌==◌, [], ◌∷◌, inl, inr, some, true, false, arith, ℕ_discrete,
}
use os_system_calls_scheduli.Strings.{Memory}
use os_system_calls_scheduli.Fs.{update}
use os_system_calls_scheduli.Bio.{
  Buf, Cache, with_buf, binit, cached, unused, recycled, found, bget, iderw, with_index, filled,
  bread,
}
use os_system_calls_scheduli.Bio.Calls.{Few, Reads}
use os_system_calls_scheduli.Bio.Runs.{Runs, boot, read, change, zero_buf, Runs-Reads}

abbrev sevens : ℕ → Memory
sevens n i = 7

abbrev eights : Memory
eights i = 8

-- Two buffers, a disk of ten blocks.
abbrev booted : Cache
booted = record { buf = λ i. zero_buf; order = 1 ∷ 0 ∷ []; disk = sevens; disksize = 10 }

abbrev third : Buf
third = record { dev = 1; blockno = 3; refcnt = 1; valid = true; dirty = false; bytes = λ i. 7 }

-- Block 3 in the buffer at the tail.
abbrev one_read : Cache
one_read = with_buf 0 third (with_buf 0 (record (third) { valid = false; bytes = λ i. 0 }) booted)

booted-Runs : Runs booted sevens
unfolding binit
booted-Runs = boot 2 sevens 10

Few-booted : Few booted
Few-booted i = omega arith

reads_third : bread 1 3 booted ≡ some (0, one_read)
unfolding bread filled with_index bget found recycled cached unused iderw
reads_third = refl

abbrev changed : Cache
changed = with_buf 0 (record (third) { bytes = eights }) one_read

changed-Runs : Runs changed (update sevens 3 eights)
changed-Runs =
    change one_read sevens 0 3 eights
      (read booted sevens 0 3 one_read booted-Runs Few-booted reads_third)
      (inr (inl refl), refl, refl) refl (omega arith)

Few-changed : Few changed
Few-changed i = elim (ℕ_discrete i 0) [
  | yes e ↦ rw e (omega arith)
  | no ne ↦ let e : (i == 0) ≡ false = ground arith in rw e (omega arith)
]

Runs-Reads_example : Reads changed (update sevens 3 eights) 3 (bread 1 3 changed)
Runs-Reads_example = Runs-Reads changed (update sevens 3 eights) changed-Runs Few-changed 3
