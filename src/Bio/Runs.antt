-- ===== src/Bio/Runs.antt =====
-- The cache of bio.c in every order of its calls.
use os_system_calls_scheduli.Base.{
  ℕ, ◌^◌, ◌<◌, ◌≡◌, refl, ap, subst, ◌≢◌, inl, true, false, Option, none, some, some-eq, arith,
}
use os_system_calls_scheduli.Strings.{Memory}
use os_system_calls_scheduli.Fs.{update}
use os_system_calls_scheduli.Bio.{Buf, Cache, with_buf, bread, bwrite, brelse, binit}
use os_system_calls_scheduli.Bio.Steps.{Has}
use os_system_calls_scheduli.Bio.Current.{change-IsCurrent}
use os_system_calls_scheduli.Bio.Calls.{Few, with_buf-IsSane, Reads, bread-Reads}
use os_system_calls_scheduli.Bio.Writes.{Saved, dirtied, Good, mark-Good, brelse-Good, bwrite-Good}

abbrev pub zero_buf : Buf
zero_buf = record { dev = 0; blockno = 0; refcnt = 0; valid = false; dirty = false; bytes = λ i. 0 }

-- The caches that the calls lead to, with the contents that the blocks of the disk have by them. A
-- holder of a buffer may change its contents and mark it dirty, as log_write does; it gives back the last
-- reference only when the buffer is dirty or written.
pub data Runs : Cache → (ℕ → Memory) → Type 0 where
  boot :
      (k : ℕ) (d : ℕ → Memory) (size : ℕ)
      → Runs (record { buf = λ i. zero_buf; order = binit k; disk = d; disksize = size }) d
  read :
      (c : Cache) (now : ℕ → Memory) (i n : ℕ) (c' : Cache)
      → Runs c now
      → Few c
      → bread 1 n c ≡ some (i, c')
      → Runs c' now
  change :
      (c : Cache) (now : ℕ → Memory) (i n : ℕ) (m : Memory)
      → Runs c now
      → Has c i n
      → (c.buf i).valid ≡ true
      → 0 < (c.buf i).refcnt
      → Runs (with_buf i (record (c.buf i) { bytes = m }) c) (update now n m)
  mark :
      (c : Cache) (now : ℕ → Memory) (i n : ℕ)
      → Runs c now
      → Has c i n
      → (c.buf i).valid ≡ true
      → Runs (with_buf i (dirtied (c.buf i)) c) now
  write :
      (c : Cache) (now : ℕ → Memory) (i n : ℕ) (c' : Cache)
      → Runs c now
      → Has c i n
      → (c.buf i).valid ≡ true
      → bwrite i c ≡ some c'
      → Runs c' now
  release :
      (c : Cache) (now : ℕ → Memory) (i n : ℕ)
      → Runs c now
      → Has c i n
      → (c.buf i).valid ≡ true
      → 0 < (c.buf i).refcnt
      → (c.buf i).refcnt < 2 ^ 32
      → Saved c i
      → Runs (brelse i c) now

zero_dev : zero_buf.dev ≢ 1
zero_dev e = omega arith

boot-Good :
    (k : ℕ) (d : ℕ → Memory) (size : ℕ)
    → Good (record { buf = λ i. zero_buf; order = binit k; disk = d; disksize = size }) d
boot-Good k d size = (
  record {
    apart = λ i j n hi hj. absurd (zero_dev hi.1);
    in_cache = λ i n h e. absurd (zero_dev h.1);
    on_disk = λ n. inl refl;
  },
  λ i v. refl,
)

read-Good :
    (c : Cache) (now : ℕ → Memory) (n : ℕ) (r : Option (ℕ × Cache)) (i : ℕ) (c' : Cache)
    → Reads c now n r
    → r ≡ some (i, c')
    → Good c' now
read-Good c now n none i c' h e = absurd (let w : none ≡ some (i, c') = e in cc)
read-Good c now n (some (j, d)) i c' (h, v, y) e =
    subst (λ x. Good x now) (ap (λ p. p.1) (some-eq e)) (h.0, h.1)

Runs-Good : (c : Cache) (now : ℕ → Memory) → Runs c now → Good c now
Runs-Good c now (boot k d size) = boot-Good k d size
Runs-Good c now (read d old i n c' r few e) =
    let g = Runs-Good d old r in
    read-Good d old n (bread 1 n d) i c' (bread-Reads d old n g.0 g.1 few) e
Runs-Good c now (change d old i n m r h v p) =
    let g = Runs-Good d old r in
    (
      change-IsCurrent d old g.0 i n (record (d.buf i) { bytes = m }) h refl refl v p,
      with_buf-IsSane i (record (d.buf i) { bytes = m }) d g.1 (g.1 i),
    )
Runs-Good c now (mark d old i n r h v) = mark-Good d old i n (Runs-Good d old r) h v
Runs-Good c now (write d old i n c' r h v e) = bwrite-Good d old i n c' (Runs-Good d old r) h v e
Runs-Good c now (release d old i n r h v p q s) =
    brelse-Good d old i n (Runs-Good d old r) h v p q s

-- However the calls of bio.c followed one another, bread gives the only buffer of the block, valid and
-- with a reference, with the contents that were last put in a buffer of the block, or that the disk had
-- at first; it panics only for a block behind the disk, or when no buffer has the block and none is idle
-- and clean. The callers give back the last reference to a buffer that they changed only when it is
-- dirty or written, and the reference counts stay below 2 ^ 32.
pub Runs-Reads :
    (c : Cache) (now : ℕ → Memory) → Runs c now → Few c → (n : ℕ) → Reads c now n (bread 1 n c)
Runs-Reads c now r few n = let g = Runs-Good c now r in bread-Reads c now n g.0 g.1 few
