-- ===== src/File/Handles.antt =====
-- The reference counts of file.c against the pointers that the kernel holds.
use os_system_calls_scheduli.Base.{
  ℕ, ◌<◌, ◌≡◌, refl, ◌∙◌, ◌+◌, ◌-◌, ◌≢◌, sym, ap, List, [], ◌∷◌, none, some, length, set,
  get_or-set_self, get_or-set_ne, replicate, arith,
}
use os_system_calls_scheduli.File.{
  File, fd_none, fd_pipe, fd_inode, pipeclose, iput, Ftable, no_file, file_at, filealloc, filedup,
  Closing, nothing, closing, fileclose,
}
use os_system_calls_scheduli.File.Counts.{
  count, remove, IsCounted, IsCounted-set, in_table, file_at-replicate, filealloc-IsCounted,
  filedup-some, filedup-IsCounted, fileclose-more, fileclose-last, fileclose-IsCounted,
  filealloc-others, filealloc-none,
}

-- The tables that the calls of file.c lead to, with the pointers held: filealloc and filedup give one
-- more, fileclose takes one back, and the holder of an entry may set all of it but the count.
pub data Held : Ftable → List ℕ → Type 0 where
  start : (n : ℕ) → Held (replicate n no_file) []
  alloc :
      {t : Ftable} {hs : List ℕ} (i : ℕ) (t' : Ftable)
      → Held t hs
      → filealloc t ≡ some (i, t')
      → Held t' (i ∷ hs)
  fill :
      {t : Ftable} {hs : List ℕ} (i : ℕ) (f : File)
      → Held t hs
      → 0 < count i hs
      → f.ref ≡ (file_at t i).ref
      → Held (set t i f) hs
  dup :
      {t : Ftable} {hs : List ℕ} (i : ℕ) (t' : Ftable)
      → Held t hs
      → 0 < count i hs
      → filedup i t ≡ some t'
      → Held t' (i ∷ hs)
  close :
      {t : Ftable} {hs : List ℕ} (i : ℕ) (c : Closing) (t' : Ftable)
      → Held t hs
      → 0 < count i hs
      → fileclose i t ≡ some (c, t')
      → Held t' (remove i hs)

Held-IsCounted : (t : Ftable) (hs : List ℕ) → Held t hs → IsCounted t hs
Held-IsCounted t hs (start n) = file_at-replicate n
Held-IsCounted t hs (alloc i t' h e) = (filealloc-IsCounted _ _ i t' (Held-IsCounted _ _ h) e).0
Held-IsCounted t hs (fill i f h p e) =
    let c = Held-IsCounted _ _ h in
    let r = c i in IsCounted-set _ _ hs i f c (in_table _ i (omega arith)) (e ∙ c i) (λ j n. refl)
Held-IsCounted t hs (dup i t' h p e) = filedup-IsCounted _ _ i t' (Held-IsCounted _ _ h) p e
Held-IsCounted t hs (close i d t' h p e) = fileclose-IsCounted _ _ i d t' (Held-IsCounted _ _ h) p e

-- No entry but `i` has changed.
abbrev pub OthersKept : Ftable → ℕ → Ftable → Type 0
OthersKept t i t' = (j : ℕ) → j ≢ i → file_at t' j ≡ file_at t j

-- The call of fileclose on the entry `i` makes the call `c` behind the lock and frees the entry.
abbrev pub Closes : Ftable → ℕ → Closing → Type 0
Closes t i c =
    (t' : Ftable) × (fileclose i t ≡ some (c, t'))
    × OthersKept t i t'
    × ((file_at t' i).type ≡ fd_none)
    × ((file_at t' i).ref ≡ 0)

-- What the holder of a pointer to an entry can rely on.
pub record Sound (t : Ftable) (hs : List ℕ) : Type 0 where
  pub counted : IsCounted t hs
  pub alloc_new :
      (i : ℕ) (t' : Ftable) → filealloc t ≡ some (i, t') → (count i hs ≡ 0) × OthersKept t i t'
  pub alloc_none : filealloc t ≡ none → (i : ℕ) → i < length t → 0 < count i hs
  pub dup_some :
      (i : ℕ)
      → 0 < count i hs
      → (t' : Ftable) × (filedup i t ≡ some t')
        × OthersKept t i t'
        × (file_at t' i ≡ record (file_at t i) { ref = count i hs + 1 })
  pub close_more :
      (i : ℕ)
      → 1 < count i hs
      → (t' : Ftable) × (fileclose i t ≡ some (nothing, t'))
        × OthersKept t i t'
        × (file_at t' i ≡ record (file_at t i) { ref = count i hs - 1 })
  pub close_none : (i : ℕ) → count i hs ≡ 1 → (file_at t i).type ≡ fd_none → Closes t i nothing
  pub close_pipe :
      (i : ℕ)
      → count i hs ≡ 1
      → (file_at t i).type ≡ fd_pipe
      → Closes t i (pipeclose (file_at t i).pipe (file_at t i).writable)
  pub close_inode :
      (i : ℕ) → count i hs ≡ 1 → (file_at t i).type ≡ fd_inode → Closes t i (iput (file_at t i).ip)

set-OthersKept : (t : Ftable) (i : ℕ) (f : File) → OthersKept t i (set t i f)
set-OthersKept t i f j n = get_or-set_ne t i j f no_file (λ e. n (sym e))

-- The last pointer to an entry whose type gives the call `c`.
Closes-last :
    (t : Ftable) (hs : List ℕ) (i : ℕ) (c : Closing)
    → IsCounted t hs
    → count i hs ≡ 1
    → closing (file_at t i).type (file_at t i) ≡ c
    → Closes t i c
Closes-last t hs i c counted one e =
    let r = counted i in
    let f = record (file_at t i) { ref = 0; type = fd_none } in
    let own = get_or-set_self t i f no_file (in_table t i (omega arith)) in
    (
      set t i f,
      fileclose-last t hs i counted one ∙ ap (λ x. some (x, set t i f)) e,
      set-OthersKept t i f,
      ap (λ x. x.type) own,
      ap (λ x. x.ref) own,
    )

closing_none : (ff : File) → closing fd_none ff ≡ nothing
unfolding closing
closing_none ff = refl

closing_pipe : (ff : File) → closing fd_pipe ff ≡ pipeclose ff.pipe ff.writable
unfolding closing
closing_pipe ff = refl

closing_inode : (ff : File) → closing fd_inode ff ≡ iput ff.ip
unfolding closing
closing_inode ff = refl

-- In every table that calls of filealloc, filedup and fileclose lead to, each count is the number of the
-- pointers held. filealloc never gives an entry that a pointer names, and fails only if there is a
-- pointer to every entry; filedup and fileclose of a pointer that is held do not panic and change no
-- other entry. fileclose of the last pointer frees the entry and closes its pipe or puts its inode; of
-- another pointer it only lowers the count.
pub Held-Sound : (t : Ftable) (hs : List ℕ) → Held t hs → Sound t hs
Held-Sound t hs h =
    let c = Held-IsCounted t hs h in
    record {
      counted = c;
      alloc_new =
          λ i t' e. ((filealloc-IsCounted t hs i t' c e).1, λ j n. filealloc-others t i t' e j n);
      alloc_none = λ e i l. let a = filealloc-none t e i l in let r = c i in omega arith;
      dup_some = λ i p.
          let r = c i in
          let f = record (file_at t i) { ref = (file_at t i).ref + 1 } in
          (
            set t i f,
            filedup-some t hs i c p,
            set-OthersKept t i f,
            get_or-set_self t i f no_file (in_table t i (omega arith))
                ∙ ap (λ n. record (file_at t i) { ref = n + 1 }) r,
          );
      close_more = λ i p.
          let r = c i in
          let f = record (file_at t i) { ref = (file_at t i).ref - 1 } in
          (
            set t i f,
            fileclose-more t hs i c p,
            set-OthersKept t i f,
            get_or-set_self t i f no_file (in_table t i (omega arith))
                ∙ ap (λ n. record (file_at t i) { ref = n - 1 }) r,
          );
      close_none = λ i p e.
          Closes-last t hs i nothing c p
            (ap (λ x. closing x (file_at t i)) e ∙ closing_none (file_at t i));
      close_pipe = λ i p e.
          Closes-last t hs i (pipeclose (file_at t i).pipe (file_at t i).writable) c p
            (ap (λ x. closing x (file_at t i)) e ∙ closing_pipe (file_at t i));
      close_inode = λ i p e.
          Closes-last t hs i (iput (file_at t i).ip) c p
            (ap (λ x. closing x (file_at t i)) e ∙ closing_inode (file_at t i));
    }
