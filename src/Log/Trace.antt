-- ===== src/Log/Trace.antt =====
-- The writes of the procedures of log.c as lists: what reaches the disk of them, and what bread
-- sees after them.
use os_system_calls_scheduli.Base.{
  ℕ, zero, suc, ◌-◌, ◌≡◌, refl, inl, inr, ◌∙◌, ap, sym, Bool, true, false, List, [], ◌∷◌, ◌++◌, All,
  ◌==◌, ==_iff, if◌then◌else◌, take, arith, Bool-cases,
}
use os_system_calls_scheduli.Log.Disk.{
  Block, Machine, bread, bwrite, disk_write, update, mem, bread-bwrite,
}

abbrev pub Writes : Type 0
Writes = List (ℕ × Block)

unfoldable pub apply_all : Writes → (ℕ → Block) → ℕ → Block
apply_all [] d = d
apply_all ((a, v) ∷ ws) d = apply_all ws (update d a v)

unfoldable pub write_all : Writes → Machine → Machine
write_all [] m = m
write_all ((a, v) ∷ ws) m = write_all ws (bwrite a v m)

-- The writes of write_log, where the buffers hold `v`.
unfoldable pub log_writes : ℕ → (ℕ → Block) → List ℕ → Writes
log_writes at v [] = []
log_writes at v (b ∷ bs) = (at, v b) ∷ log_writes (suc at) v bs

-- The writes of install_trans, where the log holds the blocks of `v`.
unfoldable pub home_writes : (ℕ → Block) → List ℕ → Writes
home_writes v [] = []
home_writes v (b ∷ bs) = (b, v b) ∷ home_writes v bs

pub write_all-append :
    (xs ys : Writes) (m : Machine) → write_all (xs ++ ys) m ≡ write_all ys (write_all xs m)
unfolding write_all
write_all-append [] ys m = refl
write_all-append ((a, v) ∷ xs) ys m = write_all-append xs ys (bwrite a v m)

pub apply_all-append :
    (xs ys : Writes) (d : ℕ → Block) → apply_all (xs ++ ys) d ≡ apply_all ys (apply_all xs d)
unfolding apply_all
apply_all-append [] ys d = refl
apply_all-append ((a, v) ∷ xs) ys d = apply_all-append xs ys (update d a v)

bwrite-power : (a : ℕ) (v : Block) (m : Machine) → (bwrite a v m).power ≡ m.power - 1
unfolding bwrite
bwrite-power a v m = refl

bwrite_off : (a : ℕ) (v : Block) (m : Machine) → m.power ≡ 0 → (bwrite a v m).disk ≡ m.disk
unfolding bwrite disk_write
bwrite_off a v m e = rw e refl

bwrite_on :
    (a : ℕ) (v : Block) (m : Machine) (n : ℕ)
    → m.power ≡ suc n
    → (bwrite a v m).disk ≡ update m.disk a v
unfolding bwrite disk_write
bwrite_on a v m n e = rw e refl

disk-write_all_power :
    (ws : Writes) (n : ℕ) (m : Machine)
    → m.power ≡ n
    → (write_all ws m).disk ≡ apply_all (take n ws) m.disk
unfolding write_all apply_all
disk-write_all_power [] zero m e = refl
disk-write_all_power [] (suc n) m e = refl
disk-write_all_power ((a, v) ∷ ws) zero m e =
    disk-write_all_power ws zero (bwrite a v m) (omega (arith, bwrite-power a v m))
    ∙ bwrite_off a v m e
disk-write_all_power ((a, v) ∷ ws) (suc n) m e =
    disk-write_all_power ws n (bwrite a v m) (omega (arith, bwrite-power a v m))
    ∙ ap (apply_all (take n ws)) (bwrite_on a v m n e)

-- The disk gets as many writes as there is power.
pub disk-write_all :
    (ws : Writes) (m : Machine) → (write_all ws m).disk ≡ apply_all (take m.power ws) m.disk
disk-write_all ws m = disk-write_all_power ws m.power m refl

apply_all-cong :
    (ws : Writes) (d e : ℕ → Block) (x : ℕ)
    → ((y : ℕ) → d y ≡ e y)
    → apply_all ws d x ≡ apply_all ws e x
unfolding apply_all
apply_all-cong [] d e x h = h x
apply_all-cong ((a, v) ∷ ws) d e x h =
    apply_all-cong ws (update d a v) (update e a v) x (λ y. rw (h y) refl)

-- bread sees all writes, with power or without.
pub bread-write_all :
    (ws : Writes) (m : Machine) (x : ℕ) → bread x (write_all ws m) ≡ apply_all ws (λ y. bread y m) x
unfolding write_all apply_all
bread-write_all [] m x = refl
bread-write_all ((a, v) ∷ ws) m x =
    bread-write_all ws (bwrite a v m) x
    ∙ apply_all-cong ws (λ y. bread y (bwrite a v m)) (update (λ y. bread y m) a v) x
        (λ y. bread-bwrite a v m y)

-- No write to `x`.
abbrev pub Avoids : ℕ → Writes → Type 0
Avoids x ws = All (λ w. (x == w.0) ≡ false) ws

pub apply_all-Avoids : (ws : Writes) (d : ℕ → Block) (x : ℕ) → Avoids x ws → apply_all ws d x ≡ d x
unfolding apply_all
apply_all-Avoids [] d x h = refl
apply_all-Avoids ((a, v) ∷ ws) d x h = apply_all-Avoids ws (update d a v) x h.1 ∙ rw h.0 refl

pub Avoids-take : (n x : ℕ) (ws : Writes) → Avoids x ws → Avoids x (take n ws)
Avoids-take zero x ws h = tt
Avoids-take (suc n) x [] h = tt
Avoids-take (suc n) x (w ∷ ws) h = (h.0, Avoids-take n x ws h.1)

if-same : (b : Bool) (y : Block) → (if b then y else y) ≡ y
if-same true y = refl
if-same false y = refl

pub apply_all-home_writes :
    (v : ℕ → Block) (bs : List ℕ) (d : ℕ → Block) (x : ℕ)
    → apply_all (home_writes v bs) d x ≡ (if mem x bs then v x else d x)
unfolding apply_all home_writes mem
apply_all-home_writes v [] d x = refl
apply_all-home_writes v (b ∷ bs) d x =
    apply_all-home_writes v bs (update d b (v b)) x ∙ elim (Bool-cases (x == b)) [
      | inl e ↦ rw (e, sym (ap v ((==_iff x b).0 e))) (if-same (mem x bs) (v x))
      | inr e ↦ rw e refl
    ]
