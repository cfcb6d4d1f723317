-- ===== src/Log/Phases.antt =====
-- The two loops of log.c, write_log and install_trans, as lists of writes.
use os_system_calls_scheduli.Base.{
  zero, ◌-◌, inr, ap, ◌++◌, take, dec_lt, ℕ, suc, ◌+◌, ◌<◌, ◌≤◌, ◌≡◌, refl, ◌⊎◌, inl, ◌∙◌, false,
  List, [], ◌∷◌, All, ◌==◌, ==_refl, length, arith,
}
use os_system_calls_scheduli.Log.{install_from, write_log_from}
use os_system_calls_scheduli.Log.Disk.{Block, Machine, bread, bwrite, update, bread-bwrite}
use os_system_calls_scheduli.Log.Trace.{
  Writes, apply_all, write_all, log_writes, home_writes, Avoids, apply_all-Avoids,
}

-- The log from `at` on holds the blocks of `v`.
abbrev pub Holds : ℕ → (ℕ → Block) → List ℕ → (ℕ → Block) → Type 0
Holds at v [] d = Unit
Holds at v (b ∷ bs) d = (d at ≡ v b) × Holds (suc at) v bs d

pub log_writes-Avoids :
    (at : ℕ) (v : ℕ → Block) (bs : List ℕ) (x : ℕ)
    → (x < at) ⊎ (at + length bs ≤ x)
    → Avoids x (log_writes at v bs)
unfolding log_writes
log_writes-Avoids at v [] x h = tt
log_writes-Avoids at v (b ∷ bs) x h =
    (ground arith, log_writes-Avoids (suc at) v bs x (ground arith))

pub home_writes-Avoids :
    (v : ℕ → Block) (bs : List ℕ) (x : ℕ)
    → All (λ b. (x == b) ≡ false) bs
    → Avoids x (home_writes v bs)
unfolding home_writes
home_writes-Avoids v [] x h = tt
home_writes-Avoids v (b ∷ bs) x h = (h.0, home_writes-Avoids v bs x h.1)

pub apply_all-log_writes :
    (at : ℕ) (v : ℕ → Block) (bs : List ℕ) (d : ℕ → Block)
    → Holds at v bs (apply_all (log_writes at v bs) d)
unfolding apply_all log_writes
apply_all-log_writes at v [] d = tt
apply_all-log_writes at v (b ∷ bs) d = (
  apply_all-Avoids (log_writes (suc at) v bs) (update d at (v b)) at
        (log_writes-Avoids (suc at) v bs at (inl (omega arith)))
      ∙ rw (==_refl at) refl,
  apply_all-log_writes (suc at) v bs (update d at (v b)),
)

-- Where two functions agree on the log, both hold what one holds.
pub Holds-cong :
    (at : ℕ) (v : ℕ → Block) (bs : List ℕ) (d e : ℕ → Block)
    → ((x : ℕ) → at ≤ x → x < at + length bs → e x ≡ d x)
    → Holds at v bs d
    → Holds at v bs e
Holds-cong at v [] d e f h = tt
Holds-cong at v (b ∷ bs) d e f h = (
  f at (omega arith) (omega arith) ∙ h.0,
  Holds-cong (suc at) v bs d e (λ x l u. f x (omega arith) (omega arith)) h.1,
)

-- Outside the blocks from `lo` up to `hi`.
abbrev pub Away : ℕ → ℕ → ℕ → Type 0
Away lo hi b = (b < lo) ⊎ (hi ≤ b)

pub Away-ne : (lo hi b x : ℕ) → Away lo hi b → lo ≤ x → x < hi → (x == b) ≡ false
Away-ne lo hi b x a l u = ground arith

pub Away-ne_sym : (lo hi b x : ℕ) → Away lo hi b → lo ≤ x → x < hi → (b == x) ≡ false
Away-ne_sym lo hi b x a l u = ground arith

pub bread-bwrite_ne :
    (a : ℕ) (v : Block) (m : Machine) (x : ℕ)
    → (x == a) ≡ false
    → bread x (bwrite a v m) ≡ bread x m
bread-bwrite_ne a v m x e = bread-bwrite a v m x ∙ rw e refl

-- A write to the log leaves what bread gives for the home blocks.
agree-bwrite :
    (lo hi at : ℕ) (w : Block) (v : ℕ → Block) (bs : List ℕ) (m : Machine)
    → lo ≤ at
    → at < hi
    → All (Away lo hi) bs
    → All (λ b. bread b m ≡ v b) bs
    → All (λ b. bread b (bwrite at w m) ≡ v b) bs
agree-bwrite lo hi at w v [] m l u a e = tt
agree-bwrite lo hi at w v (b ∷ bs) m l u a e = (
  bread-bwrite_ne at w m b (Away-ne_sym lo hi b at a.0 l u) ∙ e.0,
  agree-bwrite lo hi at w v bs m l u a.1 e.1,
)

-- write_log makes the writes of its list, whatever it reads meanwhile.
pub write_log_from_lem :
    (lo hi at : ℕ) (v : ℕ → Block) (bs : List ℕ) (m : Machine)
    → lo ≤ at
    → at + length bs ≤ hi
    → All (Away lo hi) bs
    → All (λ b. bread b m ≡ v b) bs
    → write_log_from at bs m ≡ write_all (log_writes at v bs) m
unfolding write_log_from write_all log_writes
write_log_from_lem lo hi at v [] m l u a e = refl
write_log_from_lem lo hi at v (b ∷ bs) m l u a e = rw e.0 (
    write_log_from_lem lo hi (suc at) v bs (bwrite at (v b) m) (omega arith) (omega arith) a.1
      (agree-bwrite lo hi at (v b) v bs m l (omega arith) a.1 e.1))

-- install_trans makes the writes of its list when the log holds the blocks.
pub install_from_lem :
    (lo hi at : ℕ) (v : ℕ → Block) (bs : List ℕ) (m : Machine)
    → lo ≤ at
    → at + length bs ≤ hi
    → All (Away lo hi) bs
    → Holds at v bs (λ x. bread x m)
    → install_from at bs m ≡ write_all (home_writes v bs) m
unfolding install_from write_all home_writes
install_from_lem lo hi at v [] m l u a h = refl
install_from_lem lo hi at v (b ∷ bs) m l u a h = rw h.0 (
    install_from_lem lo hi (suc at) v bs (bwrite b (v b) m) (omega arith) (omega arith) a.1 (
      Holds-cong (suc at) v bs (λ x. bread x m) (λ x. bread x (bwrite b (v b) m))
        (λ x p q. bread-bwrite_ne b (v b) m x (Away-ne lo hi b x a.0 (omega arith) (omega arith)))
        h.1))

take-append_le : (n : ℕ) (xs ys : Writes) → n ≤ length xs → take n (xs ++ ys) ≡ take n xs
take-append_le zero xs ys h = refl
take-append_le (suc n) [] ys h = absurd (omega arith)
take-append_le (suc n) (x ∷ xs) ys h =
    ap (λ (zs : Writes). x ∷ zs) (take-append_le n xs ys (omega arith))

take-append_gt :
    (n : ℕ) (xs : Writes) (y : ℕ × Block) (ys : Writes)
    → length xs < n
    → take n (xs ++ (y ∷ ys)) ≡ xs ++ (y ∷ take (n - suc (length xs)) ys)
take-append_gt zero xs y ys h = absurd (omega arith)
take-append_gt (suc n) [] y ys h =
    let e : n ≡ suc n - 1 = omega arith in ap (λ (k : ℕ). y ∷ take k ys) e
take-append_gt (suc n) (x ∷ xs) y ys h =
    let e : n - suc (length xs) ≡ suc n - suc (suc (length xs)) = omega arith in
    ap (λ (zs : Writes). x ∷ zs)
      (take-append_gt n xs y ys (omega arith) ∙ ap (λ (k : ℕ). xs ++ (y ∷ take k ys)) e)

-- The writes that the power lasts for, in the first list or beyond its end.
pub take-append_cases :
    (n : ℕ) (xs : Writes) (y : ℕ × Block) (ys : Writes)
    → ((n ≤ length xs) × (take n (xs ++ (y ∷ ys)) ≡ take n xs))
      ⊎ ((length xs < n) × ((k : ℕ) × (take n (xs ++ (y ∷ ys)) ≡ xs ++ (y ∷ take k ys))))
take-append_cases n xs y ys = elim (dec_lt (length xs) n) [
  | yes p ↦ inr (p, (n - suc (length xs), take-append_gt n xs y ys p))
  | no p ↦ inl (omega arith, take-append_le n xs (y ∷ ys) (omega arith))
]

pub take-nil : (n : ℕ) → take {A = ℕ × Block} n [] ≡ []
take-nil zero = refl
take-nil (suc n) = refl
