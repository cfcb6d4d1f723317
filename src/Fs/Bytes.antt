-- ===== src/Fs/Bytes.antt =====
-- The loads and stores of a run of bytes that readi and writei of fs.c make.
use os_system_calls_scheduli.Base.{
  ℕ, zero, suc, ◌+◌, ◌-◌, ◌<◌, ◌≤◌, ◌≡◌, refl, sym, ap, ◌∙◌, ◌⊎◌, inl, List, [], ◌∷◌, ◌++◌, length,
  take, drop, arith, ℕ_discrete,
}
use os_system_calls_scheduli.Strings.{Memory, store}
use os_system_calls_scheduli.Strings.Move.{store_self, store_ne}
use os_system_calls_scheduli.Fs.{bytes_at, store_bytes}

pub length-take : (m : ℕ) (bs : List ℕ) → m ≤ length bs → length (take m bs) ≡ m
length-take zero bs h = refl
length-take (suc m) [] h = absurd (omega arith)
length-take (suc m) (b ∷ bs) h = ap suc (length-take m bs (omega arith))

pub length-drop : (m : ℕ) (bs : List ℕ) → length (drop m bs) ≡ length bs - m
length-drop zero bs = omega arith
length-drop (suc m) [] = omega arith
length-drop (suc m) (b ∷ bs) = rw (length-drop m bs) (omega arith)

-- The same bytes at another place.
pub bytes_at_cong :
    (n o o' : ℕ) (m m' : Memory)
    → ((i : ℕ) → i < n → m (o + i) ≡ m' (o' + i))
    → bytes_at o n m ≡ bytes_at o' n m'
unfolding bytes_at
bytes_at_cong zero o o' m m' h = refl
bytes_at_cong (suc n) o o' m m' h =
    let z : o + 0 ≡ o = omega arith in
    let z' : o' + 0 ≡ o' = omega arith in
    let e : m o ≡ m' o' = ap m (sym z) ∙ h 0 (omega arith) ∙ ap m' z' in
    let r = bytes_at_cong n (o + 1) (o' + 1) m m' (λ i k.
      let s : o + 1 + i ≡ o + suc i = omega arith in
      let s' : o' + 1 + i ≡ o' + suc i = omega arith in
      ap m s ∙ h (suc i) (omega arith) ∙ sym (ap m' s')) in
    rw (e, r) refl

pub bytes_at-append :
    (n k o : ℕ) (m : Memory) → bytes_at o n m ++ bytes_at (o + n) k m ≡ bytes_at o (n + k) m
unfolding bytes_at
bytes_at-append zero k o m =
    let z : o + 0 ≡ o = omega arith in let z' : 0 + k ≡ k = omega arith in rw (z, z') refl
bytes_at-append (suc n) k o m =
    let s : o + suc n ≡ o + 1 + n = omega arith in
    let t : suc n + k ≡ suc (n + k) = omega arith in
    rw (s, t) (ap (λ l. m o ∷ l) (bytes_at-append n k (o + 1) m))

pub store_bytes_elsewhere :
    (bs : List ℕ) (o : ℕ) (m : Memory) (x : ℕ)
    → (x < o) ⊎ (o + length bs ≤ x)
    → store_bytes o bs m x ≡ m x
unfolding store_bytes
store_bytes_elsewhere [] o m x h = refl
store_bytes_elsewhere (b ∷ bs) o m x h =
    store_bytes_elsewhere bs (o + 1) (store o b m) x (ground arith)
    ∙ store_ne o b m x (ground arith)

-- The same bytes stored at another place of another memory that agrees where they are read.
pub store_bytes_cong :
    (bs : List ℕ) (o o' : ℕ) (m m' : Memory) (x x' : ℕ)
    → x + o' ≡ x' + o
    → m x ≡ m' x'
    → store_bytes o bs m x ≡ store_bytes o' bs m' x'
unfolding store_bytes
store_bytes_cong [] o o' m m' x x' h e = e
store_bytes_cong (b ∷ bs) o o' m m' x x' h e =
    store_bytes_cong bs (o + 1) (o' + 1) (store o b m) (store o' b m') x x' (omega arith)
      (elim (ℕ_discrete x o) [
        | yes s ↦
            let s' : x' ≡ o' = omega arith in
            rw (s, s') (store_self o b m ∙ sym (store_self o' b m'))
        | no ne ↦ store_ne o b m x (ground arith) ∙ e ∙ sym (store_ne o' b m' x' (ground arith))
      ])

pub store_bytes-split :
    (k : ℕ) (bs : List ℕ) (o : ℕ) (m : Memory)
    → k ≤ length bs
    → store_bytes (o + k) (drop k bs) (store_bytes o (take k bs) m) ≡ store_bytes o bs m
unfolding store_bytes
store_bytes-split zero bs o m h = let z : o + 0 ≡ o = omega arith in rw z refl
store_bytes-split (suc k) [] o m h = absurd (omega arith)
store_bytes-split (suc k) (b ∷ bs) o m h =
    let s : o + suc k ≡ o + 1 + k = omega arith in
    rw s (store_bytes-split k bs (o + 1) (store o b m) (omega arith))

-- The bytes stored are the ones read back.
pub bytes_at-store_bytes :
    (bs : List ℕ) (o : ℕ) (m : Memory) → bytes_at o (length bs) (store_bytes o bs m) ≡ bs
unfolding bytes_at store_bytes
bytes_at-store_bytes [] o m = refl
bytes_at-store_bytes (b ∷ bs) o m =
    let e : store_bytes (o + 1) bs (store o b m) o ≡ b =
      store_bytes_elsewhere bs (o + 1) (store o b m) o (inl (omega arith)) ∙ store_self o b m in
    rw (e, bytes_at-store_bytes bs (o + 1) (store o b m)) refl
