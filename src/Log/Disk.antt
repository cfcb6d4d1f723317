-- ===== src/Log/Disk.antt =====
-- What log.c sees of the buffer cache and of the disk: block contents, through bread and bwrite.
use os_system_calls_scheduli.Base.{
  ℕ, zero, suc, ◌-◌, ◌≡◌, refl, Bool, true, false, List, [], ◌∷◌, ◌++◌, Option, none, some, ◌==◌,
  if◌then◌else◌, length, take, drop, ap, Bool-cases, inl, inr,
}

-- The words of a block.
abbrev pub Block : Type 0
Block = List ℕ

-- `power` counts the writes that reach the disk before the machine stops.
pub record Machine : Type 0 where
  pub disk : ℕ → Block
  pub cache : ℕ → Option Block
  pub power : ℕ

abbrev pub update {ℓ} : {A : Type ℓ} → (ℕ → A) → ℕ → A → ℕ → A
update f a v x = if x == a then v else f x

abbrev pub or_disk : Option Block → Block → Block
or_disk none d = d
or_disk (some v) d = v

unfoldable pub disk_write : ℕ → ℕ → Block → (ℕ → Block) → ℕ → Block
disk_write zero a v d = d
disk_write (suc n) a v d = update d a v

-- The contents of the buffer that bread returns.
unfoldable pub bread : ℕ → Machine → Block
bread a m = or_disk (m.cache a) (m.disk a)

-- A buffer filled with `v` and written to the disk.
unfoldable pub bwrite : ℕ → Block → Machine → Machine
bwrite a v m = record {
  disk = disk_write m.power a v m.disk;
  cache = update m.cache a (some v);
  power = m.power - 1;
}

-- The header block: the word n and n block numbers; the other words stay.
unfoldable pub encode : List ℕ → Block → Block
encode bs old = length bs ∷ bs ++ drop (suc (length bs)) old

unfoldable pub decode : Block → List ℕ
decode [] = []
decode (n ∷ ws) = take n ws

-- What a machine finds when it starts again: the disk, and no buffers.
abbrev pub restart : ℕ → Machine → Machine
restart n m = record { disk = m.disk; cache = λ a. none; power = n }

unfoldable pub mem : ℕ → List ℕ → Bool
mem b [] = false
mem b (c ∷ cs) = if b == c then true else mem b cs

take-append : (bs ws : List ℕ) → take (length bs) (bs ++ ws) ≡ bs
take-append [] [] = refl
take-append [] (w ∷ ws) = refl
take-append (b ∷ bs) ws = ap (λ (xs : List ℕ). b ∷ xs) (take-append bs ws)

pub decode-encode : (bs : List ℕ) (old : Block) → decode (encode bs old) ≡ bs
unfolding encode decode
decode-encode bs old = take-append bs (drop (suc (length bs)) old)

disk_write_ne :
    (n a : ℕ) (v : Block) (d : ℕ → Block) (x : ℕ) → (x == a) ≡ false → disk_write n a v d x ≡ d x
unfolding disk_write
disk_write_ne zero a v d x e = refl
disk_write_ne (suc n) a v d x e = rw e refl

pub bread-bwrite :
    (a : ℕ) (v : Block) (m : Machine) (x : ℕ)
    → bread x (bwrite a v m) ≡ update (λ y. bread y m) a v x
unfolding bread bwrite
bread-bwrite a v m x = elim (Bool-cases (x == a)) [
  | inl e ↦ rw e refl
  | inr e ↦ rw (e, disk_write_ne m.power a v m.disk x e) refl
]
