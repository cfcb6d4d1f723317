-- ===== src/Strings.antt =====
-- string.c: memory is a function from addresses to bytes. An object does not reach the end of the
-- address space, so that addresses in it are added without wrapping.
pub mod Move
pub mod Text
pub mod Copy
pub mod Fill
use os_system_calls_scheduli.Base.{
  ℕ, suc, ◌+◌, ◌*◌, ◌/◌, ◌%◌, ◌^◌, Bool, not, ◌&&◌, List, [], ◌∷◌, Option, none, some, ltb, ◌==◌,
  if◌then◌else◌,
}
use os_system_calls_scheduli.Base.Int.{ℤ, pos, sub_ℕ}

abbrev pub Memory : Type 0
Memory = ℕ → ℕ

abbrev pub store : ℕ → ℕ → Memory → Memory
store a v m x = if x == a then v else m x

-- The instruction rep stosb: n bytes from d on.
unfoldable pub stosb : ℕ → ℕ → ℕ → Memory → Memory
stosb d c ℕ.zero m = m
stosb d c (suc n) m = stosb (d + 1) c n (store d (c % 256) m)

-- A word of 32 bits, its low byte first.
abbrev pub store_word : ℕ → ℕ → Memory → Memory
store_word d w m =
    store (d + 3) (w / 2 ^ 24 % 256)
      (store (d + 2) (w / 2 ^ 16 % 256) (store (d + 1) (w / 2 ^ 8 % 256) (store d (w % 256) m)))

-- The instruction rep stosl: n words from d on.
unfoldable pub stosl : ℕ → ℕ → ℕ → Memory → Memory
stosl d w ℕ.zero m = m
stosl d w (suc n) m = stosl (d + 4) w n (store_word d w m)

-- `c` is the 32-bit pattern of an int.
unfoldable pub memset : ℕ → ℕ → ℕ → Memory → Memory
memset d c n m =
    let b = c % 256 in
    if d % 4 == 0 && n % 4 == 0
    then stosl d (b * 2 ^ 24 + b * 2 ^ 16 + b * 2 ^ 8 + b) (n / 4) m
    else stosb d c n m

unfoldable pub memcmp : ℕ → ℕ → ℕ → Memory → ℤ
memcmp p q ℕ.zero m = pos 0
memcmp p q (suc n) m =
    let rest = memcmp (p + 1) (q + 1) n m in if not (m p == m q) then sub_ℕ (m p) (m q) else rest

-- The two loops of memmove.
unfoldable pub copy_down : ℕ → ℕ → ℕ → Memory → Memory
copy_down d s ℕ.zero m = m
copy_down d s (suc n) m = copy_down d s n (store (d + n) (m (s + n)) m)

unfoldable pub copy_up : ℕ → ℕ → ℕ → Memory → Memory
copy_up d s ℕ.zero m = m
copy_up d s (suc n) m = copy_up (d + 1) (s + 1) n (store d (m s) m)

unfoldable pub memmove : ℕ → ℕ → ℕ → Memory → Memory
memmove d s n m = if ltb s d && ltb d (s + n) then copy_down d s n m else copy_up d s n m

unfoldable pub memcpy : ℕ → ℕ → ℕ → Memory → Memory
memcpy d s n m = memmove d s n m

unfoldable pub strncmp : ℕ → ℕ → ℕ → Memory → ℤ
strncmp p q ℕ.zero m = pos 0
strncmp p q (suc n) m =
    let rest = strncmp (p + 1) (q + 1) n m in
    if not (m p == 0) && m p == m q then rest else sub_ℕ (m p) (m q)

-- The second loop of strncpy.
unfoldable pub pad : ℕ → ℕ → Memory → Memory
pad s ℕ.zero m = m
pad s (suc n) m = pad (s + 1) n (store s 0 m)

unfoldable pub strncpy : ℕ → ℕ → ℕ → Memory → Memory
strncpy s t ℕ.zero m = m
strncpy s t (suc n) m =
    let m' = store s (m t) m in
    let rest = strncpy (s + 1) (t + 1) n m' in if m t == 0 then pad (s + 1) n m' else rest

-- safestrcpy for a room of n + 1 bytes, from the loop on.
unfoldable pub copy_string : ℕ → ℕ → ℕ → Memory → Memory
copy_string s t ℕ.zero m = store s 0 m
copy_string s t (suc n) m =
    let m' = store s (m t) m in
    let rest = copy_string (s + 1) (t + 1) n m' in if m t == 0 then store (s + 1) 0 m' else rest

unfoldable pub safestrcpy : ℕ → ℕ → ℕ → Memory → Memory
safestrcpy s t ℕ.zero m = m
safestrcpy s t (suc n) m = copy_string s t n m

-- The loop of strlen from the count `n` on, for at most `fuel` bytes.
unfoldable pub strlen_from : ℕ → ℕ → ℕ → Memory → Option ℕ
strlen_from ℕ.zero s n m = none
strlen_from (suc fuel) s n m =
    let more = strlen_from fuel s (n + 1) m in if m (s + n) == 0 then some n else more

-- strlen of a string whose 0 is among the first `fuel` bytes.
unfoldable pub strlen : ℕ → ℕ → Memory → Option ℕ
strlen fuel s m = strlen_from fuel s 0 m
