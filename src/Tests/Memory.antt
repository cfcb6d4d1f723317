-- ===== src/Tests/Memory.antt =====
-- string.c at concrete inputs.
use os_system_calls_scheduli.Base.{
  ℕ, ◌+◌, ◌%◌, ◌<◌, ◌≤◌, ◌≡◌, refl, ◌↔◌, inr, length, arith, ◌==◌, if◌then◌else◌,
}
use os_system_calls_scheduli.Base.Int.{ℤ, pos}
use os_system_calls_scheduli.Strings.{Memory, memmove, memset, strncmp, strncpy, safestrcpy}
use os_system_calls_scheduli.Strings.Move.{Moved, memmove-Moved}
use os_system_calls_scheduli.Strings.Fill.{Filled, memset-Filled}
use os_system_calls_scheduli.Strings.Text.{text_at, strncmp_iff}
use os_system_calls_scheduli.Strings.Copy.{Placed, strncpy_lem, safestrcpy-Placed}

-- The text abc at 10 and abd at 20.
abbrev texts : Memory
texts x =
    if x == 10
    then b'a'
    else if x == 11
    then b'b'
    else if x == 12
    then b'c'
    else if x == 20
    then b'a'
    else if x == 21
    then b'b'
    else if x == 22
    then b'd'
    else 0

compares : strncmp 10 20 14 texts ≡ ℤ.negsuc 0
unfolding strncmp
compares = refl

memmove-Moved_example : Moved 11 10 3 texts (memmove 11 10 3 texts)
memmove-Moved_example = memmove-Moved 11 10 3 texts

memset-Filled_example : Filled 8 (513 % 256) 8 texts (memset 8 513 8 texts)
memset-Filled_example = memset-Filled 8 513 8 texts

strncmp_iff_example : (strncmp 10 20 14 texts ≡ pos 0) ↔ (text_at 10 14 texts ≡ text_at 20 14 texts)
strncmp_iff_example = strncmp_iff 10 20 14 texts

strncpy_example :
    Placed 40 14 (text_at 10 14 texts) texts (strncpy 40 10 14 texts)
    × ((i : ℕ) → length (text_at 10 14 texts) ≤ i → i < 14 → strncpy 40 10 14 texts (40 + i) ≡ 0)
strncpy_example = strncpy_lem 40 10 14 texts (inr (omega arith))

safestrcpy-Placed_example : Placed 40 3 (text_at 10 2 texts) texts (safestrcpy 40 10 3 texts)
safestrcpy-Placed_example = safestrcpy-Placed 40 10 2 texts (inr (omega arith))
