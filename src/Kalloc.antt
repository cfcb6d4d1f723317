-- ===== src/Kalloc.antt =====
-- kalloc.c: the list of free pages. An address is a number below 2 ^ 32; `bottom` is the symbol end
-- of the linker. What a page holds and the lock are left out.
pub mod Pages
use os_system_calls_scheduli.Base.{
  ℕ, zero, suc, ◌+◌, ◌-◌, ◌*◌, ◌/◌, ◌%◌, ◌^◌, Bool, not, ◌||◌, List, [], ◌∷◌, Option, none, some,
  ltb, leb, ◌==◌, if◌then◌else◌,
}

abbrev pub page_size : ℕ
page_size = 4096

abbrev pub kernbase : ℕ
kernbase = 2147483648

abbrev pub phystop : ℕ
phystop = 234881024

-- The subtraction of KERNBASE on 32 bits.
abbrev pub v2p : ℕ → ℕ
v2p v = (v + 2 ^ 32 - kernbase) % 2 ^ 32

-- `none` panics.
unfoldable pub kfree : ℕ → ℕ → List ℕ → Option (List ℕ)
kfree bottom v free =
    if not (v % page_size == 0) || ltb v bottom || leb phystop (v2p v)
    then none
    else some (v ∷ free)

-- The page, if there is one, and the list after the call.
unfoldable pub kalloc : List ℕ → Option ℕ × List ℕ
kalloc [] = (none, [])
kalloc (p ∷ ps) = (some p, ps)

abbrev pub page_round_up : ℕ → ℕ
page_round_up a = (a + page_size - 1) % 2 ^ 32 / page_size * page_size

-- The loop of freerange, for at most `fuel` pages, on the list after the last kfree.
unfoldable pub free_pages : ℕ → ℕ → ℕ → ℕ → Option (List ℕ) → Option (List ℕ)
free_pages bottom fuel p top none = none
free_pages bottom zero p top (some free) = some free
free_pages bottom (suc fuel) p top (some free) =
    let rest = free_pages bottom fuel (p + page_size) top (kfree bottom p free) in
    if leb (p + page_size) top then rest else some free

-- There are at most vend / PGSIZE rounds.
unfoldable pub freerange : ℕ → ℕ → ℕ → List ℕ → Option (List ℕ)
freerange bottom vstart vend free =
    free_pages bottom (vend / page_size) (page_round_up vstart) vend (some free)
