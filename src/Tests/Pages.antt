-- ===== src/Tests/Pages.antt =====
-- kalloc.c at concrete inputs.
use os_system_calls_scheduli.Base.{ℕ, ◌+◌, List, [], ◌∷◌, arith}
use os_system_calls_scheduli.Kalloc.{kernbase, freerange}
use os_system_calls_scheduli.Kalloc.Pages.{IsPool, Freed, freerange-Freed}

abbrev one_page : List ℕ
one_page = (kernbase + 8192) ∷ []

one_page-IsPool : IsPool (kernbase + 5000) one_page
one_page-IsPool =
    ((record { aligned = omega arith; above = omega arith; below = omega arith }, tt), (tt, tt))

-- The page is in the list already, and the range is behind it.
freerange-Freed_example :
    Freed
      (kernbase + 5000)
      (kernbase + 12288)
      (kernbase + 30000)
      one_page
      (freerange (kernbase + 5000) (kernbase + 12288) (kernbase + 30000) one_page)
freerange-Freed_example =
    freerange-Freed (kernbase + 5000) (kernbase + 12288) (kernbase + 30000) one_page (omega arith)
      (omega arith) (omega arith) (omega arith) one_page-IsPool (omega arith, tt)
