-- ===== src/Tests/Numbers.antt =====
-- The number printing of printf.c at concrete inputs.
use os_system_calls_scheduli.Base.{
  ◌^◌, ℕ, ◌≤◌, ◌≡◌, refl, inl, ◌⊎◌, false, ◌<◌, true, List, [], ◌∷◌, length, arith,
}
use os_system_calls_scheduli.Printf.{digits_of, put_back, filled_buf, printint}
use os_system_calls_scheduli.Printf.Number.{Reads, printint_lem}

-- The pattern of -42.
abbrev minus_42 : ℕ
minus_42 = 4294967254

prints : printint minus_42 10 true ≡ b'-' ∷ b'4' ∷ b'2' ∷ []
unfolding printint filled_buf digits_of put_back
prints = refl

prints_hex : printint 2748 16 false ≡ b'A' ∷ b'B' ∷ b'C' ∷ []
unfolding printint filled_buf digits_of put_back
prints_hex = refl

printint_lem_example :
    (true ≡ true
      → 2 ^ 31 ≤ minus_42
      → (ds : List ℕ) × (printint minus_42 10 true ≡ b'-' ∷ ds) × Reads 10 ds 42)
    × ((true ≡ false) ⊎ (minus_42 < 2 ^ 31) → Reads 10 (printint minus_42 10 true) minus_42)
    × (length (filled_buf minus_42 10 true) ≤ 16)
printint_lem_example = printint_lem minus_42 10 true (inl refl) (omega arith)
