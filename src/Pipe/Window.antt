-- ===== src/Pipe/Window.antt =====
-- The bytes between two counters of a ring of 512.
use os_system_calls_scheduli.Base.{
  ℕ, zero, suc, ◌+◌, ◌%◌, ◌<◌, ◌≡◌, refl, List, [], ◌∷◌, ◌++◌, arith, length, get_or, set,
  get_or-set_self, get_or-set_ne, ap, ap₂,
}

-- The `n` bytes from counter `h` on.
abbrev pub window : List ℕ → ℕ → ℕ → List ℕ
window bytes h zero = []
window bytes h (suc n) = get_or bytes (h % 512) 0 ∷ window bytes (h + 1) n

pub length-window : (bytes : List ℕ) (h n : ℕ) → length (window bytes h n) ≡ n
length-window bytes h zero = refl
length-window bytes h (suc n) = ap suc (length-window bytes (h + 1) n)

-- Only the counter's remainder counts.
pub window_mod :
    (bytes : List ℕ) (g h n : ℕ) → g % 512 ≡ h % 512 → window bytes g n ≡ window bytes h n
window_mod bytes g h zero e = refl
window_mod bytes g h (suc n) e =
    ap₂ (λ (i : ℕ) (xs : List ℕ). get_or bytes i 0 ∷ xs) e
      (window_mod bytes (g + 1) (h + 1) n (omega arith))

-- A write just behind a window extends it.
pub window-set :
    (bytes : List ℕ) (h n i b : ℕ)
    → length bytes ≡ 512
    → n < 512
    → i ≡ (h + n) % 512
    → window (set bytes i b) h (suc n) ≡ window bytes h n ++ b ∷ []
window-set bytes h zero i b size small e =
    let f : h % 512 ≡ i = omega arith in rw (f, get_or-set_self bytes i b 0 (omega arith))
window-set bytes h (suc n) i b size small e =
    ap₂ ◌∷◌ (get_or-set_ne bytes i (h % 512) b 0 (omega arith))
      (window-set bytes (h + 1) n i b size (omega arith) (omega arith))
