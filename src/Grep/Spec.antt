-- ===== src/Grep/Spec.antt =====
-- What a pattern of grep.c means, independently of the matcher.
use os_system_calls_scheduli.Base.{ℕ, ◌≡◌, ◌≢◌, ◌⊎◌, List, [], ◌∷◌, ◌++◌, All}

-- A character of the pattern fits one of the text.
abbrev pub Fits : ℕ → ℕ → Type 0
Fits c t = (c ≡ b'.') ⊎ (c ≡ t)

-- The pattern matches at the beginning of the text.
pub data Here : List ℕ → List ℕ → Type 0 where
  empty : {text : List ℕ} → Here [] text
  star :
      {c d : ℕ} {re text : List ℕ} (reps rest : List ℕ)
      → d ≡ b'*'
      → All (Fits c) reps
      → Here re rest
      → text ≡ reps ++ rest
      → Here (c ∷ d ∷ re) text
  end : {c : ℕ} → c ≡ b'$' → Here (c ∷ []) []
  last : {c t : ℕ} {ts : List ℕ} → c ≢ b'$' → Fits c t → Here (c ∷ []) (t ∷ ts)
  one :
      {c d t : ℕ} {re ts : List ℕ}
      → d ≢ b'*'
      → Fits c t
      → Here (d ∷ re) ts
      → Here (c ∷ d ∷ re) (t ∷ ts)

-- The pattern matches somewhere in the text.
pub record Somewhere (re text : List ℕ) : Type 0 where
  pub before : List ℕ
  pub after : List ℕ
  pub split : text ≡ before ++ after
  pub here : Here re after

-- What a whole pattern means: behind a ^ it is about the beginning of the text, without one about any
-- place in it.
abbrev pub Matches : List ℕ → List ℕ → Type 0
Matches [] text = Somewhere [] text
Matches (c ∷ re) text = ((c ≡ b'^') × Here re text) ⊎ ((c ≢ b'^') × Somewhere (c ∷ re) text)
