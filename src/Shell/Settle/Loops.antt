-- ===== src/Shell/Settle/Loops.antt =====
-- The loops of the parser of sh.c come to an end and do not go back.
use os_system_calls_scheduli.Base.{
  ℕ, zero, suc, ◌≤◌, ◌<◌, ◌≡◌, refl, Bool, true, false, not, List, [], ◌∷◌, ◌++◌, length, leb, ◌==◌,
  if◌then◌else◌, Bool-cases, inl, inr, arith,
}
use os_system_calls_scheduli.Shell.{
  Text, Cmd, back, Parsed, ok, panics, starved, ◌>>=◌, peek, gettoken, redirect, set_args,
  parseredirs, parse_args, max_args, parse_backs,
}
use os_system_calls_scheduli.Shell.Settle.Shorter.{peek_le, peek_next, gettoken_le, word_next}

-- A result that came without the fuel's end, and leaves at most `l` bytes.
abbrev pub Settled : ℕ → Parsed → Type 0
Settled l (ok c s) = length s ≤ l
Settled l panics = Unit
Settled l starved = ⊥

pub Settled-bind :
    (l m : ℕ) (r : Parsed) (f : Cmd → Text → Parsed)
    → Settled l r
    → ((c : Cmd) (s : Text) → length s ≤ l → Settled m (f c s))
    → Settled m (r >>= f)
Settled-bind l m (ok c s) f h k = k c s h
Settled-bind l m panics f h k = tt
Settled-bind l m starved f h k = elim h [ ]

pub Settled-mono : (l m : ℕ) (r : Parsed) → l ≤ m → Settled l r → Settled m r
Settled-mono l m (ok c s) h k = omega arith
Settled-mono l m panics h k = tt
Settled-mono l m starved h k = elim k [ ]

pub Settled-if :
    (l : ℕ) (b : Bool) (x y : Parsed)
    → (b ≡ true → Settled l x)
    → (b ≡ false → Settled l y)
    → Settled l (if b then x else y)
Settled-if l true x y f g = f refl
Settled-if l false x y f g = g refl

pub parseredirs-Settled :
    (n : ℕ) (c : Cmd) (s : Text) → length s < n → Settled (length s) (parseredirs n c s)
unfolding parseredirs
parseredirs-Settled zero c s h = absurd (omega arith)
parseredirs-Settled (suc n) c s h =
    let s1 = (peek (b'<' ∷ b'>' ∷ []) s).1 in
    let t = gettoken s1 in
    let file = gettoken t.rest in
    elim (Bool-cases (peek (b'<' ∷ b'>' ∷ []) s).0) [
      | inl more ↦ rw more (
          Settled-if (length s) (not (file.ret == b'a')) panics
            (parseredirs n (redirect t.ret c file.bytes) file.rest) (λ e. tt)
            (λ e.
              let shorter : length file.rest < length s =
                omega (arith, peek_next (b'<' ∷ b'>' ∷ []) s more, gettoken_le t.rest) in
              Settled-mono (length file.rest) (length s)
                (parseredirs n (redirect t.ret c file.bytes) file.rest) (omega arith)
                (parseredirs-Settled n (redirect t.ret c file.bytes) file.rest (omega arith))))
      | inr done ↦ rw done (peek_le (b'<' ∷ b'>' ∷ []) s)
    ]

-- The round of parse_args that has read a word.
word-Settled :
    (n l : ℕ) (argv : List Text) (c : Cmd) (s : Text)
    → length s < l
    → l ≤ n
    → ((c' : Cmd) (s' : Text) → length s' < n → Settled (length s') (parse_args n argv c' s'))
    → Settled l (parseredirs (suc (length s)) c s >>= λ c' s'. parse_args n argv c' s')
word-Settled n l argv c s h k rec =
    Settled-bind (length s) l (parseredirs (suc (length s)) c s) (λ c' s'. parse_args n argv c' s')
      (parseredirs-Settled (suc (length s)) c s (omega arith))
      (λ c' s' m.
        Settled-mono (length s') l (parse_args n argv c' s') (omega arith)
          (rec c' s' (omega arith)))

pub parse_args-Settled :
    (n : ℕ) (argv : List Text) (c : Cmd) (s : Text)
    → length s < n
    → Settled (length s) (parse_args n argv c s)
unfolding parse_args
parse_args-Settled zero argv c s h = absurd (omega arith)
parse_args-Settled (suc n) argv c s h =
    let toks = b'|' ∷ b')' ∷ b'&' ∷ b';' ∷ [] in
    let s1 = (peek toks s).1 in
    let t = gettoken s1 in
    let argv' = argv ++ (t.bytes ∷ []) in
    let more = parseredirs (suc (length t.rest)) (set_args argv' c) t.rest >>= λ ret' s2.
    parse_args n argv' ret' s2 in
    let l = length s in
    Settled-if l (peek toks s).0 (ok c s1) _ (λ e. peek_le toks s)
      (λ e.
        Settled-if l (t.ret == 0) (ok c t.rest) _
          (λ z. omega (arith, peek_le toks s, gettoken_le s1))
          (λ z.
            Settled-if l (not (t.ret == b'a')) panics _ (λ f. tt)
              (λ f.
                Settled-if l (leb max_args (length argv')) panics more (λ g. tt)
                  (λ g.
                    word-Settled n l argv' (set_args argv' c) t.rest
                      (omega (arith, word_next s1 z, peek_le toks s)) (omega arith)
                      (λ c' s2 k. parse_args-Settled n argv' c' s2 k)))))

pub parse_backs-Settled :
    (n : ℕ) (c : Cmd) (s : Text) → length s < n → Settled (length s) (parse_backs n c s)
unfolding parse_backs
parse_backs-Settled zero c s h = absurd (omega arith)
parse_backs-Settled (suc n) c s h =
    let toks = b'&' ∷ [] in
    let s2 = (gettoken (peek toks s).1).rest in
    Settled-if (length s) (peek toks s).0 (parse_backs n (back c) s2) (ok c (peek toks s).1)
      (λ e.
        let shorter : length s2 < length s = peek_next toks s e in
        Settled-mono (length s2) (length s) (parse_backs n (back c) s2) (omega arith)
          (parse_backs-Settled n (back c) s2 (omega arith)))
      (λ e. peek_le toks s)
