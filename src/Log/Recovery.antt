-- ===== src/Log/Recovery.antt =====
-- recover_from_log of log.c, when the machine stops during it and when it does not.
use os_system_calls_scheduli.Base.{
  ℕ, suc, ◌+◌, ◌<◌, ◌≤◌, ◌≡◌, refl, inl, inr, ◌∙◌, ap, Bool, true, false, List, [], ◌∷◌, ◌++◌, All,
  All-imp, ◌==◌, ==_refl, if◌then◌else◌, length, take, arith,
}
use os_system_calls_scheduli.Log.{Log, read_head, write_head, recover_from_log}
use os_system_calls_scheduli.Log.Disk.{
  Block, Machine, bread, restart, encode, decode, decode-encode, mem,
}
use os_system_calls_scheduli.Log.Trace.{
  Writes, apply_all, write_all, home_writes, Avoids, Avoids-take, apply_all-Avoids,
  write_all-append, apply_all-append, disk-write_all, apply_all-home_writes,
}
use os_system_calls_scheduli.Log.Phases.{
  take-nil, Away-ne_sym, Away, Holds, Holds-cong, Away-ne, home_writes-Avoids, install_from_lem,
  take-append_cases,
}

-- The end of the log, and the blocks outside it.
abbrev pub log_end : Log → ℕ
log_end g = g.start + g.size

abbrev pub Home : Log → ℕ → Type 0
Home g b = Away g.start (log_end g) b

-- The disk `d` stands for the home blocks `f`: the log on it, installed, gives them.
pub record Restores (g : Log) (f d : ℕ → Block) : Type 0 where
  pub logged : List ℕ
  pub images : ℕ → Block
  pub head : decode (d g.start) ≡ logged
  pub fits : length logged + 1 ≤ g.size
  pub homes : All (Home g) logged
  pub holds : Holds (suc g.start) images logged d
  pub stands : (b : ℕ) → Home g b → (if mem b logged then images b else d b) ≡ f b

-- No home block lies in the log.
pub home_writes_miss :
    (g : Log) (v : ℕ → Block) (bs : List ℕ) (x : ℕ)
    → All (Home g) bs
    → g.start ≤ x
    → x < log_end g
    → Avoids x (home_writes v bs)
home_writes_miss g v bs x h l u =
    home_writes-Avoids v bs x
      (All-imp (Home g) (λ b. (x == b) ≡ false) bs (λ b a. Away-ne g.start (log_end g) b x a l u) h)

-- Blocks that are not listed keep their contents.
unlisted-Avoids :
    (v : ℕ → Block) (bs : List ℕ) (x : ℕ) → mem x bs ≡ false → Avoids x (home_writes v bs)
unfolding mem home_writes
unlisted-Avoids v [] x e = tt
unlisted-Avoids v (b ∷ bs) x e = (ground arith, unlisted-Avoids v bs x (ground arith))

pub unchanged :
    (c : Bool) (x : Block) {y y' z : Block}
    → (c ≡ false → y' ≡ y)
    → (if c then x else y) ≡ z
    → (if c then x else y') ≡ z
unchanged true x e h = h
unchanged false x e h = e refl ∙ h

apply_all_at : {d e : ℕ → Block} → d ≡ e → (b : ℕ) → d b ≡ e b
apply_all_at p b = ap (λ (d : ℕ → Block). d b) p

-- A part of the installation.
pub partly_installed :
    (g : Log) (f d : ℕ → Block) (r : Restores g f d) (n : ℕ)
    → Restores g f (apply_all (take n (home_writes r.images r.logged)) d)
partly_installed g f d r n =
    let ws = home_writes r.images r.logged in
    let same : (x : ℕ) → Avoids x ws → apply_all (take n ws) d x ≡ d x =
      λ x a. apply_all-Avoids (take n ws) d x (Avoids-take n x ws a) in
    let inside : (x : ℕ) → g.start ≤ x → x < log_end g → apply_all (take n ws) d x ≡ d x =
      λ x l u. same x (home_writes_miss g r.images r.logged x r.homes l u) in
    record {
      logged = r.logged;
      images = r.images;
      head = rw (inside g.start (omega arith) (omega (arith, r.fits))) r.head;
      fits = r.fits;
      homes = r.homes;
      holds =
          Holds-cong (suc g.start) r.images r.logged d (apply_all (take n ws) d)
            (λ x l u. inside x (omega arith) (omega (arith, r.fits))) r.holds;
      stands = λ b h.
          unchanged (mem b r.logged) (r.images b)
            (λ e. same b (unlisted-Avoids r.images r.logged b e)) (r.stands b h);
    }

-- The whole installation, with the header cleared.
pub installed :
    (g : Log) (f d : ℕ → Block) (r : Restores g f d) (h : Block)
    → decode h ≡ []
    → (b : ℕ) → Home g b
    → apply_all (home_writes r.images r.logged ++ ((g.start, h) ∷ [])) d b ≡ f b
installed g f d r h e b a =
    let ws = home_writes r.images r.logged in
    apply_all_at (apply_all-append ws ((g.start, h) ∷ []) d) b
    ∙ apply_all-Avoids ((g.start, h) ∷ []) (apply_all ws d) b
        (Away-ne_sym g.start (log_end g) b g.start a (omega arith) (omega (arith, r.fits)), tt)
    ∙ apply_all-home_writes r.images r.logged d b
    ∙ r.stands b a

pub cleared_head :
    (g : Log) (d : ℕ → Block) (ws : Writes) (h : Block)
    → decode h ≡ []
    → decode (apply_all (ws ++ ((g.start, h) ∷ [])) d g.start) ≡ []
unfolding apply_all
cleared_head g d ws h e =
    ap decode (apply_all_at (apply_all-append ws ((g.start, h) ∷ []) d) g.start)
    ∙ rw (==_refl g.start) e

-- A disk with an empty log stands for its own home blocks.
pub empty-Restores :
    (g : Log) (f d : ℕ → Block)
    → 1 ≤ g.size
    → decode (d g.start) ≡ []
    → ((b : ℕ) → Home g b → d b ≡ f b)
    → Restores g f d
unfolding mem
empty-Restores g f d l e s = record {
  logged = [];
  images = d;
  head = e;
  fits = l;
  homes = tt;
  holds = tt;
  stands = s;
}

recover-trace :
    (g : Log) (f : ℕ → Block) (m : Machine) (n : ℕ) (r : Restores g f m.disk)
    → (h : Block) × (decode h ≡ [])
      × ((recover_from_log g (restart n m)).1
          ≡ write_all (home_writes r.images r.logged ++ ((g.start, h) ∷ [])) (restart n m))
unfolding recover_from_log read_head write_head write_all bread
recover-trace g f m n r =
    let m' = restart n m in
    let ws = home_writes r.images r.logged in
    let h = encode [] (bread g.start (write_all ws m')) in
    (
      h,
      decode-encode [] (bread g.start (write_all ws m')),
      rw
          (
            r.head,
            install_from_lem g.start (log_end g) (suc g.start) r.images r.logged m' (omega arith)
                (omega (arith, r.fits)) r.homes r.holds,
            write_all-append ws ((g.start, h) ∷ []) m',
          )
          refl,
    )

recovered_disk :
    (g : Log) (f : ℕ → Block) (m : Machine) (n : ℕ) (r : Restores g f m.disk)
    → (h : Block) × (decode h ≡ [])
      × ((recover_from_log g (restart n m)).1.disk
          ≡ apply_all (take n (home_writes r.images r.logged ++ ((g.start, h) ∷ []))) m.disk)
recovered_disk g f m n r =
    let (h, e, t) = recover-trace g f m n r in
    let ws = home_writes r.images r.logged ++ ((g.start, h) ∷ []) in
    (h, e, ap (λ (x : Machine). x.disk) t ∙ disk-write_all ws (restart n m))

pub length-home_writes : (v : ℕ → Block) (bs : List ℕ) → length (home_writes v bs) ≡ length bs
unfolding home_writes
length-home_writes v [] = refl
length-home_writes v (b ∷ bs) = ap suc (length-home_writes v bs)

-- The machine may stop at any write of recover_from_log: the disk still stands for the same blocks.
pub recover_interrupted :
    (g : Log) (f : ℕ → Block) (m : Machine) (n : ℕ)
    → Restores g f m.disk
    → Restores g f (recover_from_log g (restart n m)).1.disk
recover_interrupted g f m n r =
    let (h, e, t) = recovered_disk g f m n r in
    let ws = home_writes r.images r.logged in
    rw t (elim (take-append_cases n ws (g.start, h) []) [
      | inl (few, some_of) ↦ rw some_of (partly_installed g f m.disk r n)
      | inr (more, (k, all_of)) ↦
          rw (all_of, take-nil k)
            (empty-Restores g f (apply_all (ws ++ ((g.start, h) ∷ [])) m.disk)
              (omega (arith, r.fits)) (cleared_head g m.disk ws h e) (installed g f m.disk r h e))
    ])

-- recover_from_log with the power that it needs installs the blocks and clears the log.
pub recover_from_log_lem :
    (g : Log) (f : ℕ → Block) (m : Machine) (n : ℕ)
    → Restores g f m.disk
    → g.size ≤ n
    → (decode ((recover_from_log g (restart n m)).1.disk g.start) ≡ [])
      × ((b : ℕ) → Home g b → (recover_from_log g (restart n m)).1.disk b ≡ f b)
recover_from_log_lem g f m n r enough =
    let (h, e, t) = recovered_disk g f m n r in
    let ws = home_writes r.images r.logged in
    elim (take-append_cases n ws (g.start, h) []) [
      | inl (few, some_of) ↦ absurd (omega (arith, length-home_writes r.images r.logged, r.fits))
      | inr (more, (k, all_of)) ↦
          rw (t, all_of, take-nil k) (cleared_head g m.disk ws h e, installed g f m.disk r h e)
    ]
