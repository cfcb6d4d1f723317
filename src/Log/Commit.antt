-- ===== src/Log/Commit.antt =====
-- commit of log.c, when the machine stops at one of its writes.
use os_system_calls_scheduli.Base.{
  ℕ, suc, ◌+◌, ◌≤◌, ◌≡◌, refl, ◌⊎◌, inl, inr, ◌∙◌, false, List, [], ◌∷◌, ◌++◌, All, ◌==◌, ==_refl,
  if◌then◌else◌, length, take, arith, Bool-cases, ltb,
}
use os_system_calls_scheduli.Log.{Log, write_head, commit, commit_blocks, recover_from_log}
use os_system_calls_scheduli.Log.Disk.{
  Block, Machine, bread, bwrite, update, restart, encode, decode, decode-encode, mem,
}
use os_system_calls_scheduli.Log.Trace.{
  Writes, apply_all, write_all, log_writes, home_writes, Avoids, Avoids-take, apply_all-Avoids,
  write_all-append, apply_all-append, disk-write_all, bread-write_all,
}
use os_system_calls_scheduli.Log.Phases.{
  Away-ne_sym, Holds, Holds-cong, install_from_lem, take-append_cases, take-nil, bread-bwrite_ne,
  log_writes-Avoids, apply_all-log_writes, write_log_from_lem,
}
use os_system_calls_scheduli.Log.Recovery.{
  Home, log_end, Restores, partly_installed, installed, cleared_head, empty-Restores, unchanged,
  recover_interrupted, recover_from_log_lem,
}

-- The logged blocks are home blocks, and the log has room for them.
pub record Fits (g : Log) : Type 0 where
  pub room : length g.lh + 1 ≤ g.size
  pub homes : All (Home g) g.lh

-- The contents of a buffer as bread gives it.
abbrev pub buffers : Machine → ℕ → Block
buffers m b = bread b m

-- The home blocks when the transaction has been made.
abbrev pub committed : Log → Machine → ℕ → Block
committed g m b = if mem b g.lh then bread b m else m.disk b

-- The writes of a commit, for the two headers that it writes.
abbrev commit_writes : Log → Machine → Block → Block → Writes
commit_writes g m h h' =
    log_writes (suc g.start) (buffers m) g.lh
    ++ ((g.start, h) ∷ (home_writes (buffers m) g.lh ++ ((g.start, h') ∷ [])))

agrees : (m : Machine) (bs : List ℕ) → All (λ b. bread b m ≡ bread b m) bs
agrees m [] = tt
agrees m (b ∷ bs) = (refl, agrees m bs)

-- After write_log and write_head, bread finds the blocks in the log.
logged-Holds :
    (g : Log) (m : Machine) (h : Block)
    → Holds
        (suc g.start)
        (buffers m)
        g.lh
        (λ x. bread x (bwrite g.start h (write_all (log_writes (suc g.start) (buffers m) g.lh) m)))
logged-Holds g m h =
    let ws = log_writes (suc g.start) (buffers m) g.lh in
    Holds-cong (suc g.start) (buffers m) g.lh (apply_all ws (buffers m))
      (λ x. bread x (bwrite g.start h (write_all ws m)))
      (λ x l u.
        bread-bwrite_ne g.start h (write_all ws m) x (ground arith) ∙ bread-write_all ws m x)
      (apply_all-log_writes (suc g.start) (buffers m) g.lh (buffers m))

commit-trace :
    (g : Log) (m : Machine)
    → Fits g
    → (h : Block) × (h' : Block) × (decode h ≡ g.lh)
      × (decode h' ≡ [])
      × ((commit_blocks g m).1 ≡ write_all (commit_writes g m h h') m)
unfolding commit_blocks write_head write_all
commit-trace g m r =
    let ws = log_writes (suc g.start) (buffers m) g.lh in
    let hs = home_writes (buffers m) g.lh in
    let m1 = write_all ws m in
    let h = encode g.lh (bread g.start m1) in
    let m2 = bwrite g.start h m1 in
    let m3 = write_all hs m2 in
    let h' = encode [] (bread g.start m3) in
    (
      h,
      h',
      decode-encode g.lh (bread g.start m1),
      decode-encode [] (bread g.start m3),
      rw
          (
            write_log_from_lem g.start (log_end g) (suc g.start) (buffers m) g.lh m (omega arith)
                (omega (arith, r.room)) r.homes (agrees m g.lh),
            install_from_lem g.start (log_end g) (suc g.start) (buffers m) g.lh m2 (omega arith)
                (omega (arith, r.room)) r.homes (logged-Holds g m h),
            write_all-append ws ((g.start, h) ∷ (hs ++ ((g.start, h') ∷ []))) m,
            write_all-append hs ((g.start, h') ∷ []) m2,
          )
          refl,
    )

log_only :
    (g : Log) (m : Machine) (b : ℕ)
    → Fits g
    → Home g b
    → Avoids b (log_writes (suc g.start) (buffers m) g.lh)
log_only g m b r a = log_writes-Avoids (suc g.start) (buffers m) g.lh b (ground (arith, r.room))

-- From write_head on, the disk stands for the new blocks.
logged-Restores :
    (g : Log) (m : Machine) (h : Block)
    → Fits g
    → decode h ≡ g.lh
    → Restores g
        (committed g m)
        (update (apply_all (log_writes (suc g.start) (buffers m) g.lh) m.disk) g.start h)
logged-Restores g m h r e =
    let ws = log_writes (suc g.start) (buffers m) g.lh in
    let d = apply_all ws m.disk in
    record {
      logged = g.lh;
      images = buffers m;
      head = rw (==_refl g.start) e;
      fits = r.room;
      homes = r.homes;
      holds =
          Holds-cong (suc g.start) (buffers m) g.lh d (update d g.start h)
            (λ x l u. let ne : (x == g.start) ≡ false = ground arith in rw ne refl)
            (apply_all-log_writes (suc g.start) (buffers m) g.lh m.disk);
      stands = λ b a.
          unchanged (mem b g.lh) (bread b m)
            (λ _.
              let ne =
                Away-ne_sym g.start (log_end g) b g.start a (omega arith) (omega (arith, r.room)) in
              rw ne (apply_all-Avoids ws m.disk b (log_only g m b r a)))
            refl;
    }

-- Before write_head, the disk stands for the old blocks.
unlogged-Restores :
    (g : Log) (m : Machine) (n : ℕ)
    → Fits g
    → decode (m.disk g.start) ≡ []
    → Restores g m.disk (apply_all (take n (log_writes (suc g.start) (buffers m) g.lh)) m.disk)
unlogged-Restores g m n r e =
    let ws = log_writes (suc g.start) (buffers m) g.lh in
    let keep : (x : ℕ) → Avoids x ws → apply_all (take n ws) m.disk x ≡ m.disk x =
      λ x a. apply_all-Avoids (take n ws) m.disk x (Avoids-take n x ws a) in
    empty-Restores g m.disk (apply_all (take n ws) m.disk) (omega (arith, r.room))
      (rw
        (keep g.start
          (log_writes-Avoids (suc g.start) (buffers m) g.lh g.start (inl (omega arith))))
        e)
      (λ b a. keep b (log_only g m b r a))

commit_blocks-Restores :
    (g : Log) (m : Machine)
    → Fits g
    → decode (m.disk g.start) ≡ []
    → Restores g m.disk (commit_blocks g m).1.disk
      ⊎ Restores g (committed g m) (commit_blocks g m).1.disk
unfolding apply_all logged-Restores
commit_blocks-Restores g m r e =
    let (h, h', eh, eh', t) = commit-trace g m r in
    let ws = log_writes (suc g.start) (buffers m) g.lh in
    let hs = home_writes (buffers m) g.lh in
    let d = update (apply_all ws m.disk) g.start h in
    let new = logged-Restores g m h r eh in
    rw (t, disk-write_all (commit_writes g m h h') m)
      (elim (take-append_cases m.power ws (g.start, h) (hs ++ ((g.start, h') ∷ []))) [
        | inl (few, part) ↦ rw part (inl (unlogged-Restores g m m.power r e))
        | inr (more, (k, part)) ↦
            rw
              (
                part,
                apply_all-append ws ((g.start, h) ∷ take k (hs ++ ((g.start, h') ∷ []))) m.disk,
              )
              (inr (elim (take-append_cases k hs (g.start, h') []) [
                | inl (few, rest) ↦ rw rest (partly_installed g (committed g m) d new k)
                | inr (all, (j, rest)) ↦
                    rw (rest, take-nil j)
                      (empty-Restores g (committed g m) (apply_all (hs ++ ((g.start, h') ∷ [])) d)
                        (omega (arith, r.room)) (cleared_head g d hs h' eh')
                        (installed g (committed g m) d new h' eh'))
              ]))
      ])

-- Wherever the machine stops in a commit, the disk stands for all of the old blocks or for all of
-- the new ones.
pub commit-Restores :
    (g : Log) (m : Machine)
    → Fits g
    → decode (m.disk g.start) ≡ []
    → Restores g m.disk (commit g m).1.disk ⊎ Restores g (committed g m) (commit g m).1.disk
unfolding commit
commit-Restores g m r e = elim (Bool-cases (ltb 0 (length g.lh))) [
  | inl some_logged ↦ rw some_logged (commit_blocks-Restores g m r e)
  | inr none_logged ↦
      rw none_logged (inl (empty-Restores g m.disk m.disk (omega (arith, r.room)) e (λ b a. refl)))
]

-- A commit that may stop at any write, and then a recovery that may stop at any write, and then a
-- recovery with the power that it needs, leave the home blocks all old or all new, for a log that
-- was empty on the disk and whose blocks fit.
pub commit_atomic :
    (g : Log) (m : Machine) (n k : ℕ)
    → Fits g
    → decode (m.disk g.start) ≡ []
    → g.size ≤ k
    → let crashed = (commit g m).1 in
      let again = (recover_from_log g (restart n crashed)).1 in
      let d = (recover_from_log g (restart k again)).1.disk in
      ((b : ℕ) → Home g b → d b ≡ m.disk b) ⊎ ((b : ℕ) → Home g b → d b ≡ committed g m b)
commit_atomic g m n k r e enough =
    let crashed = (commit g m).1 in
    let again = (recover_from_log g (restart n crashed)).1 in
    elim (commit-Restores g m r e) [
      | inl old ↦
          inl
            (recover_from_log_lem g m.disk again k (recover_interrupted g m.disk crashed n old)
              enough).1
      | inr new ↦
          let f = committed g m in
          inr (recover_from_log_lem g f again k (recover_interrupted g f crashed n new) enough).1
    ]
