-- ===== src/Tests/Files.antt =====
-- Files of fs.c at concrete inputs.
use os_system_calls_scheduli.Base.{
  ℕ, ◌-◌, ◌≤◌, ◌≡◌, refl, true, false, List, [], ◌∷◌, ltb, min, subst, dec_lt, arith,
}
use os_system_calls_scheduli.Fs.{
  Fs, Inode, itrunc, balloc, balloc_from, bzero, bmap, direct_addr, stored_at, bytes_at,
  store_bytes, write_chunk, write_loop, grow, written, Result, done, fails, panics, readi, writei,
}
use os_system_calls_scheduli.Fs.Slots.{slot, content, IsMapped}
use os_system_calls_scheduli.Fs.Bmap.{Mapping, bmap-Mapping}
use os_system_calls_scheduli.Fs.Read.{IsFile, readi_lem}
use os_system_calls_scheduli.File.{filewrite_inode}
use os_system_calls_scheduli.File.Offset.{SentAs, filewrite_inode-SentAs}
use os_system_calls_scheduli.Fs.Truncate.{Truncated, itrunc-Truncated}
use os_system_calls_scheduli.Fs.Files.{Outcome, writei-Outcome, readi-writei}

-- A disk of 20 blocks whose first ten are in use, and an empty file.
abbrev disk : Fs
disk = record { size = 20; used = λ b. ltb b 10; blocks = λ b i. 7 }

abbrev empty : Inode
empty = record { size = 0; addrs = λ k. 0 }

no_slot : (k : ℕ) → slot disk empty k ≡ 0
unfolding slot
no_slot k = elim (dec_lt k 13) [
  | yes l ↦ let e : ltb k 13 ≡ true = ground arith in rw e refl
  | no nl ↦ let e : ltb k 13 ≡ false = ground arith in rw e refl
]

empty-IsMapped : IsMapped disk empty
empty-IsMapped = record {
  small = omega arith;
  boot = refl;
  taken = λ k h n. absurd (n (no_slot k));
  apart = λ j k hj hk n e. absurd (n (no_slot j));
}

empty-IsFile : IsFile disk empty
empty-IsFile = record {
  mapped = empty-IsMapped;
  fits = omega arith;
  whole = λ o h. absurd (omega arith);
}

bmap-Mapping_example : Mapping disk empty 13 (bmap 12 empty disk)
bmap-Mapping_example = bmap-Mapping disk empty 12 empty-IsMapped (omega arith)

abbrev hi : List ℕ
hi = b'h' ∷ b'i' ∷ []

writei-Outcome_example : Outcome disk empty 0 hi (writei 0 hi empty disk)
writei-Outcome_example = writei-Outcome 0 hi empty disk empty-IsFile (omega arith) (omega arith)

-- What writei leaves.
abbrev inode_of : Result (Inode × Fs) → Inode
inode_of (done (ip, f)) = ip
inode_of fails = empty
inode_of panics = empty

abbrev disk_of : Result (Inode × Fs) → Fs
disk_of (done (ip, f)) = f
disk_of fails = disk
disk_of panics = disk

abbrev filled : Inode
filled = inode_of (writei 0 hi empty disk)

abbrev filled_disk : Fs
filled_disk = disk_of (writei 0 hi empty disk)

writes_hi : writei 0 hi empty disk ≡ done (filled, filled_disk)
unfolding writei write_loop write_chunk written grow store_bytes bmap direct_addr stored_at balloc
    balloc_from bzero
writes_hi = refl

readi-writei_example : readi 0 2 filled filled_disk ≡ done (hi, filled, filled_disk)
readi-writei_example =
    readi-writei 0 hi empty disk filled filled_disk empty-IsFile (omega arith) (omega arith)
      writes_hi

-- The file that was written, given that it is one.
filled-IsFile : IsFile filled_disk filled
filled-IsFile =
    let (a, b, w, s, c, d) = subst (Outcome disk empty 0 hi) writes_hi writei-Outcome_example in w

filled_size : filled.size ≡ 2
unfolding writei write_loop write_chunk written grow store_bytes bmap direct_addr stored_at balloc
    balloc_from bzero
filled_size = refl

one_fits : 1 ≤ filled.size
one_fits = let s = filled_size in omega arith

readi_lem_example :
    readi 1 5 filled filled_disk
    ≡ done (bytes_at 1 (min 5 (filled.size - 1)) (content filled_disk filled), filled, filled_disk)
readi_lem_example = readi_lem 1 5 filled filled_disk filled-IsFile one_fits (omega arith)

filewrite_inode-SentAs_example : SentAs 0 hi empty disk (filewrite_inode 0 hi empty disk)
filewrite_inode-SentAs_example = filewrite_inode-SentAs 0 hi empty disk empty-IsFile (omega arith)

itrunc-Truncated_example : Truncated filled_disk filled (itrunc filled filled_disk)
itrunc-Truncated_example = itrunc-Truncated filled_disk filled filled-IsFile.mapped
