-- ===== src/Tests/OpenFiles.antt =====
-- The file table of file.c at a concrete input.
use os_system_calls_scheduli.Base.{◌≡◌, refl, [], ◌∷◌, some, replicate, false, arith}
use os_system_calls_scheduli.File.{
  Ftable, no_file, find_unused, allocated, filealloc, filedup, pipeclose, closing, fileclose, File,
  fd_pipe,
}
use os_system_calls_scheduli.File.Handles.{Held, start, alloc, fill, dup, Sound, Held-Sound}

-- The second of two entries: a pipe with two pointers to it, one of them closed again.
abbrev pipe_file : File
pipe_file = record (no_file) { type = fd_pipe; ref = 1; pipe = 5 }

abbrev opened : Ftable
opened = record (no_file) { ref = 1 } ∷ no_file ∷ []

abbrev piped : Ftable
piped = pipe_file ∷ no_file ∷ []

abbrev shared : Ftable
shared = record (pipe_file) { ref = 2 } ∷ no_file ∷ []

opens : filealloc (replicate 2 no_file) ≡ some (0, opened)
unfolding filealloc find_unused allocated
opens = refl

shares : filedup 0 piped ≡ some shared
unfolding filedup
shares = refl

shared-Held : Held shared (0 ∷ 0 ∷ [])
shared-Held =
    dup 0 shared (fill 0 pipe_file (alloc 0 opened (start 2) opens) (omega arith) refl)
      (omega arith) shares

Held-Sound_example : Sound shared (0 ∷ 0 ∷ [])
Held-Sound_example = Held-Sound shared (0 ∷ 0 ∷ []) shared-Held

last_closes :
    fileclose 0 piped ≡ some (pipeclose 5 false, record (no_file) { pipe = 5 } ∷ no_file ∷ [])
unfolding fileclose closing
last_closes = refl
