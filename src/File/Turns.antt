-- ===== src/File/Turns.antt =====
-- The loop of `filewrite` (xv6/file.c): transactions that follow one another write one array of bytes.
use operation_system.Base.{ℕ, ◌+◌, ◌*◌, ◌<◌, ◌≡◌, ◌⊎◌}
use operation_system.Fs.{Fs, bsize}
use operation_system.Fs.Content.Round.{spliced}
use operation_system.Fs.Content.Map.{Full}
use operation_system.Fs.Icache.{Kern, inode}
use operation_system.File.{
  File, FileIo, refused, panic, wait, to_device, to_pipe, moved, wrote, cut,
}
use operation_system.File.Write.{IsReady, file_byte}

-- What a call of `filewrite` comes to, with `i` bytes written before and `n` left: all are written; or
-- it fails, with a first part written and the offset behind that, where the offset is behind the end of
-- the file or the file would get too long; or it panics
-- and no block of the disk is free.
abbrev pub WriteEnds : Kern → ℕ → (ℕ → ℕ) → ℕ → ℕ → ℕ → FileIo → Type 0
WriteEnds k ino src off n i (wrote k' off' m) =
    (off' ≡ off + n)
    × (m ≡ i + n)
    × IsReady k' ino
    × ((j : ℕ) → j < 140 * bsize → file_byte k' ino j ≡ spliced (file_byte k ino) src off n j)
WriteEnds k ino src off n i refused = ⊥
WriteEnds k ino src off n i (cut k' off') =
    (d : ℕ) × (off' ≡ off + d)
    × (d < n)
    × IsReady k' ino
    × ((j : ℕ) → j < 140 * bsize → file_byte k' ino j ≡ spliced (file_byte k ino) src off d j)
    × (((inode k ino).d.size < off) ⊎ (140 * bsize < off + n))
WriteEnds k ino src off n i panic = (fs : Fs) × Full fs
WriteEnds k ino src off n i wait = ⊥
WriteEnds k ino src off n i to_device = ⊥
WriteEnds k ino src off n i (to_pipe p) = ⊥
WriteEnds k ino src off n i (moved k' off' bytes) = ⊥
