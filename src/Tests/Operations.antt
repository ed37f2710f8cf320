-- ===== src/Tests/Operations.antt =====
-- The operations on a path, applied to the formatted disk.
use os_fuse.Base.{ℕ, zero, suc, List, [], ◌∷◌}
use os_fuse.Memory.{Bytes}
use os_fuse.Resolve.{path_to_inum}
use os_fuse.Resolve.Quiet.{Quiet, path_to_inum-Quiet}
use os_fuse.Tests.{formatted}

-- A text with its end mark.
abbrev c_string : List ℕ → Bytes
c_string [] i = 0
c_string (c ∷ cs) zero = c
c_string (c ∷ cs) (suc i) = c_string cs i

abbrev path_a : Bytes
path_a = c_string (b'/' ∷ b'a' ∷ [])

path_to_inum-Quiet_example : Quiet formatted (path_to_inum path_a formatted).2
path_to_inum-Quiet_example = path_to_inum-Quiet path_a formatted
