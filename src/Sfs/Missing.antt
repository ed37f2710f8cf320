-- ===== src/Sfs/Missing.antt =====
-- The operations of sfs.c on a path that leads nowhere, and on one that exists already.
use os_fuse.Base.{ℕ, ◌<◌, ◌≡◌, refl, ap, ℤ, is_neg, true, Bool, List, ◌∷◌, length}
use os_fuse.Memory.{Bytes}
use os_fuse.CString.{path_max}
use os_fuse.State.{Sys, enoent}
use os_fuse.Resolve.{path_to_inum}
use os_fuse.Resolve.Quiet.{Quiet, path_to_inum-Quiet}
use os_fuse.Resolve.Names.{AllNames, Spells}
use os_fuse.Resolve.Trimmed.{path_text}
use os_fuse.Resolve.Nowhere.{Nowhere, path_to_inum-Nowhere}
use os_fuse.Sfs.{sfs_unlink, sfs_open, sfs_opendir, sfs_read, sfs_write, sfs_truncate}

-- The number and the state of a failing operation.
abbrev pub Refused : ℤ → Sys → ℤ × Sys → Type 0
Refused e s (retstat, t) = (retstat ≡ e) × Quiet s t

refused :
    (path buf : Bytes) (size offset : ℕ) (s : Sys)
    → is_neg (path_to_inum path s).0 ≡ true
    → Refused enoent s (sfs_unlink path s)
      × Refused enoent s (sfs_open path s)
      × Refused enoent s (sfs_opendir path s)
      × (let (retstat, filled, t) = sfs_read path buf size offset s in
          Refused enoent s (retstat, t) × (filled ≡ buf))
      × Refused enoent s (sfs_write path buf size offset s)
      × Refused enoent s (sfs_truncate path offset s)
unfolding sfs_unlink sfs_open sfs_opendir sfs_read sfs_write sfs_truncate
refused path buf size offset s neg =
    let q = path_to_inum-Quiet path s in
    rw neg ((refl, q), (refl, q), (refl, q), ((refl, q), refl), (refl, q), (refl, q))

-- Let a path be the text of at least one name, each with a slash in front, with or without a slash
-- at the end and shorter than PATH_MAX. Let each name but the last be found in the directory that
-- the one before it gave, from the root on, and let no entry of the last directory have the last
-- name, which is not ".". Then unlink, open, opendir, read, write and truncate of the path each
-- return -ENOENT, and of the state each changes the static array of directory entries alone; read
-- leaves the caller's buffer as it was.
pub sfs_missing :
    (path buf : Bytes) (size offset : ℕ) (name : List ℕ) (more : List (List ℕ)) (slashed : Bool)
    (s : Sys)
    → AllNames (name ∷ more)
    → length (path_text (name ∷ more) slashed) < path_max
    → Spells path 0 (path_text (name ∷ more) slashed)
    → Nowhere s name more 2
    → Refused enoent s (sfs_unlink path s)
      × Refused enoent s (sfs_open path s)
      × Refused enoent s (sfs_opendir path s)
      × (let (retstat, filled, t) = sfs_read path buf size offset s in
          Refused enoent s (retstat, t) × (filled ≡ buf))
      × Refused enoent s (sfs_write path buf size offset s)
      × Refused enoent s (sfs_truncate path offset s)
sfs_missing path buf size offset name more slashed s all short spells nowhere =
    refused path buf size offset s
      (ap is_neg (path_to_inum-Nowhere path name more slashed s all short spells nowhere))
