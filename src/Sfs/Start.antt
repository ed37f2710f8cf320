-- ===== src/Sfs/Start.antt =====
-- main, the usage text and sfs_destroy of sfs.c. fuse_main is an argument: it takes the arguments
-- that are left and the name of the disk file, and gives the status. `none` is abort().
use os_fuse.Base.{ℤ, Option, none, some, Bool, ◌==◌, if◌then◌else◌, List, [], ◌∷◌, ◌++◌}
use os_fuse.Memory.{Bytes, get_u8}
use os_fuse.Device.{Posix, disk_close}

-- `s[0] == '-'`
abbrev is_option : Bytes → Bool
is_option s = get_u8 s 0 == b'-'

-- The arguments but the last two, and these.
unfoldable pub last_two : (argv : List Bytes) → Option (List Bytes × Bytes × Bytes)
last_two [] = none
last_two (a ∷ []) = none
last_two (a ∷ b ∷ []) = some ([], a, b)
last_two (a ∷ b ∷ c ∷ argv) = elim (last_two (b ∷ c ∷ argv)) [
  | none ↦ none
  | some (front, x, y) ↦ some (a ∷ front, x, y)
]

-- Less than three arguments, or an option among the last two, end in sfs_usage. `allocated` tells
-- whether malloc gives the memory of `sfs_data`.
unfoldable pub main :
    (fuse_main : List Bytes → (diskfile : Bytes) → ℤ) (allocated : Bool) → List Bytes → Option ℤ
unfolding last_two
main fuse_main allocated argv = elim (last_two argv) [
  | none ↦ none
  | some ([], disk, mount) ↦ none
  | some (name ∷ front, disk, mount) ↦
      if is_option disk
      then none
      else if is_option mount
      then none
      else if allocated
      then some (fuse_main (name ∷ front ++ mount ∷ []) disk)
      else none
]

unfoldable pub sfs_destroy : (P : Posix) → ℤ × P.File → ℤ × P.File
sfs_destroy P disk = disk_close P disk
