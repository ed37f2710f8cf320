-- ===== src/Resolve.antt =====
-- Path lookup (prelude/path.c).
pub mod Quiet
pub mod Ends
pub mod Lookup
pub mod Names
pub mod Entries
pub mod Removed
pub mod Unique
pub mod Text
pub mod Trimmed
pub mod Whole
pub mod Along
pub mod Nowhere
pub mod Basename
use os_fuse.Base.{
  ℕ, zero, suc, ◌+◌, ◌-◌, ◌*◌, ℤ, pos, negsuc, to_ushort, Option, none, some, Bool, true, false,
  ltb, ◌==◌, if◌then◌else◌,
}
use os_fuse.Memory.{Bytes, at, get_u8, get_u16, put_u8}
use os_fuse.CString.{path_max, slash, equal_strings, strlen, strrchr}
use os_fuse.State.{Sys}
use os_fuse.Inode.{dot}
use os_fuse.Listing.{dnode_listing}
use os_fuse.Directory.{di_ent_size}

-- What stands behind the last slash, or the whole path.
unfoldable pub path_basename : Bytes → Bytes
path_basename path = elim (strrchr path slash) [ some i ↦ at path (i + 1) | none ↦ path ]

-- The loop over the entries of a directory: the inode number of the first with that name.
unfoldable pub find_entry : (path d : Bytes) (rounds i : ℕ) → ℤ
find_entry path d zero i = negsuc 0
find_entry path d (suc k) i =
    let entry = at d (i * di_ent_size) in
    let rest = find_entry path d k (i + 1) in
    if equal_strings 14 0 path entry then pos (get_u16 entry 14) else rest

-- `strcmp(path, ".")` looks at two characters at most.
unfoldable pub path_to_inum_elem : Bytes → ℕ → Sys → ℤ × Sys
unfolding find_entry
path_to_inum_elem path dest s =
    let (size, listed) = dnode_listing dest s in
    if ltb dest 2
    then (negsuc 0, s)
    else if equal_strings 2 0 path dot
    then (pos dest, s)
    else (find_entry path listed.dir_list size 0, listed)

-- The variables of the loop of path_to_inum. `inum` is converted to `ushort` at each call.
pub record Walk : Type 0 where
  pub path_dup : Bytes
  pub head : ℕ
  pub tail : ℕ
  pub inum : ℤ
  pub sys : Sys

-- The body of the loop.
unfoldable pub walk_step : Walk → Walk
unfolding path_to_inum_elem
walk_step w =
    let cut = put_u8 w.path_dup w.tail 0 in
    let (found, s) = path_to_inum_elem (at cut w.head) (to_ushort w.inum) w.sys in
    let entered = record w {
      path_dup = cut;
      head = w.tail + 1;
      tail = w.tail + 1;
      inum = found;
      sys = s;
    } in
    if get_u8 w.path_dup w.tail == slash then entered else record w { tail = w.tail + 1 }

-- Each round moves `tail` on, so `path_max` rounds reach the end of the path.
unfoldable pub walk : ℕ → Walk → Walk
unfolding walk_step
walk zero w = w
walk (suc k) w =
    let rest = walk k (walk_step w) in if get_u8 w.path_dup w.tail == 0 then w else rest

-- The inode number of the path and that of its parent, -1 for none.
unfoldable pub path_to_inum : Bytes → Sys → ℤ × ℤ × Sys
unfolding walk path_to_inum_elem
path_to_inum path s =
    let last = strlen path - 1 in
    let path_dup = if get_u8 path last == slash then put_u8 path last 0 else path in
    let start : Walk = record { path_dup = path_dup; head = 1; tail = 1; inum = pos 2; sys = s } in
    let w = walk path_max start in
    let (found, s') = path_to_inum_elem (at w.path_dup w.head) (to_ushort w.inum) w.sys in
    if w.head == w.tail then (w.inum, w.inum, w.sys) else (found, w.inum, s')
