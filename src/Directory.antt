-- ===== src/Directory.antt =====
-- dnode_append and dnode_remove of prelude/inode.c.
pub mod Append
pub mod Create
pub mod Remove
use os_fuse.Base.{ℕ, zero, suc, ◌+◌, ◌-◌, ◌*◌, ℤ, to_ushort, if◌then◌else◌}
use os_fuse.Memory.{Bytes, zeros, at, get_u16, put_u16, memcpy}
use os_fuse.CString.{equal_strings}
use os_fuse.State.{Sys}
use os_fuse.Inode.{inode_load, inode_dump, nlink_at}
use os_fuse.Listing.{dnode_listing, dnode_listing_set}

-- sizeof(struct di_ent)
abbrev pub di_ent_size : ℕ
di_ent_size = 16

-- `nlink += change`, in 16 bits, through load and dump.
unfoldable pub bump_nlink : ℤ → ℕ → Sys → Sys
bump_nlink inum change s =
    let node = inode_load inum zeros s in
    inode_dump inum (put_u16 node nlink_at (get_u16 node nlink_at + change)) s

unfoldable pub dnode_append : ℤ → Bytes → Sys → Sys
unfolding bump_nlink
dnode_append inum new_item s =
    let (size, s) = dnode_listing (to_ushort inum) s in
    let s = record s { dir_list = memcpy s.dir_list (size * di_ent_size) new_item di_ent_size } in
    let s = dnode_listing_set (to_ushort inum) (size + 1) s in bump_nlink inum 1 s

-- The loop over the entries. It goes on behind a match, and its end does not move.
unfoldable pub remove_loop : (inum : ℤ) (filename : Bytes) (size rounds i : ℕ) → Sys → Sys
unfolding bump_nlink
remove_loop inum filename size zero i s = s
remove_loop inum filename size (suc k) i s =
    let last = at s.dir_list ((size - 1) * di_ent_size) in
    let moved = record s { dir_list = memcpy s.dir_list (i * di_ent_size) last di_ent_size } in
    let removed = bump_nlink inum 65535 (dnode_listing_set (to_ushort inum) (size - 1) moved) in
    remove_loop inum filename size k (i + 1)
      (if equal_strings 13 0 (at s.dir_list (i * di_ent_size)) filename then removed else s)

unfoldable pub dnode_remove : ℤ → Bytes → Sys → Sys
unfolding remove_loop
dnode_remove inum filename s =
    let (size, s) = dnode_listing (to_ushort inum) s in remove_loop inum filename size size 0 s
