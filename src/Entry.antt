-- ===== src/Entry.antt =====
-- dnode_entry_get, fnode_entry_get and their setters (prelude/inode.c): access to one entry of a
-- list. No other function calls them. A read behind the end of an object gives 0 here; in C it is
-- undefined.
mod Located
pub mod Agree
use os_fuse.Base.{ℕ, ◌+◌, ◌-◌, ◌*◌, ◌/◌, ◌%◌, ℤ, pos, negsuc, Bool, true, false, leb, if◌then◌else◌}
use os_fuse.Memory.{Bytes, zeros, at, get_u16, get_u32, put_u32, memcpy, object}
use os_fuse.State.{Sys}
use os_fuse.Inode.{slot_load, slot_dump, size_at, direct_at, pages_at, indexes_at, di_ent_c}
use os_fuse.Listing.{Layout, dir_layout, file_layout}

module _ (L : Layout) where
  open L use {entry_size, direct, per_page}

  -- The slot that holds the entry at `offset` of inode `inum`, and the entry's place in it in
  -- bytes.
  unfoldable pub locate : (inum offset : ℕ) → Sys → ℕ × ℕ
  locate inum offset s =
      let node = slot_load inum s in
      let lv2 = offset - direct - 4 * per_page in
      let lv1 = offset - direct in
      let ids = slot_load (get_u16 node (indexes_at + 2 * (lv2 / 64 * per_page))) s in
      if leb (direct + 4 * per_page) offset
      then (get_u16 ids (2 * (lv2 / per_page)), lv2 % per_page * entry_size)
      else if leb direct offset
      then (get_u16 node (pages_at + 2 * (lv1 / per_page)), lv1 % per_page * entry_size)
      else (inum, direct_at + offset * entry_size)

  unfoldable pub entry_get : (inum offset : ℕ) → Sys → Bytes
  unfolding locate
  entry_get inum offset s =
      let (slot, place) = locate inum offset s in object (at (slot_load slot s) place) entry_size

  unfoldable pub entry_set : (inum offset : ℕ) → Bytes → Sys → Sys
  unfolding locate
  entry_set inum offset entry s =
      let (slot, place) = locate inum offset s in
      slot_dump slot (memcpy (slot_load slot s) place entry entry_size) s

unfoldable pub dnode_entry_get : (inum offset : ℕ) → Sys → Bytes
unfolding entry_get
dnode_entry_get inum offset s =
    if leb (get_u16 (slot_load inum s) size_at) offset
    then di_ent_c zeros 0
    else entry_get dir_layout inum offset s

-- A negative offset reads as no block.
unfoldable pub fnode_entry_get : ℕ → ℤ → Sys → ℕ
unfolding entry_get
fnode_entry_get inum (pos offset) s =
    if leb (get_u16 (slot_load inum s) size_at) offset
    then 0
    else get_u32 (entry_get file_layout inum offset s) 0
fnode_entry_get inum (negsuc n) s = 0

unfoldable pub dnode_entry_set : (inum offset : ℕ) → Bytes → ℕ → Sys → Bool × Sys
unfolding entry_set
dnode_entry_set inum offset filename ino s =
    if leb (get_u16 (slot_load inum s) size_at) offset
    then (false, s)
    else (true, entry_set dir_layout inum offset (di_ent_c filename ino) s)

unfoldable pub fnode_entry_set : (inum offset blknum : ℕ) → Sys → Bool × Sys
unfolding entry_set
fnode_entry_set inum offset blknum s =
    if leb (get_u16 (slot_load inum s) size_at) offset
    then (false, s)
    else (true, entry_set file_layout inum offset (put_u32 zeros 0 blknum) s)
