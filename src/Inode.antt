-- ===== src/Inode.antt =====
-- The 128-byte inode slots of prelude/inode.c, four to a block, and their fields
-- (`union inode_t` of prelude/inode.h, by offsets).
pub mod Slots
pub mod Attributes
use os_fuse.Base.{
  ℕ, ◌+◌, ◌*◌, ◌/◌, ◌%◌, ◌-◌, ℤ, pos, negsuc, to_int, to_word, Option, none, some, ltb, leb, ◌==◌,
  Bool, if◌then◌else◌, not,
}
use os_fuse.Memory.{
  Bytes, zeros, at, get_u8, get_u16, get_u32, put_u8, put_u16, put_u32, memcpy, object,
}
use os_fuse.State.{Sys, block_read, block_write}

abbrev pub inode_size : ℕ
inode_size = 128

abbrev pub inode_blk_size : ℕ
inode_blk_size = 1024

abbrev pub block_size : ℕ
block_size = 512

abbrev pub dentry_max_size : ℕ
dentry_max_size = 2086

abbrev pub fentry_max_size : ℕ
fentry_max_size = 8344

abbrev pub fcontent_max_size : ℕ
fcontent_max_size = fentry_max_size * block_size

-- The fields of `union metadata`, `struct di_ent` and the `union inode_t` around them: offsets.
abbrev pub ino_at : ℕ
ino_at = 0

abbrev pub pno_at : ℕ
pno_at = 2

abbrev pub size_at : ℕ
size_at = 4

abbrev pub nlink_at : ℕ
nlink_at = 6

abbrev pub fsize_at : ℕ
fsize_at = 8

abbrev pub isdir_at : ℕ
isdir_at = 12

-- idir.dinum and ifile.blknum
abbrev pub direct_at : ℕ
direct_at = 16

-- idir.dpnum and ifile.fpnum
abbrev pub pages_at : ℕ
pages_at = 112

-- idir.ex_dpnum and ifile.ex_fpnum
abbrev pub indexes_at : ℕ
indexes_at = 120

-- The slot of inode `n`, and the disk with that slot overwritten.
unfoldable pub slot_load : ℕ → Sys → Bytes
slot_load n s = object (at (block_read (n / 4) s) (n % 4 * inode_size)) inode_size

unfoldable pub slot_dump : ℕ → Bytes → Sys → Sys
slot_dump n node s =
    block_write (n / 4) (memcpy (block_read (n / 4) s) (n % 4 * inode_size) node inode_size) s

-- A negative number leaves the caller's buffer, or the disk, alone.
unfoldable pub inode_load : ℤ → Bytes → Sys → Bytes
inode_load (pos n) node s = slot_load n s
inode_load (negsuc n) node s = node

unfoldable pub inode_dump : ℤ → Bytes → Sys → Sys
inode_dump (pos n) node s = slot_dump n node s
inode_dump (negsuc n) node s = s

-- `struct di_ent`: a name of 14 bytes with its end mark, and an inode number.
unfoldable pub di_ent_c : Bytes → ℕ → Bytes
di_ent_c filename inum = put_u16 (put_u8 (memcpy zeros 0 filename 14) 13 0) 14 inum

-- The names "." and "..".
abbrev pub dot : Bytes
dot = put_u8 zeros 0 b'.'

abbrev pub dot_dot : Bytes
dot_dot = put_u8 dot 1 b'.'

-- The image that dnode_init writes.
abbrev pub dnode_image : ℕ → ℕ → Bytes
dnode_image inum pnum =
    let node = put_u16 (put_u8 zeros isdir_at 1) nlink_at 2 in
    let node = put_u16 (put_u16 node ino_at inum) pno_at pnum in
    let node = put_u16 node size_at 2 in
    let node = memcpy node direct_at (put_u16 dot 14 inum) 16 in
    memcpy node (direct_at + 16) (put_u16 dot_dot 14 pnum) 16

unfoldable pub dnode_init : ℕ → ℕ → Sys → Sys
dnode_init inum pnum s = slot_dump inum (dnode_image inum pnum) s

abbrev pub fnode_image : ℕ → ℕ → Bytes
fnode_image inum pnum =
    let node = put_u16 (put_u8 zeros isdir_at 0) nlink_at 1 in
    let node = put_u16 (put_u16 node ino_at inum) pno_at pnum in
    put_u32 (put_u16 node size_at 0) fsize_at 0

unfoldable pub fnode_init : ℕ → ℕ → Sys → Sys
fnode_init inum pnum s = slot_dump inum (fnode_image inum pnum) s

-- S_IFDIR | 0755 and S_IFREG | 0644
abbrev pub dir_mode : ℕ
dir_mode = 0o40755

abbrev pub file_mode : ℕ
file_mode = 0o100644

-- The fields of `struct stat` that the code sets.
pub record Stat : Type 0 where
  pub st_blksize : ℕ
  pub st_mode : ℕ
  pub st_nlink : ℕ
  pub st_blocks : ℕ
  pub st_size : ℕ

unfoldable pub inode_get_attr : ℕ → Sys → Stat
inode_get_attr inum s =
    let node = slot_load inum s in
    if get_u8 node isdir_at == 1
    then record {
      st_blksize = block_size;
      st_mode = dir_mode;
      st_nlink = get_u16 node nlink_at;
      st_blocks = 0;
      st_size = get_u16 node size_at;
    }
    else record {
      st_blksize = block_size;
      st_mode = file_mode;
      st_nlink = get_u16 node nlink_at;
      st_blocks = get_u16 node size_at;
      st_size = get_u32 node fsize_at;
    }

-- Mode, link count and size, each an `int`.
unfoldable pub inode_get_attr_upc : ℕ → Sys → ℕ × ℕ × ℤ
inode_get_attr_upc inum s =
    let node = slot_load inum s in
    if not (get_u8 node isdir_at == 0)
    then (dir_mode, get_u16 node nlink_at, pos (get_u16 node size_at))
    else (file_mode, get_u16 node nlink_at, to_int (get_u32 node fsize_at))

-- `v > max ? max : v`, as the word that is stored.
abbrev pub clamp : ℕ → ℤ → ℕ
clamp max (pos n) = if ltb max n then max else n
clamp max (negsuc n) = to_word (negsuc n)

-- `none` is a null pointer. The mode is not stored.
unfoldable pub inode_set_attr_upc : ℕ → Option ℤ → Option ℤ → Sys → Sys
inode_set_attr_upc inum st_nlink st_size s =
    let node = slot_load inum s in
    let sized : Bytes = elim st_size [
      | none ↦ node
      | some v ↦
          if not (get_u8 node isdir_at == 0)
          then put_u16 node size_at (clamp dentry_max_size v)
          else put_u32 node fsize_at (clamp fcontent_max_size v)
    ] in
    let linked : Bytes = elim st_nlink [
      | none ↦ sized
      | some v ↦ put_u16 sized nlink_at (to_word v)
    ] in
    slot_dump inum linked s
