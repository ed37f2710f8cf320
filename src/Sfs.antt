-- ===== src/Sfs.antt =====
-- The FUSE operations of sfs.c. A path is the memory at the pointer; buffers that the caller passes
-- in are arguments and results. Log messages are left out.
pub mod Missing
pub mod Init
pub mod Start
pub mod Create
pub mod Drop
pub mod Truncate
pub mod Long
pub mod Unlink
pub mod Contents
pub mod Readdir
pub mod Again
use os_fuse.Base.{
  ℕ, zero, suc, ◌+◌, ◌-◌, ◌*◌, ◌/◌, ◌%◌, ℤ, pos, negsuc, is_neg, to_ushort, to_word, Option, none,
  some, Bool, true, false, ltb, leb, ◌==◌, ◌&&◌, not, if◌then◌else◌, List, [], ◌∷◌,
}
use os_fuse.Memory.{Bytes, zeros, at, put_u32, object}
use os_fuse.CString.{slash, strrchr}
use os_fuse.State.{Sys, enoent, eexist, errno_pop}
use os_fuse.FreeBlock.{free_block_init, free_block_allocate, free_block_pop}
use os_fuse.Inode.{
  block_size, di_ent_c, dnode_init, fnode_init, Stat, inode_get_attr, inode_set_attr_upc,
}
use os_fuse.Bitmap.{free_inode_pop, free_inode_push}
use os_fuse.Listing.{dnode_listing, dnode_listing_set, fnode_listing, fnode_listing_set}
use os_fuse.Directory.{di_ent_size, dnode_append, dnode_remove}
use os_fuse.Resolve.{path_basename, path_to_inum}
use os_fuse.Stream.{fstream_read, fstream_write, fstream_free}
use os_fuse.Format.{inode_init}

-- The disk file is open: disk_open is modelled in `Device`.
unfoldable pub sfs_init : Sys → Sys
sfs_init s = inode_init (free_block_init s)

-- The attributes with the caller's user and group, or an error number.
pub data Attributes : Type 0 where
  failed : ℤ → Attributes
  stat_of : Stat → (uid gid : ℕ) → Attributes

unfoldable pub sfs_getattr : (uid gid : ℕ) → Bytes → Sys → Attributes × Sys
sfs_getattr uid gid path s =
    let (inum, parent, s) = path_to_inum path s in
    if is_neg inum
    then (failed enoent, s)
    else (stat_of (inode_get_attr (to_ushort inum) s) uid gid, s)

-- The tail that sfs_create and sfs_mkdir share: take back the entry and the inode on an error.
unfoldable pub finish_create : (p_inum : ℤ) (filename : Bytes) (inum : ℕ) → Sys → ℤ × Sys
finish_create p_inum filename inum s =
    let (retstat, s) = errno_pop s in
    let reverted = free_inode_push inum (dnode_remove p_inum filename s) in
    (retstat, if is_neg retstat then reverted else s)

-- `inum > 0`
abbrev pub exists : ℤ → Bool
exists (pos n) = ltb 0 n
exists (negsuc n) = false

unfoldable pub sfs_create : Bytes → Sys → ℤ × Sys
unfolding finish_create
sfs_create path s =
    let filename = path_basename path in
    let (found, p_inum, s) = path_to_inum path s in
    let (inum, popped) = free_inode_pop s in
    let filled = fnode_init inum (to_ushort p_inum) popped in
    let listed = dnode_append p_inum (di_ent_c filename inum) filled in
    if exists found then (eexist, s) else finish_create p_inum filename inum listed

unfoldable pub sfs_unlink : Bytes → Sys → ℤ × Sys
sfs_unlink path s =
    let filename = path_basename path in
    let (inum, p_inum, s) = path_to_inum path s in
    let n = to_ushort inum in
    let freed = fnode_listing_set n 0 (fstream_free n 0 s) in
    let removed = dnode_remove p_inum filename (free_inode_push n freed) in
    if is_neg inum then (enoent, s) else (pos 0, removed)

-- sfs_opendir has the same body.
unfoldable pub sfs_open : Bytes → Sys → ℤ × Sys
sfs_open path s =
    let (inum, parent, s) = path_to_inum path s in (if is_neg inum then enoent else pos 0, s)

unfoldable pub sfs_opendir : Bytes → Sys → ℤ × Sys
sfs_opendir path s =
    let (inum, parent, s) = path_to_inum path s in (if is_neg inum then enoent else pos 0, s)

unfoldable pub sfs_release : Sys → ℤ × Sys
sfs_release s = (pos 0, s)

unfoldable pub sfs_releasedir : Sys → ℤ × Sys
sfs_releasedir s = (pos 0, s)

unfoldable pub sfs_read : Bytes → Bytes → (size offset : ℕ) → Sys → ℤ × Bytes × Sys
sfs_read path buf size offset s =
    let (inum, parent, s) = path_to_inum path s in
    let (count, filled, s') = fstream_read (to_ushort inum) buf size offset s in
    if is_neg inum then (enoent, buf, s) else (pos count, filled, s')

-- The calls that only feed log messages after a failed write. They take an inode and a block.
unfoldable pub probe_pops : Sys → Sys
probe_pops s = let s = (errno_pop (free_inode_pop s).1).1 in (errno_pop (free_block_pop s).1).1

unfoldable pub sfs_write : Bytes → Bytes → (size offset : ℕ) → Sys → ℤ × Sys
unfolding probe_pops
sfs_write path buf size offset s =
    let (inum, parent, s) = path_to_inum path s in
    let (retstat, s') = fstream_write (to_ushort inum) buf size offset s in
    if is_neg inum then (enoent, s) else (retstat, if is_neg retstat then probe_pops s' else s')

-- `for (int i = b_size; i < new_b_size; i++) f[i] = free_block_allocate(NULL);`
unfoldable pub extend_list : (rounds i : ℕ) → Sys → Sys
extend_list zero i s = s
extend_list (suc k) i s =
    let (n, s) = free_block_allocate none s in
    extend_list k (i + 1) (record s { file_list = put_u32 s.file_list (4 * i) (to_word n) })

unfoldable pub sfs_truncate : Bytes → ℕ → Sys → ℤ × Sys
unfolding extend_list
sfs_truncate path offset s =
    let (inum, parent, s) = path_to_inum path s in
    let n = to_ushort inum in
    let new_b_size = offset / block_size + 1 in
    let (b_size, listed) = fnode_listing n s in
    let extended = extend_list (new_b_size - b_size) b_size listed in
    let stored = fnode_listing_set n new_b_size (fstream_free n new_b_size extended) in
    if is_neg inum
    then (enoent, s)
    else (pos 0, inode_set_attr_upc n none (some (pos offset)) stored)

-- `char filename[14]` with what path_basename copies into it. The bytes of a name of more than 13
-- characters that go behind the array are left out; in C they overwrite the stack.
unfoldable pub filename_of : Bytes → Bytes
filename_of path = object (path_basename path) 14

unfoldable pub sfs_mkdir : Bytes → Sys → ℤ × Sys
unfolding finish_create filename_of
sfs_mkdir path s =
    let filename = filename_of path in
    let (found, pinum, s) = path_to_inum path s in
    let (inum, popped) = free_inode_pop s in
    let filled = dnode_init inum (to_ushort pinum) popped in
    let listed = dnode_append pinum (di_ent_c filename inum) filled in
    if exists found then (eexist, s) else finish_create pinum filename inum listed

unfoldable pub sfs_rmdir : Bytes → Sys → ℤ × Sys
unfolding filename_of
sfs_rmdir path s =
    let filename = filename_of path in
    let (inum, pinum, s) = path_to_inum path s in
    let removed = dnode_remove pinum filename (dnode_listing_set (to_ushort inum) 0 s) in
    if is_neg inum then (enoent, s) else (pos 0, removed)

-- The names that the loop hands to `filler`.
unfoldable pub entry_names : (d : Bytes) (rounds i : ℕ) → List Bytes
entry_names d zero i = []
entry_names d (suc k) i = object (at d (i * di_ent_size)) 14 ∷ entry_names d k (i + 1)

unfoldable pub sfs_readdir : Bytes → Sys → ℤ × List Bytes × Sys
unfolding entry_names
sfs_readdir path s =
    let (inum, parent, s) = path_to_inum path s in
    let (size, listed) = dnode_listing (to_ushort inum) s in
    if is_neg inum then (enoent, [], s) else (pos 0, entry_names listed.dir_list size 0, listed)
