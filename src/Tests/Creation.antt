-- ===== src/Tests/Creation.antt =====
-- sfs_create of "/a" on a disk with one free block.
use os_fuse.Base.{
  ℕ, ◌-◌, ◌^◌, ◌<◌, ◌≡◌, refl, arith, true, false, ◌==◌, if◌then◌else◌, pos, negsuc, [], ◌∷◌,
}
use os_fuse.Memory.{
  Bytes, zeros, memcpy, object, get_u8, get_u16, get_u32, put_u8, put_u16, put_u32,
}
use os_fuse.CString.{path_max, strlen, equal_strings}
use os_fuse.State.{Sys, Disk, block_read, block_write}
use os_fuse.FreeBlock.Chain.{IsFree}
use os_fuse.Bitmap.Bits.{bit}
use os_fuse.Bitmap.Laws.{is_free}
use os_fuse.Bitmap.Count.{free_inodes, free_inodes-pos}
use os_fuse.Inode.{slot_load, slot_dump, dnode_init, di_ent_c}
use os_fuse.Format.{initial_bitmap}
use os_fuse.Listing.{dir_layout, dnode_listing, pages_per_inode, pages_per_index}
use os_fuse.Listing.Supply.{new_pages}
use os_fuse.Listing.Growth.{new_indexes}
use os_fuse.Listing.Enough.{slots_needed}
use os_fuse.Directory.Append.{IsDir}
use os_fuse.Directory.Create.{first_entries, dnode_init-IsDir}
use os_fuse.Resolve.{path_basename, path_to_inum, path_to_inum_elem}
use os_fuse.Resolve.Lookup.{or_entry}
use os_fuse.Sfs.{sfs_create}
use os_fuse.Sfs.Create.{sfs_create-path_to_inum_elem}

abbrev small_disk : Disk
small_disk n =
    if n == 0
    then put_u32 (put_u32 zeros 0 1025) 4 1
    else if n == 1024
    then initial_bitmap
    else if n == 1025
    then put_u32 zeros 0 (2 ^ 32 - 1)
    else zeros

abbrev pub bare : Sys
bare = record {
  disk = small_disk;
  super_block = zeros;
  block_buf = zeros;
  errno = pos 0;
  dir_list = zeros;
  file_list = zeros;
}

abbrev pub small : Sys
small = dnode_init 2 2 bare

abbrev pub path_a : Bytes
path_a i = if i == 0 then b'/' else if i == 1 then b'a' else 0

pub a_missing : (path_to_inum path_a small).0 ≡ negsuc 0
unfolding path_to_inum path_max get_u8 strlen equal_strings put_u8 dnode_listing get_u16 slot_load
    object block_read dnode_init slot_dump block_write memcpy put_u16
a_missing = refl

pub a_parent : (path_to_inum path_a small).1 ≡ pos 2
unfolding path_to_inum path_max get_u8 strlen equal_strings put_u8 dnode_listing get_u16 slot_load
    object block_read dnode_init slot_dump block_write memcpy put_u16
a_parent = refl

pub used : (is_free small.disk 0 ≡ false) × (is_free small.disk 3 ≡ true)
unfolding is_free bit get_u8 put_u8 dnode_init slot_dump block_write block_read
used = (refl, refl)

pub small-IsFree : IsFree small.disk (1025 ∷ [])
unfolding dnode_init slot_dump block_write block_read memcpy get_u32 put_u32
small-IsFree = record {
  chain = (refl, omega arith, omega arith, refl, refl);
  count = refl;
  small = omega arith;
}

pub root_used : is_free bare.disk 2 ≡ false
unfolding is_free bit get_u8 put_u8
root_used = refl

pub small_errno : small.errno ≡ pos 0
unfolding dnode_init slot_dump block_write
small_errno = refl

pub few_slots : (slots_needed dir_layout 3 ≡ 0) × (slots_needed dir_layout 2 ≡ 0)
unfolding slots_needed new_pages new_indexes pages_per_inode pages_per_index
few_slots = (refl, refl)

pub some_free : 0 < free_inodes small.disk
some_free = free_inodes-pos small.disk 3 (omega arith) used.1

sfs_create-path_to_inum_elem_example :
    (u : Sys) × (new : ℕ) × (d' : Bytes) × (sfs_create path_a small ≡ (pos 0, u))
    × (is_free small.disk new ≡ true)
    × (u.errno ≡ pos 0)
    × IsDir u 2 3 d'
    × ((name : Bytes)
        → (path_to_inum_elem name 2 u).0
          ≡ or_entry
              (path_to_inum_elem name 2 small).0
              (equal_strings 14 0 name (di_ent_c (path_basename path_a) new))
              new)
sfs_create-path_to_inum_elem_example =
    sfs_create-path_to_inum_elem path_a 2 2 (first_entries 2 2) (1025 ∷ []) small a_missing a_parent
      (omega arith) (dnode_init-IsDir 2 2 bare (omega arith) root_used).0 small_errno (omega arith)
      small-IsFree (λ x h. ground arith) used.0 (omega (arith, few_slots.0, few_slots.1, some_free))
