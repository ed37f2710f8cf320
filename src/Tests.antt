-- ===== src/Tests.antt =====
-- A formatted disk and a file on it, for the examples.
mod Lists
mod Files
mod TwoFiles
mod Lookups
mod Creation
mod Blocks
mod Operations
mod Paths
mod Stocked
mod Removal
mod Nowhere
mod Device
use os_fuse.Base.{
  ℕ, zero, suc, ◌+◌, ◌-◌, ◌*◌, ◌<◌, ◌≤◌, ◌≡◌, refl, ℤ, pos, negsuc, is_neg, List, [], ◌∷◌, has, ◌∉◌,
  length, ltb, leb, ◌==◌, ◌&&◌, if◌then◌else◌, Bool, true, false, none, some, fun_ext, arith,
}
use Prim.Native.Nat.{min, max}
use os_fuse.Memory.{
  Bytes, zeros, at, memcpy, object, put_u8, put_u16, put_u32, get_u8, get_u16, get_u32,
}
use os_fuse.CString.{path_max}
use os_fuse.State.{Sys, Disk, update, block_read, block_write, errno_push, enoent, eexist, enospc}
use os_fuse.FreeBlock.{free_block_init, free_block_pop, free_block_push, free_block_allocate}
use os_fuse.FreeBlock.Chain.{IsFree, SameData}
use os_fuse.FreeBlock.Pop.{free_block_pop-cons, free_block_pop-nil, free_block_allocate-cons}
use os_fuse.FreeBlock.Push.{free_block_push-IsFree, free_block_pop-push}
use os_fuse.FreeBlock.Init.{range, free_block_init-IsFree}
use os_fuse.Inode.{
  slot_load, slot_dump, dnode_image, dnode_init, fnode_init, inode_get_attr, inode_set_attr_upc,
  dir_mode, file_mode,
}
use os_fuse.Inode.Slots.{slot_load-slot_dump_ne, slot_dump-IsFree}
use os_fuse.Inode.Attributes.{
  inode_get_attr-dnode_init, inode_get_attr-fnode_init, inode_get_attr-inode_set_attr_upc,
}
use os_fuse.Bitmap.Bits.{bit}
use os_fuse.Bitmap.{free_inode_pop, free_inode_push}
use os_fuse.Bitmap.Laws.{
  is_free, Least, Taken, NoneFree, free_inode_pop-cases, free_inode_pop-Least,
  free_inode_push-is_free,
}
use os_fuse.Listing.{
  dir_layout, file_layout, dnode_listing, fnode_listing, dnode_listing_set, fnode_listing_set,
  pages_per_index, pages_per_inode,
}
use os_fuse.Listing.Store.{IsList}
use os_fuse.Listing.Store.{list_slots}
use os_fuse.Listing.Empty.{fnode_init-IsList}
use os_fuse.Listing.RoundTrip.{
  fnode_listing-fnode_listing_set, dnode_listing-dnode_listing_set, fnode_listing_set-Stays,
}
use os_fuse.Format.{initial_bitmap}
use os_fuse.Resolve.{path_to_inum}
use os_fuse.Resolve.Quiet.{Quiet, path_to_inum-Quiet}

-- The blocks from 1025 on are free.
abbrev pub formatted_disk : Disk
formatted_disk n =
    if n == 0
    then put_u32 (put_u32 zeros 0 1025) 4 31743
    else if n == 1024
    then initial_bitmap
    else put_u32 zeros 0 (n + 1)

-- A new disk, with the numbers 0, 1, 2, … as the bytes of both arrays.
abbrev pub formatted : Sys
formatted = dnode_init 2 2 (record {
  disk = formatted_disk;
  super_block = zeros;
  block_buf = zeros;
  errno = pos 0;
  dir_list = λ i. i;
  file_list = λ i. i;
})

-- Slot 3 is taken for a file.
abbrev pub with_file : Sys
with_file = fnode_init 3 2 (free_inode_pop formatted).1
