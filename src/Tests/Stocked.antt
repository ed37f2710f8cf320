-- ===== src/Tests/Stocked.antt =====
-- A disk written out by hand: the root has the entry "a", a file of one block and three bytes, and
-- one block is free. What the theorems on files and directories ask for holds on it.
use os_fuse.Base.{
  ℕ, zero, suc, ◌+◌, ◌-◌, ◌*◌, ◌<◌, ◌≡◌, ◌^◌, refl, arith, true, false, ◌==◌, if◌then◌else◌, pos,
  [], ◌∷◌,
}
use os_fuse.Base.{ap, has}
use mathlib.Core.Bool.{false≢true}
use os_fuse.Memory.{
  Bytes, zeros, at, memcpy, object, get_u8, get_u16, get_u32, put_u8, put_u16, put_u32,
}
use os_fuse.CString.{path_max, strlen, strrchr, equal_strings}
use os_fuse.State.{Sys, Disk, block_read}
use os_fuse.FreeBlock.Chain.{IsFree}
use os_fuse.Bitmap.Bits.{bit}
use os_fuse.Bitmap.Laws.{is_free}
use os_fuse.Inode.{
  slot_load, dnode_image, fnode_image, di_ent_c, direct_at, size_at, fsize_at, isdir_at, pages_at,
}
use os_fuse.Listing.{dir_layout, file_layout, dnode_listing, pages_per_inode}
use os_fuse.Listing.Store.{IsList, ListHolds, list_slots}
use os_fuse.Listing.Pages.{PagesHold-nil}
use os_fuse.Listing.Indexes.{IndexesHold-nil}
use os_fuse.Stream.{blknum}
use os_fuse.Stream.Blocks.{Mapped}
use os_fuse.Stream.File.{IsFile, file_size}
use os_fuse.Directory.Append.{IsDir}
use os_fuse.Directory.Remove.{is_named}
use os_fuse.Resolve.{path_basename, path_to_inum}
use os_fuse.Resolve.Entries.{Distinct, Ended}
use os_fuse.Tests.Lookups.{name_a}
use os_fuse.Tests.Creation.{path_a}

abbrev root_image : Bytes
root_image = memcpy (put_u16 (dnode_image 2 2) size_at 3) 48 (di_ent_c name_a 3) 16

abbrev file_image : Bytes
file_image = put_u32 (put_u16 (put_u32 (fnode_image 3 2) direct_at 1025) size_at 1) fsize_at 3

-- The superblock with the inodes 2 and 3 behind it.
abbrev front : Bytes
front = memcpy (memcpy (put_u32 (put_u32 zeros 0 1026) 4 1) 256 root_image 128) 384 file_image 128

abbrev stocked_disk : Disk
stocked_disk n =
    if n == 0
    then front
    else if n == 1024
    then put_u8 zeros 0 15
    else if n == 1026
    then put_u32 zeros 0 (2 ^ 32 - 1)
    else zeros

abbrev pub stocked : Sys
stocked = record {
  disk = stocked_disk;
  super_block = zeros;
  block_buf = zeros;
  errno = pos 0;
  dir_list = zeros;
  file_list = zeros;
}

-- The entries of the root and the block numbers of the file.
abbrev pub entries : Bytes
entries = at (slot_load 2 stocked) direct_at

abbrev pub numbers : Bytes
numbers = at (slot_load 3 stocked) direct_at

pub a_number : (path_to_inum path_a stocked).0 ≡ pos 3
unfolding path_to_inum path_max get_u8 strlen equal_strings put_u8 dnode_listing get_u16 slot_load
    object block_read memcpy put_u16 di_ent_c
a_number = refl

pub a_parent : (path_to_inum path_a stocked).1 ≡ pos 2
unfolding path_to_inum path_max get_u8 strlen equal_strings put_u8 dnode_listing get_u16 slot_load
    object block_read memcpy put_u16
a_parent = refl

in_use :
    (is_free stocked.disk 0 ≡ false)
    × (is_free stocked.disk 2 ≡ false)
    × (is_free stocked.disk 3 ≡ false)
unfolding is_free bit get_u8 put_u8
in_use = (refl, refl, refl)

sizes : (get_u16 (slot_load 2 stocked) size_at ≡ 3) × (get_u16 (slot_load 3 stocked) size_at ≡ 1)
unfolding get_u16 slot_load object block_read memcpy put_u16 put_u32
sizes = (refl, refl)

pub root_slots : list_slots dir_layout stocked 2 ≡ 2 ∷ []
unfolding get_u16 slot_load object block_read memcpy put_u16 put_u32 pages_per_inode
root_slots = refl

pub file_slots : list_slots file_layout stocked 3 ≡ 3 ∷ []
unfolding get_u16 slot_load object block_read memcpy put_u16 put_u32 pages_per_inode
file_slots = refl

root-IsList : IsList dir_layout stocked 2
unfolding get_u16 slot_load object block_read memcpy put_u16 put_u32 pages_per_inode
root-IsList = record { own = (refl, omega arith, in_use.1, tt); self = refl }

file-IsList : IsList file_layout stocked 3
unfolding get_u16 slot_load object block_read memcpy put_u16 put_u32 pages_per_inode
file-IsList = record { own = (refl, omega arith, in_use.2, tt); self = refl }

pub root-ListHolds : ListHolds dir_layout stocked 2 3 entries
root-ListHolds =
    let node : Bytes = slot_load 2 stocked in
    record {
      size = sizes.0;
      direct = λ x lt. refl;
      pages =
          PagesHold-nil dir_layout stocked entries node pages_at 3 pages_per_inode 0 6
            (omega arith);
      indexes =
          IndexesHold-nil dir_layout stocked entries node 3 pages_per_inode 0
            (6 + pages_per_inode * 8) (omega arith);
    }

pub file-ListHolds : ListHolds file_layout stocked 3 1 numbers
file-ListHolds =
    let node : Bytes = slot_load 3 stocked in
    record {
      size = sizes.1;
      direct = λ x lt. refl;
      pages =
          PagesHold-nil file_layout stocked numbers node pages_at 1 pages_per_inode 0 24
            (omega arith);
      indexes =
          IndexesHold-nil file_layout stocked numbers node 1 pages_per_inode 0
            (24 + pages_per_inode * 32) (omega arith);
    }

pub stocked-IsDir : IsDir stocked 2 3 entries
stocked-IsDir = record { list = root-IsList; holds = root-ListHolds; bound = omega arith }

stocked-IsFree : IsFree stocked.disk (1026 ∷ [])
unfolding memcpy get_u32 put_u32 put_u16 get_u16
stocked-IsFree = record {
  chain = (refl, omega arith, omega arith, refl, refl);
  count = refl;
  small = omega arith;
}

only_block : blknum numbers 0 ≡ 1025
unfolding get_u32 slot_load object block_read memcpy put_u16 put_u32
only_block = refl

block_of : (i : ℕ) → i < 1 → blknum numbers i ≡ 1025
block_of zero lt = only_block
block_of (suc i) lt = absurd (omega arith)

stocked-Mapped : Mapped numbers 1 (1026 ∷ [])
stocked-Mapped = record {
  beyond = λ i lt. omega (arith, block_of i lt);
  word = λ i lt. omega (arith, block_of i lt);
  taken = λ i lt. rw (block_of i lt) refl;
  distinct = λ i j l l' e. omega arith;
  free_beyond = λ x h. ground arith;
}

plain : (get_u8 (slot_load 3 stocked) isdir_at ≡ 0) × (get_u32 (slot_load 3 stocked) fsize_at ≡ 3)
unfolding get_u8 get_u32 slot_load object block_read memcpy put_u16 put_u32 put_u8
plain = (refl, refl)

pub stocked_size : file_size stocked 3 ≡ 3
stocked_size = plain.1

pub stocked-IsFile : IsFile stocked 3 1 numbers (1026 ∷ [])
stocked-IsFile = record {
  list = file-IsList;
  holds = file-ListHolds;
  apart = ap (has 0) file_slots;
  reserved = in_use.0;
  file = plain.0;
  isfree = stocked-IsFree;
  mapped = stocked-Mapped;
  cover = omega (arith, plain.1);
  bound = omega arith;
}

pub entries-Distinct : Distinct entries 3
unfolding equal_strings get_u8 slot_load block_read memcpy object put_u8 put_u16 put_u32 di_ent_c
entries-Distinct zero zero l l' h = refl
entries-Distinct zero (suc zero) l l' h = absurd (false≢true h)
entries-Distinct zero (suc (suc zero)) l l' h = absurd (false≢true h)
entries-Distinct (suc zero) zero l l' h = absurd (false≢true h)
entries-Distinct (suc zero) (suc zero) l l' h = refl
entries-Distinct (suc zero) (suc (suc zero)) l l' h = absurd (false≢true h)
entries-Distinct (suc (suc zero)) zero l l' h = absurd (false≢true h)
entries-Distinct (suc (suc zero)) (suc zero) l l' h = absurd (false≢true h)
entries-Distinct (suc (suc zero)) (suc (suc zero)) l l' h = refl
entries-Distinct (suc (suc (suc j))) k l l' h = absurd (omega arith)
entries-Distinct j (suc (suc (suc k))) l l' h = absurd (omega arith)

pub entries-Ended : Ended entries 3
unfolding get_u8 slot_load block_read memcpy object put_u8 put_u16 put_u32 di_ent_c
entries-Ended zero l = refl
entries-Ended (suc zero) l = refl
entries-Ended (suc (suc zero)) l = refl
entries-Ended (suc (suc (suc j))) l = absurd (omega arith)

pub a_named : is_named (path_basename path_a) entries 2 ≡ true
unfolding path_basename strrchr path_max equal_strings get_u8 slot_load block_read memcpy object
    put_u8 put_u16 put_u32 di_ent_c
a_named = refl
