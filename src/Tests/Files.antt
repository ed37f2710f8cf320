-- ===== src/Tests/Files.antt =====
-- The theorems on files, applied to a file on a new disk.
use os_fuse.Base.{
  ℕ, zero, suc, ◌+◌, ◌-◌, ◌<◌, ◌≤◌, ◌≡◌, refl, ◌∙◌, arith, true, false, ltb, leb, ◌&&◌,
  if◌then◌else◌, pos, List, [], ◌∷◌, has, length, ==-false,
}
use Prim.Native.Nat.{max}
use mathlib.Core.Bool.{false≢true}
use native.Mathlib.Decide.{ℕ_discrete}
use os_fuse.Memory.{Bytes, zeros, at}
use os_fuse.State.{Sys}
use os_fuse.Bitmap.{free_inode_pop}
use os_fuse.Bitmap.Laws.{is_free}
use os_fuse.Bitmap.Count.{free_inodes}
use os_fuse.FreeBlock.Chain.{IsFree}
use os_fuse.FreeBlock.Init.{range, length-range}
use os_fuse.Inode.{slot_load, fnode_init, direct_at}
use os_fuse.Listing.{dir_layout, file_layout, store_listing}
use os_fuse.Listing.Store.{list_slots}
use os_fuse.Memory.{get_u16}
use os_fuse.Inode.{size_at}
use os_fuse.Listing.{pages_per_inode, pages_per_index}
use os_fuse.Listing.Supply.{new_pages}
use os_fuse.Listing.Growth.{new_indexes}
use os_fuse.Listing.Enough.{slots_needed, store_listing-errno}
use os_fuse.Stream.{fstream_read, fstream_write}
use os_fuse.Stream.Read.{content}
use os_fuse.Stream.File.{IsFile, file_size}
use os_fuse.Stream.Contents.{blocks_after, fstream_write-content, fstream_read-fstream_write}
use os_fuse.Stream.Create.{fnode_init-IsFile}
use os_fuse.Sfs.{sfs_init}
use os_fuse.Directory.Append.{IsDir}
use os_fuse.Directory.Create.{first_entries}
use os_fuse.Sfs.Init.{sfs_init-Formatted}

abbrev blank : Sys
blank = record {
  disk = λ n. zeros;
  super_block = zeros;
  block_buf = zeros;
  errno = pos 0;
  dir_list = zeros;
  file_list = zeros;
}

abbrev pub blocks : List ℕ
blocks = range 1025 31743

-- A new disk. Kept shut, so that no proof runs the formatting.
pub new_disk : Sys
new_disk = sfs_init blank

sfs_init-Formatted_example :
    let t = sfs_init blank in
    IsFree t.disk (range 1025 31743)
    × ((m : ℕ) → m < 1024 → is_free t.disk m ≡ leb 3 m)
    × (free_inodes t.disk ≡ 1021)
    × IsDir t 2 2 (first_entries 2 2)
    × (list_slots dir_layout t 2 ≡ 2 ∷ [])
    × (t.errno ≡ blank.errno)
sfs_init-Formatted_example = sfs_init-Formatted blank

range-beyond : (a n x : ℕ) → 1024 < a → has x (range a n) ≡ true → 1024 < x
range-beyond a zero x lt h = absurd (false≢true h)
range-beyond a (suc n) x lt h = elim (ℕ_discrete x a) [
  | yes e ↦ omega arith
  | no ne ↦ range-beyond (a + 1) n x (omega arith) (ground (arith, ==-false x a ne))
]

new_beyond : (x : ℕ) → has x blocks ≡ true → 1024 < x
new_beyond x h = range-beyond 1025 31743 x (omega arith) h

new-IsFree : IsFree new_disk.disk blocks
unfolding new_disk
new-IsFree = (sfs_init-Formatted blank).0

new_reserved : is_free new_disk.disk 0 ≡ false
unfolding new_disk
new_reserved = (sfs_init-Formatted blank).1 0 (omega arith)

new_count : free_inodes new_disk.disk ≡ 1021
unfolding new_disk
new_count = (sfs_init-Formatted blank).2

pub new_errno : new_disk.errno ≡ pos 0
unfolding new_disk
new_errno = (sfs_init-Formatted blank).5

-- A file on it, and a second.
pub one_file : Sys
one_file = let (n, t) = free_inode_pop new_disk in fnode_init n 2 t

abbrev pub first : ℕ
first = (free_inode_pop new_disk).0

abbrev pub first_list : Bytes
first_list = at (slot_load first one_file) direct_at

abbrev EmptyFile : Type 0
EmptyFile =
    let (inum, t) = free_inode_pop new_disk in
    let u = fnode_init inum 2 t in
    (is_free new_disk.disk inum ≡ true)
    × IsFile u inum 0 (at (slot_load inum u) direct_at) blocks
    × (file_size u inum ≡ 0)
    × (u.errno ≡ new_disk.errno)
    × (free_inodes u.disk + 1 ≡ free_inodes new_disk.disk)

one_facts : EmptyFile
one_facts =
    fnode_init-IsFile 2 blocks new_disk new-IsFree new_beyond new_reserved
      (omega (arith, new_count))

fnode_init-IsFile_example : EmptyFile
fnode_init-IsFile_example =
    fnode_init-IsFile 2 blocks new_disk new-IsFree new_beyond new_reserved
      (omega (arith, new_count))

one-IsFile : IsFile one_file first 0 first_list blocks
unfolding one_file
one-IsFile = one_facts.1

one_errno : one_file.errno ≡ pos 0
unfolding one_file
one_errno = one_facts.3 ∙ new_errno

pub one_count : free_inodes one_file.disk ≡ 1020
unfolding one_file
one_count = let c = one_facts.4 in omega (arith, c, new_count)

pub few_slots : slots_needed file_layout 1 ≡ 0
unfolding slots_needed new_pages new_indexes pages_per_inode pages_per_index
few_slots = refl

enough_blocks : 1 ≤ 0 + length blocks
enough_blocks = omega (arith, length-range 1025 31743)

abbrev pub ThreeBytes : Type 0
ThreeBytes =
    (u : Sys) × (g : Bytes) × (rest : List ℕ) × (fstream_write first zeros 3 0 one_file
      ≡ (pos 3, u))
    × (u.errno ≡ pos 0)
    × IsFile u first (blocks_after 0 3 0) g rest
    × (length rest + (blocks_after 0 3 0 - 0) ≡ length blocks)
    × (free_inodes u.disk + slots_needed file_layout (blocks_after 0 3 0)
        ≡ free_inodes one_file.disk + slots_needed file_layout 0)
    × (file_size u first ≡ max (file_size one_file first) (0 + 3))
    × ((y : ℕ)
        → y < max (file_size one_file first) (0 + 3)
        → content u g y
          ≡ (if leb 0 y && ltb y (0 + 3) then zeros (y - 0) else content one_file first_list y))

pub three_facts : ThreeBytes
three_facts =
    fstream_write-content first 0 3 0 zeros first_list blocks one_file one-IsFile one_errno
      (omega arith) (omega arith) (omega arith) enough_blocks (omega (arith, few_slots))

fstream_write-content_example : ThreeBytes
fstream_write-content_example =
    fstream_write-content first 0 3 0 zeros first_list blocks one_file one-IsFile one_errno
      (omega arith) (omega arith) (omega arith) enough_blocks (omega (arith, few_slots))

fstream_read-fstream_write_example :
    let (result, u) = fstream_write first (λ i. i) 3 0 one_file in
    let (count, filled, _) = fstream_read first zeros 3 0 u in
    (result ≡ pos 3) × (count ≡ 3) × ((x : ℕ) → x < 3 → filled x ≡ x)
fstream_read-fstream_write_example =
    fstream_read-fstream_write first 0 3 0 (λ i. i) zeros first_list blocks one_file one-IsFile
      one_errno (omega arith) (omega arith) (omega arith) enough_blocks (omega (arith, few_slots))

one_list_size : get_u16 (slot_load first one_file) size_at ≡ 0
one_list_size = one-IsFile.holds.size

thirty_slots : slots_needed file_layout 30 ≡ 1
unfolding slots_needed new_pages new_indexes pages_per_inode pages_per_index
thirty_slots = refl

store_listing-errno_example :
    let t = store_listing file_layout first (λ i. i) 30 one_file in
    (t.errno ≡ pos 0)
    × (free_inodes t.disk + slots_needed file_layout 30
        ≡ free_inodes one_file.disk
          + slots_needed file_layout (get_u16 (slot_load first one_file) size_at))
store_listing-errno_example =
    store_listing-errno file_layout first (λ i. i) 30 one_file one-IsFile.list
      (omega (arith, one_list_size)) one_errno (omega (arith, thirty_slots, one_count))

pub new_root : IsDir new_disk 2 2 (first_entries 2 2)
unfolding new_disk
new_root = (sfs_init-Formatted blank).3
