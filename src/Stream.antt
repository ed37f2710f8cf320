-- ===== src/Stream.antt =====
-- File contents (prelude/stream.c). `size` and `offset` are below 2^31, as `int`s that are not
-- negative; `calloc` is taken to succeed.
pub mod Read
pub mod Blocks
pub mod Wrote
pub mod Round
pub mod WriteLoop
pub mod File
pub mod Record
pub mod Other
pub mod Overlay
pub mod Write
pub mod Contents
pub mod Create
pub mod FreeLoop
pub mod Shortened
pub mod Free
pub mod Resize
use os_fuse.Base.{
  ℕ, zero, suc, ◌+◌, ◌-◌, ◌*◌, ◌/◌, ◌%◌, ℤ, pos, negsuc, pos_part, is_neg, to_word, Option, none,
  some, Bool, true, false, ltb, leb, ◌==◌, ◌&&◌, not, if◌then◌else◌,
}
use Prim.Native.Nat.{min, max}
use os_fuse.Memory.{Bytes, zeros, at, get_u32, put_u32, memcpy, object}
use os_fuse.State.{Sys, block_read, block_write, errno_pop}
use os_fuse.FreeBlock.{free_block_allocate, free_block_push}
use os_fuse.Inode.{block_size, fentry_max_size, inode_get_attr_upc, inode_set_attr_upc}
use os_fuse.Listing.{fnode_listing, fnode_listing_set}

-- `f[i]`
abbrev pub blknum : Bytes → ℕ → ℕ
blknum f i = get_u32 f (4 * i)

-- The loop that reads the blocks `f[i], …` below `b_size` into the buffer, from `ptr` on.
unfoldable pub read_blocks : (s : Sys) (b_size rounds i ptr : ℕ) → Bytes → Bytes
read_blocks s b_size zero i ptr buf = buf
read_blocks s b_size (suc k) i ptr buf =
    let filled = memcpy buf ptr (block_read (blknum s.file_list i) s) block_size in
    let rest = read_blocks s b_size k (i + 1) (ptr + block_size) filled in
    if ltb i b_size then rest else buf

-- The number of bytes read, the caller's buffer, and the state.
unfoldable pub fstream_read : ℕ → Bytes → ℕ → ℕ → Sys → ℕ × Bytes × Sys
unfolding read_blocks
fstream_read inum buf size offset s =
    let (b_size, s) = fnode_listing inum s in
    let f_size = pos_part (inode_get_attr_upc inum s).2 in
    let b_start = offset / block_size in
    let b_end = (offset + size) / block_size + 1 in
    let blkbuf = read_blocks s b_size (b_end - b_start) b_start 0 zeros in
    let size' = min (f_size - offset) size in
    (size', memcpy buf 0 (at blkbuf (offset % block_size)) size', s)

-- The loop that writes the blocks: `i` at its end, and the state.
unfoldable pub write_blocks : (buf : Bytes) (b_size rounds i ptr : ℕ) → Sys → ℕ × Sys
write_blocks buf b_size zero i ptr s = (i, s)
write_blocks buf b_size (suc k) i ptr s =
    let block = object (at buf ptr) block_size in
    let (blknum', s') = free_block_allocate (some block) s in
    let recorded = record s' { file_list = put_u32 s'.file_list (4 * i) (to_word blknum') } in
    let s'' = if ltb i b_size then block_write (blknum s.file_list i) block s else recorded in
    let rest = write_blocks buf b_size k (i + 1) (ptr + block_size) s'' in
    if leb fentry_max_size i
    then (i, s)
    else if not (ltb i b_size) && is_neg blknum'
    then (i, s')
    else rest

unfoldable pub fstream_write : ℕ → Bytes → ℕ → ℕ → Sys → ℤ × Sys
unfolding read_blocks write_blocks
fstream_write inum buf size offset s =
    let b_start = offset / block_size in
    let b_end = (offset + size - 1) / block_size + 1 in
    let (b_size, s) = fnode_listing inum s in
    let fsize = pos_part (inode_get_attr_upc inum s).2 in
    let blkbuf = read_blocks s b_size (b_end - b_start) b_start 0 zeros in
    let blkbuf = memcpy blkbuf (offset % block_size) buf size in
    let (i, s) = write_blocks blkbuf b_size (b_end - b_start) b_start 0 s in
    let s = inode_set_attr_upc inum none (some (pos (max fsize (size + offset)))) s in
    let s = fnode_listing_set inum (max b_size i) s in
    let (retstat, s) = errno_pop s in (if is_neg retstat then retstat else pos size, s)

-- The loop that frees the blocks `f[i], …`.
unfoldable pub free_blocks : (rounds i : ℕ) → Sys → Sys
free_blocks zero i s = s
free_blocks (suc k) i s = free_blocks k (i + 1) (free_block_push (blknum s.file_list i) s).1

unfoldable pub fstream_free : ℕ → ℕ → Sys → Sys
unfolding free_blocks
fstream_free inum new_b_size s =
    let (b_size, s) = fnode_listing inum s in
    fnode_listing_set inum new_b_size (free_blocks (b_size - new_b_size) new_b_size s)
