-- ===== src/FreeBlock.antt =====
-- The free block list of prelude/free_block.c: a linked list through the first word of each free
-- block, with its head and length in the superblock (the first 128 bytes of block 0).
pub mod Chain
pub mod Init
pub mod Pop
pub mod Push
use os_fuse.Base.{
  ℕ, zero, suc, ◌+◌, ◌-◌, ◌%◌, ◌^◌, ℤ, to_int, word_gt_zero, ltb, Option, none, some, if◌then◌else◌,
}
use os_fuse.Memory.{Bytes, zeros, get_u32, put_u32, memcpy, object}
use os_fuse.State.{Sys, enospc, block_read, block_write, errno_push}

abbrev pub superblock_size : ℕ
superblock_size = 128

abbrev pub max_block_num : ℕ
max_block_num = 32768

-- The fields of `union _superblockbuf` and `union _blockbuf`.
abbrev pub free_block_head : Bytes → ℕ
free_block_head b = get_u32 b 0

abbrev pub free_block_count : Bytes → ℕ
free_block_count b = get_u32 b 4

abbrev pub free_block_next : Bytes → ℕ
free_block_next b = get_u32 b 0

freeblock_read : ℕ → Sys → Sys
freeblock_read n s = record s { block_buf = block_read n s }

-- A number from 2^31 on is negative as an `int`: pwrite fails at its offset.
freeblock_write : ℕ → Sys → Sys
freeblock_write n s = record s {
  disk = if ltb n (2 ^ 31) then (block_write n s.block_buf s).disk else s.disk;
}

superblock_write : Sys → Sys
unfolding block_read block_write
superblock_write s =
    let buf = memcpy (block_read 0 s) 0 s.super_block superblock_size in
    block_write 0 buf (record s { block_buf = buf })

superblock_read : Sys → Sys
unfolding block_read
superblock_read s =
    let buf = block_read 0 s in
    record s { block_buf = buf; super_block = object buf superblock_size }

-- `for (i = from; i < from + rounds; i++)` of free_block_init
link_blocks : (rounds from : ℕ) → Sys → Sys
unfolding freeblock_write block_write
link_blocks zero i s = s
link_blocks (suc k) i s =
    link_blocks k (i + 1)
      (freeblock_write i (record s { block_buf = put_u32 s.block_buf 0 (i + 1) }))

-- free_block_init of a disk of `blocks` blocks (MAX_BLOCK_NUM)
unfoldable pub init_blocks : (blocks : ℕ) → Sys → Sys
unfolding superblock_write link_blocks freeblock_write block_write
init_blocks blocks s =
    let super = put_u32 (put_u32 zeros 0 1) 4 (blocks - 1) in
    let s = superblock_write (record s { block_buf = zeros; super_block = super }) in
    let s = link_blocks (blocks - 2) 1 s in
    freeblock_write (blocks - 1) (record s { block_buf = put_u32 s.block_buf 0 (2 ^ 32 - 1) })

unfoldable pub free_block_init : Sys → Sys
free_block_init = init_blocks max_block_num

-- The part that free_block_pop and free_block_allocate share: unlink the head `n`.
unlink : ℕ → Sys → Sys
unfolding freeblock_read superblock_write block_read
unlink n s =
    let s = freeblock_read n s in
    let super = put_u32 s.super_block 4 ((free_block_count s.super_block + 2 ^ 32 - 1) % 2 ^ 32) in
    let super = put_u32 super 0 (free_block_next s.block_buf) in
    superblock_write (record s { super_block = super })

unfoldable pub free_block_pop : Sys → ℤ × Sys
unfolding superblock_read unlink errno_push
free_block_pop s =
    let s = superblock_read s in
    let n = free_block_head s.super_block in
    if word_gt_zero n then (to_int n, unlink n s) else (to_int n, errno_push enospc s)

-- `none` is a null pointer: the block is filled with zeros (EmptyBlk).
unfoldable pub free_block_allocate : Option Bytes → Sys → ℤ × Sys
unfolding superblock_read unlink errno_push block_write
free_block_allocate buff s =
    let s = superblock_read s in
    let n = free_block_head s.super_block in
    if word_gt_zero n
    then (to_int n, block_write n (elim buff [ some b ↦ b | none ↦ zeros ]) (unlink n s))
    else (to_int n, errno_push enospc s)

unfoldable pub free_block_push : ℕ → Sys → ℤ × Sys
unfolding superblock_read superblock_write freeblock_write block_write
free_block_push n s =
    let s = superblock_read s in
    let buf = put_u32 s.block_buf 0 (free_block_head s.super_block) in
    let s = freeblock_write n (record s { block_buf = buf }) in
    let super = put_u32 s.super_block 4 ((free_block_count s.super_block + 1) % 2 ^ 32) in
    let s = superblock_write (record s { super_block = put_u32 super 0 (n % 2 ^ 32) }) in
    (to_int (free_block_count s.super_block), s)

unfoldable pub free_block_size : Sys → ℤ
free_block_size s = to_int (free_block_count s.super_block)
