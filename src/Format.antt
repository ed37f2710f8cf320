-- ===== src/Format.antt =====
-- inode_init (prelude/inode.c): the inode table, the bitmap and the root directory of a new disk.
use os_fuse.Base.{ℕ, zero, suc, ◌-◌}
use os_fuse.Memory.{Bytes, put_u8}
use os_fuse.State.{Sys, block_write}
use os_fuse.FreeBlock.{free_block_pop}
use os_fuse.Inode.{inode_blk_size, dnode_init}

unfoldable pub pop_blocks : ℕ → Sys → Sys
pop_blocks zero s = s
pop_blocks (suc k) s = pop_blocks k (free_block_pop s).1

-- `memset(&b, 0xff, sizeof(b))`, then `b.buf[0] = 0x01f`
abbrev pub initial_bitmap : Bytes
initial_bitmap = put_u8 (λ _. 0xff) 0 0x1f

-- The loop takes the blocks of the table behind block 0, one more call that of the bitmap.
unfoldable pub inode_init : Sys → Sys
unfolding pop_blocks
inode_init s =
    let s = pop_blocks (inode_blk_size - 1) s in
    let s = (free_block_pop s).1 in dnode_init 2 2 (block_write inode_blk_size initial_bitmap s)
