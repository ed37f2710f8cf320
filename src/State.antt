-- ===== src/State.antt =====
-- The state of the file system: the disk, and the global and static variables of prelude/*.c but
-- _iblockbuf, a scratch buffer, and EmptyBlk, which is always zeros. Blocks are read and written
-- without failure, on numbers below 2^22, whose offset in the disk file an `int` holds.
use os_fuse.Base.{ℕ, ℤ, pos, negsuc, ◌==◌, if◌then◌else◌}
use os_fuse.Memory.{Bytes}

-- The blocks of the disk file by number.
abbrev pub Disk : Type 0
Disk = ℕ → Bytes

pub record Sys : Type 0 where
  pub disk : Disk
  -- SuperBlockBuf and BlockBuf (prelude/free_block.c)
  pub super_block : Bytes
  pub block_buf : Bytes
  -- ERRNO (prelude/err.c)
  pub errno : ℤ
  -- the arrays `d` and `f` (prelude/inode.c)
  pub dir_list : Bytes
  pub file_list : Bytes

-- The negative error numbers that the code uses, as on Linux.
abbrev pub enoent : ℤ
enoent = negsuc 1

abbrev pub eexist : ℤ
eexist = negsuc 16

abbrev pub efbig : ℤ
efbig = negsuc 26

abbrev pub enospc : ℤ
enospc = negsuc 27

unfoldable pub block_read : ℕ → Sys → Bytes
block_read n s = s.disk n

abbrev pub update : Disk → ℕ → Bytes → Disk
update d n b m = if m == n then b else d m

unfoldable pub block_write : ℕ → Bytes → Sys → Sys
block_write n b s = record s { disk = update s.disk n b }

unfoldable pub errno_push : ℤ → Sys → Sys
errno_push e s = record s { errno = e }

unfoldable pub errno_pop : Sys → ℤ × Sys
errno_pop s = (s.errno, record s { errno = pos 0 })
