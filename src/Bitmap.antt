-- ===== src/Bitmap.antt =====
-- The inode bitmap of prelude/inode.c (block 1024): a set bit, from the high end of each byte, is a
-- free inode.
pub mod Bits
pub mod Laws
pub mod Count
use Prim.Native.Nat.{bit_and, bit_or}
use os_fuse.Base.{
  ℕ, zero, suc, ◌+◌, ◌*◌, ◌-◌, ◌/◌, ◌%◌, ◌^◌, Option, none, some, ltb, leb, ◌==◌, if◌then◌else◌,
}
use os_fuse.Memory.{Bytes, get_u8, put_u8}
use os_fuse.State.{Sys, enospc, block_read, block_write, errno_push}
use os_fuse.Inode.{inode_blk_size}

-- `ptr >>= 1` on a signed char: the sign bit stays.
abbrev pub shift_char : ℕ → ℕ
shift_char p = p / 2 + p / 128 * 128

-- The inner loop, over the bits of one byte: the position and the mask at the first hit. Both
-- operands of `b.buf[i] & ptr` are sign-extended, which is 0 when their low bytes have no common
-- bit.
unfoldable pub find_bit : (rounds j ptr byte : ℕ) → Option (ℕ × ℕ)
find_bit zero j ptr byte = none
find_bit (suc k) j ptr byte =
    if bit_and byte ptr == 0 then find_bit k (j + 1) (shift_char ptr) byte else some (j, ptr)

-- The outer loop, over the bytes.
unfoldable pub find_byte : (rounds i : ℕ) → Bytes → Option (ℕ × ℕ × ℕ)
unfolding find_bit
find_byte zero i b = none
find_byte (suc k) i b =
    let rest = find_byte k (i + 1) b in
    if get_u8 b i == 0
    then rest
    else elim (find_bit 8 0 0x80 (get_u8 b i)) [ none ↦ rest | some (j, ptr) ↦ some (i, j, ptr) ]

-- What free_inode_pop does with the bit that it found: clear it, write the block, return its
-- number.
unfoldable pub take_inode : Option (ℕ × ℕ × ℕ) → Sys → ℕ × Sys
take_inode none s = (0, errno_push enospc s)
take_inode (some (i, j, ptr)) s =
    let b = block_read inode_blk_size s in
    (8 * i + j, block_write inode_blk_size (put_u8 b i (bit_and (get_u8 b i) (255 - ptr))) s)

unfoldable pub free_inode_pop : Sys → ℕ × Sys
unfolding find_byte take_inode
free_inode_pop s = take_inode (find_byte (inode_blk_size / 8) 0 (block_read inode_blk_size s)) s

-- From inode 4096 on the byte is behind the end of the block, which then stays as it is; in C that
-- is undefined.
unfoldable pub free_inode_push : ℕ → Sys → Sys
free_inode_push inum s =
    let b = block_read inode_blk_size s in
    let byte = bit_or (get_u8 b (inum / 8)) (0x80 / 2 ^ (inum % 8)) in
    let pushed = if ltb (inum / 8) 512 then put_u8 b (inum / 8) byte else b in
    if ltb inum 2 then s else block_write inode_blk_size pushed s
