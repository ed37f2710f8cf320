-- ===== src/Suite.antt =====
-- The unit tests of prelude/main.c as functions from the state to whether every assertion holds.
-- The bytes that a test draws from rand() are an argument.
pub mod Lists
pub mod Files
pub mod Passes
use os_fuse.Base.{
  ℕ, zero, suc, ◌+◌, ◌*◌, ℤ, pos, negsuc, Bool, true, false, ◌&&◌, ◌==◌, List, [], ◌∷◌, none,
  if◌then◌else◌, word_gt_zero, to_word, ◌-◌,
}
use os_fuse.Memory.{Bytes, zeros, get_u8, get_u16, memcpy, object}
use os_fuse.CString.{equal_strings}
use os_fuse.State.{Sys, block_read, block_write, enospc, errno_pop}
use os_fuse.FreeBlock.{
  free_block_init, free_block_pop, free_block_push, free_block_size, max_block_num,
}
use os_fuse.Inode.{
  slot_load, size_at, isdir_at, nlink_at, inode_get_attr_upc, fnode_init, dnode_init, di_ent_c,
}
use os_fuse.Bitmap.{free_inode_pop, free_inode_push}
use os_fuse.Format.{inode_init, pop_blocks}
use os_fuse.Listing.{dnode_listing, dnode_listing_set}
use os_fuse.Resolve.{path_to_inum, path_to_inum_elem}

-- mu_assert_int_eq on an int
abbrev pub same_int : ℤ → ℤ → Bool
same_int (pos m) (pos n) = m == n
same_int (negsuc m) (negsuc n) = m == n
same_int (pos m) (negsuc n) = false
same_int (negsuc m) (pos n) = false

-- memcmp(a, b, n) == 0
unfoldable pub same_bytes : ℕ → Bytes → Bytes → Bool
same_bytes zero a b = true
same_bytes (suc n) a b = same_bytes n a b && a n == b n

-- The lines with which the tests of inode.c begin.
abbrev pub fresh : Sys → Sys
fresh s = inode_init (free_block_init s)

-- `text` is "Hello, Block IO!" in a buffer of zeros.
unfoldable pub test_block_io : Bytes → Sys → Bool
test_block_io text s = equal_strings 512 0 (block_read 1 (block_write 1 text s)) text

unfoldable pub test_fb_pop : Sys → Bool
test_fb_pop s =
    let s = free_block_init s in
    let (a, s) = free_block_pop s in
    let (b, s) = free_block_pop s in
    let (c, s) = free_block_pop s in
    let (d, s) = free_block_pop s in
    same_int (pos 1) a && same_int (pos 2) b && same_int (pos 3) c && same_int (pos 4) d

-- mu_assert_int_eq(n, free_block_pop()) for each number of a list
unfoldable pub pops_are : List ℕ → Sys → Bool × Sys
pops_are [] s = (true, s)
pops_are (n ∷ ns) s =
    let (a, s) = free_block_pop s in
    let (rest, s) = pops_are ns s in (same_int (pos n) a && rest, s)

unfoldable pub push_all : List ℕ → Sys → Sys
push_all [] s = s
push_all (n ∷ ns) s = push_all ns (free_block_push n s).1

unfoldable pub test_fb_push : Sys → Bool
unfolding pops_are push_all
test_fb_push s =
    let s = pop_blocks (20 + 512) (free_block_init s) in
    let s = (free_block_push (4 + 512) s).1 in
    let (a, s) = free_block_pop s in
    let s = push_all (520 ∷ 517 ∷ 526 ∷ 519 ∷ 518 ∷ 513 ∷ []) s in
    let (b, s) = pops_are (513 ∷ 518 ∷ 519 ∷ 526 ∷ 517 ∷ 520 ∷ []) s in
    let s = pop_blocks max_block_num s in
    let s = (free_block_push (20 + 512) s).1 in
    let c = free_block_size s in
    let (d, s) = free_block_pop s in
    same_int (pos 516) a && b && same_int (pos 1) c && same_int (pos 532) d

unfoldable pub test_inode_init : Sys → Bool
test_inode_init s =
    let node = slot_load 2 (fresh s) in
    get_u16 node size_at == 2 && get_u8 node isdir_at == 1 && get_u16 node nlink_at == 2

-- mu_assert_int_eq(n, free_inode_pop()) for each number of a list
unfoldable pub inodes_are : List ℕ → Sys → Bool × Sys
inodes_are [] s = (true, s)
inodes_are (n ∷ ns) s =
    let (a, s) = free_inode_pop s in let (rest, s) = inodes_are ns s in (n == a && rest, s)

-- `while(free_inode_pop()) i++;`, on at most `rounds` rounds
unfoldable pub pop_inodes : (rounds i : ℕ) → Sys → ℕ × Sys
pop_inodes zero i s = (i, s)
pop_inodes (suc k) i s =
    let (n, s) = free_inode_pop s in
    let rest = pop_inodes k (i + 1) s in if n == 0 then (i, s) else rest

unfoldable pub test_inode_push_pop_create : Sys → Bool
unfolding inodes_are pop_inodes
test_inode_push_pop_create s =
    let (a, s) = inodes_are (3 ∷ 4 ∷ []) (fresh s) in
    let (b, s) = inodes_are (3 ∷ 5 ∷ 6 ∷ 7 ∷ 8 ∷ 9 ∷ []) (free_inode_push 3 s) in
    let (c, s) = inodes_are (5 ∷ 8 ∷ []) (free_inode_push 8 (free_inode_push 5 s)) in
    let (count, s) = pop_inodes 1025 0 (fresh s) in
    let s = dnode_init 4 2 (fnode_init 3 2 s) in
    let file = slot_load 3 s in
    let dir = slot_load 4 s in
    a
    && b
    && c
    && count == 1021
    && get_u16 file size_at == 0
    && get_u8 file isdir_at == 0
    && get_u16 file nlink_at == 1
    && get_u16 dir size_at == 2
    && get_u8 dir isdir_at == 1
    && get_u16 dir nlink_at == 2

unfoldable pub test_inode_stat : Sys → Bool
test_inode_stat s =
    let (st_mode, st_nlink, st_size) = inode_get_attr_upc 2 (fresh s) in
    st_nlink == 2 && same_int (pos 2) st_size

-- Texts of one and two characters.
abbrev text_1 : ℕ → Bytes
text_1 c i = if i == 0 then c else 0

abbrev text_2 : ℕ → ℕ → Bytes
text_2 c e i = if i == 0 then c else if i == 1 then e else 0

unfoldable pub test_path_2_inum : Sys → Bool
test_path_2_inum s =
    let (a, s) = path_to_inum_elem (text_1 b'a') 2 (fresh s) in
    let (b, _, s) = path_to_inum (text_1 b'/') s in
    let (c, parent_inum, s) = path_to_inum (text_2 b'/' b'a') s in
    let (_, s) = dnode_listing 2 s in
    let d = memcpy s.dir_list 16 (di_ent_c (text_1 b'a') 3) 16 in
    let d = memcpy d 32 (di_ent_c (text_1 b'b') 4) 16 in
    let s = dnode_listing_set 2 3 (record s { dir_list = d }) in
    let (e, s) = path_to_inum_elem (text_1 b'a') 2 s in
    let (g, _, s) = path_to_inum (text_2 b'/' b'b') s in
    same_int (negsuc 0) a
    && same_int (pos 2) b
    && same_int (negsuc 0) c
    && same_int (pos 2) parent_inum
    && same_int (pos 3) e
    && same_int (pos 4) g
