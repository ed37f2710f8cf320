-- ===== src/Suite/Lists.antt =====
-- The tests of prelude/main.c on entry lists. `rndbuf` is an argument; the tests differ from each
-- other in the sizes and in what they look at between storing and reading.
use os_fuse.Base.{ℕ, zero, suc, ◌+◌, ◌*◌, ◌-◌, pos, Bool, true, ◌&&◌, ◌==◌}
use os_fuse.Memory.{Bytes, zeros, at, get_u16, memcpy}
use os_fuse.State.{Sys, errno_pop}
use os_fuse.Inode.{slot_load, pages_at, fnode_init, dnode_init, dentry_max_size}
use os_fuse.Bitmap.{free_inode_pop, free_inode_push}
use os_fuse.Listing.{dnode_listing, fnode_listing, dnode_listing_set, fnode_listing_set}
use os_fuse.Suite.{fresh, same_bytes, same_int}

-- Storing the first `target` entries of `rndbuf` in inode 3.
unfoldable pub file_store : (target : ℕ) (rndbuf : Bytes) → Sys → Sys
file_store target rndbuf s =
    fnode_listing_set 3 target (record s { file_list = memcpy s.file_list 0 rndbuf (4 * target) })

unfoldable pub dir_store : (target : ℕ) (rndbuf : Bytes) → Sys → Sys
dir_store target rndbuf s =
    dnode_listing_set 3 target (record s { dir_list = memcpy s.dir_list 0 rndbuf (16 * target) })

-- Clearing the array and reading the list back.
unfoldable pub file_check : (target : ℕ) (rndbuf : Bytes) → Sys → Bool × Sys
file_check target rndbuf s =
    let (sizef, s) =
      fnode_listing 3 (record s { file_list = memcpy s.file_list 0 zeros (4 * target) }) in
    (target == sizef && same_bytes (4 * target) s.file_list rndbuf, s)

unfoldable pub dir_check : (target : ℕ) (rndbuf : Bytes) → Sys → Bool × Sys
dir_check target rndbuf s =
    let (sizef, s) =
      dnode_listing 3 (record s { dir_list = memcpy s.dir_list 0 zeros (16 * target) }) in
    (target == sizef && same_bytes (16 * target) s.dir_list rndbuf, s)

-- The first lines: the number of the inode, and its listing.
abbrev file_start : Sys → ℕ × ℕ × Sys
file_start s =
    let (n, s) = free_inode_pop (fresh s) in
    let (sizef, s) = fnode_listing 3 (fnode_init 3 2 s) in (n, sizef, s)

abbrev dir_start : Sys → ℕ × ℕ × Sys
dir_start s =
    let (n, s) = free_inode_pop (fresh s) in
    let (sizef, s) = dnode_listing 3 (dnode_init 3 2 s) in (n, sizef, s)

-- free_inode_pop(), and free_inode_push() of the number that is expected
abbrev next_inode : ℕ → Sys → Bool × Sys
next_inode n s = let (m, s) = free_inode_pop s in (n == m, free_inode_push n s)

-- `node.ifile.fpnum[i]` of inode 3
abbrev page_number : ℕ → Sys → ℕ
page_number i s = get_u16 (slot_load 3 s) (pages_at + 2 * i)

unfoldable pub test_fnode_list_adhoc : Bytes → Sys → Bool
test_fnode_list_adhoc rndbuf s =
    let (n, sizef, s) = file_start s in
    let (a, s) = next_inode 4 (file_store 24 rndbuf s) in
    let (b, s) = file_check 24 rndbuf s in n == 3 && sizef == 0 && a && b

unfoldable pub test_dnode_list_adhoc : Bytes → Sys → Bool
test_dnode_list_adhoc rndbuf s =
    let (n, sizef, s) = dir_start s in
    let (a, s) = next_inode 4 (dir_store 6 rndbuf s) in
    let (b, s) = dir_check 6 rndbuf s in n == 3 && sizef == 2 && a && b

-- The test looks at the first entry of the page in inode 4.
unfoldable pub test_fnode_list_lv1exp : Bytes → Sys → Bool
test_fnode_list_lv1exp rndbuf s =
    let (n, sizef, s) = file_start s in
    let (a, s) = next_inode 5 (file_store 25 rndbuf s) in
    let p = page_number 0 s in
    let c = same_bytes 4 (slot_load 4 s) (at rndbuf (4 * 24)) in
    let (d, s) = file_check 25 rndbuf s in
    let (e, s) = next_inode 8 (file_store 151 rndbuf s) in
    let g =
      page_number 0 s == 4
      && page_number 1 s == 5
      && page_number 2 s == 6
      && page_number 3 s == 7 in
    let (h, s) = file_check 151 rndbuf s in n == 3 && a && p == 4 && c && d && e && g && h

unfoldable pub test_dnode_list_lv1exp : Bytes → Sys → Bool
test_dnode_list_lv1exp rndbuf s =
    let (n, sizef, s) = dir_start s in
    let (a, s) = next_inode 5 (dir_store 7 rndbuf s) in
    let p = page_number 0 s in
    let c = same_bytes 16 (slot_load 4 s) (at rndbuf (16 * 6)) in
    let (d, s) = dir_check 7 rndbuf s in
    let (e, s) = next_inode 8 (dir_store 38 rndbuf s) in
    let g =
      page_number 0 s == 4
      && page_number 1 s == 5
      && page_number 2 s == 6
      && page_number 3 s == 7 in
    let (h, s) = dir_check 38 rndbuf s in n == 3 && a && p == 4 && c && d && e && g && h

unfoldable pub test_fnode_list_lv2exp : Bytes → Sys → Bool
test_fnode_list_lv2exp rndbuf s =
    let (n, sizef, s) = file_start s in
    let (a, s) = next_inode 10 (file_store 153 rndbuf s) in
    let (b, s) = file_check 153 rndbuf s in
    let (c, s) = file_check 185 rndbuf (file_store 185 rndbuf s) in
    let (e, s) = errno_pop (file_store (dentry_max_size - 1) rndbuf s) in
    let (d, s) = file_check (dentry_max_size - 1) rndbuf s in
    n == 3 && a && b && c && same_int (pos 0) e && d

unfoldable pub test_dnode_list_lv2exp : Bytes → Sys → Bool
test_dnode_list_lv2exp rndbuf s =
    let (n, sizef, s) = dir_start s in
    let (a, s) = next_inode 10 (dir_store 39 rndbuf s) in
    let (b, s) = dir_check 39 rndbuf s in
    let (c, s) = dir_check 47 rndbuf (dir_store 47 rndbuf s) in
    let (d, s) =
      dir_check (dentry_max_size - 1) rndbuf (dir_store (dentry_max_size - 1) rndbuf s) in
    n == 3 && a && b && c && d

-- One buffer of random bytes for each repetition.
unfoldable pub file_repeat : (rounds : ℕ) (rndbuf : ℕ → Bytes) → Sys → Bool
file_repeat zero rndbuf s = true
file_repeat (suc k) rndbuf s =
    let (_, s) = fnode_listing 3 s in
    let (a, s) = file_check 5000 (rndbuf k) (file_store 5000 (rndbuf k) s) in
    let (_, s) = fnode_listing 3 s in
    let (b, s) = file_check 50 (rndbuf k) (file_store 50 (rndbuf k) s) in
    let rest = file_repeat k rndbuf s in a && b && rest

unfoldable pub dir_repeat : (rounds : ℕ) (rndbuf : ℕ → Bytes) → Sys → Bool
dir_repeat zero rndbuf s = true
dir_repeat (suc k) rndbuf s =
    let (_, s) = dnode_listing 3 s in
    let (a, s) = dir_check 1000 (rndbuf k) (dir_store 1000 (rndbuf k) s) in
    let (_, s) = dnode_listing 3 s in
    let (b, s) = dir_check 10 (rndbuf k) (dir_store 10 (rndbuf k) s) in
    let rest = dir_repeat k rndbuf s in a && b && rest

unfoldable pub test_fnode_list_scale_and_srink : (ℕ → Bytes) → Sys → Bool
test_fnode_list_scale_and_srink rndbuf s =
    let (n, s) = free_inode_pop (fresh s) in n == 3 && file_repeat 10 rndbuf (fnode_init 3 2 s)

unfoldable pub test_dnode_list_scale_and_srink : (ℕ → Bytes) → Sys → Bool
test_dnode_list_scale_and_srink rndbuf s =
    let (n, s) = free_inode_pop (fresh s) in n == 3 && dir_repeat 10 rndbuf (dnode_init 3 2 s)
