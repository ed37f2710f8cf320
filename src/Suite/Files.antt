-- ===== src/Suite/Files.antt =====
-- The unit tests of prelude/main.c that empty the free block list, fill directories and fill files.
use os_fuse.Base.{
  ℕ, zero, suc, ◌+◌, ◌-◌, ◌*◌, ◌%◌, ℤ, pos, negsuc, to_ushort, Bool, true, false, ◌&&◌, ltb, ◌==◌,
  if◌then◌else◌,
}
use os_fuse.Memory.{Bytes, zeros, at, memcpy}
use os_fuse.State.{Sys, enospc, errno_pop}
use os_fuse.FreeBlock.{free_block_init, free_block_pop, free_block_size, max_block_num}
use os_fuse.Inode.{block_size, fentry_max_size, fnode_init, dnode_init, di_ent_c}
use os_fuse.Bitmap.{free_inode_pop}
use os_fuse.Listing.{dnode_listing, fnode_listing}
use os_fuse.Directory.{dnode_append, dnode_remove}
use os_fuse.Stream.{fstream_read, fstream_write, fstream_free}
use os_fuse.Suite.{same_int, fresh}

-- `n > 0`
abbrev gt_zero : ℤ → Bool
gt_zero (pos n) = ltb 0 n
gt_zero (negsuc n) = false

-- `for ( ; free_block_pop()>0; count++);`, on at most `rounds` rounds
unfoldable pub pop_till_empty : (rounds count : ℕ) → Sys → ℕ × Sys
pop_till_empty zero count s = (count, s)
pop_till_empty (suc k) count s =
    let (n, s) = free_block_pop s in
    let rest = pop_till_empty k (count + 1) s in if gt_zero n then rest else (count, s)

unfoldable pub test_fb_pop_till_empty : Sys → Bool
unfolding pop_till_empty
test_fb_pop_till_empty s =
    let (count, s) = pop_till_empty max_block_num 0 (free_block_init s) in
    let (a, s) = errno_pop s in
    let (b, s) = free_block_pop s in
    same_int enospc a
    && count == max_block_num - 1
    && same_int (negsuc 0) b
    && same_int (pos 0) (free_block_size s)

-- The buffer of names, from the results of rand() and what the array held.
abbrev random_names : (rand : ℕ → ℕ) → Bytes → Bytes
random_names rand rndbuf i =
    if ltb i (14 * 200)
    then if i % 14 == 0 then b'_' else if i % 14 == 13 then 0 else rand i % 26 + b'a'
    else rndbuf i

-- The loop that appends, and the loop that appends or removes as rand() decides.
unfoldable pub append_names : (rounds i : ℕ) → Bytes → Sys → Sys
append_names zero i rndbuf s = s
append_names (suc k) i rndbuf s =
    append_names k (i + 1) rndbuf (dnode_append (pos 3) (di_ent_c (at rndbuf (i * 14)) i) s)

unfoldable pub shuffle_names : (rand : ℕ → ℕ) (rounds i : ℕ) → Bytes → Sys → Sys
shuffle_names rand zero i rndbuf s = s
shuffle_names rand (suc k) i rndbuf s =
    let appended = dnode_append (pos 3) (di_ent_c (at rndbuf ((i + 100) * 14)) i) s in
    let removed = dnode_remove (pos 3) (at rndbuf (i * 14)) s in
    shuffle_names rand k (i + 1) rndbuf (if rand i % 4 == 0 then appended else removed)

-- `rand` and `rand'` are the results of rand() in the first loop and in the last.
unfoldable pub test_dnode_add_rm : (rand rand' : ℕ → ℕ) → Bytes → Sys → Bool
unfolding append_names shuffle_names
test_dnode_add_rm rand rand' rndbuf s =
    let rndbuf = random_names rand rndbuf in
    let (a, s) = free_inode_pop (fresh s) in
    let s = append_names 100 0 rndbuf (dnode_init 3 2 s) in
    let s = shuffle_names rand' 100 0 rndbuf s in
    let (size, s) = dnode_listing 3 s in a == 3 && ltb 2 size && ltb size 100

-- The loop over the first files. A block number is taken for the inode number of each.
unfoldable pub fill_files : (rounds : ℕ) → Bytes → Sys → Bool × Sys
fill_files zero buf s = (true, s)
fill_files (suc k) buf s =
    let (inum, s) = free_block_pop s in
    let s = fnode_init (to_ushort inum) 2 s in
    let (_, s) = fstream_write (to_ushort inum) buf (block_size * fentry_max_size) 0 s in
    let (a, s) = errno_pop s in
    let (_, s) = fnode_listing (to_ushort inum) s in
    let (rest, s) = fill_files k buf s in (same_int (pos 0) a && rest, s)

-- The buffer is zeros but for the first four bytes, half the size of a pointer; `rand` has their
-- values. memset clears four bytes, the size of an int.
unfoldable pub test_stream_io : (rand : ℕ → ℕ) → Sys → Bool
unfolding fill_files
test_stream_io rand s =
    let buf : Bytes = λ i. if ltb i 4 then rand i % 256 else 0 in
    let all = block_size * fentry_max_size in
    let (a, s) = fill_files 3 buf (fresh s) in
    let (inum, s) = free_block_pop s in
    let s = fnode_init (to_ushort inum) 2 s in
    let (_, s) = fstream_write (to_ushort inum) buf all 0 s in
    let (_, s) = fnode_listing (to_ushort inum) s in
    let (b, s) = free_block_pop s in
    let (c, s) = errno_pop s in
    let (_, buf, s) = fstream_read 3 (memcpy buf 0 zeros 4) all 0 s in
    let (d, s) = errno_pop s in
    let (inum, s) = free_block_pop (fstream_free 3 0 s) in
    let (_, s) = fstream_write (to_ushort inum) buf all 0 s in
    let (_, s) = fnode_listing (to_ushort inum) s in
    let (e, s) = errno_pop s in
    let (g, s) = free_block_pop s in
    let (h, s) = errno_pop s in
    a
    && same_int (negsuc 0) b
    && same_int (negsuc 27) c
    && same_int (pos 0) d
    && same_int (pos 0) e
    && same_int (pos 0) g
    && same_int (negsuc 27) h
