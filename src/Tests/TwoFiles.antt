-- ===== src/Tests/TwoFiles.antt =====
-- The theorems on files, applied to two files on one disk.
use os_fuse.Base.{ℕ, ◌+◌, ◌-◌, ◌*◌, ◌<◌, ◌≤◌, ◌≡◌, ◌∙◌, arith, pos, List, length}
use Prim.Native.Nat.{min}
use os_fuse.Memory.{Bytes, zeros, at}
use os_fuse.State.{Sys}
use os_fuse.Bitmap.{free_inode_pop}
use os_fuse.Bitmap.Count.{free_inodes}
use os_fuse.FreeBlock.Chain.{IsFree}
use os_fuse.FreeBlock.Init.{length-range}
use os_fuse.Inode.{slot_load, fnode_init, direct_at}
use os_fuse.Listing.{file_layout}
use os_fuse.Listing.Store.{IsList, ListHolds}
use os_fuse.Stream.{blknum, fstream_read, fstream_write, fstream_free}
use os_fuse.Stream.Blocks.{Mapped}
use os_fuse.Stream.FreeLoop.{freed}
use os_fuse.Stream.Free.{fstream_free-freed}
use os_fuse.Stream.Read.{content}
use os_fuse.Stream.File.{IsFile, file_size}
use os_fuse.Stream.Other.{Apart}
use os_fuse.Stream.Contents.{blocks_after, fstream_write-other, fstream_read-IsFile}
use os_fuse.Stream.Create.{fnode_init-IsFile, fnode_init-other}
use os_fuse.Tests.Files.{first, one_count, few_slots, three_facts}

-- The first file has three bytes.
three : Sys
three = three_facts.0

three_list : Bytes
three_list = three_facts.1

three_free : List ℕ
three_free = three_facts.2

three-IsFile : IsFile three first 1 three_list three_free
unfolding three three_list three_free
three-IsFile = three_facts.5

three_errno : three.errno ≡ pos 0
unfolding three
three_errno = three_facts.4

three_left : length three_free ≡ 31742
unfolding three_free
three_left = let used = three_facts.6 in omega (arith, used, length-range 1025 31743)

three_count : 0 < free_inodes three.disk
unfolding three
three_count = let used = three_facts.7 in omega (arith, used, few_slots, one_count)

-- A second file beside it.
abbrev StillThere : Type 0
StillThere =
    let (inum, t) = free_inode_pop three in
    let u = fnode_init inum 2 t in
    IsFile u first 1 three_list three_free
    × ((j : ℕ) → j < 1 → u.disk (blknum three_list j) ≡ three.disk (blknum three_list j))
    × Apart u inum 0 (at (slot_load inum u) direct_at) first 1 three_list

both_facts : StillThere
both_facts =
    fnode_init-other 2 three_free three three-IsFile.isfree three-IsFile.mapped.free_beyond
      three-IsFile.reserved three_count first 1 three_list three-IsFile

fnode_init-other_example : StillThere
fnode_init-other_example =
    fnode_init-other 2 three_free three three-IsFile.isfree three-IsFile.mapped.free_beyond
      three-IsFile.reserved three_count first 1 three_list three-IsFile

two_files : Sys
two_files = let (n, t) = free_inode_pop three in fnode_init n 2 t

abbrev second : ℕ
second = (free_inode_pop three).0

abbrev second_list : Bytes
second_list = at (slot_load second two_files) direct_at

second_facts :
    IsFile two_files second 0 second_list three_free
    × (file_size two_files second ≡ 0)
    × (two_files.errno ≡ pos 0)
unfolding two_files
second_facts =
    let (_, file, size, err, _) =
      fnode_init-IsFile 2 three_free three three-IsFile.isfree three-IsFile.mapped.free_beyond
        three-IsFile.reserved three_count in
    (file, size, err ∙ three_errno)

both_files :
    IsFile two_files first 1 three_list three_free
    × Apart two_files second 0 second_list first 1 three_list
unfolding two_files
both_files = (both_facts.0, both_facts.2)

more_blocks : 1 ≤ 0 + length three_free
more_blocks = omega (arith, three_left)

fstream_write-other_example :
    (u : Sys) × (g : Bytes) × (rest : List ℕ) × (fstream_write second zeros 3 0 two_files
      ≡ (pos 3, u))
    × IsFile u second (blocks_after 0 3 0) g rest
    × IsFile u first 1 three_list rest
    × ((y : ℕ) → y < 1 * 512 → content u three_list y ≡ content two_files three_list y)
    × Apart u second (blocks_after 0 3 0) g first 1 three_list
fstream_write-other_example =
    fstream_write-other second 0 3 0 zeros second_list three_free two_files second_facts.0
      second_facts.2 (omega arith) (omega arith) (omega arith) more_blocks
      (omega (arith, few_slots)) first 1 three_list both_files.0 both_files.1

fstream_read-IsFile_example :
    let (count, filled, _) = fstream_read first zeros 2 1 three in
    (count ≡ min (file_size three first - 1) 2)
    × ((x : ℕ) → x < count → filled x ≡ content three three_list (1 + x))
fstream_read-IsFile_example =
    fstream_read-IsFile first 1 2 1 zeros three_list three_free three three-IsFile

fstream_free-freed_example :
    (u : Sys) × (h : Bytes) × (fstream_free first 0 three ≡ u)
    × (u.errno ≡ pos 0)
    × IsList file_layout u first
    × ListHolds file_layout u first 0 h
    × ((j : ℕ) → j < 0 → blknum h j ≡ blknum three_list j)
    × IsFree u.disk (freed three_list (1 - 0) 0 three_free)
    × Mapped h 0 (freed three_list (1 - 0) 0 three_free)
    × ((y : ℕ) → y < 0 * 512 → content u h y ≡ content three three_list y)
fstream_free-freed_example =
    fstream_free-freed first 1 0 three_list three_free three three-IsFile (omega arith) three_errno
      (omega (arith, three_left))
