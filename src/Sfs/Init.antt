-- ===== src/Sfs/Init.antt =====
-- The disk that sfs_init leaves: the free blocks, the free inodes and the root directory.
use os_fuse.Base.{
  ℕ, zero, suc, ◌+◌, ◌-◌, ◌/◌, ◌%◌, ◌<◌, ◌≡◌, refl, ◌∙◌, sym, arith, true, leb, ◌==◌, if◌then◌else◌,
  List, [], ◌∷◌, ◌∉◌,
}
use mathlib.Core.Path.{subst}
use os_fuse.State.{Sys, Disk, block_write}
use os_fuse.FreeBlock.{free_block_init, free_block_pop}
use os_fuse.FreeBlock.Chain.{IsFree, IsFree-update}
use os_fuse.FreeBlock.Pop.{free_block_pop-cons}
use os_fuse.FreeBlock.Init.{errno-free_block_init, range, free_block_init-IsFree, not-mem-range}
use os_fuse.Inode.{inode_blk_size, dnode_init, dnode_image}
use os_fuse.Inode.Slots.{slot_dump-IsFree}
use os_fuse.Memory.{Bytes, get_u8, put_u8}
use os_fuse.Bitmap.Bits.{bit, all_bits, all_bits-member}
use os_fuse.Bitmap.Laws.{is_free}
use os_fuse.Listing.{dir_layout}
use os_fuse.Listing.Store.{list_slots}
use os_fuse.Directory.Append.{IsDir}
use os_fuse.Directory.Create.{first_entries, dnode_init-IsDir}
use os_fuse.Listing.Frame.{is_free-slot_dump, errno-slot_dump}
use os_fuse.Sfs.{sfs_init}
use os_fuse.Bitmap.Count.{count_free, free_inodes}
use os_fuse.Format.{pop_blocks, inode_init, initial_bitmap}

-- Popping `k` of the free blocks from `from` on leaves the others.
pop_blocks-IsFree :
    (k from n : ℕ) (s : Sys)
    → IsFree s.disk (range from (k + n))
    → IsFree (pop_blocks k s).disk (range (from + k) n) × ((pop_blocks k s).errno ≡ s.errno)
unfolding pop_blocks
pop_blocks-IsFree zero from n s free =
    let here : from ≡ from + 0 = omega arith in
    let all : 0 + n ≡ n = omega arith in
    (
      subst (λ (a : ℕ). IsFree s.disk (range a n)) here
          (subst (λ (m : ℕ). IsFree s.disk (range from m)) all free),
      refl,
    )
pop_blocks-IsFree (suc k) from n s free =
    let more : suc k + n ≡ suc (k + n) = omega arith in
    let free' : IsFree s.disk (from ∷ range (from + 1) (k + n)) =
      subst (λ (m : ℕ). IsFree s.disk (range from m)) more free in
    let (_, left, _, err) = free_block_pop-cons s from (range (from + 1) (k + n)) free' in
    let (done, err') = pop_blocks-IsFree k (from + 1) n (free_block_pop s).1 left in
    let there : from + 1 + k ≡ from + suc k = omega arith in
    (
      subst (λ (a : ℕ). IsFree (pop_blocks k (free_block_pop s).1).disk (range a n)) there done,
      err' ∙ err,
    )

-- The bits of the bitmap's first contents.
initial_table :
    all_bits 1024 (λ m. bit (get_u8 initial_bitmap (m / 8)) (m % 8) == (if leb 3 m then 1 else 0))
    ≡ true
unfolding all_bits bit get_u8 put_u8
initial_table = refl

-- The free inodes behind a write of the initial bitmap.
is_free-initial :
    (s : Sys) (m : ℕ)
    → m < 1024
    → is_free (block_write inode_blk_size initial_bitmap s).disk m ≡ leb 3 m
unfolding is_free block_write
is_free-initial s m lt =
    let table =
      all_bits-member 1024
        (λ i. bit (get_u8 initial_bitmap (i / 8)) (i % 8) == (if leb 3 i then 1 else 0)) m
        initial_table lt in
    ground (arith, table)

count_free-from_three :
    (d : Disk) (k : ℕ) → ((m : ℕ) → m < k → is_free d m ≡ leb 3 m) → count_free d k ≡ k - 3
unfolding count_free
count_free-from_three d zero bits = refl
count_free-from_three d (suc k) bits =
    let rest = count_free-from_three d k (λ m lt. bits m (omega arith)) in
    let here = bits k (omega arith) in rw (here, rest) (ground arith)

IsFree-bitmap :
    (b : Bytes) (xs : List ℕ) (s : Sys)
    → 1024 ∉ xs
    → IsFree s.disk xs
    → IsFree (block_write inode_blk_size b s).disk xs
unfolding block_write
IsFree-bitmap b xs s out free = IsFree-update s.disk 1024 b xs (omega arith) out free

IsFree-dnode_init :
    (xs : List ℕ) (s : Sys) → 0 ∉ xs → IsFree s.disk xs → IsFree (dnode_init 2 2 s).disk xs
unfolding dnode_init
IsFree-dnode_init xs s out free = slot_dump-IsFree 2 (dnode_image 2 2) s xs (omega arith) out free

bits-dnode_init : (s : Sys) (m : ℕ) → is_free (dnode_init 2 2 s).disk m ≡ is_free s.disk m
unfolding dnode_init
bits-dnode_init s m = is_free-slot_dump 2 (dnode_image 2 2) s m (omega arith)

errno-block_write : (s : Sys) → (block_write inode_blk_size initial_bitmap s).errno ≡ s.errno
unfolding block_write
errno-block_write s = refl

errno-dnode_init : (s : Sys) → (dnode_init 2 2 s).errno ≡ s.errno
unfolding dnode_init
errno-dnode_init s = errno-slot_dump 2 (dnode_image 2 2) s

-- After the formatting of any disk, the blocks 1025 to 32767 are free, in order; of the 1024
-- inodes the first three are in use, the other 1021 are free, and inode 2 is a directory of two
-- entries, in its slot alone. No error is recorded that was not before.
pub sfs_init-Formatted :
    (s : Sys)
    → let t = sfs_init s in
      IsFree t.disk (range 1025 31743)
      × ((m : ℕ) → m < 1024 → is_free t.disk m ≡ leb 3 m)
      × (free_inodes t.disk ≡ 1021)
      × IsDir t 2 2 (first_entries 2 2)
      × (list_slots dir_layout t 2 ≡ 2 ∷ [])
      × (t.errno ≡ s.errno)
unfolding sfs_init inode_init
sfs_init-Formatted s =
    let linked : Sys = free_block_init s in
    let count : inode_blk_size - 1 + 31744 ≡ 32767 = omega arith in
    let (free, err) =
      pop_blocks-IsFree (inode_blk_size - 1) 1 31744 linked (
        subst (λ (n : ℕ). IsFree linked.disk (range 1 n)) (sym count) (free_block_init-IsFree s)) in
    let popped : Sys = pop_blocks (inode_blk_size - 1) linked in
    let out : 1024 ∉ range 1025 31743 = not-mem-range 1024 1025 31743 (omega arith) in
    let (_, left, _, err') = free_block_pop-cons popped 1024 (range 1025 31743) free in
    let last : Sys = (free_block_pop popped).1 in
    let mapped : Sys = block_write inode_blk_size initial_bitmap last in
    let free' : IsFree mapped.disk (range 1025 31743) =
      IsFree-bitmap initial_bitmap (range 1025 31743) last out left in
    let bits : ((m : ℕ) → m < 1024 → is_free (sfs_init s).disk m ≡ leb 3 m) =
      λ m lt. bits-dnode_init mapped m ∙ is_free-initial last m lt in
    let (list, slots) =
      dnode_init-IsDir 2 2 mapped (omega arith) (is_free-initial last 2 (omega arith)) in
    (
      IsFree-dnode_init (range 1025 31743) mapped (not-mem-range 0 1025 31743 (omega arith)) free',
      bits,
      count_free-from_three (sfs_init s).disk 1024 bits,
      list,
      slots,
      errno-dnode_init mapped ∙ (errno-block_write last ∙ (err' ∙ (err ∙ errno-free_block_init s))),
    )
