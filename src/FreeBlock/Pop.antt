-- ===== src/FreeBlock/Pop.antt =====
-- free_block_pop and free_block_allocate take the first block of the list.
use os_fuse.Base.{
  ℕ, ◌+◌, ◌-◌, ◌%◌, ◌^◌, ◌<◌, ◌≡◌, refl, ◌∙◌, pos, negsuc, Option, none, some, List, [], ◌∷◌, arith,
  word_gt_zero-true, to_int-pos, negsuc,
}
use os_fuse.Memory.{Bytes, zeros, get_u32, put_u32, memcpy, object}
use os_fuse.Memory.Fields.{
  get_u32-put_u32, get_u32-put_u32_ne, get_u32-lt, get_u32-object, get_u32-memcpy_front,
}
use os_fuse.State.{Disk, Sys, enospc, update, block_read, block_write}
use os_fuse.FreeBlock.{
  free_block_pop, free_block_allocate, superblock_write, superblock_read, unlink, freeblock_read,
}
use os_fuse.FreeBlock.Chain.{
  Chain-update, Chain-zero-mem, IsFree, IsFree-update, SameData, SameData-update,
}

-- What superblock_write leaves in block 0.
abbrev pub with_super : Disk → ℕ → ℕ → Disk
with_super d head count =
    update d 0 (memcpy (d 0) 0 (put_u32 (put_u32 (object (d 0) 128) 4 count) 0 head) 128)

pub with_super-head : (d : Disk) (h c : ℕ) → h < 2 ^ 32 → get_u32 (with_super d h c 0) 0 ≡ h
with_super-head d h c lt = get_u32-memcpy_front _ _ 128 0 (omega arith) ∙ get_u32-put_u32 _ 0 h lt

pub with_super-count : (d : Disk) (h c : ℕ) → c < 2 ^ 32 → get_u32 (with_super d h c 0) 4 ≡ c
with_super-count d h c lt =
    get_u32-memcpy_front _ _ 128 4 (omega arith)
    ∙ get_u32-put_u32_ne _ 4 0 h (omega arith)
    ∙ get_u32-put_u32 _ 4 c lt

pub SameData-with_super : (d : Disk) (h c : ℕ) → SameData d (with_super d h c)
unfolding memcpy put_u32 object
SameData-with_super d h c = record { blocks = λ n ne. ground arith; rest = λ i le. ground arith }

-- What pop and allocate leave on the disk when the first free block is `x`.
abbrev pub taken : Disk → ℕ → Disk
taken d x = with_super d (get_u32 (d x) 0) ((get_u32 (d 0) 4 + 2 ^ 32 - 1) % 2 ^ 32)

disk-unlink : (s : Sys) (x : ℕ) → (unlink x (superblock_read s)).disk ≡ taken s.disk x
unfolding unlink superblock_read superblock_write freeblock_read block_read block_write
disk-unlink s x = rw (get_u32-object (s.disk 0) 128 4 (omega arith))

pub taken-IsFree : (d : Disk) (x : ℕ) (xs : List ℕ) → IsFree d (x ∷ xs) → IsFree (taken d x) xs
taken-IsFree d x xs free = record {
  chain =
      rw
        (with_super-head d (get_u32 (d x) 0) ((get_u32 (d 0) 4 + 2 ^ 32 - 1) % 2 ^ 32)
          (get_u32-lt (d x) 0))
        (Chain-update d 0 _ (get_u32 (d x) 0) xs
          (Chain-zero-mem d (get_u32 (d x) 0) xs free.chain.4) free.chain.4);
  count =
      with_super-count d (get_u32 (d x) 0) ((get_u32 (d 0) 4 + 2 ^ 32 - 1) % 2 ^ 32) (omega arith)
      ∙ omega (arith, free.count, free.small);
  small = omega (arith, free.small);
}

head-object :
    (d : Disk) (x : ℕ) (xs : List ℕ) → IsFree d (x ∷ xs) → get_u32 (object (d 0) 128) 0 ≡ x
head-object d x xs free = get_u32-object (d 0) 128 0 (omega arith) ∙ free.chain.0

-- With free blocks `x ∷ xs`, free_block_pop returns `x`, leaves `xs` free and ERRNO as it was, and
-- touches nothing on the disk but the first 8 bytes of the superblock.
pub free_block_pop-cons :
    (s : Sys) (x : ℕ) (xs : List ℕ)
    → IsFree s.disk (x ∷ xs)
    → let (r, s') = free_block_pop s in
      (r ≡ pos x) × IsFree s'.disk xs × SameData s.disk s'.disk × (s'.errno ≡ s.errno)
unfolding free_block_pop
free_block_pop-cons s x xs free =
    rw (head-object s.disk x xs free, word_gt_zero-true x free.chain.1 free.chain.2)
      (
        to_int-pos x free.chain.2,
        rw (disk-unlink s x) (taken-IsFree s.disk x xs free),
        rw (disk-unlink s x) (SameData-with_super s.disk _ _),
        refl,
      )

-- With no free block, free_block_pop returns -1, raises ENOSPC and leaves the disk as it was.
pub free_block_pop-nil :
    (s : Sys)
    → IsFree s.disk []
    → let (r, s') = free_block_pop s in (r ≡ negsuc 0) × (s'.disk ≡ s.disk) × (s'.errno ≡ enospc)
unfolding free_block_pop
free_block_pop-nil s free =
    rw (get_u32-object (s.disk 0) 128 0 (omega arith), free.chain) (refl, refl, refl)

abbrev pub contents : Option Bytes → Bytes
contents none = zeros
contents (some b) = b

-- With free blocks `x ∷ xs`, free_block_allocate returns `x` and leaves `xs` free and the given
-- contents in block `x`; else only the first 8 bytes of the superblock change.
pub free_block_allocate-cons :
    (s : Sys) (buff : Option Bytes) (x : ℕ) (xs : List ℕ)
    → IsFree s.disk (x ∷ xs)
    → let (r, s') = free_block_allocate buff s in
      (r ≡ pos x)
      × IsFree s'.disk xs
      × (s'.disk x ≡ contents buff)
      × SameData (update s.disk x (contents buff)) s'.disk
      × (s'.errno ≡ s.errno)
unfolding free_block_allocate
free_block_allocate-cons s buff x xs free =
    rw (head-object s.disk x xs free, word_gt_zero-true x free.chain.1 free.chain.2)
      (
        to_int-pos x free.chain.2,
        rw (disk-unlink s x)
            (IsFree-update _ x _ xs free.chain.1 free.chain.3 (taken-IsFree s.disk x xs free)),
        ground arith,
        rw (disk-unlink s x)
            (SameData-update s.disk _ x _ free.chain.1 (SameData-with_super s.disk _ _)),
        refl,
      )
