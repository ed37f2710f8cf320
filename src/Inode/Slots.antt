-- ===== src/Inode/Slots.antt =====
-- inode_load and inode_dump: the slots of the disk are independent cells, four to a block.
use os_fuse.Base.{ℕ, ◌*◌, ◌/◌, ◌%◌, ◌≡◌, ◌≢◌, fun_ext, arith, List, ◌∉◌, eq-==_self}
use native.Mathlib.Decide.{ℕ_discrete}
use os_fuse.Memory.{Bytes, memcpy, object}
use os_fuse.Memory.Fields.{get_u32-memcpy_ne}
use os_fuse.State.{Sys, block_read, block_write}
use os_fuse.Inode.{slot_load, slot_dump}
use os_fuse.FreeBlock.Chain.{IsFree, IsFree-update, IsFree-update_zero}

-- What inode_dump stores in a slot is what inode_load reads from it.
pub slot_load-slot_dump :
    (n : ℕ) (b : Bytes) (s : Sys) → slot_load n (slot_dump n b s) ≡ object b 128
unfolding slot_load slot_dump block_read block_write object memcpy
slot_load-slot_dump n b s = fun_ext λ y. rw (eq-==_self (n / 4)) (ground arith)

-- inode_dump leaves every other slot as it was, those of the same block included.
pub slot_load-slot_dump_ne :
    (m n : ℕ) (b : Bytes) (s : Sys) → m ≢ n → slot_load m (slot_dump n b s) ≡ slot_load m s
unfolding slot_load slot_dump block_read block_write object memcpy
slot_load-slot_dump_ne m n b s ne = fun_ext λ y. ground arith

-- inode_dump writes the block of the slot alone.
pub disk-slot_dump :
    (m n : ℕ) (b : Bytes) (s : Sys) → m ≢ n / 4 → (slot_dump n b s).disk m ≡ s.disk m
unfolding slot_dump block_write
disk-slot_dump m n b s ne = ground arith

-- A slot of a block that two states agree on.
pub slot_load-of-disk :
    (n : ℕ) (s t : Sys) → t.disk (n / 4) ≡ s.disk (n / 4) → slot_load n t ≡ slot_load n s
unfolding slot_load block_read
slot_load-of-disk n s t e = rw e

-- inode_dump of any slot but number 0 leaves the free block list alone, though slots 1 to 3 share a
-- block with the superblock, if the slot's block is allocated.
pub slot_dump-IsFree :
    (n : ℕ) (b : Bytes) (s : Sys) (xs : List ℕ)
    → n ≢ 0
    → n / 4 ∉ xs
    → IsFree s.disk xs
    → IsFree (slot_dump n b s).disk xs
unfolding slot_dump block_read block_write
slot_dump-IsFree n b s xs ne out free = elim (ℕ_discrete (n / 4) 0) [
  | yes e ↦ rw e (
      IsFree-update_zero s.disk _ xs
        (get_u32-memcpy_ne (s.disk 0) b (n % 4 * 128) 128 0 (omega arith))
        (get_u32-memcpy_ne (s.disk 0) b (n % 4 * 128) 128 4 (omega arith)) free)
  | no gt ↦ IsFree-update s.disk (n / 4) _ xs (omega arith) out free
]
