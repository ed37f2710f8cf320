-- ===== src/Tests/Blocks.antt =====
-- The theorems on the free block list, applied to a disk of four blocks.
use os_fuse.Base.{◌≡◌, refl, pos, negsuc, [], ◌∷◌, arith}
use os_fuse.Memory.{zeros, put_u32, get_u32}
use os_fuse.State.{Sys, update, enospc}
use os_fuse.FreeBlock.{free_block_pop, free_block_push}
use os_fuse.FreeBlock.Chain.{IsFree, SameData}
use os_fuse.FreeBlock.Pop.{free_block_pop-cons, free_block_pop-nil}
use os_fuse.FreeBlock.Push.{free_block_push-IsFree, free_block_pop-push}
use os_fuse.FreeBlock.Init.{range}
use os_fuse.Inode.{slot_dump}
use os_fuse.Inode.Slots.{slot_dump-IsFree}
use os_fuse.Tests.{formatted}
use os_fuse.FreeBlock.{init_blocks}
use os_fuse.FreeBlock.Init.{init_blocks-IsFree}

abbrev four : Sys
four = init_blocks 4 formatted

four-IsFree : IsFree four.disk (1 ∷ 2 ∷ 3 ∷ [])
four-IsFree = init_blocks-IsFree 4 formatted (omega arith) (omega arith)

init_blocks-IsFree_example : IsFree (init_blocks 4 formatted).disk (range 1 3)
init_blocks-IsFree_example = init_blocks-IsFree 4 formatted (omega arith) (omega arith)

free_block_pop-cons_example :
    let (r, t) = free_block_pop four in
    (r ≡ pos 1) × IsFree t.disk (2 ∷ 3 ∷ []) × SameData four.disk t.disk × (t.errno ≡ four.errno)
free_block_pop-cons_example = free_block_pop-cons four 1 (2 ∷ 3 ∷ []) four-IsFree

-- A disk of two blocks, whose one free block is taken.
abbrev full : Sys
full = (free_block_pop (init_blocks 2 formatted)).1

full-IsFree : IsFree full.disk []
full-IsFree =
    (free_block_pop-cons (init_blocks 2 formatted) 1 []
      (init_blocks-IsFree 2 formatted (omega arith) (omega arith))).1

free_block_pop-nil_example :
    let (r, t) = free_block_pop full in (r ≡ negsuc 0) × (t.disk ≡ full.disk) × (t.errno ≡ enospc)
free_block_pop-nil_example = free_block_pop-nil full full-IsFree

free_block_push-IsFree_example :
    let t = (free_block_push 9 four).1 in
    IsFree t.disk (9 ∷ 1 ∷ 2 ∷ 3 ∷ [])
    × SameData (update four.disk 9 (put_u32 (four.disk 0) 0 (get_u32 (four.disk 0) 0))) t.disk
    × (t.errno ≡ four.errno)
free_block_push-IsFree_example =
    free_block_push-IsFree four 9 (1 ∷ 2 ∷ 3 ∷ []) (omega arith) (omega arith) refl (omega arith)
      four-IsFree

free_block_pop-push_example :
    let (r, t) = free_block_pop (free_block_push 9 four).1 in
    (r ≡ pos 9) × IsFree t.disk (1 ∷ 2 ∷ 3 ∷ [])
free_block_pop-push_example =
    free_block_pop-push four 9 (1 ∷ 2 ∷ 3 ∷ []) (omega arith) (omega arith) refl (omega arith)
      four-IsFree

slot_dump-IsFree_example : IsFree (slot_dump 3 zeros four).disk (1 ∷ 2 ∷ 3 ∷ [])
slot_dump-IsFree_example =
    slot_dump-IsFree 3 zeros four (1 ∷ 2 ∷ 3 ∷ []) (omega arith) refl four-IsFree
