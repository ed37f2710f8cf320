-- ===== src/Suite/Passes.antt =====
-- A unit test of prelude/main.c that passes on every disk.
use os_fuse.Base.{◌≡◌, refl, true}
use os_fuse.State.{Sys}
use os_fuse.FreeBlock.{free_block_init, free_block_pop}
use os_fuse.FreeBlock.Init.{range, free_block_init-IsFree}
use os_fuse.FreeBlock.Pop.{free_block_pop-cons}
use os_fuse.Suite.{test_fb_pop}

-- test_fb_pop passes on every disk: after free_block_init the first four blocks that are popped are
-- 1, 2, 3 and 4.
pub test_fb_pop-passes : (s : Sys) → test_fb_pop s ≡ true
unfolding test_fb_pop
test_fb_pop-passes s =
    let s₀ : Sys = free_block_init s in
    let one = free_block_pop-cons s₀ 1 (range 2 32766) (free_block_init-IsFree s) in
    let s₁ : Sys = (free_block_pop s₀).1 in
    let two = free_block_pop-cons s₁ 2 (range 3 32765) one.1 in
    let s₂ : Sys = (free_block_pop s₁).1 in
    let three = free_block_pop-cons s₂ 3 (range 4 32764) two.1 in
    let s₃ : Sys = (free_block_pop s₂).1 in
    let four = free_block_pop-cons s₃ 4 (range 5 32763) three.1 in
    rw (one.0, two.0, three.0, four.0) refl
