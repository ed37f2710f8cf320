-- ===== src/FreeBlock/Init.antt =====
-- free_block_init formats the disk: every block but the superblock's is free, in order.
use os_fuse.Base.{
  ℕ, zero, suc, ◌+◌, ◌-◌, ◌^◌, ◌<◌, ◌≤◌, ◌≡◌, refl, ◌∙◌, List, [], ◌∷◌, arith, length, ◌∉◌, ap,
  ==-false, eq-==_self, sym, ltb-true, ◌⊎◌,
}
use native.Mathlib.Decide.{ℕ_discrete}
use os_fuse.Memory.{get_u32}
use os_fuse.Memory.Fields.{get_u32-put_u32, get_u32-put_u32_ne, get_u32-memcpy_front}
use os_fuse.State.{Disk, Sys}
use os_fuse.FreeBlock.{init_blocks, link_blocks, free_block_init}
use os_fuse.FreeBlock.Chain.{Chain, IsFree}

-- from, from + 1, …, `n` numbers in all
abbrev pub range : ℕ → ℕ → List ℕ
range from zero = []
range from (suc n) = from ∷ range (from + 1) n

pub length-range : (from n : ℕ) → length (range from n) ≡ n
length-range from zero = refl
length-range from (suc n) = ap suc (length-range (from + 1) n)

pub not-mem-range : (a from n : ℕ) → a < from → a ∉ range from n
not-mem-range a from zero h = refl
not-mem-range a from (suc n) h = ground (arith, not-mem-range a (from + 1) n (omega arith))

link_blocks-other :
    (k from : ℕ) (s : Sys) (m : ℕ)
    → (m < from) ⊎ (from + k ≤ m)
    → (link_blocks k from s).disk m ≡ s.disk m
unfolding link_blocks
link_blocks-other zero from s m out = refl
link_blocks-other (suc k) from s m out =
    link_blocks-other k (from + 1) _ m (omega arith) ∙ ground arith

-- The loop links each block from `from` on to the next, and writes no other block.
link_blocks-next :
    (k from : ℕ) (s : Sys) (m : ℕ)
    → from ≤ m
    → m < from + k
    → m + 1 < 2 ^ 31
    → get_u32 ((link_blocks k from s).disk m) 0 ≡ m + 1
unfolding link_blocks
link_blocks-next zero from s m le lt small = absurd (omega arith)
link_blocks-next (suc k) from s m le lt small = elim (ℕ_discrete m from) [
  | yes e ↦
      rw (link_blocks-other k (from + 1) _ m (omega arith))
        (ground (arith, get_u32-put_u32 s.block_buf 0 (m + 1) (omega arith)))
  | no ne ↦ link_blocks-next k (from + 1) _ m (omega arith) (omega arith) small
]

-- Links that go up by one until the end mark at block `end` make a chain.
Chain-range :
    (d : Disk) (n from end : ℕ)
    → from + n ≡ end
    → 0 < from
    → end < 2 ^ 31
    → ((m : ℕ) → from ≤ m → m < end → get_u32 (d m) 0 ≡ m + 1)
    → get_u32 (d end) 0 ≡ 2 ^ 32 - 1
    → Chain d from (range from (suc n))
Chain-range d zero from end e gt small next last =
    let e' : from ≡ end = omega arith in (refl, gt, omega arith, refl, rw e' last)
Chain-range d (suc n) from end e gt small next last = (
  refl,
  gt,
  omega arith,
  not-mem-range from (from + 1) (suc n) (omega arith),
  rw (next from (omega arith) (omega arith)) (
      Chain-range d n (from + 1) end (omega arith) (omega arith) small
        (λ m a b. next m (omega arith) b) last),
)

-- The superblock and the end mark that init_blocks leaves.
init_blocks-zero :
    (blocks : ℕ) (s : Sys)
    → 1 < blocks
    → blocks < 2 ^ 31
    → let d = (init_blocks blocks s).disk in (get_u32 (d 0) 0 ≡ 1) × (get_u32 (d 0) 4 ≡ blocks - 1)
unfolding init_blocks
init_blocks-zero blocks s gt lt =
    rw
      (
        ltb-true (blocks - 1) (2 ^ 31) (omega arith),
        ==-false 0 (blocks - 1) (omega arith),
        link_blocks-other (blocks - 2) 1 _ 0 (omega arith),
      )
      (
        get_u32-memcpy_front _ _ 128 0 (omega arith)
            ∙ get_u32-put_u32_ne _ 0 4 (blocks - 1) (omega arith)
            ∙ get_u32-put_u32 _ 0 1 (omega arith),
        get_u32-memcpy_front _ _ 128 4 (omega arith)
            ∙ get_u32-put_u32 _ 4 (blocks - 1) (omega arith),
      )

init_blocks-last :
    (blocks : ℕ) (s : Sys)
    → 1 < blocks
    → blocks < 2 ^ 31
    → get_u32 ((init_blocks blocks s).disk (blocks - 1)) 0 ≡ 2 ^ 32 - 1
unfolding init_blocks
init_blocks-last blocks s gt lt =
    rw (ltb-true (blocks - 1) (2 ^ 31) (omega arith), eq-==_self (blocks - 1))
      (get_u32-put_u32 _ 0 (2 ^ 32 - 1) (omega arith))

init_blocks-next :
    (blocks : ℕ) (s : Sys) (m : ℕ)
    → 1 ≤ m
    → m < blocks - 1
    → blocks < 2 ^ 31
    → get_u32 ((init_blocks blocks s).disk m) 0 ≡ m + 1
unfolding init_blocks
init_blocks-next blocks s m le lt small =
    rw (ltb-true (blocks - 1) (2 ^ 31) (omega arith), ==-false m (blocks - 1) (omega arith))
      (link_blocks-next (blocks - 2) 1 _ m le (omega arith) (omega arith))

-- For every disk of at least 2 and at most 2^22 blocks, whose offsets an `int` holds, the format
-- leaves the blocks from 1 on free, in ascending order, whatever the disk held.
pub init_blocks-IsFree :
    (blocks : ℕ) (s : Sys)
    → 1 < blocks
    → blocks ≤ 2 ^ 22
    → IsFree (init_blocks blocks s).disk (range 1 (blocks - 1))
init_blocks-IsFree blocks s gt le =
    let small : blocks < 2 ^ 31 = omega arith in
    let d : Disk = (init_blocks blocks s).disk in
    let (head, count) = init_blocks-zero blocks s gt small in
    let len = length-range 1 (blocks - 1) in
    let size : suc (blocks - 2) ≡ blocks - 1 = omega arith in
    record {
      chain =
          rw (head, ← size)
            (Chain-range d (blocks - 2) 1 (blocks - 1) (omega arith) (omega arith) (omega arith)
              (λ m a b. init_blocks-next blocks s m a b (omega arith))
              (init_blocks-last blocks s gt small));
      count = count ∙ sym len;
      small = omega arith;
    }

-- free_block_init leaves the blocks 1 to 32767 free, in ascending order, whatever the disk held.
pub free_block_init-IsFree : (s : Sys) → IsFree (free_block_init s).disk (range 1 32767)
unfolding free_block_init
free_block_init-IsFree s = init_blocks-IsFree 32768 s (omega arith) (omega arith)

errno-link_blocks : (k from : ℕ) (s : Sys) → (link_blocks k from s).errno ≡ s.errno
unfolding link_blocks
errno-link_blocks zero from s = refl
errno-link_blocks (suc k) from s = errno-link_blocks k (from + 1) _

errno-init_blocks : (blocks : ℕ) (s : Sys) → (init_blocks blocks s).errno ≡ s.errno
unfolding init_blocks
errno-init_blocks blocks s = errno-link_blocks (blocks - 2) 1 _

pub errno-free_block_init : (s : Sys) → (free_block_init s).errno ≡ s.errno
unfolding free_block_init
errno-free_block_init s = errno-init_blocks 32768 s
