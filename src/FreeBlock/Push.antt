-- ===== src/FreeBlock/Push.antt =====
-- free_block_push puts a block in front of the list.
use os_fuse.Base.{
  ltb-true, ℕ, ◌+◌, ◌%◌, ◌^◌, ◌<◌, ◌≡◌, refl, ◌∙◌, pos, List, ◌∷◌, arith, length, ◌∉◌,
}
use os_fuse.Memory.{get_u32, put_u32}
use os_fuse.Memory.Fields.{get_u32-put_u32, get_u32-lt, get_u32-object}
use os_fuse.State.{Disk, Sys, update}
use os_fuse.FreeBlock.{free_block_push, free_block_pop}
use os_fuse.FreeBlock.Chain.{Chain, Chain-update, Chain-zero-mem, IsFree, SameData}
use os_fuse.FreeBlock.Pop.{
  with_super, with_super-head, with_super-count, SameData-with_super, free_block_pop-cons,
}

-- The link that free_block_push writes, behind it the superblock's bytes.
abbrev linked : Disk → ℕ → Disk
linked d n = update d n (put_u32 (d 0) 0 (get_u32 (d 0) 0))

abbrev given : Disk → ℕ → Disk
given d n = with_super (linked d n) (n % 2 ^ 32) ((get_u32 (d 0) 4 + 1) % 2 ^ 32)

disk-push : (s : Sys) (n : ℕ) → 0 < n → n < 2 ^ 31 → (free_block_push n s).1.disk ≡ given s.disk n
unfolding free_block_push
disk-push s n gt lt =
    let head = get_u32-object (s.disk 0) 128 0 (omega arith) in
    let count = get_u32-object (s.disk 0) 128 4 (omega arith) in
    let other : linked s.disk n 0 ≡ s.disk 0 = ground arith in
    rw (ltb-true n (2 ^ 31) lt, head, count, other)

given-IsFree :
    (d : Disk) (n : ℕ) (xs : List ℕ)
    → 0 < n
    → n < 2 ^ 31
    → n ∉ xs
    → length xs + 1 < 2 ^ 31
    → IsFree d xs
    → IsFree (given d n) (n ∷ xs)
given-IsFree d n xs gt lt out room free =
    let link : get_u32 (linked d n n) 0 ≡ get_u32 (d 0) 0 =
      ground (arith, get_u32-put_u32 (d 0) 0 (get_u32 (d 0) 0) (get_u32-lt (d 0) 0)) in
    let same : given d n n ≡ linked d n n = ground arith in
    let front : Chain (linked d n) (get_u32 (linked d n n) 0) xs =
      rw link (Chain-update d n _ (get_u32 (d 0) 0) xs out free.chain) in
    let zero_out = Chain-zero-mem d (get_u32 (d 0) 0) xs free.chain in
    let head : get_u32 (given d n 0) 0 ≡ n % 2 ^ 32 =
      with_super-head (linked d n) (n % 2 ^ 32) ((get_u32 (d 0) 4 + 1) % 2 ^ 32) (omega arith) in
    record {
      chain = (
        omega (arith, head),
        gt,
        lt,
        out,
        rw same (Chain-update (linked d n) 0 _ _ xs zero_out front),
      );
      count =
          with_super-count (linked d n) (n % 2 ^ 32) ((get_u32 (d 0) 4 + 1) % 2 ^ 32) (omega arith)
          ∙ omega (arith, free.count, free.small);
      small = omega arith;
    }

errno-push : (s : Sys) (n : ℕ) → (free_block_push n s).1.errno ≡ s.errno
unfolding free_block_push
errno-push s n = refl

-- Given an allocated block `n`, free_block_push puts it in front of the free blocks `xs`. It
-- leaves ERRNO as it was, and all of the disk but the first 8 bytes of the superblock and block
-- `n`, which it fills with a copy of block 0 as that was, whose first word is the link to the old
-- head.
pub free_block_push-IsFree :
    (s : Sys) (n : ℕ) (xs : List ℕ)
    → 0 < n
    → n < 2 ^ 31
    → n ∉ xs
    → length xs + 1 < 2 ^ 31
    → IsFree s.disk xs
    → let s' = (free_block_push n s).1 in
      IsFree s'.disk (n ∷ xs)
      × SameData (update s.disk n (put_u32 (s.disk 0) 0 (get_u32 (s.disk 0) 0))) s'.disk
      × (s'.errno ≡ s.errno)
free_block_push-IsFree s n xs gt lt out room free = rw (disk-push s n gt lt) (
  given-IsFree s.disk n xs gt lt out room free,
  SameData-with_super (linked s.disk n) (n % 2 ^ 32) ((get_u32 (s.disk 0) 4 + 1) % 2 ^ 32),
  errno-push s n,
)

-- A block that free_block_push was given is the one that free_block_pop returns next, and the list
-- of free blocks is then as before.
pub free_block_pop-push :
    (s : Sys) (n : ℕ) (xs : List ℕ)
    → 0 < n
    → n < 2 ^ 31
    → n ∉ xs
    → length xs + 1 < 2 ^ 31
    → IsFree s.disk xs
    → let (r, s') = free_block_pop (free_block_push n s).1 in (r ≡ pos n) × IsFree s'.disk xs
free_block_pop-push s n xs gt lt out room free =
    let (r, free', same, err) =
      free_block_pop-cons (free_block_push n s).1 n xs
        (free_block_push-IsFree s n xs gt lt out room free).0 in
    (r, free')
