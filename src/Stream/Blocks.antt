-- ===== src/Stream/Blocks.antt =====
-- The block numbers of a file against the free block list, and one round of the loop of
-- fstream_write: the block is overwritten, or a free block is taken for it.
use os_fuse.Base.{
  ℕ, suc, ◌+◌, ◌*◌, ◌%◌, ◌^◌, ◌<◌, ◌≤◌, ◌≡◌, ◌≢◌, ap, ◌∙◌, sym, arith, true, ltb-true, ltb-false,
  leb-false, eq-==_self, pos, Option, some, List, ◌∷◌, has, ◌∉◌, inl, inr,
}
use native.Mathlib.Decide.{dec_lt, ℕ_discrete}
use os_fuse.Memory.{Bytes, at, put_u32, object}
use os_fuse.Memory.Fields.{get_u32-put_u32, get_u32-put_u32_ne}
use os_fuse.State.{Sys, block_write}
use os_fuse.FreeBlock.{free_block_allocate}
use os_fuse.Inode.{fentry_max_size}
use os_fuse.Stream.{blknum, write_blocks}

-- The first `n` numbers of `f` are those of distinct blocks behind the bitmap, `int`s that are not
-- negative, and none is free. No
-- free block lies in front of the bitmap's end either.
pub record Mapped (f : Bytes) (n : ℕ) (free : List ℕ) : Type 0 where
  pub beyond : (i : ℕ) → i < n → 1024 < blknum f i
  pub word : (i : ℕ) → i < n → blknum f i < 2 ^ 31
  pub taken : (i : ℕ) → i < n → blknum f i ∉ free
  pub distinct : (i j : ℕ) → i < n → j < n → blknum f i ≡ blknum f j → i ≡ j
  pub free_beyond : (x : ℕ) → has x free ≡ true → 1024 < x

-- The array with number `x` at place `n`.
abbrev pub extend : Bytes → ℕ → ℕ → Bytes
extend f n x = put_u32 f (4 * n) x

pub blknum-extend : (f : Bytes) (n x : ℕ) → x < 2 ^ 32 → blknum (extend f n x) n ≡ x
blknum-extend f n x lt = get_u32-put_u32 f (4 * n) x lt

pub blknum-extend_ne : (f : Bytes) (n x i : ℕ) → i ≢ n → blknum (extend f n x) i ≡ blknum f i
blknum-extend_ne f n x i ne = elim (dec_lt i n) [
  | yes lt ↦ get_u32-put_u32_ne f (4 * i) (4 * n) x (inl (omega arith))
  | no ge ↦ get_u32-put_u32_ne f (4 * i) (4 * n) x (inr (omega arith))
]

-- Taking the first free block for place `n`.
pub Mapped-extend :
    (f : Bytes) (n x : ℕ) (free : List ℕ)
    → x < 2 ^ 31
    → x ∉ free
    → Mapped f n (x ∷ free)
    → Mapped (extend f n x) (n + 1) free
Mapped-extend f n x free small out m =
    let here = blknum-extend f n x (omega arith) in
    let old : ((i : ℕ) → i < n → blknum (extend f n x) i ≡ blknum f i) =
      λ i lt. blknum-extend_ne f n x i (omega arith) in
    let other : ((i : ℕ) → i < n → blknum f i ≢ x) =
      λ i lt e. ground (arith, m.taken i lt, eq-==_self x) in
    record {
      beyond = λ i lt. elim (ℕ_discrete i n) [
        | yes e ↦ rw (e, here) (m.free_beyond x (rw (eq-==_self x)))
        | no ne ↦ rw (old i (omega arith)) (m.beyond i (omega arith))
      ];
      word = λ i lt. elim (ℕ_discrete i n) [
        | yes e ↦ rw (e, here) small
        | no ne ↦ rw (old i (omega arith)) (m.word i (omega arith))
      ];
      taken = λ i lt. elim (ℕ_discrete i n) [
        | yes e ↦ rw (e, here) out
        | no ne ↦ rw (old i (omega arith)) (ground (arith, m.taken i (omega arith)))
      ];
      distinct = λ i j li lj eq. elim (ℕ_discrete i n) [
        | yes e ↦ elim (ℕ_discrete j n) [
          | yes e' ↦ e ∙ sym e'
          | no ne ↦ absurd (
              other j (omega arith)
                (sym (old j (omega arith)) ∙ (sym eq ∙ (ap (blknum (extend f n x)) e ∙ here))))
        ]
        | no ne ↦ elim (ℕ_discrete j n) [
          | yes e' ↦ absurd (
              other i (omega arith)
                (sym (old i (omega arith)) ∙ (eq ∙ (ap (blknum (extend f n x)) e' ∙ here))))
          | no ne' ↦
              m.distinct i j (omega arith) (omega arith)
                (sym (old i (omega arith)) ∙ (eq ∙ old j (omega arith)))
        ]
      ];
      free_beyond = λ y h. m.free_beyond y (ground arith);
    }

module _ (buf : Bytes) (b_size k i ptr : ℕ) (s : Sys) (room : i < fentry_max_size) where
  -- The block, as the loop passes it on.
  abbrev piece : Bytes
  piece = object (at buf ptr) 512

  pub write_blocks-old :
      i < b_size
      → write_blocks buf b_size (suc k) i ptr s
        ≡ write_blocks buf b_size k (i + 1) (ptr + 512) (block_write (blknum s.file_list i) piece s)
  unfolding write_blocks
  write_blocks-old lt = rw (leb-false fentry_max_size i room, ltb-true i b_size lt)

  pub write_blocks-new :
      (x : ℕ)
      → b_size ≤ i
      → (free_block_allocate (some piece) s).0 ≡ pos x
      → let t = (free_block_allocate (some piece) s).1 in
        write_blocks buf b_size (suc k) i ptr s
        ≡ write_blocks buf b_size k
            (i + 1)
            (ptr + 512)
            (record t { file_list = extend t.file_list i (x % 2 ^ 32) })
  unfolding write_blocks
  write_blocks-new x le got = rw (leb-false fentry_max_size i room, ltb-false i b_size le, got)

pub file_list-free_block_allocate :
    (buff : Option Bytes) (s : Sys) → (free_block_allocate buff s).1.file_list ≡ s.file_list
unfolding free_block_allocate
file_list-free_block_allocate buff s = ground arith
