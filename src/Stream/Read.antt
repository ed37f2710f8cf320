-- ===== src/Stream/Read.antt =====
-- fstream_read against the contents of a file as one array of bytes.
use os_fuse.Base.{
  ℕ, zero, suc, ◌+◌, ◌-◌, ◌*◌, ◌/◌, ◌%◌, ◌<◌, ◌≤◌, ◌≡◌, refl, ap, ◌∙◌, sym, arith, ltb-true,
  ltb-false, pos_part,
}
use Prim.Native.Nat.{min}
use native.Mathlib.Decide.{dec_lt}
use os_fuse.Memory.{Bytes, zeros, at, memcpy}
use os_fuse.Memory.Copy.{memcpy-in, memcpy-front, memcpy-before, memcpy-behind}
use os_fuse.State.{Sys, block_read}
use os_fuse.Inode.{inode_get_attr_upc}
use os_fuse.Listing.{fnode_listing}
use os_fuse.Stream.{blknum, read_blocks, fstream_read}

-- Byte `y` of the file whose block numbers stand in the array `f`.
abbrev pub content : Sys → Bytes → ℕ → ℕ
content s f y = s.disk (blknum f (y / 512)) (y % 512)

module _ (s : Sys) (b_size : ℕ) where
  read_blocks-before :
      (k i ptr : ℕ) (buf : Bytes) (x : ℕ) → x < ptr → read_blocks s b_size k i ptr buf x ≡ buf x
  unfolding read_blocks
  read_blocks-before zero i ptr buf x lt = refl
  read_blocks-before (suc k) i ptr buf x lt = elim (dec_lt i b_size) [
    | no ge ↦ rw (ltb-false i b_size (omega arith)) refl
    | yes l ↦ rw (ltb-true i b_size l) (
        read_blocks-before k (i + 1) (ptr + 512)
          (memcpy buf ptr (block_read (blknum s.file_list i) s) 512) x (omega arith)
        ∙ memcpy-before buf (block_read (blknum s.file_list i) s) ptr 512 x lt)
  ]

  pub read_blocks-in :
      (k i ptr : ℕ) (buf : Bytes) (y : ℕ)
      → y < k * 512
      → i + y / 512 < b_size
      → read_blocks s b_size k i ptr buf (ptr + y)
        ≡ s.disk (blknum s.file_list (i + y / 512)) (y % 512)
  unfolding read_blocks block_read
  read_blocks-in zero i ptr buf y lt inside = absurd (omega arith)
  read_blocks-in (suc k) i ptr buf y lt inside =
      let filled : Bytes = memcpy buf ptr (s.disk (blknum s.file_list i)) 512 in
      rw (ltb-true i b_size (omega arith)) (elim (dec_lt y 512) [
        | yes l ↦
            (let index : i + y / 512 ≡ i = omega arith in
              let place : y % 512 ≡ y = omega arith in
              read_blocks-before k (i + 1) (ptr + 512) filled (ptr + y) (omega arith)
              ∙ (memcpy-in buf (s.disk (blknum s.file_list i)) ptr 512 y l
                  ∙ rw (index, place) refl))
        | no ge ↦
            (let index : (i + 1) + (y - 512) / 512 ≡ i + y / 512 = omega arith in
              let place : (y - 512) % 512 ≡ y % 512 = omega arith in
              let x : (ptr + 512) + (y - 512) ≡ ptr + y = omega arith in
              ap (λ (z : ℕ). read_blocks s b_size k (i + 1) (ptr + 512) filled z) (sym x)
              ∙ (read_blocks-in k (i + 1) (ptr + 512) filled (y - 512) (omega arith)
                    (omega (arith, inside))
                  ∙ (ap (λ (z : ℕ). s.disk (blknum s.file_list z) ((y - 512) % 512)) index
                      ∙ ap (λ (z : ℕ). s.disk (blknum s.file_list (i + y / 512)) z) place)))
      ])

-- Reading `size` bytes at `offset` of a file whose blocks cover its size: the count is what the
-- file has behind `offset`, `size` at most; the buffer gets these bytes, each from the block that
-- the list of the file names for it, and is left as it was behind them.
pub fstream_read-content :
    (inum : ℕ) (buf : Bytes) (size offset : ℕ) (s : Sys)
    → let (b_size, t) = fnode_listing inum s in
      let f_size = pos_part (inode_get_attr_upc inum t).2 in
      f_size ≤ b_size * 512
      → let (count, filled, u) = fstream_read inum buf size offset s in
        (count ≡ min (f_size - offset) size)
        × ((x : ℕ) → x < count → filled x ≡ content t t.file_list (offset + x))
        × ((x : ℕ) → count ≤ x → filled x ≡ buf x)
        × (u ≡ t)
unfolding fstream_read
fstream_read-content inum buf size offset s cover =
    let b_size : ℕ = (fnode_listing inum s).0 in
    let t : Sys = (fnode_listing inum s).1 in
    let f_size : ℕ = pos_part (inode_get_attr_upc inum t).2 in
    let count : ℕ = min (f_size - offset) size in
    let rounds : ℕ = ((offset + size) / 512 + 1) - offset / 512 in
    let blkbuf : Bytes = read_blocks t b_size rounds (offset / 512) 0 zeros in
    (
      refl,
      λ x lt.
          let y : ℕ = offset % 512 + x in
          let index : offset / 512 + y / 512 ≡ (offset + x) / 512 = omega arith in
          let place : y % 512 ≡ (offset + x) % 512 = omega arith in
          let start : 0 + y ≡ y = omega arith in
          memcpy-front buf (at blkbuf (offset % 512)) count x lt
          ∙ (ap blkbuf (sym start)
              ∙ read_blocks-in t b_size rounds (offset / 512) 0 zeros y (omega (arith, lt))
                  (omega (arith, lt, cover))
              ∙ (ap (λ (z : ℕ). t.disk (blknum t.file_list z) (y % 512)) index
                  ∙ ap (λ (z : ℕ). t.disk (blknum t.file_list ((offset + x) / 512)) z) place)),
      λ x le. memcpy-behind buf (at blkbuf (offset % 512)) 0 count x (omega (arith, le)),
      refl,
    )
