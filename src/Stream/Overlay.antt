-- ===== src/Stream/Overlay.antt =====
-- The bytes of a file after the loop of fstream_write.
use Prim.Native.Nat.{max}
use os_fuse.Base.{
  ℕ, ◌+◌, ◌-◌, ◌*◌, ◌/◌, ◌%◌, ◌<◌, ◌≤◌, ◌≡◌, ap, ◌∙◌, sym, arith, ltb, leb, ltb-true, ltb-false,
  leb-true, leb-false, ◌&&◌, if◌then◌else◌, List, ◌⊎◌, inl, inr,
}
use native.Mathlib.Decide.{dec_lt}
use os_fuse.Memory.{Bytes, zeros, memcpy}
use os_fuse.State.{Sys}
use os_fuse.Stream.{blknum, read_blocks}
use os_fuse.Memory.Copy.{memcpy-in, memcpy-before, memcpy-behind}
use os_fuse.Stream.Read.{content, read_blocks-in}
use os_fuse.Stream.Wrote.{Wrote}

-- `g` is the static array with the `n` numbers of `f`; the file has `old` bytes. The loop runs
-- over the blocks of the range from `s` with `g` to `t`.
module _ (n size offset old : ℕ) (buf f g : Bytes) (free rest : List ℕ) (s t : Sys) where
  -- The first block and the number of blocks of the range.
  abbrev pub b_start : ℕ
  b_start = offset / 512

  abbrev pub rounds : ℕ
  rounds = (offset + size - 1) / 512 + 1 - offset / 512

  abbrev listed : Sys
  listed = record s { file_list = g }

  -- What stands on the disk in the blocks of the range, and the bytes of the caller over it.
  abbrev before : Bytes
  before = read_blocks listed n rounds b_start 0 zeros

  abbrev blkbuf : Bytes
  blkbuf = memcpy before (offset % 512) buf size

  module _ (some_bytes : 0 < size) (inside : offset ≤ old) (cover : old ≤ n * 512)
      (agree : (j : ℕ) → j < n → blknum g j ≡ blknum f j)
      (w : Wrote blkbuf b_start rounds 0 n free listed rest t) where
    -- The bytes of the range that stood in front of the written ones and behind them.
    before-content :
        (y : ℕ)
        → b_start ≤ y / 512
        → y / 512 < b_start + rounds
        → y < old
        → before ((y / 512 - b_start) * 512 + y % 512) ≡ content s f y
    before-content y low high lt =
        let z : ℕ = (y / 512 - b_start) * 512 + y % 512 in
        let index : b_start + z / 512 ≡ y / 512 = omega arith in
        let place : z % 512 ≡ y % 512 = omega arith in
        let in_file : y / 512 < n = omega (arith, lt, cover) in
        let start : 0 + z ≡ z = omega arith in
        ap before (sym start)
        ∙ read_blocks-in listed n rounds b_start 0 zeros z (omega (arith, low, high))
            (omega (arith, index, in_file))
        ∙ (ap (λ (j : ℕ). s.disk (blknum g j) (z % 512)) index
            ∙ (ap (λ (b : ℕ). s.disk b (z % 512)) (agree (y / 512) in_file)
                ∙ ap (s.disk (blknum f (y / 512))) place))

    -- In a block of the range, and in any other.
    in_range :
        (y : ℕ)
        → b_start ≤ y / 512
        → y / 512 < b_start + rounds
        → content t t.file_list y ≡ blkbuf ((y / 512 - b_start) * 512 + y % 512)
    in_range y low high =
        let start : 0 + ((y / 512 - b_start) * 512 + y % 512)
            ≡ (y / 512 - b_start) * 512 + y % 512 =
          omega arith in
        w.written (y / 512) (y % 512) low high (omega arith) ∙ ap blkbuf start

    elsewhere :
        (y : ℕ)
        → y < old
        → (y / 512 < b_start) ⊎ (b_start + rounds ≤ y / 512)
        → content t t.file_list y ≡ content s f y
    elsewhere y lt h =
        let j : ℕ = y / 512 in
        let in_file : j < n = omega (arith, lt, cover) in
        ap (λ (b : ℕ). t.disk b (y % 512)) (w.same j in_file)
        ∙ (ap (λ (c : Bytes). c (y % 512)) (w.kept j in_file h)
            ∙ ap (λ (b : ℕ). s.disk b (y % 512)) (agree j in_file))

    -- The byte the file has at place `y`.
    pub byte_at :
        (y : ℕ)
        → y < max old (size + offset)
        → content t t.file_list y
          ≡ (if leb offset y && ltb y (offset + size) then buf (y - offset) else content s f y)
    byte_at y lt =
        let z : ℕ = (y / 512 - b_start) * 512 + y % 512 in
        elim (dec_lt y offset) [
          | yes front ↦ rw (leb-false offset y front) (elim (dec_lt (y / 512) b_start) [
            | yes apart ↦ elsewhere y (omega (arith, inside)) (inl apart)
            | no touch ↦
                in_range y (omega arith) (omega arith)
                ∙ (memcpy-before before buf (offset % 512) size z (omega arith)
                    ∙ before-content y (omega arith) (omega arith) (omega (arith, inside)))
          ])
          | no behind ↦ elim (dec_lt y (offset + size)) [
            | yes mine ↦
                rw (leb-true offset y (omega arith), ltb-true y (offset + size) mine)
                  (let place : z ≡ offset % 512 + (y - offset) = omega arith in
                    in_range y (omega arith) (omega arith)
                    ∙ (ap blkbuf place
                        ∙ memcpy-in before buf (offset % 512) size (y - offset) (omega arith)))
            | no back ↦
                rw (leb-true offset y (omega arith), ltb-false y (offset + size) (omega arith))
                  (elim (dec_lt (y / 512) (b_start + rounds)) [
                    | yes touch ↦
                        in_range y (omega arith) touch
                        ∙ (memcpy-behind before buf (offset % 512) size z (omega arith)
                            ∙ before-content y (omega arith) touch (omega (arith, lt)))
                    | no apart ↦ elsewhere y (omega (arith, lt)) (inr (omega arith))
                  ])
          ]
        ]
