-- ===== src/Stream/Contents.antt =====
-- fstream_write and fstream_read on files as arrays of bytes.
use Prim.Native.Nat.{max, min}
use os_fuse.Base.{
  ℕ, ◌+◌, ◌-◌, ◌*◌, ◌/◌, ◌%◌, ◌<◌, ◌≤◌, ◌≡◌, refl, ap, ◌∙◌, sym, arith, ltb, leb, leb-true,
  ltb-true, ◌&&◌, if◌then◌else◌, ℤ, pos, pos_part, List, length,
}
use mathlib.Core.Path.{subst}
use os_fuse.Memory.{Bytes, get_u32}
use os_fuse.State.{Sys, Disk}
use os_fuse.Bitmap.Count.{free_inodes}
use os_fuse.Inode.{slot_load, fsize_at, inode_get_attr_upc, fcontent_max_size}
use os_fuse.Inode.Slots.{slot_load-of-disk}
use os_fuse.Listing.{file_layout, fnode_listing}
use os_fuse.Listing.Enough.{slots_needed}
use os_fuse.Stream.{blknum, fstream_read, fstream_write}
use os_fuse.Stream.Read.{content, fstream_read-content}
use os_fuse.Stream.File.{
  IsFile, IsFile-disk, file_size, blknum-cong, fnode_listing-IsFile, inode_get_attr_upc-file,
}
use os_fuse.Stream.Other.{Apart}
use os_fuse.Base.{◌≢◌, ◌∉◌, false}
use os_fuse.Bitmap.Laws.{is_free}
use os_fuse.Listing.Frame.{slot_limit}
use os_fuse.Listing.Store.{list_slots}
use os_fuse.Stream.Write.{
  done-kept, rest, looped, done, done-IsFile, done-count, done-size, done-content, done-other,
  fstream_write-done,
}

-- The blocks of a file of `n` blocks after `size` bytes were written at `offset`.
abbrev pub blocks_after : (n size offset : ℕ) → ℕ
blocks_after n size offset = max n ((offset + size - 1) / 512 + 1)

module _ (inum n size offset : ℕ) (buf f : Bytes) (free : List ℕ) (s : Sys)
    (file : IsFile s inum n f free) (clear : s.errno ≡ pos 0) (some_bytes : 0 < size)
    (inside : offset ≤ file_size s inum) (fits : offset + size ≤ fcontent_max_size)
    (blocks : blocks_after n size offset ≤ n + length free)
    (slots : slots_needed file_layout (blocks_after n size offset)
      ≤ slots_needed file_layout n + free_inodes s.disk) where
  same_blocks :
      max n (offset / 512 + ((offset + size - 1) / 512 + 1 - offset / 512))
      ≡ blocks_after n size offset
  same_blocks = omega arith

  supply :
      slots_needed file_layout
        (max n (offset / 512 + ((offset + size - 1) / 512 + 1 - offset / 512)))
      ≤ slots_needed file_layout n + free_inodes s.disk
  supply =
      subst
        (λ (m : ℕ). slots_needed file_layout m ≤ slots_needed file_layout n + free_inodes s.disk)
        (sym same_blocks) slots

  -- Let inode `inum` be a file of `n` blocks with a list of free blocks, and let no error be
  -- recorded. Let at least one byte be written, from a place in the file or at its end on, within
  -- the largest file size, and let there be enough free blocks for the blocks that the file gains
  -- and enough free inodes for the slots that its longer list needs. Then fstream_write returns
  -- `size` and records no error. Afterwards the inode is a file again, with the blocks that its
  -- bytes need; exactly the blocks and the slots that it has gained are free no longer, and the
  -- other free blocks are the free block list. Its size is the larger of the old one and the end of
  -- the range; and each of its bytes is the one written there, or else the one that was there.
  pub fstream_write-content :
      (u : Sys) × (g : Bytes) × (rest : List ℕ) × (fstream_write inum buf size offset s
        ≡ (pos size, u))
      × (u.errno ≡ pos 0)
      × IsFile u inum (blocks_after n size offset) g rest
      × (length rest + (blocks_after n size offset - n) ≡ length free)
      × (free_inodes u.disk + slots_needed file_layout (blocks_after n size offset)
          ≡ free_inodes s.disk + slots_needed file_layout n)
      × (file_size u inum ≡ max (file_size s inum) (offset + size))
      × ((y : ℕ)
          → y < max (file_size s inum) (offset + size)
          → content u g y
            ≡ (if leb offset y && ltb y (offset + size) then buf (y - offset) else content s f y))
  fstream_write-content =
      let enough : (offset + size - 1) / 512 + 1 ≤ n + length free = omega (arith, blocks) in
      let u : Sys =
        done inum n size offset buf f free s file some_bytes inside fits enough clear supply in
      let g : Bytes = (looped inum n size offset buf f free s).file_list in
      let left : List ℕ =
        rest inum n size offset buf f free s file some_bytes inside fits enough clear supply in
      let taken : (length left + (blocks_after n size offset - n) ≡ length free)
          × (free_inodes u.disk + slots_needed file_layout (blocks_after n size offset)
              ≡ free_inodes s.disk + slots_needed file_layout n) =
        subst
          (λ (m : ℕ).
            (length left + (m - n) ≡ length free)
            × (free_inodes u.disk + slots_needed file_layout m
                ≡ free_inodes s.disk + slots_needed file_layout n))
          same_blocks
          (done-count inum n size offset buf f free s file some_bytes inside fits enough clear
            supply) in
      (
        u,
        g,
        left,
        fstream_write-done inum n size offset buf f free s file some_bytes inside fits enough clear
            supply,
        refl,
        subst (λ (m : ℕ). IsFile u inum m g left) same_blocks
            (done-IsFile inum n size offset buf f free s file some_bytes inside fits enough clear
              supply),
        taken.0,
        taken.1,
        done-size inum n size offset buf f free s file some_bytes inside fits enough clear supply
            ∙ omega arith,
        λ y lt.
            done-content inum n size offset buf f free s file some_bytes inside fits enough clear
              supply y (omega (arith, lt)),
      )

  -- Let inode `inum` be a file of `n` blocks with a list of free blocks, and let no error be
  -- recorded. Let at least one byte be written, from a place in the file or at its end on, within
  -- the largest file size, and let there be enough free blocks for the blocks that the file gains
  -- and enough free inodes for the slots that its longer list needs. Let inode `m` be another file,
  -- with no slot and no block in common with the first. Then fstream_write returns `size`, `m` is
  -- the same file afterwards, with the same bytes in its blocks, and the two still have no slot and
  -- no block in common.
  pub fstream_write-other :
      (m n' : ℕ) (f' : Bytes)
      → IsFile s m n' f' free
      → Apart s inum n f m n' f'
      → (u : Sys) × (g : Bytes) × (rest : List ℕ) × (fstream_write inum buf size offset s
          ≡ (pos size, u))
        × IsFile u inum (blocks_after n size offset) g rest
        × IsFile u m n' f' rest
        × ((y : ℕ) → y < n' * 512 → content u f' y ≡ content s f' y)
        × Apart u inum (blocks_after n size offset) g m n' f'
  fstream_write-other m n' f' other apart =
      let enough : (offset + size - 1) / 512 + 1 ≤ n + length free = omega (arith, blocks) in
      let u : Sys =
        done inum n size offset buf f free s file some_bytes inside fits enough clear supply in
      let g : Bytes = (looped inum n size offset buf f free s).file_list in
      let left : List ℕ =
        rest inum n size offset buf f free s file some_bytes inside fits enough clear supply in
      let (held, kept, away) =
        done-other inum n size offset buf f free s file some_bytes inside fits enough clear supply m
          n' f' other apart in
      (
        u,
        g,
        left,
        fstream_write-done inum n size offset buf f free s file some_bytes inside fits enough clear
            supply,
        subst (λ (m : ℕ). IsFile u inum m g left) same_blocks
            (done-IsFile inum n size offset buf f free s file some_bytes inside fits enough clear
              supply),
        held,
        λ y lt. ap (λ (c : Bytes). c (y % 512)) (kept (y / 512) (omega arith)),
        subst (λ (k : ℕ). Apart u inum k g m n' f') same_blocks away,
      )

  -- A slot in use outside the list of the file.
  pub fstream_write-kept :
      (p : ℕ)
      → p < slot_limit
      → is_free s.disk p ≡ false
      → p ≢ 0
      → p ∉ list_slots file_layout s inum
      → let u = (fstream_write inum buf size offset s).1 in
        (slot_load p u ≡ slot_load p s) × (is_free u.disk p ≡ false)
  fstream_write-kept p small used ne out =
      let enough : (offset + size - 1) / 512 + 1 ≤ n + length free = omega (arith, blocks) in
      subst (λ (r : ℤ × Sys). (slot_load p r.1 ≡ slot_load p s) × (is_free r.1.disk p ≡ false))
        (sym (
          fstream_write-done inum n size offset buf f free s file some_bytes inside fits enough
            clear supply))
        (done-kept inum n size offset buf f free s file some_bytes inside fits enough clear supply p
          small used ne out)

-- Let inode `inum` be a file on the disk. Then reading `size` bytes at `offset` of it returns the
-- number of bytes that it has there, `size` at most, and puts these bytes into the buffer.
pub fstream_read-IsFile :
    (inum n size offset : ℕ) (buf f : Bytes) (free : List ℕ) (s : Sys)
    → IsFile s inum n f free
    → let (count, filled, _) = fstream_read inum buf size offset s in
      (count ≡ min (file_size s inum - offset) size)
      × ((x : ℕ) → x < count → filled x ≡ content s f (offset + x))
fstream_read-IsFile inum n size offset buf f free s file =
    let (pair, same) = fnode_listing-IsFile s inum n f free file in
    let g : Bytes = (fnode_listing inum s).1.file_list in
    let t : Sys = record s { file_list = g } in
    let held = IsFile-disk s t inum n f free refl file in
    let known : pos_part (inode_get_attr_upc inum t).2 ≡ file_size t inum =
      inode_get_attr_upc-file t inum held.file (omega (arith, held.cover, held.bound)) in
    let r : ℕ × Sys = fnode_listing inum s in
    let f_size : pos_part (inode_get_attr_upc inum r.1).2 ≡ file_size s inum =
      ap (λ (x : ℕ × Sys). pos_part (inode_get_attr_upc inum x.1).2) pair
      ∙ (known ∙ ap (λ (c : Bytes). get_u32 c fsize_at) (slot_load-of-disk inum s t refl)) in
    let b_size : r.0 ≡ n = ap (λ (x : ℕ × Sys). x.0) pair in
    let disk : r.1.disk ≡ s.disk = ap (λ (x : ℕ × Sys). x.1.disk) pair in
    let (count, filled, _, _) =
      fstream_read-content inum buf size offset s (omega (arith, f_size, b_size, file.cover)) in
    (
      count ∙ ap (λ (z : ℕ). min (z - offset) size) f_size,
      λ x lt.
          let j : ℕ = (offset + x) / 512 in
          let in_file : j < n = omega (arith, lt, count, f_size, file.cover) in
          filled x lt
          ∙ (ap (λ (d : Disk). d (blknum g j) ((offset + x) % 512)) disk
              ∙ ap (λ (b : ℕ). s.disk b ((offset + x) % 512)) (blknum-cong f g n j same in_file)),
    )

-- Reading what was written from any state with the disk that fstream_write leaves.
pub fstream_read-later :
    (inum n size offset : ℕ) (buf other f : Bytes) (free : List ℕ) (s t : Sys)
    → IsFile s inum n f free
    → s.errno ≡ pos 0
    → 0 < size
    → offset ≤ file_size s inum
    → offset + size ≤ fcontent_max_size
    → blocks_after n size offset ≤ n + length free
    → slots_needed file_layout (blocks_after n size offset)
      ≤ slots_needed file_layout n + free_inodes s.disk
    → t.disk ≡ (fstream_write inum buf size offset s).1.disk
    → let (count, filled, _) = fstream_read inum other size offset t in
      ((fstream_write inum buf size offset s).0 ≡ pos size)
      × (count ≡ size)
      × ((x : ℕ) → x < size → filled x ≡ buf x)
fstream_read-later inum n size offset buf other f free s t file clear some_bytes inside fits blocks
      slots same =
    let (u, g, left, eq, _, held, _, _, size_now, bytes) =
      fstream_write-content inum n size offset buf f free s file clear some_bytes inside fits blocks
        slots in
    let disk : t.disk ≡ u.disk = same ∙ ap (λ (r : ℤ × Sys). r.1.disk) eq in
    let node : slot_load inum t ≡ slot_load inum u =
      slot_load-of-disk inum u t (ap (λ (d : Disk). d (inum / 4)) disk) in
    let size_t : file_size t inum ≡ file_size u inum =
      ap (λ (c : Bytes). get_u32 c fsize_at) node in
    let (count, filled) =
      fstream_read-IsFile inum _ size offset other g left t
        (IsFile-disk u t inum _ g left disk held) in
    let full : (fstream_read inum other size offset t).0 ≡ size =
      omega (arith, count, size_t, size_now) in
    (
      ap (λ (r : ℤ × Sys). r.0) eq,
      full,
      λ x lt.
          let back : offset + x - offset ≡ x = omega arith in
          filled x (omega (arith, full, lt))
          ∙ (ap (λ (d : Disk). d (blknum g ((offset + x) / 512)) ((offset + x) % 512)) disk
              ∙ (bytes (offset + x) (omega (arith, lt))
                  ∙ rw
                      (
                        leb-true offset (offset + x) (omega arith),
                        ltb-true (offset + x) (offset + size) (omega (arith, lt)),
                      )
                      (ap buf back))),
    )

-- Let inode `inum` be a file of `n` blocks with a list of free blocks, and let no error be
-- recorded. Let at least one byte be written, from a place in the file or at its end on, within the
-- largest file size, and let there be enough free blocks for the blocks that the file gains and
-- enough free inodes for the slots that its longer list needs. Then fstream_write returns `size`,
-- and fstream_read of the same range afterwards returns `size` and puts the bytes written into the
-- buffer, whatever that held.
pub fstream_read-fstream_write :
    (inum n size offset : ℕ) (buf other f : Bytes) (free : List ℕ) (s : Sys)
    → IsFile s inum n f free
    → s.errno ≡ pos 0
    → 0 < size
    → offset ≤ file_size s inum
    → offset + size ≤ fcontent_max_size
    → blocks_after n size offset ≤ n + length free
    → slots_needed file_layout (blocks_after n size offset)
      ≤ slots_needed file_layout n + free_inodes s.disk
    → let (result, u) = fstream_write inum buf size offset s in
      let (count, filled, _) = fstream_read inum other size offset u in
      (result ≡ pos size) × (count ≡ size) × ((x : ℕ) → x < size → filled x ≡ buf x)
fstream_read-fstream_write inum n size offset buf other f free s file clear some_bytes inside fits
      blocks slots =
    fstream_read-later inum n size offset buf other f free s
      (fstream_write inum buf size offset s).1 file clear some_bytes inside fits blocks slots refl
