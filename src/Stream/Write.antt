-- ===== src/Stream/Write.antt =====
-- fstream_write against the contents of a file as one array of bytes.
use Prim.Native.Nat.{max}
use os_fuse.Base.{
  ℕ, ◌+◌, ◌-◌, ◌*◌, ◌/◌, ◌%◌, ◌<◌, ◌≤◌, ◌≡◌, refl, ap, ◌∙◌, arith, ltb, leb, ltb-false, ◌&&◌,
  if◌then◌else◌, ℤ, pos, pos_part, is_neg, none, some, List, length,
}
use os_fuse.Memory.{Bytes, zeros, get_u8, get_u32, put_u32, memcpy}
use os_fuse.State.{Sys, errno_pop}
use os_fuse.Inode.{
  slot_load, slot_dump, isdir_at, fsize_at, inode_get_attr_upc, inode_set_attr_upc,
  fcontent_max_size, fentry_max_size,
}
use os_fuse.Listing.{file_layout, fnode_listing, fnode_listing_set, store_listing}
use os_fuse.Listing.RoundTrip.{slot_load-files}
use os_fuse.Inode.Slots.{slot_load-of-disk}
use os_fuse.Stream.{blknum, read_blocks, write_blocks, fstream_write}
use os_fuse.Stream.Read.{content}
use os_fuse.Stream.Overlay.{byte_at}
use os_fuse.Stream.Wrote.{Wrote}
use os_fuse.Stream.WriteLoop.{write_blocks-Done}
use os_fuse.Stream.File.{
  IsFile, file_size, blknum-cong, Mapped-cong, fnode_listing-IsFile, inode_get_attr_upc-file,
  inode_set_attr_upc-file, file_list-slot_dump, IsFile-disk,
}
use os_fuse.Stream.Record.{node_same, stored, stored-IsFile, stored-errno}
use os_fuse.Stream.Other.{Apart, Apart-disk, stored-other, stored-kept}
use os_fuse.Base.{has, ◌∉◌, ◌≢◌, false}
use os_fuse.Listing.Frame.{slot_limit}
use os_fuse.Listing.Store.{list_slots}
use os_fuse.Listing.Carry.{list_slots-kept}
use os_fuse.Bitmap.Laws.{is_free}
use os_fuse.Bitmap.Count.{free_inodes}
use os_fuse.Listing.Enough.{slots_needed}

module _ (inum n size offset : ℕ) (buf f : Bytes) (free : List ℕ) (s : Sys) where
  -- The first block and the number of blocks of the range.
  abbrev b_start : ℕ
  b_start = offset / 512

  abbrev rounds : ℕ
  rounds = (offset + size - 1) / 512 + 1 - offset / 512

  -- The state after fnode_listing.
  abbrev listed : Sys
  listed = record s { file_list = (fnode_listing inum s).1.file_list }

  -- What stands on the disk in the blocks of the range, and the bytes of the caller over it.
  abbrev before : Bytes
  before = read_blocks listed n rounds b_start 0 zeros

  abbrev blkbuf : Bytes
  blkbuf = memcpy before (offset % 512) buf size

  -- The state after the loop, and the state in front of errno_pop.
  abbrev pub looped : Sys
  looped = (write_blocks blkbuf n rounds b_start 0 listed).1

  -- The new size, in bytes and in blocks.
  abbrev new_size : ℕ
  new_size = max (file_size s inum) (size + offset)

  abbrev new_blocks : ℕ
  new_blocks = max n (b_start + rounds)

  abbrev resized : Sys
  resized = slot_dump inum (put_u32 (slot_load inum looped) fsize_at new_size) looped

  abbrev recorded : Sys
  recorded = store_listing file_layout inum looped.file_list new_blocks resized

  -- fstream_write behind the loop, and behind fnode_listing.
  rest_of : (b_size old : ℕ) → ℕ × Sys → ℤ × Sys
  rest_of b_size old (i, t) =
      let t = inode_set_attr_upc inum none (some (pos (max old (size + offset)))) t in
      let t = fnode_listing_set inum (max b_size i) t in
      let (retstat, t) = errno_pop t in (if is_neg retstat then retstat else pos size, t)

  from_listing : ℕ × Sys → ℤ × Sys
  from_listing (b_size, t) =
      let blkbuf = read_blocks t b_size rounds b_start 0 zeros in
      let blkbuf = memcpy blkbuf (offset % 512) buf size in
      rest_of b_size (pos_part (inode_get_attr_upc inum t).2)
        (write_blocks blkbuf b_size rounds b_start 0 t)

  fstream_write-from : fstream_write inum buf size offset s ≡ from_listing (fnode_listing inum s)
  unfolding fstream_write from_listing rest_of
  fstream_write-from = refl

  from_listing-rest :
      from_listing (n, listed)
      ≡ rest_of n
          (pos_part (inode_get_attr_upc inum listed).2)
          ((write_blocks blkbuf n rounds b_start 0 listed).0, looped)
  unfolding from_listing
  from_listing-rest = refl

  module _ (file : IsFile s inum n f free) (some_bytes : 0 < size)
      (inside : offset ≤ file_size s inum) (fits : offset + size ≤ fcontent_max_size)
      (enough : (offset + size - 1) / 512 + 1 ≤ n + length free) where
    IsFile-listed : IsFile listed inum n f free
    IsFile-listed = IsFile-disk s listed inum n f free refl file

    agree : (j : ℕ) → j < n → blknum listed.file_list j ≡ blknum f j
    agree j lt = blknum-cong f listed.file_list n j (fnode_listing-IsFile s inum n f free file).1 lt

    range : b_start + rounds ≡ (offset + size - 1) / 512 + 1
    range = omega arith

    old_small : file_size s inum ≤ n * 512
    old_small = file.cover

    pub loop :
        (rest : List ℕ) × ((write_blocks blkbuf n rounds b_start 0 listed).0 ≡ b_start + rounds)
        × Wrote blkbuf b_start rounds 0 n free listed rest looped
    loop =
        write_blocks-Done blkbuf n rounds b_start 0 n free listed (omega (arith, inside, old_small))
          (omega (arith, range, fits)) (omega (arith, range, enough)) file.isfree
          (Mapped-cong f listed.file_list n free (fnode_listing-IsFile s inum n f free file).1
            file.mapped)

    module _ (rest : List ℕ) (w : Wrote blkbuf b_start rounds 0 n free listed rest looped) where
      fits_blocks : new_blocks ≤ fentry_max_size
      fits_blocks = omega (arith, range, fits, file.bound)

      fits_bytes : new_size ≤ fcontent_max_size
      fits_bytes = omega (arith, old_small, file.bound, fits)

      rest_of-recorded : rest_of n (file_size s inum) (b_start + rounds, looped) ≡ (
        if is_neg recorded.errno then recorded.errno else pos size,
        record recorded { errno = pos 0 },
      )
      unfolding rest_of fnode_listing_set errno_pop
      rest_of-recorded =
          let node : slot_load inum looped ≡ slot_load inum listed =
            node_same blkbuf f inum n b_start rounds new_size free rest listed looped IsFile-listed
              w in
          let isdir : get_u8 (slot_load inum looped) isdir_at ≡ 0 =
            ap (λ (c : Bytes). get_u8 c isdir_at) node ∙ IsFile-listed.file in
          rw
            (
              inode_set_attr_upc-file looped inum new_size isdir fits_bytes,
              ltb-false fentry_max_size new_blocks fits_blocks,
              file_list-slot_dump inum (put_u32 (slot_load inum looped) fsize_at new_size) looped,
            )
            refl

      -- What fstream_write returns, and the state that it leaves.
      pub fstream_write-recorded :
          (write_blocks blkbuf n rounds b_start 0 listed).0 ≡ b_start + rounds
          → fstream_write inum buf size offset s ≡ (
            if is_neg recorded.errno then recorded.errno else pos size,
            record recorded { errno = pos 0 },
          )
      fstream_write-recorded end =
          let pair = (fnode_listing-IsFile s inum n f free file).0 in
          let known : pos_part (inode_get_attr_upc inum listed).2 ≡ file_size s inum =
            inode_get_attr_upc-file listed inum IsFile-listed.file
              (omega (arith, IsFile-listed.cover, file.bound))
            ∙ ap (λ (c : Bytes). get_u32 c fsize_at) (slot_load-files s listed.file_list inum) in
          fstream_write-from
          ∙ (ap from_listing pair
              ∙ (from_listing-rest
                  ∙ (ap
                        (λ (old : ℕ).
                          rest_of n old ((write_blocks blkbuf n rounds b_start 0 listed).0, looped))
                        known
                      ∙ (ap (λ (i : ℕ). rest_of n (file_size s inum) (i, looped)) end
                          ∙ rest_of-recorded))))

    module _ (clear : s.errno ≡ pos 0)
        (supply : slots_needed file_layout new_blocks
          ≤ slots_needed file_layout n + free_inodes s.disk) where
      abbrev pub rest : List ℕ
      rest = loop.0

      abbrev w : Wrote blkbuf b_start rounds 0 n free listed rest looped
      w = loop.2

      no_error :
          (recorded.errno ≡ pos 0)
          × (free_inodes recorded.disk + slots_needed file_layout new_blocks
              ≡ free_inodes s.disk + slots_needed file_layout n)
      no_error =
          stored-errno blkbuf f inum n b_start rounds new_size free rest listed looped IsFile-listed
            w new_blocks (omega arith) clear supply

      -- The state that fstream_write leaves.
      abbrev pub done : Sys
      done = record recorded { errno = pos 0 }

      pub fstream_write-done : fstream_write inum buf size offset s ≡ (pos size, done)
      fstream_write-done =
          fstream_write-recorded rest w loop.1
          ∙ ap (λ (e : ℤ). (if is_neg e then e else pos size, done)) no_error.0

      stored_facts :
          IsFile recorded inum new_blocks looped.file_list rest
          × (file_size recorded inum ≡ new_size)
          × ((m : ℕ) → 1024 < m → recorded.disk m ≡ looped.disk m)
      stored_facts =
          stored-IsFile blkbuf f inum n b_start rounds new_size free rest listed looped
            IsFile-listed w new_blocks refl (fits_blocks rest w) (omega (arith, range, old_small))
            no_error.0

      pub done-IsFile : IsFile done inum new_blocks looped.file_list rest
      done-IsFile =
          IsFile-disk recorded done inum new_blocks looped.file_list rest refl stored_facts.0

      -- The blocks and the inodes that were taken.
      pub done-count :
          (length rest + (new_blocks - n) ≡ length free)
          × (free_inodes done.disk + slots_needed file_layout new_blocks
              ≡ free_inodes s.disk + slots_needed file_layout n)
      done-count = let used = w.used in (omega (arith, used), no_error.1)

      pub done-size : file_size done inum ≡ new_size
      done-size =
          ap (λ (c : Bytes). get_u32 c fsize_at) (slot_load-of-disk inum recorded done refl)
          ∙ stored_facts.1

      pub done-content :
          (y : ℕ)
          → y < new_size
          → content done looped.file_list y
            ≡ (if leb offset y && ltb y (offset + size) then buf (y - offset) else content s f y)
      done-content y lt =
          ap (λ (c : Bytes). c (y % 512))
            (stored_facts.2 (blknum looped.file_list (y / 512))
              (w.mapped.beyond (y / 512) (omega (arith, lt, old_small, range))))
          ∙ byte_at n size offset (file_size s inum) buf f listed.file_list free rest s looped
              some_bytes inside old_small agree w y lt

      -- Another file.
      pub done-other :
          (m n' : ℕ) (f' : Bytes)
          → IsFile s m n' f' free
          → Apart s inum n f m n' f'
          → IsFile done m n' f' rest
            × ((j : ℕ) → j < n' → done.disk (blknum f' j) ≡ s.disk (blknum f' j))
            × Apart done inum new_blocks looped.file_list m n' f'
      done-other m n' f' other apart =
          let room = fits_blocks rest w in
          let (held, kept, away) =
            stored-other blkbuf f f' inum n b_start rounds new_size m n' free rest listed looped
              IsFile-listed w (IsFile-disk s listed m n' f' free refl other)
              (Apart-disk s listed inum n f m n' f' refl apart) agree new_blocks recorded refl
              (stored blkbuf f inum n b_start rounds new_size free rest listed looped IsFile-listed
                w new_blocks room no_error.0)
              stored_facts.0.isfree stored_facts.0.reserved stored_facts.2 in
          (
            IsFile-disk recorded done m n' f' rest refl held,
            kept,
            Apart-disk recorded done inum new_blocks looped.file_list m n' f' refl away,
          )

      -- A slot in use outside the list of the file.
      pub done-kept :
          (p : ℕ)
          → p < slot_limit
          → is_free s.disk p ≡ false
          → p ≢ 0
          → p ∉ list_slots file_layout s inum
          → (slot_load p done ≡ slot_load p s) × (is_free done.disk p ≡ false)
      done-kept p small used ne out =
          let own : list_slots file_layout listed inum ≡ list_slots file_layout s inum =
            list_slots-kept file_layout s listed inum (λ q h. slot_load-of-disk q s listed refl) in
          let (load, used') =
            stored-kept blkbuf f inum n b_start rounds new_size free rest listed looped
              IsFile-listed w new_blocks recorded
              (stored blkbuf f inum n b_start rounds new_size free rest listed looped IsFile-listed
                w new_blocks (fits_blocks rest w) no_error.0)
              p small used ne (ap (has p) own ∙ out) in
          (
            slot_load-of-disk p recorded done refl ∙ (load ∙ slot_load-of-disk p s listed refl),
            used',
          )
