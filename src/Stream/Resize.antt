-- ===== src/Stream/Resize.antt =====
-- The new size of a file that has given blocks back.
use os_fuse.Base.{
  ℕ, ◌+◌, ◌*◌, ◌/◌, ◌%◌, ◌<◌, ◌≤◌, ◌≡◌, ap, ◌∙◌, arith, true, pos, none, some, List, [], ◌∷◌, has,
  ◌⊎◌, inl, inr, ne_of_mem,
}
use os_fuse.Memory.{Bytes, get_u32, put_u32}
use os_fuse.Memory.Fields.{get_u8-cong, get_u32-object, get_u32-put_u32}
use os_fuse.State.{Sys}
use os_fuse.Bitmap.Laws.{is_free}
use os_fuse.Inode.{slot_load, slot_dump, isdir_at, fsize_at, direct_at, inode_set_attr_upc}
use os_fuse.Inode.Slots.{slot_load-slot_dump, slot_load-slot_dump_ne}
use os_fuse.Listing.{file_layout}
use os_fuse.Listing.Frame.{slot_limit, is_free-slot_dump, errno-slot_dump, Stays-slot_dump}
use os_fuse.Listing.Carry.{tail, list_slots-same, IsList-same, ListHolds-carried, IsFree-Stays}
use os_fuse.Stream.{blknum}
use os_fuse.Stream.Read.{content}
use os_fuse.Stream.File.{IsFile, file_size, inode_set_attr_upc-file}
use os_fuse.Stream.Record.{resized_elsewhere}
use os_fuse.Stream.Shortened.{Shortened}

module _ (inum m v : ℕ) (f h : Bytes) (free : List ℕ) (s t : Sys)
    (short : Shortened inum m f free s t h) (cover : v ≤ m * 512) where
  abbrev image : Bytes
  image = put_u32 (slot_load inum t) fsize_at v

  abbrev sized : Sys
  sized = slot_dump inum image t

  small : inum < slot_limit
  small = short.list.own.1

  others :
      (q : ℕ) → has q (tail file_layout t sized inum) ≡ true → slot_load q sized ≡ slot_load q t
  others q e =
      slot_load-slot_dump_ne q inum image t
        (ne_of_mem q inum (tail file_layout t sized inum) e short.list.own.0)

  elsewhere : (x : ℕ) → (x < 8) ⊎ (12 ≤ x) → slot_load inum sized x ≡ slot_load inum t x
  elsewhere x e =
      ap (λ (c : Bytes). c x) (slot_load-slot_dump inum image t) ∙ resized_elsewhere inum v t x e

  mine : (x : ℕ) → (x < 6) ⊎ (112 ≤ x) → slot_load inum sized x ≡ slot_load inum t x
  mine x (inl l) = elsewhere x (inl (omega arith))
  mine x (inr r) = elsewhere x (inr (omega arith))

  bits : (q : ℕ) → is_free sized.disk q ≡ is_free t.disk q
  bits q = is_free-slot_dump inum image t q small

  sized-size : file_size sized inum ≡ v
  sized-size =
      ap (λ (c : Bytes). get_u32 c fsize_at) (slot_load-slot_dump inum image t)
      ∙ (get_u32-object image 128 fsize_at (omega arith)
          ∙ get_u32-put_u32 (slot_load inum t) fsize_at v (omega (arith, cover, short.bound)))

  IsFile-sized : IsFile sized inum m h free
  IsFile-sized = record {
    list = IsList-same file_layout t sized inum others mine bits short.list;
    holds =
        ListHolds-carried file_layout t sized inum others mine m h
          (λ x lt. elsewhere (direct_at + x) (inr (omega arith))) short.holds;
    apart = ap (has 0) (list_slots-same file_layout t sized inum others mine) ∙ short.apart;
    reserved = bits 0 ∙ short.reserved;
    file =
        get_u8-cong (slot_load inum sized) (slot_load inum t) isdir_at
          (elsewhere isdir_at (inr (omega arith)))
        ∙ short.file;
    isfree =
        IsFree-Stays (inum ∷ []) free t sized (Stays-slot_dump inum image t small) short.reserved
          (ground (arith, short.apart)) short.mapped.free_beyond short.isfree;
    mapped = short.mapped;
    cover = omega (arith, sized-size, cover);
    bound = short.bound;
  }

  -- The file with its new size, and its bytes.
  pub inode_set_attr_upc-Shortened :
      let u = inode_set_attr_upc inum none (some (pos v)) t in
      IsFile u inum m h free
      × (u.errno ≡ pos 0)
      × (file_size u inum ≡ v)
      × ((y : ℕ) → y < m * 512 → content u h y ≡ content s f y)
  inode_set_attr_upc-Shortened =
      rw (inode_set_attr_upc-file t inum v short.file (omega (arith, cover, short.bound))) (
        IsFile-sized,
        errno-slot_dump inum image t ∙ short.errno,
        sized-size,
        λ y lt.
            ap (λ (c : Bytes). c (y % 512))
              ((Stays-slot_dump inum image t small).beyond (blknum h (y / 512))
                (short.mapped.beyond (y / 512) (omega arith)))
            ∙ short.bytes y lt,
      )
