-- ===== src/Listing/Empty.antt =====
-- The inodes that fnode_init and dnode_init write: they own their lists.
use os_fuse.Base.{ℕ, ◌+◌, ◌*◌, ◌<◌, ◌≤◌, ◌≡◌, refl, ap, ◌∙◌, sym, arith, false, List, [], ◌∷◌, ◌++◌}
use mathlib.Core.Path.{subst}
use os_fuse.Memory.{Bytes, get_u16, put_u8, put_u16, put_u32, memcpy, object}
use os_fuse.State.{Sys}
use os_fuse.Inode.{
  slot_load, slot_dump, fnode_init, fnode_image, dnode_init, dnode_image, ino_at, size_at, pages_at,
}
use os_fuse.Inode.Slots.{slot_load-slot_dump}
use os_fuse.Bitmap.Laws.{is_free}
use os_fuse.Listing.{Layout, dir_layout, file_layout, pages_per_inode}
use os_fuse.Listing.Frame.{slot_limit, Owned, is_free-slot_dump}
use os_fuse.Listing.Pages.{pages_of-nil}
use os_fuse.Listing.Indexes.{indexes_of-nil}
use os_fuse.Listing.Store.{IsList, page_slots, index_slots}
use os_fuse.Listing.Store.{list_slots}

pub fnode_image-size : (inum pnum : ℕ) → get_u16 (object (fnode_image inum pnum) 128) size_at ≡ 0
unfolding get_u16 put_u8 put_u16 put_u32 object
fnode_image-size inum pnum = refl

fnode_image-ino :
    (inum pnum : ℕ) → inum < 65536 → get_u16 (object (fnode_image inum pnum) 128) ino_at ≡ inum
unfolding get_u16 put_u8 put_u16 put_u32 object
fnode_image-ino inum pnum lt = ground arith

pub dnode_image-size : (inum pnum : ℕ) → get_u16 (object (dnode_image inum pnum) 128) size_at ≡ 2
unfolding get_u16 put_u8 put_u16 put_u32 memcpy object
dnode_image-size inum pnum = refl

dnode_image-ino :
    (inum pnum : ℕ) → inum < 65536 → get_u16 (object (dnode_image inum pnum) 128) ino_at ≡ inum
unfolding get_u16 put_u8 put_u16 put_u32 memcpy object
dnode_image-ino inum pnum lt = ground arith

-- An inode image whose entries all stand in the inode.
slot_dump-IsList :
    (L : Layout) (image : Bytes) (inum n : ℕ) (s : Sys)
    → inum < slot_limit
    → is_free s.disk inum ≡ false
    → n ≤ L.direct
    → get_u16 (object image 128) size_at ≡ n
    → get_u16 (object image 128) ino_at ≡ inum
    → let t = slot_dump inum image s in IsList L t inum × (list_slots L t inum ≡ inum ∷ [])
slot_dump-IsList L image inum n s small used le size ino =
    let t : Sys = slot_dump inum image s in
    let img : Bytes = object image 128 in
    let loaded : slot_load inum t ≡ img = slot_load-slot_dump inum image s in
    let slots : Bytes → List ℕ = λ (b : Bytes).
      inum ∷ page_slots L b (get_u16 b size_at) ++ index_slots L t b (get_u16 b size_at) in
    let empty : slots img ≡ inum ∷ [] =
      ap (λ (n : ℕ). inum ∷ page_slots L img n ++ index_slots L t img n) size
      ∙ (ap (λ (xs : List ℕ). inum ∷ xs ++ index_slots L t img n)
            (pages_of-nil L img pages_at n pages_per_inode 0 L.direct le)
          ∙ ap (λ (xs : List ℕ). inum ∷ xs)
              (indexes_of-nil L t img n pages_per_inode 0 (L.direct + pages_per_inode * L.per_page)
                (omega arith))) in
    let all : list_slots L t inum ≡ inum ∷ [] = ap slots loaded ∙ empty in
    (
      record {
        own =
            subst (λ (xs : List ℕ). Owned t xs) (sym all)
              (refl, small, is_free-slot_dump inum image s inum small ∙ used, tt);
        self = ap (λ (b : Bytes). get_u16 b ino_at) loaded ∙ ino;
      },
      all,
    )

-- On a slot in use in front of the bitmap, fnode_init leaves an inode that owns its slot alone: its
-- list has no pages and no index slots.
pub fnode_init-IsList :
    (inum pnum : ℕ) (s : Sys)
    → inum < slot_limit
    → is_free s.disk inum ≡ false
    → let t = fnode_init inum pnum s in
      IsList file_layout t inum × (list_slots file_layout t inum ≡ inum ∷ [])
unfolding fnode_init
fnode_init-IsList inum pnum s small used =
    slot_dump-IsList file_layout (fnode_image inum pnum) inum 0 s small used (omega arith)
      (fnode_image-size inum pnum) (fnode_image-ino inum pnum (omega arith))

-- The same for dnode_init: the two entries of a new directory stand in its inode.
pub dnode_init-IsList :
    (inum pnum : ℕ) (s : Sys)
    → inum < slot_limit
    → is_free s.disk inum ≡ false
    → let t = dnode_init inum pnum s in
      IsList dir_layout t inum × (list_slots dir_layout t inum ≡ inum ∷ [])
unfolding dnode_init
dnode_init-IsList inum pnum s small used =
    slot_dump-IsList dir_layout (dnode_image inum pnum) inum 2 s small used (omega arith)
      (dnode_image-size inum pnum) (dnode_image-ino inum pnum (omega arith))
