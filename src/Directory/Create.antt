-- ===== src/Directory/Create.antt =====
-- A new directory, as dnode_init makes it.
use os_fuse.Base.{ℕ, ◌+◌, ◌*◌, ◌<◌, ◌≡◌, ap, ◌∙◌, arith, false, [], ◌∷◌}
use os_fuse.Memory.{Bytes, at, get_u16, object}
use os_fuse.State.{Sys}
use os_fuse.Bitmap.Laws.{is_free}
use os_fuse.Inode.{slot_load, dnode_init, dnode_image, size_at, direct_at, pages_at}
use os_fuse.Inode.Slots.{slot_load-slot_dump}
use os_fuse.Listing.{dir_layout, pages_per_inode}
use os_fuse.Listing.Frame.{slot_limit}
use os_fuse.Listing.Pages.{PagesHold-nil}
use os_fuse.Listing.Indexes.{IndexesHold-nil}
use os_fuse.Listing.Store.{list_slots}
use os_fuse.Listing.Empty.{dnode_init-IsList, dnode_image-size}
use os_fuse.Directory.Append.{IsDir}

-- The entries of the image: the directory and its parent.
abbrev pub first_entries : (inum pnum : ℕ) → Bytes
first_entries inum pnum = at (object (dnode_image inum pnum) 128) direct_at

slot_load-dnode_init :
    (inum pnum : ℕ) (s : Sys)
    → slot_load inum (dnode_init inum pnum s) ≡ object (dnode_image inum pnum) 128
unfolding dnode_init
slot_load-dnode_init inum pnum s = slot_load-slot_dump inum (dnode_image inum pnum) s

-- On a slot in use in front of the bitmap, dnode_init makes a directory with the two entries of the
-- image, in its slot alone.
pub dnode_init-IsDir :
    (inum pnum : ℕ) (s : Sys)
    → inum < slot_limit
    → is_free s.disk inum ≡ false
    → let t = dnode_init inum pnum s in
      IsDir t inum 2 (first_entries inum pnum) × (list_slots dir_layout t inum ≡ inum ∷ [])
dnode_init-IsDir inum pnum s small used =
    let t : Sys = dnode_init inum pnum s in
    let node : Bytes = slot_load inum t in
    let d : Bytes = first_entries inum pnum in
    let loaded = slot_load-dnode_init inum pnum s in
    let (list, slots) = dnode_init-IsList inum pnum s small used in
    (
      record {
        list = list;
        holds = record {
          size = ap (λ (c : Bytes). get_u16 c size_at) loaded ∙ dnode_image-size inum pnum;
          direct = λ x lt. ap (λ (c : Bytes). c (direct_at + x)) loaded;
          pages = PagesHold-nil dir_layout t d node pages_at 2 pages_per_inode 0 6 (omega arith);
          indexes =
              IndexesHold-nil dir_layout t d node 2 pages_per_inode 0 (6 + pages_per_inode * 8)
                (omega arith);
        };
        bound = omega arith;
      },
      slots,
    )
