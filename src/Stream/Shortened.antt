-- ===== src/Stream/Shortened.antt =====
-- A file that has given blocks back, before its size in bytes is set, and the list stored once
-- more.
use os_fuse.Base.{
  ℕ, ◌*◌, ◌/◌, ◌%◌, ◌<◌, ◌≤◌, ◌≡◌, ◌≢◌, ap, ◌∙◌, arith, false, ltb-false, pos, List, ◌∉◌,
}
use mathlib.Core.Path.{subst}
use os_fuse.Memory.{Bytes, get_u8}
use os_fuse.Memory.Fields.{get_u8-cong}
use os_fuse.State.{Sys}
use os_fuse.FreeBlock.Chain.{IsFree}
use os_fuse.Bitmap.Laws.{is_free}
use os_fuse.Inode.{slot_load, isdir_at, fentry_max_size}
use os_fuse.Listing.{file_layout, fnode_listing_set, store_listing}
use os_fuse.Listing.Array.{file_list-store_listing}
use os_fuse.Listing.Frame.{slot_limit}
use os_fuse.Listing.Store.{IsList, ListHolds, list_slots}
use os_fuse.Listing.Written.{Stored}
use os_fuse.Listing.Stored.{store_listing-ListHolds}
use os_fuse.Listing.Shrink.{errno-store_listing}
use os_fuse.Listing.Carry.{IsFree-Stays}
use os_fuse.Stream.{blknum}
use os_fuse.Stream.Read.{content}
use os_fuse.Stream.Blocks.{Mapped}

-- What fstream_free leaves alone: slots in use outside the list of the file, but for slot 0, which
-- the superblock shares.
pub record FreedKeeps (inum : ℕ) (s u : Sys) : Type 0 where
  pub slots :
      (p : ℕ)
      → p < slot_limit
      → is_free s.disk p ≡ false
      → p ≢ 0
      → p ∉ list_slots file_layout s inum
      → slot_load p u ≡ slot_load p s
  pub used :
      (p : ℕ)
      → p < slot_limit
      → is_free s.disk p ≡ false
      → p ∉ list_slots file_layout s inum
      → (is_free u.disk p ≡ false) × (p ∉ list_slots file_layout u inum)

-- `s` has become `u`: the file has the first `m` of its blocks `f`, with their bytes, and `free`
-- are the free blocks. `h` is its list and the static array.
pub record Shortened (inum m : ℕ) (f : Bytes) (free : List ℕ) (s u : Sys) (h : Bytes) : Type 0 where
  pub errno : u.errno ≡ pos 0
  pub array : u.file_list ≡ h
  pub list : IsList file_layout u inum
  pub holds : ListHolds file_layout u inum m h
  pub apart : 0 ∉ list_slots file_layout u inum
  pub reserved : is_free u.disk 0 ≡ false
  pub file : get_u8 (slot_load inum u) isdir_at ≡ 0
  pub isfree : IsFree u.disk free
  pub mapped : Mapped h m free
  pub bound : m ≤ fentry_max_size
  pub blocks : (j : ℕ) → j < m → blknum h j ≡ blknum f j
  pub bytes : (y : ℕ) → y < m * 512 → content u h y ≡ content s f y
  pub keeps : FreedKeeps inum s u

-- Storing the same list again.
module _ (inum m : ℕ) (f h : Bytes) (free : List ℕ) (s u : Sys)
    (file : Shortened inum m f free s u h) where
  abbrev stored : Sys
  stored = store_listing file_layout inum u.file_list m u

  stored-errno : stored.errno ≡ pos 0
  stored-errno =
      errno-store_listing file_layout inum u.file_list m u
        (let size = file.holds.size in omega (arith, size))
      ∙ file.errno

  Stored-stored : Stored file_layout inum m u.file_list u stored
  Stored-stored =
      store_listing-ListHolds file_layout inum u.file_list m u (omega (arith, file.bound)) file.list
        stored-errno

  Shortened-stored : Shortened inum m f free s stored h
  Shortened-stored =
      let st = Stored-stored in
      record {
        errno = stored-errno;
        array = file_list-store_listing file_layout inum u.file_list m u ∙ file.array;
        list = st.list;
        holds = subst (λ (c : Bytes). ListHolds file_layout stored inum m c) file.array st.holds;
        apart = st.avoids 0 (omega arith) file.reserved file.apart;
        reserved = (st.stays.slots 0 (omega arith) file.reserved file.apart).1;
        file =
            get_u8-cong (slot_load inum stored) (slot_load inum u) isdir_at
              (st.header isdir_at (omega arith) (omega arith) (omega arith))
            ∙ file.file;
        isfree =
            IsFree-Stays (list_slots file_layout u inum) free u stored st.stays file.reserved
              file.apart file.mapped.free_beyond file.isfree;
        mapped = file.mapped;
        bound = file.bound;
        blocks = file.blocks;
        bytes = λ y lt.
            ap (λ (c : Bytes). c (y % 512))
              (st.stays.beyond (blknum h (y / 512)) (file.mapped.beyond (y / 512) (omega arith)))
            ∙ file.bytes y lt;
        keeps = record {
          slots = λ p lt used ne out.
              let (used', out') = file.keeps.used p lt used out in
              (st.stays.slots p lt used' out').0 ∙ file.keeps.slots p lt used ne out;
          used = λ p lt used out.
              let (used', out') = file.keeps.used p lt used out in
              ((st.stays.slots p lt used' out').1, st.avoids p lt used' out');
        };
      }

  pub fnode_listing_set-Shortened : Shortened inum m f free s (fnode_listing_set inum m u) h
  unfolding fnode_listing_set
  fnode_listing_set-Shortened = rw (ltb-false fentry_max_size m file.bound) Shortened-stored
