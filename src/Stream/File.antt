-- ===== src/Stream/File.antt =====
-- A file on the disk: its inode, the list of its blocks, and the free block list.
use os_fuse.Base.{
  ℕ, ◌+◌, ◌*◌, ◌/◌, ◌^◌, ◌<◌, ◌≤◌, ◌≡◌, refl, ap, ◌∙◌, sym, arith, false, ltb-false, pos, pos_part,
  to_int-pos, none, some, List, has, ◌∉◌, ◌⊎◌,
}
use mathlib.Core.Path.{subst}
use os_fuse.Memory.{Bytes, get_u8, get_u32, put_u32}
use os_fuse.Memory.Fields.{get_u32-cong}
use os_fuse.State.{Sys, Disk, block_write}
use os_fuse.FreeBlock.Chain.{IsFree}
use os_fuse.Bitmap.Laws.{is_free}
use os_fuse.Inode.{
  slot_load, slot_dump, isdir_at, fsize_at, inode_get_attr_upc, inode_set_attr_upc,
  fcontent_max_size, fentry_max_size,
}
use os_fuse.Listing.{file_layout, fnode_listing, listing}
use os_fuse.Listing.Store.{IsList, ListHolds, list_slots}
use os_fuse.Listing.Read.{listing-Agrees}
use os_fuse.Listing.RoundTrip.{file_capacity}
use os_fuse.Inode.Slots.{slot_load-of-disk}
use os_fuse.Listing.RoundTrip.{ListHolds-same}
use os_fuse.Listing.Carry.{list_slots-same, IsList-same}
use os_fuse.Stream.{blknum}
use os_fuse.Stream.Blocks.{Mapped}

-- `fsize` of the inode.
abbrev pub file_size : Sys → ℕ → ℕ
file_size s inum = get_u32 (slot_load inum s) fsize_at

-- Inode `inum` is a file with the `n` blocks whose numbers are the first in `f`. It owns its
-- slots, the superblock's slot 0 is reserved, its blocks are distinct, behind the bitmap, not
-- free, and cover its size; `free` is the list of free blocks.
pub record IsFile (s : Sys) (inum n : ℕ) (f : Bytes) (free : List ℕ) : Type 0 where
  pub list : IsList file_layout s inum
  pub holds : ListHolds file_layout s inum n f
  pub apart : 0 ∉ list_slots file_layout s inum
  pub reserved : is_free s.disk 0 ≡ false
  pub file : get_u8 (slot_load inum s) isdir_at ≡ 0
  pub isfree : IsFree s.disk free
  pub mapped : Mapped f n free
  pub cover : file_size s inum ≤ n * 512
  pub bound : n ≤ fentry_max_size

pub blknum-cong :
    (f g : Bytes) (n i : ℕ) → ((x : ℕ) → x < n * 4 → g x ≡ f x) → i < n → blknum g i ≡ blknum f i
blknum-cong f g n i same lt = get_u32-cong g f (4 * i) (λ j l. same (4 * i + j) (omega arith))

pub Mapped-cong :
    (f g : Bytes) (n : ℕ) (free : List ℕ)
    → ((x : ℕ) → x < n * 4 → g x ≡ f x)
    → Mapped f n free
    → Mapped g n free
Mapped-cong f g n free same m =
    let eq : ((i : ℕ) → i < n → blknum g i ≡ blknum f i) = λ i lt. blknum-cong f g n i same lt in
    record {
      beyond = λ i lt. rw (eq i lt) (m.beyond i lt);
      word = λ i lt. rw (eq i lt) (m.word i lt);
      taken = λ i lt. rw (eq i lt) (m.taken i lt);
      distinct = λ i j li lj e. m.distinct i j li lj (sym (eq i li) ∙ (e ∙ eq j lj));
      free_beyond = m.free_beyond;
    }

-- fnode_listing on a file.
pub fnode_listing-IsFile :
    (s : Sys) (inum n : ℕ) (f : Bytes) (free : List ℕ)
    → IsFile s inum n f free
    → (fnode_listing inum s ≡ (n, record s { file_list = (fnode_listing inum s).1.file_list }))
      × ((x : ℕ) → x < n * 4 → (fnode_listing inum s).1.file_list x ≡ f x)
unfolding fnode_listing
fnode_listing-IsFile s inum n f free file =
    let (size, agree) =
      listing-Agrees file_layout n s f refl inum s.file_list refl
        (omega (arith, file_capacity, file.bound)) file.holds in
    (
      ap (λ (m : ℕ). (m, record s { file_list = (listing file_layout inum s.file_list s).1 })) size,
      agree,
    )

-- The size that inode_get_attr_upc reports, and the image that inode_set_attr_upc writes.
pub inode_get_attr_upc-file :
    (s : Sys) (inum : ℕ)
    → get_u8 (slot_load inum s) isdir_at ≡ 0
    → file_size s inum < 2 ^ 31
    → pos_part (inode_get_attr_upc inum s).2 ≡ file_size s inum
unfolding inode_get_attr_upc
inode_get_attr_upc-file s inum file small = rw (file, to_int-pos (file_size s inum) small) refl

pub inode_set_attr_upc-file :
    (s : Sys) (inum v : ℕ)
    → get_u8 (slot_load inum s) isdir_at ≡ 0
    → v ≤ fcontent_max_size
    → inode_set_attr_upc inum none (some (pos v)) s
      ≡ slot_dump inum (put_u32 (slot_load inum s) fsize_at v) s
unfolding inode_set_attr_upc
inode_set_attr_upc-file s inum v file small = rw (file, ltb-false fcontent_max_size v small) refl

pub file_list-slot_dump :
    (inum : ℕ) (b : Bytes) (s : Sys) → (slot_dump inum b s).file_list ≡ s.file_list
unfolding slot_dump block_write
file_list-slot_dump inum b s = refl

-- A file on the disk of another state.
pub IsFile-disk :
    (s t : Sys) (inum n : ℕ) (f : Bytes) (free : List ℕ)
    → t.disk ≡ s.disk
    → IsFile s inum n f free
    → IsFile t inum n f free
IsFile-disk s t inum n f free eq file =
    let same : ((m : ℕ) → slot_load m t ≡ slot_load m s) =
      λ m. slot_load-of-disk m s t (ap (λ (d : Disk). d (m / 4)) eq) in
    let bits : ((m : ℕ) → is_free t.disk m ≡ is_free s.disk m) =
      λ m. ap (λ (d : Disk). is_free d m) eq in
    let node = same inum in
    let mine : ((x : ℕ) → (x < 6) ⊎ (112 ≤ x) → slot_load inum t x ≡ slot_load inum s x) =
      λ x h. ap (λ (c : Bytes). c x) node in
    let slots : list_slots file_layout t inum ≡ list_slots file_layout s inum =
      list_slots-same file_layout s t inum (λ m h. same m) mine in
    record {
      list = IsList-same file_layout s t inum (λ m h. same m) mine bits file.list;
      holds = ListHolds-same file_layout s t inum n f same file.holds;
      apart = ap (λ (xs : List ℕ). has 0 xs) slots ∙ file.apart;
      reserved = bits 0 ∙ file.reserved;
      file = ap (λ (c : Bytes). get_u8 c isdir_at) node ∙ file.file;
      isfree = subst (λ (d : Disk). IsFree d free) (sym eq) file.isfree;
      mapped = file.mapped;
      cover = subst (λ (c : Bytes). get_u32 c fsize_at ≤ n * 512) (sym node) file.cover;
      bound = file.bound;
    }
