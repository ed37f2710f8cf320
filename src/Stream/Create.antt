-- ===== src/Stream/Create.antt =====
-- A new file, as sfs_create makes its inode: free_inode_pop, then fnode_init.
use os_fuse.Base.{
  ℕ, ◌+◌, ◌*◌, ◌<◌, ◌≤◌, ◌≡◌, ◌≢◌, refl, ap, ◌∙◌, sym, arith, true, false, ==-false, List, [], ◌∷◌,
  has, ◌∉◌, eq-==_self,
}
use mathlib.Core.Path.{subst}
use os_fuse.Memory.{Bytes, at, get_u8, get_u16, get_u32, put_u8, put_u16, put_u32, object}
use os_fuse.State.{Sys}
use os_fuse.FreeBlock.Chain.{IsFree}
use os_fuse.Bitmap.{free_inode_pop}
use os_fuse.Bitmap.Laws.{is_free, Taken}
use os_fuse.Bitmap.Count.{free_inodes, count_free-same, free_inode_pop-Taken}
use os_fuse.Inode.{
  slot_load, slot_dump, fnode_image, fnode_init, isdir_at, fsize_at, size_at, direct_at, pages_at,
}
use os_fuse.Inode.Slots.{slot_load-slot_dump}
use os_fuse.Listing.{file_layout, pages_per_inode}
use os_fuse.Listing.Frame.{
  Stays, Stays-Taken, Stays-slot_dump, Stays-trans, Owned-mem, is_free-slot_dump, errno-slot_dump,
  slot_limit,
}
use os_fuse.Listing.Fill.{ne_of_free}
use os_fuse.Listing.Pages.{PagesHold-nil}
use os_fuse.Listing.Indexes.{IndexesHold-nil}
use os_fuse.Listing.Store.{list_slots}
use os_fuse.Listing.Empty.{fnode_init-IsList, fnode_image-size}
use os_fuse.Listing.Carry.{node_kept, list_slots-kept, IsList-kept, ListHolds-kept, IsFree-Stays}
use os_fuse.Stream.{blknum}
use os_fuse.Stream.File.{IsFile, file_size}
use os_fuse.Stream.Other.{Apart}

fnode_image-isdir : (inum pnum : ℕ) → get_u8 (object (fnode_image inum pnum) 128) isdir_at ≡ 0
unfolding get_u8 put_u8 put_u16 put_u32 object
fnode_image-isdir inum pnum = refl

fnode_image-fsize : (inum pnum : ℕ) → get_u32 (object (fnode_image inum pnum) 128) fsize_at ≡ 0
unfolding get_u32 put_u8 put_u16 put_u32 object
fnode_image-fsize inum pnum = refl

slot_load-fnode_init :
    (n pnum : ℕ) (t : Sys) → slot_load n (fnode_init n pnum t) ≡ object (fnode_image n pnum) 128
unfolding fnode_init
slot_load-fnode_init n pnum t = slot_load-slot_dump n (fnode_image n pnum) t

Stays-fnode_init :
    (n pnum : ℕ) (t : Sys)
    → n < slot_limit
    → Stays (n ∷ []) t (fnode_init n pnum t)
      × ((fnode_init n pnum t).errno ≡ t.errno)
      × (free_inodes (fnode_init n pnum t).disk ≡ free_inodes t.disk)
unfolding fnode_init
Stays-fnode_init n pnum t small =
    let u : Sys = slot_dump n (fnode_image n pnum) t in
    (
      Stays-slot_dump n (fnode_image n pnum) t small,
      errno-slot_dump n (fnode_image n pnum) t,
      count_free-same t.disk u.disk 1024 (λ m. is_free-slot_dump n (fnode_image n pnum) t m small),
    )

module _ (pnum : ℕ) (free : List ℕ) (s : Sys) (isfree : IsFree s.disk free)
    (beyond : (x : ℕ) → has x free ≡ true → 1024 < x) (reserved : is_free s.disk 0 ≡ false)
    (some_free : 0 < free_inodes s.disk) where
  abbrev pub n : ℕ
  n = (free_inode_pop s).0

  abbrev pub popped : Sys
  popped = (free_inode_pop s).1

  abbrev pub made : Sys
  made = fnode_init n pnum popped

  taken : Taken s n popped
  taken = (free_inode_pop-Taken s some_free).0

  ne_zero : n ≢ 0
  ne_zero e = ne_of_free s.disk 0 n reserved taken.least.free (sym e)

  small : n < slot_limit
  small = omega (arith, taken.least.lt)

  used_now : is_free popped.disk n ≡ false
  used_now = taken.free n ∙ rw (eq-==_self n) refl

  -- What was in use is in use and unchanged.
  pub kept : Stays (n ∷ []) s made
  kept =
      Stays-trans (n ∷ []) [] (n ∷ []) s popped made (λ m o. (refl, o)) (Stays-Taken taken)
        (Stays-fnode_init n pnum popped small).0

  pub away : (m : ℕ) → is_free s.disk m ≡ false → m ∉ (n ∷ [])
  away m used = rw (==-false m n (ne_of_free s.disk m n used taken.least.free)) refl

  isfree_now : IsFree made.disk free
  isfree_now = IsFree-Stays (n ∷ []) free s made kept reserved (away 0 reserved) beyond isfree

  -- Let some inode be free, let inode 0 be reserved, and let `free` be the free block list, all of
  -- it behind the bitmap. Then free_inode_pop and fnode_init make a file without blocks and
  -- without bytes, in an inode that was free; one inode less is free, and no error is recorded
  -- that was not before.
  pub fnode_init-IsFile :
      let (inum, t) = free_inode_pop s in
      let u = fnode_init inum pnum t in
      (is_free s.disk inum ≡ true)
      × IsFile u inum 0 (at (slot_load inum u) direct_at) free
      × (file_size u inum ≡ 0)
      × (u.errno ≡ s.errno)
      × (free_inodes u.disk + 1 ≡ free_inodes s.disk)
  fnode_init-IsFile =
      let node : Bytes = slot_load n made in
      let loaded : node ≡ object (fnode_image n pnum) 128 = slot_load-fnode_init n pnum popped in
      let (list, slots) = fnode_init-IsList n pnum popped small used_now in
      let size : file_size made n ≡ 0 =
        ap (λ (c : Bytes). get_u32 c fsize_at) loaded ∙ fnode_image-fsize n pnum in
      (
        taken.least.free,
        record {
          list = list;
          holds = record {
            size = ap (λ (c : Bytes). get_u16 c size_at) loaded ∙ fnode_image-size n pnum;
            direct = λ x lt. refl;
            pages =
                PagesHold-nil file_layout made (at node direct_at) node pages_at 0 pages_per_inode 0
                  24 (omega arith);
            indexes =
                IndexesHold-nil file_layout made (at node direct_at) node 0 pages_per_inode 0
                  (24 + pages_per_inode * 32) (omega arith);
          };
          apart = ap (has 0) slots ∙ rw (==-false 0 n (λ e. ne_zero (sym e))) refl;
          reserved = (kept.slots 0 (omega arith) reserved (away 0 reserved)).1;
          file = ap (λ (c : Bytes). get_u8 c isdir_at) loaded ∙ fnode_image-isdir n pnum;
          isfree = isfree_now;
          mapped = record {
            beyond = λ i lt. absurd (omega arith);
            word = λ i lt. absurd (omega arith);
            taken = λ i lt. absurd (omega arith);
            distinct = λ i j li lj e. absurd (omega arith);
            free_beyond = beyond;
          };
          cover = omega (arith, size);
          bound = omega arith;
        },
        size,
        (Stays-fnode_init n pnum popped small).1 ∙ taken.errno,
        omega
            (arith, (free_inode_pop-Taken s some_free).1, (Stays-fnode_init n pnum popped small).2),
      )

  -- Let some inode be free, let inode 0 be reserved, and let `free` be the free block list, all of
  -- it behind the bitmap. After free_inode_pop and fnode_init any other file is the same file as
  -- before, with the same bytes in its blocks, and has no slot and no block in common with the new
  -- one.
  pub fnode_init-other :
      (m n' : ℕ) (f' : Bytes)
      → IsFile s m n' f' free
      → let (inum, t) = free_inode_pop s in
        let u = fnode_init inum pnum t in
        IsFile u m n' f' free
        × ((j : ℕ) → j < n' → u.disk (blknum f' j) ≡ s.disk (blknum f' j))
        × Apart u inum 0 (at (slot_load inum u) direct_at) m n' f'
  fnode_init-other m n' f' other =
      let fact : ((p : ℕ)
          → has p (list_slots file_layout s m) ≡ true
          → (slot_load p made ≡ slot_load p s) × (is_free made.disk p ≡ false) × (p ∉ (n ∷ []))) =
        λ p h.
          let (lt, used) = Owned-mem s (list_slots file_layout s m) p other.list.own h in
          let (load, used') = kept.slots p lt used (away p used) in (load, used', away p used) in
      let same : ((p : ℕ)
          → has p (list_slots file_layout s m) ≡ true
          → slot_load p made ≡ slot_load p s) =
        λ p h. (fact p h).0 in
      let slots = list_slots-kept file_layout s made m same in
      let node = node_kept file_layout s made m same in
      let mine = (fnode_init-IsList n pnum popped small used_now).1 in
      (
        record {
          list = IsList-kept file_layout s made m same (λ p h. (fact p h).1) other.list;
          holds = ListHolds-kept file_layout s made m same n' f' other.holds;
          apart = ap (has 0) slots ∙ other.apart;
          reserved = (kept.slots 0 (omega arith) reserved (away 0 reserved)).1;
          file = ap (λ (c : Bytes). get_u8 c isdir_at) node ∙ other.file;
          isfree = isfree_now;
          mapped = other.mapped;
          cover = subst (λ (c : Bytes). get_u32 c fsize_at ≤ n' * 512) (sym node) other.cover;
          bound = other.bound;
        },
        λ j lt. kept.beyond (blknum f' j) (other.mapped.beyond j lt),
        record {
          slots = λ p h. ap (has p) mine ∙ (fact p (sym (ap (has p) slots) ∙ h)).2;
          blocks = λ i j li lj e. absurd (omega arith);
        },
      )
