-- ===== src/Listing.antt =====
-- The entry lists of prelude/inode.c: 96 bytes in the inode, 4 pages of 128 bytes, and 4 index
-- slots with the numbers of 64 pages each. Directories and files share the layout in bytes and
-- differ in the size of an entry, so each loop is one function over a `Layout`.
-- `ptr` counts entries from the start of the array.
pub mod Frame
pub mod Fill
pub mod Pages
pub mod Runs
pub mod InodePages
pub mod Index
pub mod Release
pub mod Indexes
pub mod IndexRounds
pub mod Loop
pub mod Store
pub mod Written
pub mod Stored
pub mod Enough
pub mod Shrink
pub mod Carry
pub mod Array
pub mod Bounds
pub mod Frees
pub mod StoreFrees
pub mod Supply
pub mod Growth
pub mod Read
pub mod Empty
pub mod TooLarge
pub mod RoundTrip
use os_fuse.Base.{
  ℕ, zero, suc, ◌+◌, ◌*◌, ◌-◌, Bool, true, false, ◌||◌, ◌&&◌, ltb, leb, if◌then◌else◌,
}
use os_fuse.Memory.{Bytes, zeros, at, get_u16, put_u16, memcpy}
use os_fuse.State.{Sys, efbig, errno_push}
use os_fuse.Inode.{
  slot_load, slot_dump, ino_at, size_at, direct_at, pages_at, indexes_at, dentry_max_size,
  fentry_max_size,
}
use os_fuse.Bitmap.{free_inode_pop, free_inode_push}

pub record Layout : Type 0 where
  pub entry_size : ℕ
  pub direct : ℕ
  pub per_page : ℕ

-- struct di_ent[6], struct di_ent[8]
abbrev pub dir_layout : Layout
dir_layout = record { entry_size = 16; direct = 6; per_page = 8 }

-- blknum_t[24], blknum_t[32]
abbrev pub file_layout : Layout
file_layout = record { entry_size = 4; direct = 24; per_page = 32 }

-- The numbers in an index slot (`iex.exnum`). Kept shut, so that proofs do not run the loops.
unfoldable pub pages_per_index : ℕ
pages_per_index = 64

-- The length of `dpnum`, `fpnum`, `ex_dpnum` and `ex_fpnum`.
unfoldable pub pages_per_inode : ℕ
pages_per_inode = 4

-- The state of the reading loops: whether the function has returned, `ptr`, and the array.
abbrev pub Cursor : Type 0
Cursor = Bool × ℕ × Bytes

-- The writing loops change a slot in memory (the inode or an index slot) and the disk.
abbrev pub Edit : Type 0
Edit = Bytes × Sys

module _ (L : Layout) where
  open L use {entry_size, direct, per_page}

  -- Reading the pages whose numbers stand in `ids` from offset `base` on.
  unfoldable pub read_pages :
      (ids : Bytes) (base end : ℕ) (s : Sys) (rounds i ptr : ℕ) → Bytes → Cursor
  read_pages ids base end s zero i ptr buf = (false, ptr, buf)
  read_pages ids base end s (suc k) i ptr buf =
      let page = slot_load (get_u16 ids (base + 2 * i)) s in
      let filled = memcpy buf (ptr * entry_size) page 128 in
      let ptr' = ptr + per_page in
      let rest = read_pages ids base end s k (i + 1) ptr' filled in
      if leb end ptr' then (true, ptr', filled) else rest

  -- Reading the pages of each index slot.
  unfoldable pub read_indexes :
      (node : Bytes) (end : ℕ) (s : Sys) (rounds i ptr : ℕ) → Bytes → Cursor
  unfolding read_pages
  read_indexes node end s zero i ptr buf = (false, ptr, buf)
  read_indexes node end s (suc k) i ptr buf =
      let ids = slot_load (get_u16 node (indexes_at + 2 * i)) s in
      let (done, ptr', filled) = read_pages ids 0 end s pages_per_index 0 ptr buf in
      let rest = read_indexes node end s k (i + 1) ptr' filled in
      if done then (true, ptr', filled) else rest

  -- The number of entries, and the array as the function leaves it.
  unfoldable pub listing : ℕ → Bytes → Sys → ℕ × Bytes
  unfolding read_pages read_indexes
  listing inum buf s =
      let node = slot_load inum s in
      let size = get_u16 node size_at in
      let front = memcpy buf 0 (at node direct_at) 96 in
      let (done, ptr, paged) = read_pages node pages_at size s pages_per_inode 0 direct front in
      let (_, _, indexed) = read_indexes node size s pages_per_inode 0 ptr paged in
      if leb size direct then (size, front) else (size, if done then paged else indexed)

  module _ (buf : Bytes) (new old : ℕ) where
    -- Writing one page, into a new slot if `fresh`.
    unfoldable pub fill_page : (fresh : Bool) (base i ptr : ℕ) → Edit → Edit
    fill_page fresh base i ptr (ids, s) =
        let (n, popped) = free_inode_pop s in
        let ids' = if fresh then put_u16 ids (base + 2 * i) n else ids in
        let s' = if fresh then popped else s in
        (ids', slot_dump (get_u16 ids' (base + 2 * i)) (at buf (ptr * entry_size)) s')

    -- The loop over the pages of the inode itself.
    unfoldable pub set_pages : (rounds i ptr : ℕ) → Edit → Edit
    unfolding fill_page
    set_pages zero i ptr e = e
    set_pages (suc k) i ptr (node, s) =
        let released =
          if ltb ptr old then free_inode_push (get_u16 node (pages_at + 2 * i)) s else s in
        let filled = fill_page (leb old ptr) pages_at i ptr (node, s) in
        set_pages k (i + 1) (ptr + per_page) (if leb new ptr then (node, released) else filled)

    -- The loop that releases the pages of an index slot.
    unfoldable pub release_pages : (ids : Bytes) (rounds j ptr : ℕ) → Sys → Sys
    release_pages ids zero j ptr s = s
    release_pages ids (suc k) j ptr s =
        release_pages ids k (j + 1) (ptr + per_page)
          (if ltb ptr old then free_inode_push (get_u16 ids (0 + 2 * j)) s else s)

    -- The two loops that write the pages of an index slot: one takes a new slot for each page
    -- (`fresh`), the other only for those behind the old end.
    unfoldable pub fill_pages : (fresh : Bool) (rounds j ptr : ℕ) → Edit → Edit
    unfolding fill_page
    fill_pages fresh zero j ptr e = e
    fill_pages fresh (suc k) j ptr e =
        let filled = fill_page (fresh || leb old ptr) 0 j ptr e in
        fill_pages fresh k (j + 1) (ptr + per_page) (if ltb ptr new then filled else e)

    -- One round of the loop over the index slots.
    unfoldable pub set_index : (i ptr : ℕ) → Edit → Edit
    unfolding release_pages fill_pages
    set_index i ptr (node, s) =
        let here = indexes_at + 2 * i in
        let released : Sys =
          let ids = slot_load (get_u16 node here) s in
          free_inode_push (get_u16 node here) (release_pages ids pages_per_index 0 ptr s) in
        let created : Edit =
          let (n, s') = free_inode_pop s in
          let node' = put_u16 node here n in
          let (ids, s'') = fill_pages true pages_per_index 0 ptr (zeros, s') in
          (node', slot_dump (get_u16 node' here) ids s'') in
        let extended : Edit =
          let (ids, s') =
            fill_pages false pages_per_index 0 ptr (slot_load (get_u16 node here) s, s) in
          (node, slot_dump (get_u16 node here) ids s') in
        if leb new ptr
        then (node, if ltb ptr old then released else s)
        else if leb old ptr
        then created
        else extended

    -- `ptr` moves on by the 64 pages of the slot. Where both ends lie before it the source leaves
    -- it where it is, and it stays behind both.
    unfoldable pub set_indexes : (rounds i ptr : ℕ) → Edit → Edit
    unfolding set_index
    set_indexes zero i ptr e = e
    set_indexes (suc k) i ptr e =
        let ptr' = if leb new ptr && leb old ptr then ptr else ptr + pages_per_index * per_page in
        set_indexes k (i + 1) ptr' (set_index i ptr e)

  -- The body behind the check of the new size.
  unfoldable pub store_listing : ℕ → Bytes → ℕ → Sys → Sys
  unfolding set_pages set_indexes
  store_listing inum buf new s =
      let node = slot_load inum s in
      let old = get_u16 node size_at in
      let node = memcpy (put_u16 node size_at new) direct_at buf 96 in
      let e = set_pages buf new old pages_per_inode 0 direct (node, s) in
      let (node, s) =
        set_indexes buf new old pages_per_inode 0 (direct + pages_per_inode * per_page) e in
      slot_dump (get_u16 node ino_at) node s

-- Each returns the number of entries and fills its static array.
unfoldable pub dnode_listing : ℕ → Sys → ℕ × Sys
unfolding listing
dnode_listing inum s =
    let (size, d) = listing dir_layout inum s.dir_list s in (size, record s { dir_list = d })

unfoldable pub fnode_listing : ℕ → Sys → ℕ × Sys
unfolding listing
fnode_listing inum s =
    let (size, f) = listing file_layout inum s.file_list s in (size, record s { file_list = f })

unfoldable pub dnode_listing_set : ℕ → ℕ → Sys → Sys
unfolding store_listing errno_push
dnode_listing_set inum newsize s =
    if leb dentry_max_size newsize
    then store_listing dir_layout inum s.dir_list (dentry_max_size - 1) (errno_push efbig s)
    else store_listing dir_layout inum s.dir_list newsize s

unfoldable pub fnode_listing_set : ℕ → ℕ → Sys → Sys
unfolding store_listing errno_push
fnode_listing_set inum newsize s =
    if ltb fentry_max_size newsize
    then store_listing file_layout inum s.file_list fentry_max_size (errno_push efbig s)
    else store_listing file_layout inum s.file_list newsize s
