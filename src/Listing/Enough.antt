-- ===== src/Listing/Enough.antt =====
-- store_listing on a list that grows: with enough free inodes no error is raised.
use os_fuse.Base.{ℕ, ◌+◌, ◌*◌, ◌≤◌, ◌≡◌, ◌∙◌, sym, arith, pos, List, ◌++◌}
use mathlib.Core.Path.{subst}
use os_fuse.Memory.{Bytes, zeros, get_u16}
use os_fuse.State.{Sys}
use os_fuse.Bitmap.Count.{free_inodes}
use os_fuse.Inode.{slot_load, size_at, ino_at}
use os_fuse.Listing.{Layout, Edit, set_pages, set_indexes, store_listing, pages_per_inode}
use os_fuse.Listing.Frame.{Owned, Owned-append_left}
use os_fuse.Listing.Store.{
  IsList, page_slots, index_slots, index_slots-after, TreeFilled, TreeFilled-loops,
}
use os_fuse.Listing.Stored.{headed, headed-slots, headed-loops-ino}
use os_fuse.Listing.Supply.{Spent-slot_dump, new_pages, new_pages-split, set_pages-Spent}
use os_fuse.Listing.Growth.{new_indexes, new_indexes-split, set_indexes-Spent}

-- The slots that a list of `n` entries needs besides the inode's own.
unfoldable pub slots_needed : Layout → ℕ → ℕ
unfolding new_pages new_indexes
slots_needed L n =
    new_pages L n 0 pages_per_inode L.direct
    + new_indexes L n 0 pages_per_inode (L.direct + pages_per_inode * L.per_page)

-- A longer list needs no fewer slots.
pub slots_needed-le :
    (L : Layout) (old new : ℕ) → old ≤ new → slots_needed L old ≤ slots_needed L new
unfolding slots_needed
slots_needed-le L old new grows =
    let first : ℕ = L.direct + pages_per_inode * L.per_page in
    let pages = new_pages-split L zeros new old pages_per_inode L.direct grows in
    let indexes = new_indexes-split L zeros new old pages_per_inode first grows in
    omega (arith, pages, indexes)

module _ (L : Layout) (buf : Bytes) (new old : ℕ) (node : Bytes) (s : Sys) where
  -- Both loops.
  loops-Spent :
      old ≤ new
      → s.errno ≡ pos 0
      → Owned s (page_slots L node old ++ index_slots L s node old)
      → slots_needed L new ≤ slots_needed L old + free_inodes s.disk
      → let e = set_pages L buf new old pages_per_inode 0 L.direct (node, s) in
        let t =
          (set_indexes L buf new old pages_per_inode 0
            (L.direct + pages_per_inode * L.per_page)
            e).1 in
        (t.errno ≡ pos 0)
        × (free_inodes t.disk + slots_needed L new ≡ free_inodes s.disk + slots_needed L old)
  unfolding slots_needed
  loops-Spent grows clear own enough =
      let first : ℕ = L.direct + pages_per_inode * L.per_page in
      let e : Edit = set_pages L buf new old pages_per_inode 0 L.direct (node, s) in
      let pages = new_pages-split L buf new old pages_per_inode L.direct grows in
      let indexes = new_indexes-split L buf new old pages_per_inode first grows in
      let one =
        set_pages-Spent L buf new old pages_per_inode 0 L.direct node s grows
          (Owned-append_left s _ (index_slots L s node old) own)
          (omega (arith, pages, indexes, enough)) in
      let clear₁ = one.errno ∙ clear in
      let (eq, own₂) = index_slots-after L buf new old node s own clear₁ in
      let two =
        set_indexes-Spent L buf new old pages_per_inode 0 first e.0 e.1 grows clear₁
          (subst (Owned e.1) (sym eq) own₂) (omega (arith, pages, indexes, enough, one.count)) in
      (two.errno ∙ clear₁, omega (arith, pages, indexes, one.count, two.count))

-- Let the inode own the slots of its list, let the list not get shorter, let no error be recorded,
-- and let as many inodes be free as the longer list needs more slots. Then storing it records no
-- error, and takes exactly these inodes.
pub store_listing-errno :
    (L : Layout) (inum : ℕ) (buf : Bytes) (new : ℕ) (s : Sys)
    → IsList L s inum
    → get_u16 (slot_load inum s) size_at ≤ new
    → s.errno ≡ pos 0
    → slots_needed L new ≤ slots_needed L (get_u16 (slot_load inum s) size_at) + free_inodes s.disk
    → let t = store_listing L inum buf new s in
      (t.errno ≡ pos 0)
      × (free_inodes t.disk + slots_needed L new
          ≡ free_inodes s.disk + slots_needed L (get_u16 (slot_load inum s) size_at))
unfolding store_listing
store_listing-errno L inum buf new s list grows clear enough =
    let node : Bytes = slot_load inum s in
    let old : ℕ = get_u16 node size_at in
    let node₀ : Bytes = headed buf new node in
    let T₀ : List ℕ = page_slots L node₀ old ++ index_slots L s node₀ old in
    let own : Owned s T₀ = subst (Owned s) (sym (headed-slots L buf new node s old)) list.own.3 in
    let e : Edit = set_pages L buf new old pages_per_inode 0 L.direct (node₀, s) in
    let e' : Edit =
      set_indexes L buf new old pages_per_inode 0 (L.direct + pages_per_inode * L.per_page) e in
    let (clear', count) = loops-Spent L buf new old node₀ s grows clear own enough in
    let tree : TreeFilled L buf new T₀ node₀ s e'.0 e'.1 =
      TreeFilled-loops L buf new old node₀ s own clear' in
    let ino : get_u16 e'.0 ino_at ≡ inum =
      headed-loops-ino L buf new old node e'.0 s e'.1 T₀ tree ∙ list.self in
    let dumped = Spent-slot_dump (get_u16 e'.0 ino_at) e'.0 e'.1 (omega (arith, ino, list.own.1)) in
    (dumped.errno ∙ clear', omega (arith, dumped.count, count))
