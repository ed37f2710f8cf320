-- ===== src/Listing/StoreFrees.antt =====
-- store_listing of a list that does not grow takes no inode.
use os_fuse.Base.{ℕ, ◌+◌, ◌*◌, ◌≤◌, ◌≡◌, ◌∙◌, sym, arith, pos, List, ◌++◌}
use mathlib.Core.Path.{subst}
use os_fuse.Memory.{Bytes, get_u16}
use os_fuse.State.{Sys}
use os_fuse.Inode.{slot_load, size_at, ino_at}
use os_fuse.Listing.{Layout, Edit, set_pages, set_indexes, store_listing, pages_per_inode}
use os_fuse.Listing.Frame.{Owned, Owned-append_left}
use os_fuse.Listing.Frees.{Frees, Frees-slot_dump, Frees-set_pages, Frees-set_indexes}
use os_fuse.Listing.Shrink.{errno-set_pages, errno-set_indexes}
use os_fuse.Listing.Store.{
  IsList, page_slots, index_slots, index_slots-after, TreeFilled, TreeFilled-loops,
}
use os_fuse.Listing.Stored.{headed, headed-slots, headed-loops-ino}

pub store_listing-Frees :
    (L : Layout) (inum : ℕ) (buf : Bytes) (new : ℕ) (s : Sys)
    → IsList L s inum
    → new ≤ get_u16 (slot_load inum s) size_at
    → s.errno ≡ pos 0
    → Frees s (store_listing L inum buf new s)
unfolding store_listing
store_listing-Frees L inum buf new s list shrinks clear =
    let node : Bytes = slot_load inum s in
    let old : ℕ = get_u16 node size_at in
    let first : ℕ = L.direct + pages_per_inode * L.per_page in
    let node₀ : Bytes = headed buf new node in
    let T₀ : List ℕ = page_slots L node₀ old ++ index_slots L s node₀ old in
    let own : Owned s T₀ = subst (Owned s) (sym (headed-slots L buf new node s old)) list.own.3 in
    let e : Edit = set_pages L buf new old pages_per_inode 0 L.direct (node₀, s) in
    let e' : Edit = set_indexes L buf new old pages_per_inode 0 first e in
    let clear₁ : e.1.errno ≡ pos 0 =
      errno-set_pages L buf new old shrinks pages_per_inode 0 L.direct (node₀, s) ∙ clear in
    let clear₂ : e'.1.errno ≡ pos 0 =
      errno-set_indexes L buf new old shrinks pages_per_inode 0 first e ∙ clear₁ in
    let (eq, own₂) = index_slots-after L buf new old node₀ s own clear₁ in
    let tree : TreeFilled L buf new T₀ node₀ s e'.0 e'.1 =
      TreeFilled-loops L buf new old node₀ s own clear₂ in
    let ino : get_u16 e'.0 ino_at ≡ inum =
      headed-loops-ino L buf new old node e'.0 s e'.1 T₀ tree ∙ list.self in
    λ m h. Frees-slot_dump (get_u16 e'.0 ino_at) e'.0 e'.1 (omega (arith, ino, list.own.1)) m (
      Frees-set_indexes L buf new old shrinks pages_per_inode 0 first e.0 e.1 clear₁
        (subst (Owned e.1) (sym eq) own₂) m
        (Frees-set_pages L buf new old shrinks pages_per_inode 0 L.direct node₀ s
          (Owned-append_left s _ (index_slots L s node₀ old) own) m h))
