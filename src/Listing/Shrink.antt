-- ===== src/Listing/Shrink.antt =====
-- A list that does not grow takes no inode, so storing it records no error.
use os_fuse.Base.{ℕ, zero, suc, ◌+◌, ◌*◌, ◌≤◌, ◌≡◌, ap, ◌∙◌, arith, false, leb-false}
use mathlib.Core.Bool.{false≢true}
use native.Mathlib.Decide.{dec_lt}
use os_fuse.Memory.{Bytes, at, get_u16}
use os_fuse.State.{Sys}
use os_fuse.Inode.{slot_load, pages_at, indexes_at, size_at, ino_at}
use os_fuse.Listing.{
  Layout, Edit, fill_page, fill_pages, set_pages, set_index, set_indexes, store_listing,
  pages_per_index, pages_per_inode,
}
use os_fuse.Listing.Frame.{errno-slot_dump}
use os_fuse.Listing.Runs.{fill_pages-zero, fill_pages-idle, fill_pages-old}
use os_fuse.Listing.InodePages.{set_pages-zero, set_pages-release, set_pages-grow}
use os_fuse.Listing.Index.{set_index-extended}
use os_fuse.Listing.Release.{set_index-release, set_index-idle}
use os_fuse.Listing.Loop.{set_indexes-zero, set_indexes-idle, set_indexes-step}
use os_fuse.Listing.Stored.{headed}

module _ (L : Layout) (buf : Bytes) (new old : ℕ) (shrinks : new ≤ old) where
  errno-fill_page :
      (base i ptr : ℕ) (e : Edit) → (fill_page L buf new old false base i ptr e).1.errno ≡ e.1.errno
  unfolding fill_page
  errno-fill_page base i ptr (ids, s) =
      errno-slot_dump (get_u16 ids (base + 2 * i)) (at buf (ptr * L.entry_size)) s

  errno-fill_pages :
      (k j ptr : ℕ) (e : Edit) → (fill_pages L buf new old false k j ptr e).1.errno ≡ e.1.errno
  errno-fill_pages zero j ptr e =
      ap (λ (x : Edit). x.1.errno) (fill_pages-zero L buf new old false j ptr e)
  errno-fill_pages (suc k) j ptr e = elim (dec_lt ptr new) [
    | no ge ↦
        ap (λ (x : Edit). x.1.errno)
          (fill_pages-idle L buf new old false (suc k) j ptr e (omega arith))
    | yes lt ↦
        ap (λ (x : Edit). x.1.errno)
          (fill_pages-old L buf new old false k j ptr e (λ h. absurd (false≢true h)) lt
            (omega arith))
        ∙ (errno-fill_pages k (j + 1) (ptr + L.per_page) (fill_page L buf new old false 0 j ptr e)
            ∙ errno-fill_page 0 j ptr e)
  ]

  pub errno-set_pages :
      (k i ptr : ℕ) (e : Edit) → (set_pages L buf new old k i ptr e).1.errno ≡ e.1.errno
  errno-set_pages zero i ptr e = ap (λ (x : Edit). x.1.errno) (set_pages-zero L buf new old i ptr e)
  errno-set_pages (suc k) i ptr e = elim (dec_lt ptr new) [
    | no ge ↦ (set_pages-release L buf new old (suc k) i ptr e.0 e.1 (omega arith)).2
    | yes lt ↦
        ap (λ (x : Edit). x.1.errno)
          (set_pages-grow L buf new old k i ptr e false (leb-false old ptr (omega arith)) lt)
        ∙ (errno-set_pages k (i + 1) (ptr + L.per_page)
              (fill_page L buf new old false pages_at i ptr e)
            ∙ errno-fill_page pages_at i ptr e)
  ]

  pub errno-set_index :
      (i ptr : ℕ) (e : Edit) → (set_index L buf new old i ptr e).1.errno ≡ e.1.errno
  errno-set_index i ptr (node, s) = elim (dec_lt ptr new) [
    | yes lt ↦
        (let q : ℕ = get_u16 node (indexes_at + 2 * i) in
          let r : Edit = fill_pages L buf new old false pages_per_index 0 ptr (slot_load q s, s) in
          ap (λ (x : Edit). x.1.errno)
            (set_index-extended L buf new old i ptr node s lt (omega arith))
          ∙ (errno-slot_dump q r.0 r.1 ∙ errno-fill_pages pages_per_index 0 ptr (slot_load q s, s)))
    | no ge ↦ elim (dec_lt ptr old) [
      | yes before ↦ (set_index-release L buf new old i ptr node s (omega arith) before).2
      | no behind ↦
          ap (λ (x : Edit). x.1.errno)
            (set_index-idle L buf new old i ptr node s (omega arith) (omega arith))
    ]
  ]

  pub errno-set_indexes :
      (k i ptr : ℕ) (e : Edit) → (set_indexes L buf new old k i ptr e).1.errno ≡ e.1.errno
  errno-set_indexes zero i ptr e =
      ap (λ (x : Edit). x.1.errno) (set_indexes-zero L buf new old i ptr e)
  errno-set_indexes (suc k) i ptr e = elim (dec_lt ptr old) [
    | no behind ↦
        ap (λ (x : Edit). x.1.errno)
          (set_indexes-idle L buf new old (suc k) i ptr e (omega arith) (omega arith))
    | yes before ↦
        ap (λ (x : Edit). x.1.errno)
          (set_indexes-step L buf new old k i ptr e (rw (leb-false old ptr before) (ground arith)))
        ∙ (errno-set_indexes k (i + 1) (ptr + pages_per_index * L.per_page)
              (set_index L buf new old i ptr e)
            ∙ errno-set_index i ptr e)
  ]

-- Storing a list that is not longer than the one before records no error.
pub errno-store_listing :
    (L : Layout) (inum : ℕ) (buf : Bytes) (new : ℕ) (s : Sys)
    → new ≤ get_u16 (slot_load inum s) size_at
    → (store_listing L inum buf new s).errno ≡ s.errno
unfolding store_listing
errno-store_listing L inum buf new s shrinks =
    let node : Bytes = slot_load inum s in
    let old : ℕ = get_u16 node size_at in
    let e : Edit = set_pages L buf new old pages_per_inode 0 L.direct (headed buf new node, s) in
    let e' : Edit =
      set_indexes L buf new old pages_per_inode 0 (L.direct + pages_per_inode * L.per_page) e in
    errno-slot_dump (get_u16 e'.0 ino_at) e'.0 e'.1
    ∙ (errno-set_indexes L buf new old shrinks pages_per_inode 0
          (L.direct + pages_per_inode * L.per_page) e
        ∙ errno-set_pages L buf new old shrinks pages_per_inode 0 L.direct (headed buf new node, s))
