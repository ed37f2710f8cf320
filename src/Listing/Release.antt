-- ===== src/Listing/Release.antt =====
-- Releasing an index slot and its pages, and the round that does nothing.
use os_fuse.Base.{
  ℕ, zero, suc, ◌+◌, ◌*◌, ◌<◌, ◌≤◌, ◌≡◌, refl, ◌∙◌, arith, ltb-true, ltb-false, leb-true, List, [],
  ◌∷◌,
}
use native.Mathlib.Decide.{dec_lt}
use os_fuse.Memory.{Bytes, get_u16}
use os_fuse.State.{Sys}
use os_fuse.Inode.{slot_load, indexes_at}
use os_fuse.Bitmap.{free_inode_push}
use os_fuse.Listing.{Layout, release_pages, set_index, pages_per_index}
use os_fuse.Listing.Frame.{
  Stays, Stays-trans, Stays-refl, Stays-free_inode_push, errno-free_inode_push,
}
use os_fuse.Listing.Pages.{pages_of}
use os_fuse.Listing.Index.{slots_of}

-- The loop that releases the pages of an index slot.
module _ (L : Layout) (buf : Bytes) (new old : ℕ) (ids : Bytes) where
  pub release_pages-zero : (j ptr : ℕ) (s : Sys) → release_pages L buf new old ids zero j ptr s ≡ s
  unfolding release_pages
  release_pages-zero j ptr s = refl

  pub release_pages-idle :
      (k j ptr : ℕ) (s : Sys) → old ≤ ptr → release_pages L buf new old ids k j ptr s ≡ s
  unfolding release_pages
  release_pages-idle zero j ptr s le = refl
  release_pages-idle (suc k) j ptr s le =
      rw (ltb-false ptr old le) (release_pages-idle k (j + 1) (ptr + L.per_page) s (omega arith))

  pub release_pages-free :
      (k j ptr : ℕ) (s : Sys)
      → ptr < old
      → release_pages L buf new old ids (suc k) j ptr s
        ≡ release_pages L buf new old ids k
            (j + 1)
            (ptr + L.per_page)
            (free_inode_push (get_u16 ids (0 + 2 * j)) s)
  unfolding release_pages
  release_pages-free k j ptr s before = rw (ltb-true ptr old before)

  release_pages-Stays :
      (k j ptr : ℕ) (s : Sys)
      → let t = release_pages L buf new old ids k j ptr s in
        Stays (pages_of L ids 0 old k j ptr) s t × (t.errno ≡ s.errno)
  release_pages-Stays zero j ptr s = rw (release_pages-zero j ptr s) (Stays-refl [] s, refl)
  release_pages-Stays (suc k) j ptr s = elim (dec_lt ptr old) [
    | no behind ↦ rw (release_pages-idle (suc k) j ptr s (omega arith)) (Stays-refl _ s, refl)
    | yes before ↦
        (let p : ℕ = get_u16 ids (0 + 2 * j) in
          let later : List ℕ = pages_of L ids 0 old k (j + 1) (ptr + L.per_page) in
          let (stays, err) =
            release_pages-Stays k (j + 1) (ptr + L.per_page) (free_inode_push p s) in
          rw (release_pages-free k j ptr s before, ltb-true ptr old before)
            (
              Stays-trans (p ∷ later) (p ∷ []) later s (free_inode_push p s) _
                  (λ m out. (ground arith, ground arith)) (Stays-free_inode_push s p) stays,
              err ∙ errno-free_inode_push s p,
            ))
  ]

module _ (L : Layout) (buf : Bytes) (new old i ptr : ℕ) (node : Bytes) (s : Sys) where
  pub set_index-freed :
      new ≤ ptr
      → ptr < old
      → let q = get_u16 node (indexes_at + 2 * i) in
        set_index L buf new old i ptr (node, s) ≡ (
          node,
          free_inode_push q (release_pages L buf new old (slot_load q s) pages_per_index 0 ptr s),
        )
  unfolding set_index
  set_index-freed ge before = rw (leb-true new ptr ge, ltb-true ptr old before)

  -- Behind the new end an old index slot and its pages are released.
  pub set_index-release :
      new ≤ ptr
      → ptr < old
      → let (node', t) = set_index L buf new old i ptr (node, s) in
        (node' ≡ node)
        × Stays (slots_of L s pages_per_index (get_u16 node (indexes_at + 2 * i)) old ptr) s t
        × (t.errno ≡ s.errno)
  set_index-release ge before =
      let q : ℕ = get_u16 node (indexes_at + 2 * i) in
      let pages : List ℕ = pages_of L (slot_load q s) 0 old pages_per_index 0 ptr in
      let t : Sys = release_pages L buf new old (slot_load q s) pages_per_index 0 ptr s in
      let (stays, err) =
        release_pages-Stays L buf new old (slot_load q s) pages_per_index 0 ptr s in
      rw (set_index-freed ge before) (
        refl,
        Stays-trans (q ∷ pages) pages (q ∷ []) s t (free_inode_push q t)
            (λ m out. (ground arith, ground arith)) stays (Stays-free_inode_push t q),
        errno-free_inode_push t q ∙ err,
      )

  pub set_index-idle : new ≤ ptr → old ≤ ptr → set_index L buf new old i ptr (node, s) ≡ (node, s)
  unfolding set_index
  set_index-idle ge behind = rw (leb-true new ptr ge, ltb-false ptr old behind)
