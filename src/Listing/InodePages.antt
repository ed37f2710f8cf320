-- ===== src/Listing/InodePages.antt =====
-- The loop `set_pages` over the pages of the inode itself.
use os_fuse.Base.{
  ℕ, zero, suc, ◌+◌, ◌*◌, ◌<◌, ◌≤◌, ◌≡◌, refl, sym, ap, ◌∙◌, arith, Bool, true, false, leb,
  ltb-true, ltb-false, leb-true, leb-false, pos, List, [], ◌∷◌,
}
use native.Mathlib.Decide.{dec_lt}
use os_fuse.Memory.{Bytes, get_u16}
use os_fuse.State.{Sys}
use os_fuse.Inode.{pages_at}
use os_fuse.Bitmap.{free_inode_push}
use os_fuse.Listing.{Layout, Edit, fill_page, set_pages}
use os_fuse.Listing.Frame.{
  Stays, Owned, Stays-trans, Stays-refl, Stays-free_inode_push, errno-free_inode_push,
}
use os_fuse.Listing.Fill.{fill_page-errno}
use os_fuse.Listing.Pages.{pages_of, PagesFilled, PagesFilled-none, PagesFilled-nil}
use os_fuse.Listing.Runs.{Round-old, Round-new}

module _ (L : Layout) (buf : Bytes) (new old : ℕ) where
  pub set_pages-zero : (i ptr : ℕ) (e : Edit) → set_pages L buf new old zero i ptr e ≡ e
  unfolding set_pages
  set_pages-zero i ptr e = refl

  pub set_pages-free :
      (k i ptr : ℕ) (node : Bytes) (s : Sys)
      → new ≤ ptr
      → ptr < old
      → set_pages L buf new old (suc k) i ptr (node, s)
        ≡ set_pages L buf new old k
            (i + 1)
            (ptr + L.per_page)
            (node, free_inode_push (get_u16 node (pages_at + 2 * i)) s)
  unfolding set_pages
  set_pages-free k i ptr node s ge before = rw (leb-true new ptr ge, ltb-true ptr old before)

  pub set_pages-idle :
      (k i ptr : ℕ) (e : Edit) → new ≤ ptr → old ≤ ptr → set_pages L buf new old k i ptr e ≡ e
  unfolding set_pages
  set_pages-idle zero i ptr e ge behind = refl
  set_pages-idle (suc k) i ptr (node, s) ge behind =
      rw (leb-true new ptr ge, ltb-false ptr old behind)
        (set_pages-idle k (i + 1) (ptr + L.per_page) (node, s) (omega arith) (omega arith))

  -- Behind the new end the loop over the inode's pages only releases the old ones.
  pub set_pages-release :
      (k i ptr : ℕ) (node : Bytes) (s : Sys)
      → new ≤ ptr
      → let (node', t) = set_pages L buf new old k i ptr (node, s) in
        (node' ≡ node) × Stays (pages_of L node pages_at old k i ptr) s t × (t.errno ≡ s.errno)
  set_pages-release zero i ptr node s ge =
      rw (set_pages-zero i ptr (node, s)) (refl, Stays-refl [] s, refl)
  set_pages-release (suc k) i ptr node s ge = elim (dec_lt ptr old) [
    | no behind ↦
        rw (set_pages-idle (suc k) i ptr (node, s) ge (omega arith)) (refl, Stays-refl _ s, refl)
    | yes before ↦
        (let p : ℕ = get_u16 node (pages_at + 2 * i) in
          let later : List ℕ = pages_of L node pages_at old k (i + 1) (ptr + L.per_page) in
          let (same, stays, err) =
            set_pages-release k (i + 1) (ptr + L.per_page) node (free_inode_push p s)
              (omega arith) in
          rw (set_pages-free k i ptr node s ge before, ltb-true ptr old before)
            (
              same,
              Stays-trans (p ∷ later) (p ∷ []) later s (free_inode_push p s) _
                  (λ m out. (ground arith, ground arith)) (Stays-free_inode_push s p) stays,
              err ∙ errno-free_inode_push s p,
            ))
  ]

  pub set_pages-grow :
      (k i ptr : ℕ) (e : Edit) (fresh : Bool)
      → leb old ptr ≡ fresh
      → ptr < new
      → set_pages L buf new old (suc k) i ptr e
        ≡ set_pages L buf new old k
            (i + 1)
            (ptr + L.per_page)
            (fill_page L buf new old fresh pages_at i ptr e)
  unfolding set_pages
  set_pages-grow k i ptr (node, s) fresh same lt = rw (leb-false new ptr lt, same)

  pub set_pages-errno :
      (k i ptr : ℕ) (e : Edit)
      → (set_pages L buf new old k i ptr e).1.errno ≡ pos 0
      → e.1.errno ≡ pos 0
  set_pages-errno zero i ptr e h = ap (λ (x : Edit). x.1.errno) (sym (set_pages-zero i ptr e)) ∙ h
  set_pages-errno (suc k) i ptr e h = elim (dec_lt ptr new) [
    | no ge ↦ sym (set_pages-release (suc k) i ptr e.0 e.1 (omega arith)).2 ∙ h
    | yes lt ↦
        (let next : Edit = fill_page L buf new old (leb old ptr) pages_at i ptr e in
          fill_page-errno L buf new old pages_at i ptr e.0 e.1 (leb old ptr) (
            set_pages-errno k (i + 1) (ptr + L.per_page) next (
              ap (λ (x : Edit). x.1.errno) (sym (set_pages-grow k i ptr e (leb old ptr) refl lt))
              ∙ h)))
  ]

  pub set_pages-PagesFilled :
      (k i ptr : ℕ) (ids : Bytes) (s : Sys)
      → Owned s (pages_of L ids pages_at old k i ptr)
      → (set_pages L buf new old k i ptr (ids, s)).1.errno ≡ pos 0
      → let (ids', t) = set_pages L buf new old k i ptr (ids, s) in
        PagesFilled L buf new pages_at k i ptr (pages_of L ids pages_at old k i ptr) ids s ids' t
  set_pages-PagesFilled zero i ptr ids s own e =
      rw (set_pages-zero i ptr (ids, s)) (PagesFilled-none L buf new pages_at i ptr ids s)
  set_pages-PagesFilled (suc k) i ptr ids s own e = elim (dec_lt ptr new) [
    | no ge ↦
        (let (same, stays, err) = set_pages-release (suc k) i ptr ids s (omega arith) in
          rw same (PagesFilled-nil L buf new pages_at (suc k) i ptr _ ids s _ (omega arith) stays))
    | yes lt ↦ elim (dec_lt ptr old) [
      | yes before ↦
          (let next : Edit = fill_page L buf new old false pages_at i ptr (ids, s) in
            let step = set_pages-grow k i ptr (ids, s) false (leb-false old ptr before) lt in
            let e₁ : ((set_pages L buf new old k (i + 1) (ptr + L.per_page) next).1.errno ≡ pos 0) =
              ap (λ (x : Edit). x.1.errno) (sym step) ∙ e in
            rw step (
              Round-old L buf new old pages_at k i ptr ids s _ _ lt before own
                (λ own₁. set_pages-PagesFilled k (i + 1) (ptr + L.per_page) next.0 next.1 own₁ e₁)))
      | no behind ↦
          (let next : Edit = fill_page L buf new old true pages_at i ptr (ids, s) in
            let step = set_pages-grow k i ptr (ids, s) true (leb-true old ptr (omega arith)) lt in
            let e₁ : ((set_pages L buf new old k (i + 1) (ptr + L.per_page) next).1.errno ≡ pos 0) =
              ap (λ (x : Edit). x.1.errno) (sym step) ∙ e in
            rw step (
              Round-new L buf new old pages_at k i ptr ids s _ _ lt (omega arith)
                (set_pages-errno k (i + 1) (ptr + L.per_page) next e₁)
                (λ own₁. set_pages-PagesFilled k (i + 1) (ptr + L.per_page) next.0 next.1 own₁ e₁)))
    ]
  ]
