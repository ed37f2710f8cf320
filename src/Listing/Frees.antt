-- ===== src/Listing/Frees.antt =====
-- A list that gets shorter takes no inode: what is free stays free.
use os_fuse.Base.{
  ℕ, zero, suc, ◌+◌, ◌*◌, ◌<◌, ◌≤◌, ◌≡◌, sym, ◌∙◌, arith, true, false, leb-false, ltb-true, pos,
  List, ◌++◌,
}
use mathlib.Core.Bool.{false≢true}
use mathlib.Core.Path.{subst}
use native.Mathlib.Decide.{dec_lt}
use os_fuse.Memory.{Bytes, at, get_u16}
use os_fuse.State.{Sys}
use os_fuse.Inode.{slot_load, slot_dump, pages_at, indexes_at}
use os_fuse.Bitmap.{free_inode_push}
use os_fuse.Bitmap.Laws.{is_free, is_free-free_inode_push}
use os_fuse.Listing.{
  Layout, Edit, fill_page, fill_pages, release_pages, set_pages, set_index, set_indexes,
  pages_per_index,
}
use os_fuse.Listing.Frame.{Owned, Owned-append_left, slot_limit, is_free-slot_dump}
use os_fuse.Listing.Pages.{pages_of}
use os_fuse.Listing.Runs.{fill_pages-zero, fill_pages-idle, fill_pages-old}
use os_fuse.Listing.InodePages.{set_pages-zero, set_pages-idle, set_pages-free, set_pages-grow}
use os_fuse.Listing.Index.{slots_of, IndexFilled, set_index-extended, extended-Result}
use os_fuse.Listing.Indexes.{indexes_of}
use os_fuse.Listing.Release.{
  release_pages-zero, release_pages-idle, release_pages-free, set_index-freed, set_index-idle,
}
use os_fuse.Listing.Loop.{set_indexes-zero, set_indexes-idle, set_indexes-step, later-same}
use os_fuse.Listing.Shrink.{errno-set_index}
use os_fuse.Listing.Supply.{later-Owned}

-- Every inode that is free in `s` is free in `t`.
abbrev pub Frees : Sys → Sys → Type 0
Frees s t = (m : ℕ) → is_free s.disk m ≡ true → is_free t.disk m ≡ true

pub Frees-free_inode_push : (n : ℕ) (s : Sys) → Frees s (free_inode_push n s)
Frees-free_inode_push n s m free = ground (arith, is_free-free_inode_push s n m)

pub Frees-slot_dump : (n : ℕ) (b : Bytes) (s : Sys) → n < slot_limit → Frees s (slot_dump n b s)
Frees-slot_dump n b s lt m free = is_free-slot_dump n b s m lt ∙ free

module _ (L : Layout) (buf : Bytes) (new old : ℕ) (shrinks : new ≤ old) where
  Frees-fill_page :
      (base i ptr : ℕ) (ids : Bytes) (s : Sys)
      → get_u16 ids (base + 2 * i) < slot_limit
      → Frees s (fill_page L buf new old false base i ptr (ids, s)).1
  unfolding fill_page
  Frees-fill_page base i ptr ids s lt =
      Frees-slot_dump (get_u16 ids (base + 2 * i)) (at buf (ptr * L.entry_size)) s lt

  Frees-fill_pages :
      (k j ptr : ℕ) (ids : Bytes) (s : Sys)
      → Owned s (pages_of L ids 0 old k j ptr)
      → Frees s (fill_pages L buf new old false k j ptr (ids, s)).1
  Frees-fill_pages zero j ptr ids s own =
      rw (fill_pages-zero L buf new old false j ptr (ids, s)) (λ m h. h)
  Frees-fill_pages (suc k) j ptr ids s own = elim (dec_lt ptr new) [
    | no ge ↦
        rw (fill_pages-idle L buf new old false (suc k) j ptr (ids, s) (omega arith)) (λ m h. h)
    | yes lt ↦
        (let next : Edit = fill_page L buf new old false 0 j ptr (ids, s) in
          let (small, own₁) = later-Owned L buf new old 0 k j ptr ids s (omega arith) own in
          rw
            (fill_pages-old L buf new old false k j ptr (ids, s) (λ h. absurd (false≢true h)) lt
              (omega arith))
            (λ m h.
              Frees-fill_pages k (j + 1) (ptr + L.per_page) next.0 next.1 own₁ m
                (Frees-fill_page 0 j ptr ids s small m h)))
  ]

  Frees-set_pages_behind :
      (k i ptr : ℕ) (node : Bytes) (s : Sys)
      → new ≤ ptr
      → Frees s (set_pages L buf new old k i ptr (node, s)).1
  Frees-set_pages_behind zero i ptr node s ge =
      rw (set_pages-zero L buf new old i ptr (node, s)) (λ m h. h)
  Frees-set_pages_behind (suc k) i ptr node s ge = elim (dec_lt ptr old) [
    | no behind ↦
        rw (set_pages-idle L buf new old (suc k) i ptr (node, s) ge (omega arith)) (λ m h. h)
    | yes before ↦
        (let p : ℕ = get_u16 node (pages_at + 2 * i) in
          rw (set_pages-free L buf new old k i ptr node s ge before) (λ m h.
            Frees-set_pages_behind k (i + 1) (ptr + L.per_page) node (free_inode_push p s)
              (omega arith) m (Frees-free_inode_push p s m h)))
  ]

  pub Frees-set_pages :
      (k i ptr : ℕ) (node : Bytes) (s : Sys)
      → Owned s (pages_of L node pages_at old k i ptr)
      → Frees s (set_pages L buf new old k i ptr (node, s)).1
  Frees-set_pages zero i ptr node s own =
      rw (set_pages-zero L buf new old i ptr (node, s)) (λ m h. h)
  Frees-set_pages (suc k) i ptr node s own = elim (dec_lt ptr new) [
    | no ge ↦ Frees-set_pages_behind (suc k) i ptr node s (omega arith)
    | yes lt ↦
        (let next : Edit = fill_page L buf new old false pages_at i ptr (node, s) in
          let (small, own₁) = later-Owned L buf new old pages_at k i ptr node s (omega arith) own in
          rw
            (set_pages-grow L buf new old k i ptr (node, s) false (leb-false old ptr (omega arith))
              lt)
            (λ m h.
              Frees-set_pages k (i + 1) (ptr + L.per_page) next.0 next.1 own₁ m
                (Frees-fill_page pages_at i ptr node s small m h)))
  ]

  Frees-release_pages :
      (ids : Bytes) (k j ptr : ℕ) (s : Sys) → Frees s (release_pages L buf new old ids k j ptr s)
  Frees-release_pages ids zero j ptr s =
      rw (release_pages-zero L buf new old ids j ptr s) (λ m h. h)
  Frees-release_pages ids (suc k) j ptr s = elim (dec_lt ptr old) [
    | no behind ↦ rw (release_pages-idle L buf new old ids (suc k) j ptr s (omega arith)) (λ m h. h)
    | yes before ↦
        (let p : ℕ = get_u16 ids (0 + 2 * j) in
          rw (release_pages-free L buf new old ids k j ptr s before) (λ m h.
            Frees-release_pages ids k (j + 1) (ptr + L.per_page) (free_inode_push p s) m
              (Frees-free_inode_push p s m h)))
  ]

  Frees-set_index_behind :
      (i ptr : ℕ) (node : Bytes) (s : Sys)
      → new ≤ ptr
      → Frees s (set_index L buf new old i ptr (node, s)).1
  Frees-set_index_behind i ptr node s ge = elim (dec_lt ptr old) [
    | no behind ↦ rw (set_index-idle L buf new old i ptr node s ge (omega arith)) (λ m h. h)
    | yes before ↦
        (let q : ℕ = get_u16 node (indexes_at + 2 * i) in
          let t : Sys = release_pages L buf new old (slot_load q s) pages_per_index 0 ptr s in
          rw (set_index-freed L buf new old i ptr node s ge before) (λ m h.
            Frees-free_inode_push q t m
              (Frees-release_pages (slot_load q s) pages_per_index 0 ptr s m h)))
  ]

  Frees-set_indexes_behind :
      (k i ptr : ℕ) (e : Edit) → new ≤ ptr → Frees e.1 (set_indexes L buf new old k i ptr e).1
  Frees-set_indexes_behind zero i ptr e ge = rw (set_indexes-zero L buf new old i ptr e) (λ m h. h)
  Frees-set_indexes_behind (suc k) i ptr e ge = elim (dec_lt ptr old) [
    | no behind ↦ rw (set_indexes-idle L buf new old (suc k) i ptr e ge (omega arith)) (λ m h. h)
    | yes before ↦
        rw (set_indexes-step L buf new old k i ptr e (rw (leb-false old ptr before) (ground arith)))
          (λ m h.
            Frees-set_indexes_behind k (i + 1) (ptr + pages_per_index * L.per_page)
              (set_index L buf new old i ptr e) (omega arith) m
              (Frees-set_index_behind i ptr e.0 e.1 ge m h))
  ]

  pub Frees-set_indexes :
      (k i ptr : ℕ) (node : Bytes) (s : Sys)
      → s.errno ≡ pos 0
      → Owned s (indexes_of L s node old k i ptr)
      → Frees s (set_indexes L buf new old k i ptr (node, s)).1
  Frees-set_indexes zero i ptr node s clear own =
      rw (set_indexes-zero L buf new old i ptr (node, s)) (λ m h. h)
  Frees-set_indexes (suc k) i ptr node s clear own = elim (dec_lt ptr new) [
    | no ge ↦ Frees-set_indexes_behind (suc k) i ptr (node, s) (omega arith)
    | yes lt ↦
        (let before : ptr < old = omega arith in
          let q : ℕ = get_u16 node (indexes_at + 2 * i) in
          let one : Edit = set_index L buf new old i ptr (node, s) in
          let after : ℕ = ptr + pages_per_index * L.per_page in
          let slots : List ℕ = slots_of L s pages_per_index q old ptr in
          let rest : List ℕ = indexes_of L s node old k (i + 1) after in
          let all : indexes_of L s node old (suc k) i ptr ≡ slots ++ rest =
            rw (ltb-true ptr old before) in
          let own' : Owned s (slots ++ rest) = subst (Owned s) all own in
          let own₀ = Owned-append_left s slots rest own' in
          let clear₁ = errno-set_index L buf new old shrinks i ptr (node, s) ∙ clear in
          let (filled, same) = extended-Result L buf new old i ptr node s lt before own₀ clear₁ in
          let q₁ : ℕ = get_u16 one.0 (indexes_at + 2 * i) in
          let filled' : IndexFilled L buf pages_per_index new ptr slots s q₁ one.1 =
            subst (λ (T : List ℕ). IndexFilled L buf pages_per_index new ptr T s q₁ one.1)
              (rw (ltb-true ptr old before)) filled in
          let (eq, own₁) =
            later-same L buf new old k i ptr node one.0 s one.1 slots own' filled'.stays same in
          let r : Edit = fill_pages L buf new old false pages_per_index 0 ptr (slot_load q s, s) in
          let here : Frees s one.1 =
            rw (set_index-extended L buf new old i ptr node s lt before) (λ m h.
              Frees-slot_dump q r.0 r.1 own₀.1 m
                (Frees-fill_pages pages_per_index 0 ptr (slot_load q s) s own₀.3 m h)) in
          rw (set_indexes-step L buf new old k i ptr (node, s) (rw (leb-false new ptr lt))) (λ m h.
            Frees-set_indexes k (i + 1) after one.0 one.1 clear₁ (subst (Owned one.1) (sym eq) own₁)
              m (here m h)))
  ]
