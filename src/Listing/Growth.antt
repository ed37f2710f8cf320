-- ===== src/Listing/Growth.antt =====
-- The inodes that the index slots of a growing list take, and that store_listing reports no error
-- when enough are free.
use os_fuse.Base.{
  ℕ, zero, suc, ◌+◌, ◌*◌, ◌<◌, ◌≤◌, ◌≡◌, refl, ◌∙◌, sym, arith, true, false, ◌&&◌, ltb, leb,
  ltb-true, leb-true, leb-false, if◌then◌else◌, pos, List, ◌++◌,
}
use mathlib.Core.Bool.{false≢true}
use mathlib.Core.Path.{subst}
use native.Mathlib.Decide.{dec_lt}
use os_fuse.Memory.{Bytes, zeros, get_u16, put_u16}
use os_fuse.Memory.Fields.{get_u16-put_u16}
use os_fuse.State.{Sys}
use os_fuse.Bitmap.{free_inode_pop}
use os_fuse.Bitmap.Count.{free_inodes}
use os_fuse.Inode.{slot_load, indexes_at}
use os_fuse.Listing.{Layout, Edit, fill_pages, set_index, set_indexes, pages_per_index}
use os_fuse.Listing.Frame.{Owned, Owned-append_left}
use os_fuse.Listing.Pages.{pages_of-nil}
use os_fuse.Listing.Index.{
  slots_of, IndexFilled, set_index-created, set_index-extended, extended-Result,
}
use os_fuse.Listing.Indexes.{indexes_of, indexes_of-nil}
use os_fuse.Listing.Loop.{set_indexes-zero, set_indexes-idle, set_indexes-step, later-same}
use os_fuse.Listing.Supply.{
  Spent, Spent-none, Spent-trans, Spent-slot_dump, Spent-free_inode_pop, new_pages, new_pages-split,
  new_pages-idle, fill_pages-Spent,
}

-- The inodes that `k` rounds of the loop over the index slots take, from entry `ptr` on: each new
-- slot, and the new pages of each slot.
unfoldable pub new_indexes : (L : Layout) (new old k ptr : ℕ) → ℕ
new_indexes L new old zero ptr = 0
new_indexes L new old (suc k) ptr =
    (if leb old ptr && ltb ptr new then 1 else 0)
    + (new_pages L new old pages_per_index ptr
        + new_indexes L new old k (ptr + pages_per_index * L.per_page))

module _ (L : Layout) (buf : Bytes) (new old : ℕ) where
  new_indexes-zero : (ptr : ℕ) → new_indexes L new old zero ptr ≡ 0
  unfolding new_indexes
  new_indexes-zero ptr = refl

  new_indexes-idle : (k ptr : ℕ) → new ≤ ptr → new_indexes L new old k ptr ≡ 0
  unfolding new_indexes
  new_indexes-idle zero ptr ge = refl
  new_indexes-idle (suc k) ptr ge =
      let pages = new_pages-idle L buf new old pages_per_index ptr ge in
      let rest = new_indexes-idle k (ptr + pages_per_index * L.per_page) (omega arith) in
      ground (arith, pages, rest)

  new_indexes-old :
      (k ptr : ℕ)
      → ptr < old
      → new_indexes L new old (suc k) ptr
        ≡ new_pages L new old pages_per_index ptr
          + new_indexes L new old k (ptr + pages_per_index * L.per_page)
  unfolding new_indexes
  new_indexes-old k ptr before = rw (leb-false old ptr before) (omega arith)

  new_indexes-new :
      (k ptr : ℕ)
      → old ≤ ptr
      → ptr < new
      → new_indexes L new old (suc k) ptr
        ≡ 1
          + (new_pages L new old pages_per_index ptr
              + new_indexes L new old k (ptr + pages_per_index * L.per_page))
  unfolding new_indexes
  new_indexes-new k ptr behind lt = rw (leb-true old ptr behind, ltb-true ptr new lt) refl

  pub new_indexes-split :
      (k ptr : ℕ)
      → old ≤ new
      → new_indexes L new old k ptr + new_indexes L old 0 k ptr ≡ new_indexes L new 0 k ptr
  unfolding new_indexes
  new_indexes-split zero ptr grows = refl
  new_indexes-split (suc k) ptr grows =
      let pages = new_pages-split L buf new old pages_per_index ptr grows in
      let rest = new_indexes-split k (ptr + pages_per_index * L.per_page) grows in
      ground (arith, pages, rest)

  -- One index slot.
  set_index-Spent-old :
      (i ptr : ℕ) (node : Bytes) (s : Sys)
      → ptr < new
      → ptr < old
      → Owned s (slots_of L s pages_per_index (get_u16 node (indexes_at + 2 * i)) old ptr)
      → new_pages L new old pages_per_index ptr ≤ free_inodes s.disk
      → Spent
          (new_pages L new old pages_per_index ptr)
          s
          (set_index L buf new old i ptr (node, s)).1
  set_index-Spent-old i ptr node s lt before own enough =
      let q : ℕ = get_u16 node (indexes_at + 2 * i) in
      let r : Edit = fill_pages L buf new old false pages_per_index 0 ptr (slot_load q s, s) in
      let filled =
        fill_pages-Spent L buf new old false pages_per_index 0 ptr (slot_load q s) s
          (λ h. absurd (false≢true h)) own.3 enough in
      rw (set_index-extended L buf new old i ptr node s lt before)
        (Spent-trans _ 0 _ s r.1 _ filled (Spent-slot_dump q r.0 r.1 own.1) (omega arith))

  set_index-Spent-new :
      (i ptr : ℕ) (node : Bytes) (s : Sys)
      → ptr < new
      → old ≤ ptr
      → 1 + new_pages L new old pages_per_index ptr ≤ free_inodes s.disk
      → Spent
          (1 + new_pages L new old pages_per_index ptr)
          s
          (set_index L buf new old i ptr (node, s)).1
  set_index-Spent-new i ptr node s lt behind enough =
      let n : ℕ = (free_inode_pop s).0 in
      let s₁ : Sys = (free_inode_pop s).1 in
      let (popped, small) = Spent-free_inode_pop s (omega (arith, enough)) in
      let r : Edit = fill_pages L buf new old true pages_per_index 0 ptr (zeros, s₁) in
      let none₁ = pages_of-nil L zeros 0 old pages_per_index 0 ptr behind in
      let filled =
        fill_pages-Spent L buf new old true pages_per_index 0 ptr zeros s₁ (λ h. behind)
          (subst (Owned s₁) (sym none₁) tt) (omega (arith, popped.count, enough)) in
      let o : ℕ = indexes_at + 2 * i in
      let got : get_u16 (put_u16 node o n) o ≡ n = get_u16-put_u16 node o n (omega arith) in
      rw (set_index-created L buf new old i ptr node s lt behind) (
        Spent-trans 1 _ _ s s₁ _ popped
          (Spent-trans _ 0 _ s₁ r.1 _ filled
            (Spent-slot_dump (get_u16 (put_u16 node o n) o) r.0 r.1 (omega arith)) (omega arith))
          refl)

  -- The loop over the index slots.
  pub set_indexes-Spent :
      (k i ptr : ℕ) (node : Bytes) (s : Sys)
      → old ≤ new
      → s.errno ≡ pos 0
      → Owned s (indexes_of L s node old k i ptr)
      → new_indexes L new old k ptr ≤ free_inodes s.disk
      → Spent (new_indexes L new old k ptr) s (set_indexes L buf new old k i ptr (node, s)).1
  set_indexes-Spent zero i ptr node s grows clear own enough =
      rw (set_indexes-zero L buf new old i ptr (node, s), new_indexes-zero ptr) (Spent-none s)
  set_indexes-Spent (suc k) i ptr node s grows clear own enough = elim (dec_lt ptr new) [
    | no ge ↦
        rw
          (
            set_indexes-idle L buf new old (suc k) i ptr (node, s) (omega arith) (omega arith),
            new_indexes-idle (suc k) ptr (omega arith),
          )
          (Spent-none s)
    | yes lt ↦
        (let step = set_indexes-step L buf new old k i ptr (node, s) (rw (leb-false new ptr lt)) in
          let one : Edit = set_index L buf new old i ptr (node, s) in
          let after : ℕ = ptr + pages_per_index * L.per_page in
          elim (dec_lt ptr old) [
            | yes before ↦
                (let slots : List ℕ =
                    slots_of L s pages_per_index (get_u16 node (indexes_at + 2 * i)) old ptr in
                  let rest : List ℕ = indexes_of L s node old k (i + 1) after in
                  let all : indexes_of L s node old (suc k) i ptr ≡ slots ++ rest =
                    rw (ltb-true ptr old before) in
                  let own' : Owned s (slots ++ rest) = subst (Owned s) all own in
                  let own₀ = Owned-append_left s slots rest own' in
                  let cost = new_indexes-old k ptr before in
                  let spent =
                    set_index-Spent-old i ptr node s lt before own₀ (omega (arith, cost, enough)) in
                  let clear₁ = spent.errno ∙ clear in
                  let (filled, same) =
                    extended-Result L buf new old i ptr node s lt before own₀ clear₁ in
                  let q₁ : ℕ = get_u16 one.0 (indexes_at + 2 * i) in
                  let filled' : IndexFilled L buf pages_per_index new ptr slots s q₁ one.1 =
                    subst (λ (T : List ℕ). IndexFilled L buf pages_per_index new ptr T s q₁ one.1)
                      (rw (ltb-true ptr old before)) filled in
                  let (eq, own₁) =
                    later-same L buf new old k i ptr node one.0 s one.1 slots own' filled'.stays
                      same in
                  rw step (
                    Spent-trans _ (new_indexes L new old k after) _ s one.1 _ spent
                      (set_indexes-Spent k (i + 1) after one.0 one.1 grows clear₁
                        (subst (Owned one.1) (sym eq) own₁)
                        (omega (arith, cost, spent.count, enough)))
                      cost))
            | no behind ↦
                (let cost = new_indexes-new k ptr (omega arith) lt in
                  let spent =
                    set_index-Spent-new i ptr node s lt (omega arith)
                      (omega (arith, cost, enough)) in
                  let none₁ = indexes_of-nil L one.1 one.0 old k (i + 1) after (omega arith) in
                  rw step (
                    Spent-trans _ (new_indexes L new old k after) _ s one.1 _ spent
                      (set_indexes-Spent k (i + 1) after one.0 one.1 grows (spent.errno ∙ clear)
                        (subst (Owned one.1) (sym none₁) tt)
                        (omega (arith, cost, spent.count, enough)))
                      (omega (arith, cost))))
          ])
  ]
