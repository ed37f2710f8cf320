-- ===== src/Listing/Written.antt =====
-- The inode is written back behind its pages and index slots.
use os_fuse.Base.{
  ℕ, ◌+◌, ◌*◌, ◌<◌, ◌≤◌, ◌≡◌, ◌≢◌, sym, ap, ◌∙◌, arith, Bool, true, false, ◌||◌, has-append,
  ==-false, List, [], ◌∷◌, ◌++◌, has, ◌∉◌, ne_of_mem,
}
use mathlib.Core.Path.{subst}
use os_fuse.Memory.{Bytes, get_u16, object}
use os_fuse.Memory.Fields.{get_u16-object}
use os_fuse.State.{Sys}
use os_fuse.Inode.{slot_load, slot_dump, indexes_at, pages_at, size_at, direct_at, ino_at}
use os_fuse.Inode.Slots.{slot_load-slot_dump, slot_load-slot_dump_ne}
use os_fuse.Bitmap.Laws.{is_free}
use os_fuse.Listing.{Layout, pages_per_inode}
use os_fuse.Listing.Frame.{
  Stays, Owned, Owned-Stays, slot_limit, Stays-trans, Stays-slot_dump, is_free-slot_dump,
}
use os_fuse.Listing.Pages.{pages_of-cong, PagesHold, PagesHold-cong, PagesHold-same}
use os_fuse.Listing.Indexes.{
  indexes_of-same, indexes_of-cong, IndexesHold, IndexesHold-same, IndexesHold-cong,
}
use os_fuse.Listing.Store.{
  pages_per_inode-le, object-below, or-true, list_slots, page_slots, index_slots, IsList, ListHolds,
  TreeFilled,
}

-- From `s` to `t` the list of the inode has become the first `new` entries of `buf`.
pub record Stored (L : Layout) (inum new : ℕ) (buf : Bytes) (s t : Sys) : Type 0 where
  pub list : IsList L t inum
  pub holds : ListHolds L t inum new buf
  pub stays : Stays (list_slots L s inum) s t
  pub avoids :
      (a : ℕ)
      → a < slot_limit
      → is_free s.disk a ≡ false
      → a ∉ list_slots L s inum
      → a ∉ list_slots L t inum
  pub header : (x : ℕ) → x < 16 → x ≢ 4 → x ≢ 5 → slot_load inum t x ≡ slot_load inum s x

-- The inode's slot is written last.
module _ (L : Layout) (buf : Bytes) (new : ℕ) (node₀ node : Bytes) (s t : Sys) (inum : ℕ) where
  -- The slots of the list, but for the inode's own.
  abbrev T : List ℕ
  T =
      let node = slot_load inum s in
      page_slots L node (get_u16 node size_at) ++ index_slots L s node (get_u16 node size_at)

  pub written-Stored :
      inum < slot_limit
      → is_free s.disk inum ≡ false
      → inum ∉ T
      → get_u16 node ino_at ≡ inum
      → get_u16 node size_at ≡ new
      → ((x : ℕ) → x < 96 → node (direct_at + x) ≡ buf x)
      → ((x : ℕ) → x < 16 → x ≢ 4 → x ≢ 5 → node x ≡ slot_load inum s x)
      → TreeFilled L buf new T node₀ s node t
      → Stored L inum new buf s (slot_dump inum node t)
  written-Stored small used out ino size front header tree =
      let u : Sys = slot_dump inum node t in
      let pages : List ℕ = page_slots L node new in
      let indexes : List ℕ = index_slots L t node new in
      let away : inum ∉ (pages ++ indexes) = tree.avoids inum small used out in
      let first : ℕ = L.direct + pages_per_inode * L.per_page in
      let dumped = Stays-slot_dump inum node t small in
      let loaded = slot_load-slot_dump inum node t in
      let img : Bytes = object node 128 in
      let kept : ((m : ℕ) → has m (pages ++ indexes) ≡ true → slot_load m u ≡ slot_load m t) =
        λ m h. slot_load-slot_dump_ne m inum node t (ne_of_mem m inum (pages ++ indexes) h away) in
      let same : ((x : ℕ) → x < 128 → img x ≡ node x) = λ x lt. object-below node 128 x lt in
      let sz : get_u16 img size_at ≡ new = get_u16-object node 128 size_at (omega arith) ∙ size in
      let number : ((j : ℕ)
          → 0 ≤ j
          → j < 0 + pages_per_inode
          → get_u16 img (pages_at + 2 * j) ≡ get_u16 node (pages_at + 2 * j)) =
        λ j a b. get_u16-object node 128 (pages_at + 2 * j) (omega (arith, pages_per_inode-le)) in
      let inside : ((x : ℕ)
          → indexes_at + 2 * 0 ≤ x
          → x < indexes_at + 2 * (0 + pages_per_inode)
          → img x ≡ node x) =
        λ x a b. same x (omega (arith, pages_per_inode-le)) in
      let slots : Bytes → ℕ → List ℕ =
        λ (nd : Bytes) (e : ℕ). page_slots L nd e ++ index_slots L u nd e in
      let pages' : page_slots L img new ≡ pages =
        pages_of-cong L node img pages_at new pages_per_inode 0 L.direct number in
      let indexes' : index_slots L u img new ≡ indexes =
        indexes_of-cong L u node img new pages_per_inode 0 first inside
        ∙ indexes_of-same L t u node new pages_per_inode 0 first (λ m h. kept m (
            has-append m pages indexes
            ∙ ap (λ (b : Bool). has m pages || b) h
            ∙ or-true (has m pages))) in
      let slots' : slots (slot_load inum u) (get_u16 (slot_load inum u) size_at)
          ≡ (pages ++ indexes) =
        ap (λ (nd : Bytes). slots nd (get_u16 nd size_at)) loaded
        ∙ (ap (slots img) sz
            ∙ (ap (λ (xs : List ℕ). xs ++ index_slots L u img new) pages'
                ∙ ap (λ (xs : List ℕ). pages ++ xs) indexes')) in
      let used' : is_free u.disk inum ≡ false =
        is_free-slot_dump inum node t inum small ∙ (tree.stays.slots inum small used out).1 in
      let apart : ((m : ℕ) → has m (pages ++ indexes) ≡ true → m ∉ (inum ∷ [])) =
        λ m h. ground (arith, ==-false m inum (ne_of_mem m inum (pages ++ indexes) h away)) in
      let own : Owned u (inum ∷ pages ++ indexes) = (
        away,
        small,
        used',
        Owned-Stays (inum ∷ []) (pages ++ indexes) t u apart dumped tree.own,
      ) in
      let held : PagesHold L u buf img pages_at new pages_per_inode 0 L.direct =
        PagesHold-cong L u buf node img pages_at new pages_per_inode 0 L.direct number (
          PagesHold-same L t u buf node pages_at new pages_per_inode 0 L.direct
            (λ m h. kept m (has-append m pages indexes ∙ ap (λ (b : Bool). b || has m indexes) h))
            tree.pages) in
      let held' : IndexesHold L u buf img new pages_per_inode 0 first =
        IndexesHold-cong L u buf node img new pages_per_inode 0 first inside (
          IndexesHold-same L t u buf node new pages_per_inode 0 first
            (λ m h. kept m (
              has-append m pages indexes
              ∙ ap (λ (b : Bool). has m pages || b) h
              ∙ or-true (has m pages)))
            tree.indexes) in
      record {
        list = record {
          own = subst (λ (xs : List ℕ). Owned u (inum ∷ xs)) (sym slots') own;
          self =
              ap (λ (nd : Bytes). get_u16 nd ino_at) loaded
              ∙ (get_u16-object node 128 ino_at (omega arith) ∙ ino);
        };
        holds = record {
          size = ap (λ (nd : Bytes). get_u16 nd size_at) loaded ∙ sz;
          direct = λ x lt.
              ap (λ (nd : Bytes). nd (direct_at + x)) loaded
              ∙ (same (direct_at + x) (omega arith) ∙ front x lt);
          pages =
              subst (λ (nd : Bytes). PagesHold L u buf nd pages_at new pages_per_inode 0 L.direct)
                (sym loaded) held;
          indexes =
              subst (λ (nd : Bytes). IndexesHold L u buf nd new pages_per_inode 0 first)
                (sym loaded) held';
        };
        stays =
            Stays-trans (inum ∷ T) T (inum ∷ []) s t u
              (λ m o. (ground (arith, o), ground (arith, o))) tree.stays dumped;
        avoids = λ a la ua oa.
            subst (λ (xs : List ℕ). a ∉ (inum ∷ xs)) (sym slots')
              (ground (arith, oa, tree.avoids a la ua (ground (arith, oa))));
        header = λ x lt ne ne'.
            ap (λ (nd : Bytes). nd x) loaded ∙ (same x (omega arith) ∙ header x lt ne ne');
      }
