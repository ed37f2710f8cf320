-- ===== src/Listing/Carry.antt =====
-- Lists and the free block list in a state that keeps the slots that they depend on.
use os_fuse.Base.{
  ℕ, ◌+◌, ◌*◌, ◌<◌, ◌≤◌, ◌≡◌, refl, sym, ap, ◌∙◌, fun_ext, arith, Bool, true, false, ◌||◌,
  has-append, eq-==_self, ◌⊎◌, inl, inr, List, [], ◌∷◌, ◌++◌, has, ◌∉◌,
}
use mathlib.Core.Path.{subst}
use os_fuse.Memory.{Bytes, get_u16, get_u32}
use os_fuse.Memory.Fields.{get_u16-cong, get_u32-object}
use os_fuse.State.{Sys, Disk, block_read}
use os_fuse.Inode.{slot_load, ino_at, size_at, direct_at, pages_at}
use os_fuse.FreeBlock.Chain.{Chain, IsFree}
use os_fuse.Bitmap.Laws.{is_free}
use os_fuse.Listing.{Layout, pages_per_inode}
use os_fuse.Listing.Frame.{Stays, Owned}
use os_fuse.Listing.Pages.{pages_of-cong, PagesHold-same, PagesHold-cong}
use os_fuse.Listing.Indexes.{indexes_of-cong, indexes_of-same, IndexesHold-same, IndexesHold-cong}
use os_fuse.Listing.Store.{IsList, ListHolds, list_slots, page_slots, index_slots, or-true}

-- Distinct slots in use, where the bitmap is the same.
Owned-same :
    (s t : Sys) (xs : List ℕ)
    → ((m : ℕ) → is_free t.disk m ≡ is_free s.disk m)
    → Owned s xs
    → Owned t xs
Owned-same s t [] same own = tt
Owned-same s t (x ∷ xs) same own = (own.0, own.1, same x ∙ own.2, Owned-same s t xs same own.3)

module _ (L : Layout) (s t : Sys) (inum : ℕ) where
  -- The slots behind the inode's own.
  abbrev pub tail : List ℕ
  tail =
      let node = slot_load inum s in
      page_slots L node (get_u16 node size_at) ++ index_slots L s node (get_u16 node size_at)

  module _ (others : (m : ℕ) → has m tail ≡ true → slot_load m t ≡ slot_load m s)
      (mine : (x : ℕ) → (x < 6) ⊎ (112 ≤ x) → slot_load inum t x ≡ slot_load inum s x) where
    pub list_slots-same : list_slots L t inum ≡ list_slots L s inum
    list_slots-same =
        let node : Bytes = slot_load inum s in
        let node' : Bytes = slot_load inum t in
        let end : ℕ = get_u16 node size_at in
        let first : ℕ = L.direct + pages_per_inode * L.per_page in
        let size : get_u16 node' size_at ≡ end =
          get_u16-cong node' node size_at (mine 4 (inl (omega arith)))
            (mine 5 (inl (omega arith))) in
        let pages : page_slots L node' end ≡ page_slots L node end =
          pages_of-cong L node node' pages_at end pages_per_inode 0 L.direct (λ j a b.
            get_u16-cong node' node (pages_at + 2 * j) (mine _ (inr (omega arith)))
              (mine _ (inr (omega arith)))) in
        let indexes : index_slots L t node' end ≡ index_slots L s node end =
          indexes_of-cong L t node node' end pages_per_inode 0 first
            (λ x a b. mine x (inr (omega arith)))
          ∙ indexes_of-same L s t node end pages_per_inode 0 first (λ m h. others m (
              has-append m (page_slots L node end) (index_slots L s node end)
              ∙ ap (λ (b : Bool). has m (page_slots L node end) || b) h
              ∙ or-true (has m (page_slots L node end)))) in
        ap (λ (e : ℕ). inum ∷ page_slots L node' e ++ index_slots L t node' e) size
        ∙ (ap (λ (xs : List ℕ). inum ∷ xs ++ index_slots L t node' end) pages
            ∙ ap (λ (xs : List ℕ). inum ∷ page_slots L node end ++ xs) indexes)

    pub IsList-same :
        ((m : ℕ) → is_free t.disk m ≡ is_free s.disk m) → IsList L s inum → IsList L t inum
    IsList-same bits list = record {
      own =
          subst (λ (xs : List ℕ). Owned t xs) (sym list_slots-same)
            (Owned-same s t (list_slots L s inum) bits list.own);
      self =
          get_u16-cong (slot_load inum t) (slot_load inum s) ino_at (mine 0 (inl (omega arith)))
            (mine 1 (inl (omega arith)))
          ∙ list.self;
    }

    pub ListHolds-carried :
        (n : ℕ) (g : Bytes)
        → ((x : ℕ) → x < 96 → slot_load inum t (direct_at + x) ≡ slot_load inum s (direct_at + x))
        → ListHolds L s inum n g
        → ListHolds L t inum n g
    ListHolds-carried n g front holds =
        let node : Bytes = slot_load inum s in
        let node' : Bytes = slot_load inum t in
        let first : ℕ = L.direct + pages_per_inode * L.per_page in
        let number : ((j : ℕ)
            → 0 ≤ j
            → j < 0 + pages_per_inode
            → get_u16 node' (pages_at + 2 * j) ≡ get_u16 node (pages_at + 2 * j)) =
          λ j a b.
            get_u16-cong node' node (pages_at + 2 * j) (mine _ (inr (omega arith)))
              (mine _ (inr (omega arith))) in
        let kept : ((m : ℕ)
            → has m (page_slots L node n ++ index_slots L s node n) ≡ true
            → slot_load m t ≡ slot_load m s) =
          λ m h. others m (
            ap (λ (e : ℕ). has m (page_slots L node e ++ index_slots L s node e)) holds.size ∙ h) in
        let parts : ((m : ℕ)
            → has m (page_slots L node n ++ index_slots L s node n)
              ≡ (has m (page_slots L node n) || has m (index_slots L s node n))) =
          λ m. has-append m (page_slots L node n) (index_slots L s node n) in
        record {
          size =
              get_u16-cong node' node size_at (mine 4 (inl (omega arith)))
                (mine 5 (inl (omega arith)))
              ∙ holds.size;
          direct = λ x lt. front x lt ∙ holds.direct x lt;
          pages = PagesHold-cong L t g node node' pages_at n pages_per_inode 0 L.direct number (
              PagesHold-same L s t g node pages_at n pages_per_inode 0 L.direct
                (λ m h. kept m (parts m ∙ ap (λ (b : Bool). b || has m (index_slots L s node n)) h))
                holds.pages);
          indexes =
              IndexesHold-cong L t g node node' n pages_per_inode 0 first
                (λ x a b. mine x (inr (omega arith)))
                (IndexesHold-same L s t g node n pages_per_inode 0 first
                  (λ m h. kept m (
                    parts m
                    ∙ ap (λ (b : Bool). has m (page_slots L node n) || b) h
                    ∙ or-true (has m (page_slots L node n))))
                  holds.indexes);
        }

Owned-used :
    (s t : Sys) (xs : List ℕ)
    → ((m : ℕ) → has m xs ≡ true → is_free t.disk m ≡ false)
    → Owned s xs
    → Owned t xs
Owned-used s t [] used own = tt
Owned-used s t (x ∷ xs) used own = (
  own.0,
  own.1,
  used x (rw (eq-==_self x) refl),
  Owned-used s t xs (λ m h. used m (ground arith)) own.3,
)

-- A list in a state that keeps its slots, and has them in use.
module _ (L : Layout) (s t : Sys) (inum : ℕ)
    (kept : (m : ℕ) → has m (list_slots L s inum) ≡ true → slot_load m t ≡ slot_load m s) where
  pub node_kept : slot_load inum t ≡ slot_load inum s
  node_kept = kept inum (ground (arith, eq-==_self inum))

  tail_kept : (m : ℕ) → has m (tail L s t inum) ≡ true → slot_load m t ≡ slot_load m s
  tail_kept m h = kept m (ground arith)

  pub list_slots-kept : list_slots L t inum ≡ list_slots L s inum
  list_slots-kept = list_slots-same L s t inum tail_kept (λ x h. ap (λ (c : Bytes). c x) node_kept)

  pub IsList-kept :
      ((m : ℕ) → has m (list_slots L s inum) ≡ true → is_free t.disk m ≡ false)
      → IsList L s inum
      → IsList L t inum
  IsList-kept used list = record {
    own =
        subst (λ (xs : List ℕ). Owned t xs) (sym list_slots-kept)
          (Owned-used s t (list_slots L s inum) used list.own);
    self = ap (λ (c : Bytes). get_u16 c ino_at) node_kept ∙ list.self;
  }

  pub ListHolds-kept : (n : ℕ) (g : Bytes) → ListHolds L s inum n g → ListHolds L t inum n g
  ListHolds-kept n g holds =
      ListHolds-carried L s t inum tail_kept (λ x h. ap (λ (c : Bytes). c x) node_kept) n g
        (λ x lt. ap (λ (c : Bytes). c (direct_at + x)) node_kept) holds

-- The links of free blocks that two disks agree on.
Chain-same :
    (d e : Disk) (w : ℕ) (xs : List ℕ)
    → ((x : ℕ) → has x xs ≡ true → e x ≡ d x)
    → Chain d w xs
    → Chain e w xs
Chain-same d e w [] same c = c
Chain-same d e w (x ∷ xs) same c =
    let here : e x ≡ d x = same x (rw (eq-==_self x) refl) in
    (
      c.0,
      c.1,
      c.2,
      c.3,
      subst (λ (b : Bytes). Chain e (get_u32 b 0) xs) (sym here)
          (Chain-same d e (get_u32 (d x) 0) xs (λ y h. same y (ground arith)) c.4),
    )

slot_zero : (s : Sys) (o : ℕ) → o + 4 ≤ 128 → get_u32 (slot_load 0 s) o ≡ get_u32 (s.disk 0) o
unfolding slot_load block_read
slot_zero s o le =
    let start : (λ i. s.disk 0 (0 + i)) ≡ s.disk 0 = fun_ext λ i. ap (s.disk 0) (omega arith) in
    get_u32-object (λ i. s.disk 0 (0 + i)) 128 o le ∙ ap (λ (b : Bytes). get_u32 b o) start

-- Slot 0 holds the superblock: the free block list stays where slot 0 is in use and not touched.
pub IsFree-Stays :
    (T xs : List ℕ) (s t : Sys)
    → Stays T s t
    → is_free s.disk 0 ≡ false
    → 0 ∉ T
    → ((x : ℕ) → has x xs ≡ true → 1024 < x)
    → IsFree s.disk xs
    → IsFree t.disk xs
IsFree-Stays T xs s t stays used out beyond free =
    let zero_same = (stays.slots 0 (omega arith) used out).0 in
    let word : ((o : ℕ) → o + 4 ≤ 128 → get_u32 (t.disk 0) o ≡ get_u32 (s.disk 0) o) = λ o le.
      sym (slot_zero t o le) ∙ (ap (λ (b : Bytes). get_u32 b o) zero_same ∙ slot_zero s o le) in
    record {
      chain =
          subst (λ (w : ℕ). Chain t.disk w xs) (sym (word 0 (omega arith)))
            (Chain-same s.disk t.disk (get_u32 (s.disk 0) 0) xs (λ x h. stays.beyond x (beyond x h))
              free.chain);
      count = word 4 (omega arith) ∙ free.count;
      small = free.small;
    }
