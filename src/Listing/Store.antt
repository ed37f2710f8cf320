-- ===== src/Listing/Store.antt =====
-- The slots and the contents of the list of an inode, and what both loops of store_listing leave.
use os_fuse.Base.{
  ℕ, ◌+◌, ◌*◌, ◌<◌, ◌≤◌, ◌≡◌, refl, sym, ◌∙◌, arith, Bool, true, false, ◌||◌, Bool-cases, pos, List,
  ◌∷◌, ◌++◌, has, ◌∉◌, inl, inr, not-mem-append, not-mem-append_left, not-mem-append_right,
}
use mathlib.Core.Path.{subst}
use mathlib.Core.Bool.{false≢true}
use os_fuse.Memory.{Bytes, get_u16, object}
use os_fuse.Memory.Fields.{get_u16-cong}
use os_fuse.State.{Sys}
use os_fuse.Inode.{slot_load, pages_at, size_at, direct_at, ino_at}
use os_fuse.Bitmap.Laws.{is_free}
use os_fuse.Listing.{Layout, Edit, set_pages, set_indexes, pages_per_inode}
use os_fuse.Listing.Frame.{
  Stays, Owned, Owned-Stays, Owned-append_left, Owned-append_right, Owned-append, Owned-mem,
  slot_limit, Stays-trans,
}
use os_fuse.Listing.Pages.{pages_of, pages_of-cong, PagesHold, PagesHold-cong, PagesHold-same}
use os_fuse.Listing.InodePages.{set_pages-PagesFilled}
use os_fuse.Listing.Indexes.{indexes_of, indexes_of-same, indexes_of-cong, IndexesHold}
use os_fuse.Listing.IndexRounds.{IndexesFilled}
use os_fuse.Listing.Loop.{not-mem-of_right, set_indexes-errno, set_indexes-IndexesFilled}

pub pages_per_inode-le : pages_per_inode ≤ 4
unfolding pages_per_inode
pages_per_inode-le = omega arith

pub object-below : (b : Bytes) (n x : ℕ) → x < n → object b n x ≡ b x
unfolding object
object-below b n x lt = ground arith

pub or-true : (b : Bool) → (b || true) ≡ true
or-true true = refl
or-true false = refl

module _ (L : Layout) where
  -- The slots of the pages of an inode, and those behind its index slots.
  abbrev pub page_slots : (node : Bytes) (end : ℕ) → List ℕ
  page_slots node end = pages_of L node pages_at end pages_per_inode 0 L.direct

  abbrev pub index_slots : (s : Sys) (node : Bytes) (end : ℕ) → List ℕ
  index_slots s node end =
      indexes_of L s node end pages_per_inode 0 (L.direct + pages_per_inode * L.per_page)

  -- An inode below the bitmap that owns the slots of its list: they are distinct and in use.
  pub record IsList (s : Sys) (inum : ℕ) : Type 0 where
    pub own :
        let node = slot_load inum s in
        Owned s (
          inum ∷ page_slots node (get_u16 node size_at)
          ++ index_slots s node (get_u16 node size_at))
    pub self : get_u16 (slot_load inum s) ino_at ≡ inum

  -- The list of `inum` has the first `n` entries of the array `g`.
  pub record ListHolds (s : Sys) (inum n : ℕ) (g : Bytes) : Type 0 where
    pub size : get_u16 (slot_load inum s) size_at ≡ n
    pub direct : (x : ℕ) → x < 96 → slot_load inum s (direct_at + x) ≡ g x
    pub pages : PagesHold L s g (slot_load inum s) pages_at n pages_per_inode 0 L.direct
    pub indexes :
        IndexesHold L s g
          (slot_load inum s)
          n
          pages_per_inode
          0
          (L.direct + pages_per_inode * L.per_page)

-- The slots that the list of an inode occupies, its own first.
abbrev pub list_slots : Layout → Sys → ℕ → List ℕ
list_slots L s inum =
    let node = slot_load inum s in
    inum ∷ page_slots L node (get_u16 node size_at) ++ index_slots L s node (get_u16 node size_at)

-- The outcome `node'` and `t` of both loops.
pub record TreeFilled (L : Layout) (g : Bytes) (end : ℕ) (touched : List ℕ) (node : Bytes) (s : Sys)
    (node' : Bytes) (t : Sys) : Type 0 where
  pub pages : PagesHold L t g node' pages_at end pages_per_inode 0 L.direct
  pub indexes :
      IndexesHold L t g node' end pages_per_inode 0 (L.direct + pages_per_inode * L.per_page)
  pub own : Owned t (page_slots L node' end ++ index_slots L t node' end)
  pub stays : Stays touched s t
  pub avoids :
      (a : ℕ)
      → a < slot_limit
      → is_free s.disk a ≡ false
      → a ∉ touched
      → a ∉ (page_slots L node' end ++ index_slots L t node' end)
  pub same : (x : ℕ) → x < 112 → node' x ≡ node x

module _ (L : Layout) (buf : Bytes) (new old : ℕ) (node : Bytes) (s : Sys) where
  -- The loop over the inode's pages leaves the index slots as they were.
  pub index_slots-after :
      Owned s (page_slots L node old ++ index_slots L s node old)
      → let e = set_pages L buf new old pages_per_inode 0 L.direct (node, s) in
        e.1.errno ≡ pos 0
        → (index_slots L e.1 e.0 old ≡ index_slots L s node old)
          × Owned e.1 (index_slots L s node old)
  index_slots-after own err₁ =
      let first : ℕ = L.direct + pages_per_inode * L.per_page in
      let T₁ : List ℕ = page_slots L node old in
      let T₂ : List ℕ = index_slots L s node old in
      let e : Edit = set_pages L buf new old pages_per_inode 0 L.direct (node, s) in
      let PF =
        set_pages-PagesFilled L buf new old pages_per_inode 0 L.direct node s
          (Owned-append_left s T₁ T₂ own) err₁ in
      let own₂ = Owned-append_right s T₁ T₂ own in
      let out = not-mem-of_right s T₁ T₂ own in
      (
        indexes_of-cong L e.1 node e.0 old pages_per_inode 0 first
              (λ x a b. PF.same x (omega (arith, pages_per_inode-le)))
            ∙ indexes_of-same L s e.1 node old pages_per_inode 0 first (λ m h.
              (let (small, used) = Owned-mem s T₂ m own₂ h in
                (PF.stays.slots m small used (out m h)).0)),
        Owned-Stays T₁ T₂ s e.1 out PF.stays own₂,
      )

  pub TreeFilled-loops :
      Owned s (page_slots L node old ++ index_slots L s node old)
      → let e = set_pages L buf new old pages_per_inode 0 L.direct (node, s) in
        let (node', t) =
          set_indexes L buf new old pages_per_inode 0 (L.direct + pages_per_inode * L.per_page) e in
        t.errno ≡ pos 0
        → TreeFilled L buf new (page_slots L node old ++ index_slots L s node old) node s node' t
  TreeFilled-loops own err =
      let first : ℕ = L.direct + pages_per_inode * L.per_page in
      let T₁ : List ℕ = page_slots L node old in
      let T₂ : List ℕ = index_slots L s node old in
      let e : Edit = set_pages L buf new old pages_per_inode 0 L.direct (node, s) in
      let e' : Edit = set_indexes L buf new old pages_per_inode 0 first e in
      let err₁ = set_indexes-errno L buf new old pages_per_inode 0 first e err in
      let PF =
        set_pages-PagesFilled L buf new old pages_per_inode 0 L.direct node s
          (Owned-append_left s T₁ T₂ own) err₁ in
      let own₂ = Owned-append_right s T₁ T₂ own in
      let out = not-mem-of_right s T₁ T₂ own in
      let (eq, own₂') = index_slots-after own err₁ in
      let IF =
        set_indexes-IndexesFilled L buf new old pages_per_inode 0 first e.0 e.1
          (subst (Owned e.1) (sym eq) own₂') err in
      let IF' : IndexesFilled L buf new pages_per_inode 0 first T₂ e.0 e.1 e'.0 e'.1 =
        subst (λ (T : List ℕ). IndexesFilled L buf new pages_per_inode 0 first T e.0 e.1 e'.0 e'.1)
          eq IF in
      let pages : List ℕ = page_slots L e.0 new in
      let indexes : List ℕ = index_slots L e'.1 e'.0 new in
      let number : ((j : ℕ)
          → 0 ≤ j
          → j < 0 + pages_per_inode
          → get_u16 e'.0 (pages_at + 2 * j) ≡ get_u16 e.0 (pages_at + 2 * j)) =
        λ j a b.
          get_u16-cong e'.0 e.0 (pages_at + 2 * j) (IF'.same _ (omega (arith, pages_per_inode-le)))
            (IF'.same _ (omega (arith, pages_per_inode-le))) in
      let pages' : page_slots L e'.0 new ≡ pages =
        pages_of-cong L e.0 e'.0 pages_at new pages_per_inode 0 L.direct number in
      let apart : ((m : ℕ) → has m pages ≡ true → m ∉ T₂) = λ m h. elim (Bool-cases (has m T₂)) [
        | inr miss ↦ miss
        | inl hit ↦
            (let (small, used) = Owned-mem s T₂ m own₂ hit in
              absurd (false≢true (sym (PF.avoids m small used (out m hit)) ∙ h)))
      ] in
      let kept : ((m : ℕ) → has m pages ≡ true → slot_load m e'.1 ≡ slot_load m e.1) = λ m h.
        (let (small, used) = Owned-mem e.1 pages m PF.own h in
          (IF'.stays.slots m small used (apart m h)).0) in
      record {
        pages = PagesHold-cong L e'.1 buf e.0 e'.0 pages_at new pages_per_inode 0 L.direct number (
            PagesHold-same L e.1 e'.1 buf e.0 pages_at new pages_per_inode 0 L.direct kept
              PF.holds);
        indexes = IF'.holds;
        own =
            subst (λ (xs : List ℕ). Owned e'.1 (xs ++ indexes)) (sym pages')
              (Owned-append e'.1 pages indexes
                (Owned-Stays T₂ pages e.1 e'.1 apart IF'.stays PF.own) IF'.own
                (λ m h.
                  (let (small, used) = Owned-mem e.1 pages m PF.own h in
                    IF'.avoids m small used (apart m h))));
        stays =
            Stays-trans (T₁ ++ T₂) T₁ T₂ s e.1 e'.1
              (λ m o. (not-mem-append_left m T₁ T₂ o, not-mem-append_right m T₁ T₂ o)) PF.stays
              IF'.stays;
        avoids = λ a la ua oa.
            let out₁ = not-mem-append_left a T₁ T₂ oa in
            let out₂ = not-mem-append_right a T₁ T₂ oa in
            let (_, ua') = PF.stays.slots a la ua out₁ in
            subst (λ (xs : List ℕ). a ∉ (xs ++ indexes)) (sym pages')
              (not-mem-append a pages indexes (PF.avoids a la ua out₁) (IF'.avoids a la ua' out₂));
        same = λ x lt. IF'.same x (omega arith) ∙ PF.same x (omega arith);
      }
