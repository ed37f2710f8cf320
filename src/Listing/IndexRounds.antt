-- ===== src/Listing/IndexRounds.antt =====
-- What the loop over the index slots leaves, and how its rounds combine.
use os_fuse.Base.{
  ℕ, zero, suc, ◌+◌, ◌*◌, ◌<◌, ◌≤◌, ◌≡◌, refl, sym, ap, ◌∙◌, arith, true, false, ltb-true, List, [],
  ◌∷◌, ◌++◌, has, ◌∉◌, not-mem-append,
}
use mathlib.Core.Path.{subst}
use os_fuse.Memory.{Bytes, get_u16}
use os_fuse.Memory.Fields.{get_u16-cong}
use os_fuse.State.{Sys}
use os_fuse.Inode.{slot_load, indexes_at}
use os_fuse.Bitmap.Laws.{is_free}
use os_fuse.Listing.{Layout, pages_per_index}
use os_fuse.Listing.Frame.{
  Stays, Owned, Owned-Stays, Owned-append, Owned-mem, slot_limit, Stays-trans, Stays-refl,
}
use os_fuse.Listing.Fill.{SameOutside}
use os_fuse.Listing.Pages.{pages_of, PagesHold, PagesHold-same}
use os_fuse.Listing.Index.{slots_of, IndexFilled}
use os_fuse.Listing.Indexes.{indexes_of, IndexesHold, indexes_of-nil, IndexesHold-nil}

-- The outcome `node'` and `t` of the loop.
pub record IndexesFilled (L : Layout) (g : Bytes) (end k i ptr : ℕ) (touched : List ℕ)
    (node : Bytes) (s : Sys) (node' : Bytes) (t : Sys) : Type 0 where
  pub holds : IndexesHold L t g node' end k i ptr
  pub own : Owned t (indexes_of L t node' end k i ptr)
  pub stays : Stays touched s t
  pub avoids :
      (a : ℕ)
      → a < slot_limit
      → is_free s.disk a ≡ false
      → a ∉ touched
      → a ∉ indexes_of L t node' end k i ptr
  pub same : SameOutside (indexes_at + 2 * i) (indexes_at + 2 * (i + k)) node node'

-- No rounds.
pub IndexesFilled-none :
    (L : Layout) (g : Bytes) (end i ptr : ℕ) (node : Bytes) (s : Sys)
    → IndexesFilled L g end zero i ptr [] node s node s
IndexesFilled-none L g end i ptr node s = record {
  holds = tt;
  own = tt;
  stays = Stays-refl [] s;
  avoids = λ a lt u out. refl;
  same = λ x out. refl;
}

module _ (L : Layout) (g : Bytes) (end k i ptr : ℕ) where
  pub IndexesFilled-nil :
      (touched : List ℕ) (node : Bytes) (s t : Sys)
      → end ≤ ptr
      → Stays touched s t
      → IndexesFilled L g end k i ptr touched node s node t
  IndexesFilled-nil touched node s t le stays =
      let none' = indexes_of-nil L t node end k i ptr le in
      record {
        holds = IndexesHold-nil L t g node end k i ptr le;
        own = rw none' tt;
        stays = stays;
        avoids = λ a lt u out. rw none';
        same = λ x out. refl;
      }

  -- One index slot, then the rest.
  pub IndexesFilled-cons :
      (T T₀ T₁ : List ℕ) (node node₁ node₂ : Bytes) (s s₁ s₂ : Sys)
      → ptr < end
      → ((m : ℕ) → m ∉ T → (m ∉ T₀) × (m ∉ T₁))
      → ((m : ℕ)
          → has m (slots_of L s₁ pages_per_index (get_u16 node₁ (indexes_at + 2 * i)) end ptr)
            ≡ true
          → m ∉ T₁)
      → IndexFilled L g pages_per_index end ptr T₀ s (get_u16 node₁ (indexes_at + 2 * i)) s₁
      → SameOutside (indexes_at + 2 * i) (indexes_at + 2 * i + 2) node node₁
      → IndexesFilled L g end k (i + 1) (ptr + pages_per_index * L.per_page) T₁ node₁ s₁ node₂ s₂
      → IndexesFilled L g end (suc k) i ptr T node s node₂ s₂
  IndexesFilled-cons T T₀ T₁ node node₁ node₂ s s₁ s₂ lt parts out one step rest =
      let q : ℕ = get_u16 node₁ (indexes_at + 2 * i) in
      let slots : List ℕ = slots_of L s₁ pages_per_index q end ptr in
      let keep : get_u16 node₂ (indexes_at + 2 * i) ≡ q =
        get_u16-cong node₂ node₁ (indexes_at + 2 * i) (rest.same _ (omega arith))
          (rest.same _ (omega arith)) in
      let kept : ((m : ℕ) → has m slots ≡ true → slot_load m s₂ ≡ slot_load m s₁) = λ m h.
        (let (small, used) = Owned-mem s₁ slots m one.own h in
          (rest.stays.slots m small used (out m h)).0) in
      let loaded = kept q (ground arith) in
      let later : List ℕ =
        indexes_of L s₂ node₂ end k (i + 1) (ptr + pages_per_index * L.per_page) in
      let all : indexes_of L s₂ node₂ end (suc k) i ptr ≡ slots ++ later =
        rw (ltb-true ptr end lt) (
          ap (λ (p : ℕ). slots_of L s₂ pages_per_index p end ptr ++ later) keep
          ∙ ap (λ (b : Bytes). (q ∷ pages_of L b 0 end pages_per_index 0 ptr) ++ later) loaded) in
      let pages_hold : PagesHold L s₂ g (slot_load q s₁) 0 end pages_per_index 0 ptr =
        PagesHold-same L s₁ s₂ g (slot_load q s₁) 0 end pages_per_index 0 ptr
          (λ m h. kept m (ground arith)) one.holds in
      let own : Owned s₂ slots = Owned-Stays T₁ slots s₁ s₂ out rest.stays one.own in
      record {
        holds = (
          λ _.
              subst (λ (p : ℕ). PagesHold L s₂ g (slot_load p s₂) 0 end pages_per_index 0 ptr)
                (sym keep)
                (subst (λ (b : Bytes). PagesHold L s₂ g b 0 end pages_per_index 0 ptr) (sym loaded)
                  pages_hold),
          rest.holds,
        );
        own = subst (Owned s₂) (sym all) (
            Owned-append s₂ slots later own rest.own (λ m h.
              (let (small, used) = Owned-mem s₁ slots m one.own h in
                rest.avoids m small used (out m h))));
        stays = Stays-trans T T₀ T₁ s s₁ s₂ parts one.stays rest.stays;
        avoids = λ a la ua oa.
            let (out₀, out₁) = parts a oa in
            let (_, ua') = one.stays.slots a la ua out₀ in
            subst (λ (xs : List ℕ). a ∉ xs) (sym all)
              (not-mem-append a slots later (one.avoids a la ua out₀) (rest.avoids a la ua' out₁));
        same = λ x o. rest.same x (omega arith) ∙ step x (omega arith);
      }
