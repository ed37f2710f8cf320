-- ===== src/Listing/Index.antt =====
-- One index slot with the pages that it lists: writing it back behind its pages, for a new and
-- for an old slot.
use os_fuse.Base.{
  ℕ, ◌+◌, ◌*◌, ◌<◌, ◌≤◌, ◌≡◌, refl, sym, ap, ◌∙◌, arith, true, false, ltb, ==-false, ltb-true,
  ltb-false, leb-true, leb-false, if◌then◌else◌, pos, List, [], ◌∷◌, has, ◌∉◌, ne_of_mem,
}
use mathlib.Core.Path.{subst}
use mathlib.Core.Bool.{false≢true}
use native.Mathlib.Decide.{dec_lt}
use os_fuse.Memory.{Bytes, zeros, get_u16, put_u16, object}
use os_fuse.Memory.Fields.{get_u16-object, get_u16-put_u16}
use os_fuse.State.{Sys}
use os_fuse.Inode.{slot_load, slot_dump, indexes_at}
use os_fuse.Inode.Slots.{slot_load-slot_dump, slot_load-slot_dump_ne}
use os_fuse.Bitmap.{free_inode_pop}
use os_fuse.Bitmap.Laws.{is_free, Taken}
use os_fuse.Listing.{Layout, Edit, fill_pages, set_index, pages_per_index}
use os_fuse.Listing.Frame.{
  Stays, Owned, Owned-Stays, slot_limit, Stays-trans, Stays-slot_dump, errno-slot_dump,
  is_free-slot_dump, Taken-of-errno, Stays-Taken,
}
use os_fuse.Listing.Fill.{SameOutside, same-put_u16, ne_of_free}
use os_fuse.Listing.Pages.{
  pages_of, pages_of-nil, pages_of-cong, PagesHold, PagesHold-same, PagesHold-cong, PagesFilled,
}
use os_fuse.Listing.Runs.{fill_pages-PagesFilled, fill_pages-errno}

pub pages_per_index-le : pages_per_index ≤ 64
unfolding pages_per_index
pages_per_index-le = omega arith

-- The slots of index slot `q`: its own and those of its pages.
abbrev pub slots_of : Layout → Sys → (n q end ptr : ℕ) → List ℕ
slots_of L s n q end ptr = q ∷ pages_of L (slot_load q s) 0 end n 0 ptr

-- The outcome `q` and `t` of writing an index slot and its pages.
pub record IndexFilled (L : Layout) (g : Bytes) (n end ptr : ℕ) (touched : List ℕ) (s : Sys) (q : ℕ)
    (t : Sys) : Type 0 where
  pub holds : PagesHold L t g (slot_load q t) 0 end n 0 ptr
  pub own : Owned t (slots_of L t n q end ptr)
  pub stays : Stays touched s t
  pub avoids :
      (a : ℕ)
      → a < slot_limit
      → is_free s.disk a ≡ false
      → a ∉ touched
      → a ∉ slots_of L t n q end ptr

module _ (L : Layout) (g : Bytes) (n end ptr : ℕ) where
  -- The index slot is written behind its pages.
  pub IndexFilled-slot_dump :
      (T : List ℕ) (ids₀ ids : Bytes) (s s₁ : Sys) (q : ℕ)
      → n ≤ 64
      → q < slot_limit
      → is_free s.disk q ≡ false
      → q ∉ T
      → PagesFilled L g end 0 n 0 ptr T ids₀ s ids s₁
      → IndexFilled L g n end ptr (q ∷ T) s q (slot_dump q ids s₁)
  IndexFilled-slot_dump T ids₀ ids s s₁ q room small used out filled =
      let t : Sys = slot_dump q ids s₁ in
      let pages : List ℕ = pages_of L ids 0 end n 0 ptr in
      let out' : q ∉ pages = filled.avoids q small used out in
      let dumped = Stays-slot_dump q ids s₁ small in
      let apart : ((m : ℕ) → has m pages ≡ true → m ∉ (q ∷ [])) =
        λ m h. rw (==-false m q (ne_of_mem m q pages h out')) in
      let own : Owned t pages = Owned-Stays (q ∷ []) pages s₁ t apart dumped filled.own in
      let holds : PagesHold L t g ids 0 end n 0 ptr =
        PagesHold-same L s₁ t g ids 0 end n 0 ptr
          (λ m h. slot_load-slot_dump_ne m q ids s₁ (ne_of_mem m q pages h out')) filled.holds in
      let cong : ((j : ℕ)
          → 0 ≤ j
          → j < 0 + n
          → get_u16 (object ids 128) (0 + 2 * j) ≡ get_u16 ids (0 + 2 * j)) =
        λ j a b. get_u16-object ids 128 (0 + 2 * j) (omega arith) in
      let loaded = slot_load-slot_dump q ids s₁ in
      let same : pages_of L (slot_load q t) 0 end n 0 ptr ≡ pages =
        ap (λ (b : Bytes). pages_of L b 0 end n 0 ptr) loaded
        ∙ pages_of-cong L ids (object ids 128) 0 end n 0 ptr cong in
      record {
        holds = rw loaded (PagesHold-cong L t g ids (object ids 128) 0 end n 0 ptr cong holds);
        own =
            subst (λ (xs : List ℕ). Owned t (q ∷ xs)) (sym same)
              (
                out',
                small,
                is_free-slot_dump q ids s₁ q small ∙ (filled.stays.slots q small used out).1,
                own,
              );
        stays =
            Stays-trans (q ∷ T) T (q ∷ []) s s₁ t (λ m o. (ground arith, ground arith)) filled.stays
              dumped;
        avoids = λ a la ua oa.
            let away : a ∉ pages = filled.avoids a la ua (ground arith) in
            subst (λ (xs : List ℕ). a ∉ (q ∷ xs)) (sym same) (ground arith);
      }

  -- The slot was free before.
  pub IndexFilled-Taken :
      (s s₁ t : Sys) (q : ℕ)
      → Taken s q s₁
      → IndexFilled L g n end ptr (q ∷ []) s₁ q t
      → IndexFilled L g n end ptr [] s q t
  IndexFilled-Taken s s₁ t q taken filled =
      let other : ((m : ℕ) → is_free s.disk m ≡ false → m ∉ (q ∷ [])) =
        λ m used. rw (==-false m q (ne_of_free s.disk m q used taken.least.free)) in
      record {
        holds = filled.holds;
        own = filled.own;
        stays = record {
          slots = λ m lt used out.
              let (same, used') = (Stays-Taken taken).slots m lt used refl in
              let (same', used'') = filled.stays.slots m lt used' (other m used) in
              (same' ∙ same, used'');
          beyond = λ k above. filled.stays.beyond k above ∙ (Stays-Taken taken).beyond k above;
        };
        avoids = λ a lt used out.
            filled.avoids a lt ((Stays-Taken taken).slots a lt used refl).1 (other a used);
      }

module _ (L : Layout) (buf : Bytes) (new old i ptr : ℕ) (node : Bytes) (s : Sys) where
  -- The result of a round of the loop over the index slots: the slot at place `i`.
  abbrev pub Result : Edit → Type 0
  Result (node', t) =
      let q = get_u16 node (indexes_at + 2 * i) in
      IndexFilled L buf pages_per_index new ptr
        (if ltb ptr old then slots_of L s pages_per_index q old ptr else []) s
        (get_u16 node' (indexes_at + 2 * i)) t
      × SameOutside (indexes_at + 2 * i) (indexes_at + 2 * i + 2) node node'

  -- The steps of `set_index` by case.
  pub set_index-created :
      ptr < new
      → old ≤ ptr
      → let (n, s₁) = free_inode_pop s in
        let (ids, s₂) = fill_pages L buf new old true pages_per_index 0 ptr (zeros, s₁) in
        let node' = put_u16 node (indexes_at + 2 * i) n in
        set_index L buf new old i ptr (node, s)
        ≡ (node', slot_dump (get_u16 node' (indexes_at + 2 * i)) ids s₂)
  unfolding set_index
  set_index-created lt behind = rw (leb-false new ptr lt, leb-true old ptr behind)

  pub set_index-extended :
      ptr < new
      → ptr < old
      → let q = get_u16 node (indexes_at + 2 * i) in
        let (ids, t) = fill_pages L buf new old false pages_per_index 0 ptr (slot_load q s, s) in
        set_index L buf new old i ptr (node, s) ≡ (node, slot_dump q ids t)
  unfolding set_index
  set_index-extended lt before = rw (leb-false new ptr lt, leb-false old ptr before)

  pub created-Result :
      ptr < new
      → old ≤ ptr
      → (set_index L buf new old i ptr (node, s)).1.errno ≡ pos 0
      → Result (set_index L buf new old i ptr (node, s))
  created-Result lt behind e =
      let here : ℕ = indexes_at + 2 * i in
      let step = set_index-created lt behind in
      let n : ℕ = (free_inode_pop s).0 in
      let s₁ : Sys = (free_inode_pop s).1 in
      let ids : Bytes = (fill_pages L buf new old true pages_per_index 0 ptr (zeros, s₁)).0 in
      let s₂ : Sys = (fill_pages L buf new old true pages_per_index 0 ptr (zeros, s₁)).1 in
      let e₂ : s₂.errno ≡ pos 0 =
        sym (errno-slot_dump _ ids s₂) ∙ ap (λ (x : Edit). x.1.errno) (sym step) ∙ e in
      let e₁ = fill_pages-errno L buf new old true pages_per_index 0 ptr (zeros, s₁) e₂ in
      let taken = Taken-of-errno s e₁ in
      let none' = pages_of-nil L zeros 0 old pages_per_index 0 ptr behind in
      let filled =
        fill_pages-PagesFilled L buf new old true pages_per_index 0 ptr zeros s₁ (λ _. behind)
          (rw none' tt) e₂ in
      let filled' : PagesFilled L buf new 0 pages_per_index 0 ptr [] zeros s₁ ids s₂ =
        subst (λ (T : List ℕ). PagesFilled L buf new 0 pages_per_index 0 ptr T zeros s₁ ids s₂)
          none' filled in
      let small : n < slot_limit = omega (arith, taken.least.lt) in
      let got : get_u16 (put_u16 node here n) here ≡ n =
        get_u16-put_u16 node here n (omega (arith, taken.least.lt)) in
      rw (step, ltb-false ptr old behind, got)
        (
          IndexFilled-Taken L buf pages_per_index new ptr s s₁ _ n taken (
              IndexFilled-slot_dump L buf pages_per_index new ptr [] zeros ids s₁ s₂ n
                pages_per_index-le small (ground (arith, taken.free n)) refl filled'),
          same-put_u16 node here n,
        )

  pub extended-Result :
      ptr < new
      → ptr < old
      → Owned s (slots_of L s pages_per_index (get_u16 node (indexes_at + 2 * i)) old ptr)
      → (set_index L buf new old i ptr (node, s)).1.errno ≡ pos 0
      → Result (set_index L buf new old i ptr (node, s))
  extended-Result lt before own e =
      let q : ℕ = get_u16 node (indexes_at + 2 * i) in
      let step = set_index-extended lt before in
      let ids : Bytes =
        (fill_pages L buf new old false pages_per_index 0 ptr (slot_load q s, s)).0 in
      let t : Sys = (fill_pages L buf new old false pages_per_index 0 ptr (slot_load q s, s)).1 in
      let e₁ : t.errno ≡ pos 0 =
        sym (errno-slot_dump q ids t) ∙ ap (λ (x : Edit). x.1.errno) (sym step) ∙ e in
      let filled =
        fill_pages-PagesFilled L buf new old false pages_per_index 0 ptr (slot_load q s) s
          (λ h. absurd (false≢true h)) own.3 e₁ in
      rw (step, ltb-true ptr old before)
        (
          IndexFilled-slot_dump L buf pages_per_index new ptr _ (slot_load q s) ids s t q
              pages_per_index-le own.1 own.2 own.0 filled,
          λ x out. refl,
        )

  -- The round reports no error only if none was raised before.
  pub set_index-errno :
      ptr < new → (set_index L buf new old i ptr (node, s)).1.errno ≡ pos 0 → s.errno ≡ pos 0
  set_index-errno lt e = elim (dec_lt ptr old) [
    | yes before ↦
        (let e₁ = ap (λ (x : Edit). x.1.errno) (sym (set_index-extended lt before)) ∙ e in
          fill_pages-errno L buf new old false pages_per_index 0 ptr _
            (sym (errno-slot_dump _ _ _) ∙ e₁))
    | no behind ↦
        (let e₁ = ap (λ (x : Edit). x.1.errno) (sym (set_index-created lt (omega arith))) ∙ e in
          let e₂ =
            fill_pages-errno L buf new old true pages_per_index 0 ptr _
              (sym (errno-slot_dump _ _ _) ∙ e₁) in
          sym (Taken-of-errno s e₂).errno ∙ e₂)
  ]
