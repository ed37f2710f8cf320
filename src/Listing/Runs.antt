-- ===== src/Listing/Runs.antt =====
-- The loops `fill_pages` over the pages of an index slot, and the round that it shares with the
-- loop `set_pages` over those of the inode: the pages hold the array, and nothing else in use has
-- changed.
use os_fuse.Base.{
  ℕ, zero, suc, ◌+◌, ◌*◌, ◌<◌, ◌≤◌, ◌≡◌, refl, sym, ap, ◌∙◌, arith, Bool, true, false, ◌||◌, ltb,
  leb, ==-false, ltb-true, ltb-false, leb-true, leb-false, if◌then◌else◌, pos, List, [], ◌∷◌, has,
  ◌∉◌,
}
use native.Mathlib.Decide.{dec_lt, ℕ_discrete}
use os_fuse.Memory.{Bytes, get_u16}
use os_fuse.State.{Sys}
use os_fuse.Listing.{Layout, Edit, fill_page, fill_pages}
use os_fuse.Listing.Frame.{Owned, Owned-Stays, Stays-refl}
use os_fuse.Listing.Fill.{fill_page-old, fill_page-new, fill_page-errno}
use os_fuse.Listing.Pages.{
  pages_of, pages_of-nil, PagesFilled, PagesFilled-none, PagesFilled-nil, PagesFilled-cons,
}

-- One round of either loop: the page at `ptr`, then what the rest of the loop makes of it.
module _ (L : Layout) (buf : Bytes) (new old base k i ptr : ℕ) (ids : Bytes) (s : Sys)
    (ids₂ : Bytes) (s₂ : Sys) where
  abbrev Round : (fresh : Bool) → Type 0
  Round fresh =
      let (ids₁, s₁) = fill_page L buf new old fresh base i ptr (ids, s) in
      (Owned s₁ (pages_of L ids₁ base old k (i + 1) (ptr + L.per_page))
        → PagesFilled L buf new base k (i + 1) (ptr + L.per_page)
            (pages_of L ids₁ base old k (i + 1) (ptr + L.per_page)) ids₁ s₁ ids₂ s₂)
      → PagesFilled L buf new base (suc k) i ptr (pages_of L ids base old (suc k) i ptr) ids s ids₂
          s₂

  pub Round-old :
      ptr < new → ptr < old → Owned s (pages_of L ids base old (suc k) i ptr) → Round false
  unfolding fill_page
  Round-old lt before own rest =
      let p : ℕ = get_u16 ids (base + 2 * i) in
      let later : List ℕ = pages_of L ids base old k (i + 1) (ptr + L.per_page) in
      let old' : (pages_of L ids base old (suc k) i ptr ≡ p ∷ later) =
        rw (ltb-true ptr old before) in
      let own' : Owned s (p ∷ later) = rw old' at own in
      let (one, same) = fill_page-old L buf new old base i ptr ids s own'.1 own'.2 in
      let s₁ : Sys = (fill_page L buf new old false base i ptr (ids, s)).1 in
      let apart : ((m : ℕ) → has m later ≡ true → m ∉ (p ∷ [])) = λ m h. elim (ℕ_discrete m p) [
        | yes same ↦ cc (own'.0, h, ap (λ (q : ℕ). has q later) same)
        | no ne ↦ rw (==-false m p ne)
      ] in
      rw old' (
        PagesFilled-cons L buf new base k i ptr (p ∷ later) (p ∷ []) later ids ids ids₂ s s₁ s₂ lt
          (λ m out. (ground arith, ground arith)) own'.0 one
          (rest (Owned-Stays (p ∷ []) later s s₁ apart one.stays own'.3)))

  pub Round-new :
      ptr < new
      → old ≤ ptr
      → (fill_page L buf new old true base i ptr (ids, s)).1.errno ≡ pos 0
      → Round true
  Round-new lt behind e rest =
      let ids₁ : Bytes = (fill_page L buf new old true base i ptr (ids, s)).0 in
      let s₁ : Sys = (fill_page L buf new old true base i ptr (ids, s)).1 in
      let none₀ = pages_of-nil L ids base old (suc k) i ptr behind in
      let none₁ = pages_of-nil L ids₁ base old k (i + 1) (ptr + L.per_page) (omega arith) in
      PagesFilled-cons L buf new base k i ptr _ [] _ ids ids₁ ids₂ s s₁ s₂ lt
        (λ m out. (refl, rw none₁ refl)) (rw none₁ refl)
        (fill_page-new L buf new old base i ptr ids s e) (rest (rw none₁ tt))

module _ (L : Layout) (buf : Bytes) (new old : ℕ) where
  pub fill_pages-errno :
      (fresh : Bool) (k j ptr : ℕ) (e : Edit)
      → (fill_pages L buf new old fresh k j ptr e).1.errno ≡ pos 0
      → e.1.errno ≡ pos 0
  unfolding fill_pages
  fill_pages-errno fresh zero j ptr e h = h
  fill_pages-errno fresh (suc k) j ptr e h =
      step (ltb ptr new) (fill_pages-errno fresh k (j + 1) (ptr + L.per_page) _ h)
    where
      step :
          (b : Bool)
          → (if b then fill_page L buf new old (fresh || leb old ptr) 0 j ptr e else e).1.errno
            ≡ pos 0
          → e.1.errno ≡ pos 0
      step true g = fill_page-errno L buf new old 0 j ptr e.0 e.1 (fresh || leb old ptr) g
      step false g = g

  pub fill_pages-idle :
      (fresh : Bool) (k j ptr : ℕ) (e : Edit)
      → new ≤ ptr
      → fill_pages L buf new old fresh k j ptr e ≡ e
  unfolding fill_pages
  fill_pages-idle fresh zero j ptr e le = refl
  fill_pages-idle fresh (suc k) j ptr e le =
      rw (ltb-false ptr new le) (fill_pages-idle fresh k (j + 1) (ptr + L.per_page) e (omega arith))

  pub fill_pages-zero :
      (fresh : Bool) (j ptr : ℕ) (e : Edit) → fill_pages L buf new old fresh zero j ptr e ≡ e
  unfolding fill_pages
  fill_pages-zero fresh j ptr e = refl

  pub fill_pages-old :
      (fresh : Bool) (k j ptr : ℕ) (e : Edit)
      → (fresh ≡ true → old ≤ ptr)
      → ptr < new
      → ptr < old
      → fill_pages L buf new old fresh (suc k) j ptr e
        ≡ fill_pages L buf new old fresh k
            (j + 1)
            (ptr + L.per_page)
            (fill_page L buf new old false 0 j ptr e)
  unfolding fill_pages
  fill_pages-old true k j ptr e made lt before =
      let behind : old ≤ ptr = made refl in absurd (omega arith)
  fill_pages-old false k j ptr e made lt before = rw (ltb-true ptr new lt, leb-false old ptr before)

  pub fill_pages-new :
      (fresh : Bool) (k j ptr : ℕ) (e : Edit)
      → ptr < new
      → old ≤ ptr
      → fill_pages L buf new old fresh (suc k) j ptr e
        ≡ fill_pages L buf new old fresh k
            (j + 1)
            (ptr + L.per_page)
            (fill_page L buf new old true 0 j ptr e)
  unfolding fill_pages
  fill_pages-new true k j ptr e lt behind = rw (ltb-true ptr new lt)
  fill_pages-new false k j ptr e lt behind = rw (ltb-true ptr new lt, leb-true old ptr behind)

  pub fill_pages-PagesFilled :
      (fresh : Bool) (k j ptr : ℕ) (ids : Bytes) (s : Sys)
      → (fresh ≡ true → old ≤ ptr)
      → Owned s (pages_of L ids 0 old k j ptr)
      → (fill_pages L buf new old fresh k j ptr (ids, s)).1.errno ≡ pos 0
      → let (ids', t) = fill_pages L buf new old fresh k j ptr (ids, s) in
        PagesFilled L buf new 0 k j ptr (pages_of L ids 0 old k j ptr) ids s ids' t
  fill_pages-PagesFilled fresh zero j ptr ids s made own e =
      rw (fill_pages-zero fresh j ptr (ids, s)) (PagesFilled-none L buf new 0 j ptr ids s)
  fill_pages-PagesFilled fresh (suc k) j ptr ids s made own e = elim (dec_lt ptr new) [
    | no ge ↦
        rw (fill_pages-idle fresh (suc k) j ptr (ids, s) (omega arith))
          (PagesFilled-nil L buf new 0 (suc k) j ptr _ ids s s (omega arith) (Stays-refl _ s))
    | yes lt ↦ elim (dec_lt ptr old) [
      | yes before ↦
          (let next : Edit = fill_page L buf new old false 0 j ptr (ids, s) in
            let step = fill_pages-old fresh k j ptr (ids, s) made lt before in
            let e₁ : ((fill_pages L buf new old fresh k (j + 1) (ptr + L.per_page) next).1.errno
                ≡ pos 0) =
              ap (λ (x : Edit). x.1.errno) (sym step) ∙ e in
            rw step (
              Round-old L buf new old 0 k j ptr ids s _ _ lt before own (λ own₁.
                fill_pages-PagesFilled fresh k (j + 1) (ptr + L.per_page) next.0 next.1
                  (λ h. omega (arith, made h)) own₁ e₁)))
      | no behind ↦
          (let next : Edit = fill_page L buf new old true 0 j ptr (ids, s) in
            let step = fill_pages-new fresh k j ptr (ids, s) lt (omega arith) in
            let e₁ : ((fill_pages L buf new old fresh k (j + 1) (ptr + L.per_page) next).1.errno
                ≡ pos 0) =
              ap (λ (x : Edit). x.1.errno) (sym step) ∙ e in
            rw step (
              Round-new L buf new old 0 k j ptr ids s _ _ lt (omega arith)
                (fill_pages-errno fresh k (j + 1) (ptr + L.per_page) next e₁)
                (λ own₁.
                  fill_pages-PagesFilled fresh k (j + 1) (ptr + L.per_page) next.0 next.1
                    (λ h. omega arith) own₁ e₁)))
    ]
  ]
