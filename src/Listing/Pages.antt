-- ===== src/Listing/Pages.antt =====
-- A run of pages: the slots that hold them, what they hold, and how the writing of the first page
-- and that of the rest combine.
use os_fuse.Base.{
  ℕ, zero, suc, ◌+◌, ◌*◌, ◌<◌, ◌≤◌, ◌≡◌, refl, ◌∙◌, arith, true, false, ltb, ==-false, ltb-true,
  ltb-false, if◌then◌else◌, List, [], ◌∷◌, has, ◌∉◌,
}
use native.Mathlib.Decide.{dec_lt}
use os_fuse.Memory.{Bytes, get_u16}
use os_fuse.Memory.Fields.{get_u16-cong}
use os_fuse.State.{Sys}
use os_fuse.Inode.{slot_load}
use os_fuse.Bitmap.Laws.{is_free}
use os_fuse.Listing.{Layout}
use os_fuse.Listing.Frame.{Stays, Owned, SlotHolds, slot_limit, Stays-trans, Stays-refl}
use os_fuse.Listing.Fill.{SameOutside, Filled}

module _ (L : Layout) where
  -- The slots of the pages, of at most `rounds`, that begin before `end`.
  abbrev pub pages_of : (ids : Bytes) (base end rounds i ptr : ℕ) → List ℕ
  pages_of ids base end zero i ptr = []
  pages_of ids base end (suc k) i ptr =
      if ltb ptr end
      then get_u16 ids (base + 2 * i) ∷ pages_of ids base end k (i + 1) (ptr + L.per_page)
      else []

  -- These pages hold the bytes of the array `g`.
  abbrev pub PagesHold : (s : Sys) (g ids : Bytes) (base end rounds i ptr : ℕ) → Type 0
  PagesHold s g ids base end zero i ptr = Unit
  PagesHold s g ids base end (suc k) i ptr =
      (ptr < end → SlotHolds s (get_u16 ids (base + 2 * i)) g (ptr * L.entry_size))
      × PagesHold s g ids base end k (i + 1) (ptr + L.per_page)

  pub pages_of-nil :
      (ids : Bytes) (base end k i ptr : ℕ) → end ≤ ptr → pages_of ids base end k i ptr ≡ []
  pages_of-nil ids base end zero i ptr le = refl
  pages_of-nil ids base end (suc k) i ptr le = rw (ltb-false ptr end le)

  pub PagesHold-nil :
      (s : Sys) (g ids : Bytes) (base end k i ptr : ℕ)
      → end ≤ ptr
      → PagesHold s g ids base end k i ptr
  PagesHold-nil s g ids base end zero i ptr le = tt
  PagesHold-nil s g ids base end (suc k) i ptr le = (
    λ lt. absurd (omega arith),
    PagesHold-nil s g ids base end k (i + 1) (ptr + L.per_page) (omega arith),
  )

  -- The pages hold the same in any state that keeps their slots.
  pub PagesHold-same :
      (s t : Sys) (g ids : Bytes) (base end k i ptr : ℕ)
      → ((m : ℕ) → has m (pages_of ids base end k i ptr) ≡ true → slot_load m t ≡ slot_load m s)
      → PagesHold s g ids base end k i ptr
      → PagesHold t g ids base end k i ptr
  PagesHold-same s t g ids base end zero i ptr same hold = tt
  PagesHold-same s t g ids base end (suc k) i ptr same hold = elim (dec_lt ptr end) [
    | no ge ↦ (
      λ lt. absurd (ge lt),
      PagesHold-nil t g ids base end k (i + 1) (ptr + L.per_page) (omega arith),
    )
    | yes lt ↦
        (let p : ℕ = get_u16 ids (base + 2 * i) in
          let rest : List ℕ = pages_of ids base end k (i + 1) (ptr + L.per_page) in
          let same' : ((m : ℕ) → has m (p ∷ rest) ≡ true → slot_load m t ≡ slot_load m s) =
            λ m h. same m (rw (ltb-true ptr end lt) h) in
          (
            λ _ y ly. rw (same' p (ground arith)) (hold.0 lt y ly),
            PagesHold-same s t g ids base end k (i + 1) (ptr + L.per_page)
                (λ m h. same' m (ground arith)) hold.1,
          ))
  ]

  -- The slots and their contents depend on the numbers alone.
  pub pages_of-cong :
      (ids ids' : Bytes) (base end k i ptr : ℕ)
      → ((j : ℕ) → i ≤ j → j < i + k → get_u16 ids' (base + 2 * j) ≡ get_u16 ids (base + 2 * j))
      → pages_of ids' base end k i ptr ≡ pages_of ids base end k i ptr
  pages_of-cong ids ids' base end zero i ptr same = refl
  pages_of-cong ids ids' base end (suc k) i ptr same = rw (
    same i (omega arith) (omega arith),
    pages_of-cong ids ids' base end k (i + 1) (ptr + L.per_page)
        (λ j a b. same j (omega arith) (omega arith)),
  )

  pub PagesHold-cong :
      (s : Sys) (g ids ids' : Bytes) (base end k i ptr : ℕ)
      → ((j : ℕ) → i ≤ j → j < i + k → get_u16 ids' (base + 2 * j) ≡ get_u16 ids (base + 2 * j))
      → PagesHold s g ids base end k i ptr
      → PagesHold s g ids' base end k i ptr
  PagesHold-cong s g ids ids' base end zero i ptr same hold = tt
  PagesHold-cong s g ids ids' base end (suc k) i ptr same hold = (
    rw (same i (omega arith) (omega arith)) hold.0,
    PagesHold-cong s g ids ids' base end k (i + 1) (ptr + L.per_page)
        (λ j a b. same j (omega arith) (omega arith)) hold.1,
  )

-- The outcome `ids'` and `t` of writing a run of pages: the slots that the run now owns, what they
-- hold, and that nothing in use but the old pages `touched` has changed.
pub record PagesFilled (L : Layout) (g : Bytes) (end base k i ptr : ℕ) (touched : List ℕ)
    (ids : Bytes) (s : Sys) (ids' : Bytes) (t : Sys) : Type 0 where
  pub holds : PagesHold L t g ids' base end k i ptr
  pub own : Owned t (pages_of L ids' base end k i ptr)
  pub stays : Stays touched s t
  pub avoids :
      (a : ℕ)
      → a < slot_limit
      → is_free s.disk a ≡ false
      → a ∉ touched
      → a ∉ pages_of L ids' base end k i ptr
  pub same : SameOutside (base + 2 * i) (base + 2 * (i + k)) ids ids'

-- No rounds.
pub PagesFilled-none :
    (L : Layout) (g : Bytes) (end base i ptr : ℕ) (ids : Bytes) (s : Sys)
    → PagesFilled L g end base zero i ptr [] ids s ids s
PagesFilled-none L g end base i ptr ids s = record {
  holds = tt;
  own = tt;
  stays = Stays-refl [] s;
  avoids = λ a lt u out. refl;
  same = λ x out. refl;
}

module _ (L : Layout) (g : Bytes) (end base k i ptr : ℕ) where
  -- The rest is behind the end.
  pub PagesFilled-nil :
      (touched : List ℕ) (ids : Bytes) (s t : Sys)
      → end ≤ ptr
      → Stays touched s t
      → PagesFilled L g end base k i ptr touched ids s ids t
  PagesFilled-nil touched ids s t le stays =
      let none' = pages_of-nil L ids base end k i ptr le in
      record {
        holds = PagesHold-nil L t g ids base end k i ptr le;
        own = rw none' tt;
        stays = stays;
        avoids = λ a lt u out. rw none';
        same = λ x out. refl;
      }

  -- One page, then the rest.
  pub PagesFilled-cons :
      (T T₀ T₁ : List ℕ) (ids ids₁ ids₂ : Bytes) (s s₁ s₂ : Sys)
      → ptr < end
      → ((m : ℕ) → m ∉ T → (m ∉ T₀) × (m ∉ T₁))
      → get_u16 ids₁ (base + 2 * i) ∉ T₁
      → Filled g (ptr * L.entry_size) (base + 2 * i) T₀ ids s ids₁ s₁
      → PagesFilled L g end base k (i + 1) (ptr + L.per_page) T₁ ids₁ s₁ ids₂ s₂
      → PagesFilled L g end base (suc k) i ptr T ids s ids₂ s₂
  PagesFilled-cons T T₀ T₁ ids ids₁ ids₂ s s₁ s₂ lt parts out one rest =
      let p = get_u16 ids₁ (base + 2 * i) in
      let keep : get_u16 ids₂ (base + 2 * i) ≡ p =
        get_u16-cong ids₂ ids₁ (base + 2 * i) (rest.same _ (omega arith))
          (rest.same _ (omega arith)) in
      let (slot, used) = rest.stays.slots p one.small one.used out in
      let first = ltb-true ptr end lt in
      record {
        holds = (λ _. rw (keep, slot) one.holds, rest.holds);
        own = rw (first, keep) (rest.avoids p one.small one.used out, one.small, used, rest.own);
        stays = Stays-trans T T₀ T₁ s s₁ s₂ parts one.stays rest.stays;
        avoids = λ a la ua oa.
            let (out₀, out₁) = parts a oa in
            let (_, ua') = one.stays.slots a la ua out₀ in
            rw (first, keep, ==-false a p (one.avoids a ua out₀)) (rest.avoids a la ua' out₁);
        same = λ x o. rest.same x (omega arith) ∙ one.same x (omega arith);
      }
