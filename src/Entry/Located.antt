-- ===== src/Entry/Located.antt =====
-- Where the list of an inode has one of its entries.
use os_fuse.Base.{
  ℕ, zero, suc, ◌+◌, ◌*◌, ◌-◌, ◌/◌, ◌%◌, ◌<◌, ◌≤◌, ◌≡◌, refl, ap, ◌∙◌, arith, leb-true, leb-false,
  ltb-true,
}
use mathlib.Core.Path.{subst}
use native.Mathlib.Nat.{mul-le-mul_right}
use os_fuse.Memory.{Bytes, at, get_u16, object}
use os_fuse.State.{Sys}
use os_fuse.Inode.{slot_load, direct_at, pages_at, indexes_at}
use os_fuse.Listing.{Layout, pages_per_inode, pages_per_index}
use os_fuse.Listing.Frame.{SlotHolds}
use os_fuse.Listing.Pages.{PagesHold}
use os_fuse.Entry.{locate, entry_get}

module _ (L : Layout) (s : Sys) (g : Bytes) where
  SlotHolds-at :
      (p q o u : ℕ)
      → p ≡ q
      → o ≡ u
      → SlotHolds s p g (o * L.entry_size)
      → SlotHolds s q g (u * L.entry_size)
  SlotHolds-at p q o u e e' hold =
      subst (λ (z : ℕ). SlotHolds s z g (u * L.entry_size)) e
        (subst (λ (z : ℕ). SlotHolds s p g (z * L.entry_size)) e' hold)

  -- One of the pages that hold a list.
  pub PagesHold-nth :
      (ids : Bytes) (base end k i ptr j : ℕ)
      → j < k
      → ptr + j * L.per_page < end
      → PagesHold L s g ids base end k i ptr
      → SlotHolds s (get_u16 ids (base + 2 * (i + j))) g ((ptr + j * L.per_page) * L.entry_size)
  PagesHold-nth ids base end zero i ptr j lt inside hold = absurd (omega arith)
  PagesHold-nth ids base end (suc k) i ptr zero lt inside hold =
      SlotHolds-at (get_u16 ids (base + 2 * i)) _ ptr _
        (ap (λ (z : ℕ). get_u16 ids (base + 2 * z)) (omega arith)) (omega arith)
        (hold.0 (omega arith))
  PagesHold-nth ids base end (suc k) i ptr (suc j) lt inside hold =
      let step : ptr + L.per_page + j * L.per_page ≡ ptr + suc j * L.per_page = grind arith in
      let next : i + 1 + j ≡ i + suc j = omega arith in
      SlotHolds-at (get_u16 ids (base + 2 * (i + 1 + j))) _ (ptr + L.per_page + j * L.per_page) _
        (ap (λ (z : ℕ). get_u16 ids (base + 2 * z)) next) step
        (PagesHold-nth ids base end k (i + 1) (ptr + L.per_page) j (omega arith)
          (omega (arith, step, inside)) hold.1)

  module _ (inum k : ℕ) where
    pub locate-direct : k < L.direct → locate L inum k s ≡ (inum, direct_at + k * L.entry_size)
    unfolding locate
    locate-direct lt =
        rw (leb-false (L.direct + 4 * L.per_page) k (omega arith), leb-false L.direct k lt) refl

    pub locate-page :
        L.direct ≤ k
        → k < L.direct + 4 * L.per_page
        → locate L inum k s ≡ (
          get_u16 (slot_load inum s) (pages_at + 2 * ((k - L.direct) / L.per_page)),
          (k - L.direct) % L.per_page * L.entry_size,
        )
    unfolding locate
    locate-page le lt = rw (leb-false (L.direct + 4 * L.per_page) k lt, leb-true L.direct k le) refl

    pub locate-index :
        L.direct + 4 * L.per_page ≤ k
        → k < L.direct + 4 * L.per_page + 64
        → let lv2 = k - L.direct - 4 * L.per_page in
          let ids = slot_load (get_u16 (slot_load inum s) (indexes_at + 0)) s in
          locate L inum k s
          ≡ (get_u16 ids (2 * (lv2 / L.per_page)), lv2 % L.per_page * L.entry_size)
    unfolding locate
    locate-index le lt =
        let zeroth : (k - L.direct - 4 * L.per_page) / 64 ≡ 0 = omega arith in
        let first : (k - L.direct - 4 * L.per_page) / 64 * L.per_page ≡ 0 =
          rw zeroth (omega arith) in
        rw (leb-true (L.direct + 4 * L.per_page) k le, first) refl

  -- An entry of a page.
  pub page_entry :
      (p r o k x : ℕ)
      → L.per_page * L.entry_size ≡ 128
      → SlotHolds s p g (o * L.entry_size)
      → r < L.per_page
      → k ≡ o + r
      → x < L.entry_size
      → object (at (slot_load p s) (r * L.entry_size)) L.entry_size x ≡ g (k * L.entry_size + x)
  unfolding object
  page_entry p r o k x whole hold lt e small =
      let room : r * L.entry_size + L.entry_size ≤ 128 =
        (let below : (r + 1) * L.entry_size ≤ L.per_page * L.entry_size =
            mul-le-mul_right L.entry_size (omega arith) in
          omega (arith, below, whole)) in
      let place : o * L.entry_size + (r * L.entry_size + x) ≡ k * L.entry_size + x =
        rw e (omega arith) in
      rw (ltb-true x L.entry_size small)
        (hold (r * L.entry_size + x) (omega (arith, room)) ∙ ap g place)

pub four : pages_per_inode ≡ 4
unfolding pages_per_inode
four = refl

pub sixty_four : pages_per_index ≡ 64
unfolding pages_per_index
sixty_four = refl

pub entry_get-locate :
    (L : Layout) (inum k p place : ℕ) (s : Sys)
    → locate L inum k s ≡ (p, place)
    → entry_get L inum k s ≡ object (at (slot_load p s) place) L.entry_size
unfolding entry_get
entry_get-locate L inum k p place s e =
    ap (λ (r : ℕ × ℕ). object (at (slot_load r.0 s) r.1) L.entry_size) e

pub object-in : (b : Bytes) (n x : ℕ) → x < n → object b n x ≡ b x
unfolding object
object-in b n x lt = rw (ltb-true x n lt) refl
