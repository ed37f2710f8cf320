-- ===== src/Listing/Supply.antt =====
-- The inodes that a list takes from the bitmap as it grows, and that enough free inodes mean no
-- error: the pages of the inode and those of an index slot.
use os_fuse.Base.{
  ℕ, zero, suc, ◌+◌, ◌*◌, ◌<◌, ◌≤◌, ◌≡◌, refl, ap, ◌∙◌, sym, arith, Bool, true, false, ◌&&◌, ltb,
  leb, ltb-true, leb-true, leb-false, ==-false, if◌then◌else◌, List, [], ◌∷◌, has, ◌∉◌,
}
use mathlib.Core.Path.{subst}
use native.Mathlib.Decide.{dec_lt, ℕ_discrete}
use os_fuse.Memory.{Bytes, at, get_u16, put_u16}
use os_fuse.Memory.Fields.{get_u16-put_u16}
use os_fuse.State.{Sys}
use os_fuse.Bitmap.{free_inode_pop}
use os_fuse.Bitmap.Count.{free_inodes, count_free-same, free_inode_pop-Taken}
use os_fuse.Inode.{slot_dump, pages_at}
use os_fuse.Listing.{Layout, Edit, fill_page, fill_pages, set_pages}
use os_fuse.Listing.Frame.{Owned, Owned-Stays, slot_limit, is_free-slot_dump, errno-slot_dump}
use os_fuse.Listing.Fill.{fill_page-old}
use os_fuse.Listing.Pages.{pages_of, pages_of-nil}
use os_fuse.Listing.Runs.{fill_pages-zero, fill_pages-idle, fill_pages-old, fill_pages-new}
use os_fuse.Listing.InodePages.{set_pages-zero, set_pages-idle, set_pages-grow}

-- From `s` to `t` exactly `c` inodes were taken, and no error was raised.
pub record Spent (c : ℕ) (s t : Sys) : Type 0 where
  pub errno : t.errno ≡ s.errno
  pub count : free_inodes t.disk + c ≡ free_inodes s.disk

pub Spent-none : (s : Sys) → Spent 0 s s
Spent-none s = record { errno = refl; count = omega arith }

pub Spent-trans : (a b c : ℕ) (s t u : Sys) → Spent a s t → Spent b t u → c ≡ a + b → Spent c s u
Spent-trans a b c s t u one two e = record {
  errno = two.errno ∙ one.errno;
  count = omega (arith, one.count, two.count);
}

pub Spent-slot_dump : (n : ℕ) (b : Bytes) (s : Sys) → n < slot_limit → Spent 0 s (slot_dump n b s)
Spent-slot_dump n b s lt =
    let same =
      count_free-same s.disk (slot_dump n b s).disk 1024 (λ m. is_free-slot_dump n b s m lt) in
    record { errno = errno-slot_dump n b s; count = omega (arith, same) }

pub Spent-free_inode_pop :
    (s : Sys)
    → 0 < free_inodes s.disk
    → Spent 1 s (free_inode_pop s).1 × ((free_inode_pop s).0 < slot_limit)
Spent-free_inode_pop s some_free =
    let (taken, count) = free_inode_pop-Taken s some_free in
    (record { errno = taken.errno; count = count }, omega (arith, taken.least.lt))

-- The number of rounds, of `k` rounds of a loop over pages from entry `ptr` on, whose page is new
-- when a list of `old` entries gets `new`.
unfoldable pub new_pages : (L : Layout) (new old k ptr : ℕ) → ℕ
new_pages L new old zero ptr = 0
new_pages L new old (suc k) ptr =
    (if leb old ptr && ltb ptr new then 1 else 0) + new_pages L new old k (ptr + L.per_page)

module _ (L : Layout) (buf : Bytes) (new old : ℕ) where
  new_pages-zero : (ptr : ℕ) → new_pages L new old zero ptr ≡ 0
  unfolding new_pages
  new_pages-zero ptr = refl

  pub new_pages-idle : (k ptr : ℕ) → new ≤ ptr → new_pages L new old k ptr ≡ 0
  unfolding new_pages
  new_pages-idle zero ptr ge = refl
  new_pages-idle (suc k) ptr ge =
      let rest = new_pages-idle k (ptr + L.per_page) (omega arith) in ground (arith, rest)

  new_pages-old :
      (k ptr : ℕ)
      → ptr < old
      → new_pages L new old (suc k) ptr ≡ new_pages L new old k (ptr + L.per_page)
  unfolding new_pages
  new_pages-old k ptr before = rw (leb-false old ptr before) (omega arith)

  new_pages-new :
      (k ptr : ℕ)
      → old ≤ ptr
      → ptr < new
      → new_pages L new old (suc k) ptr ≡ 1 + new_pages L new old k (ptr + L.per_page)
  unfolding new_pages
  new_pages-new k ptr behind lt = rw (leb-true old ptr behind, ltb-true ptr new lt) refl

  -- One page.
  fill_page-Spent-old :
      (base i ptr : ℕ) (ids : Bytes) (s : Sys)
      → get_u16 ids (base + 2 * i) < slot_limit
      → Spent 0 s (fill_page L buf new old false base i ptr (ids, s)).1
  unfolding fill_page
  fill_page-Spent-old base i ptr ids s small =
      Spent-slot_dump (get_u16 ids (base + 2 * i)) (at buf (ptr * L.entry_size)) s small

  fill_page-Spent-new :
      (base i ptr : ℕ) (ids : Bytes) (s : Sys)
      → 0 < free_inodes s.disk
      → Spent 1 s (fill_page L buf new old true base i ptr (ids, s)).1
  unfolding fill_page
  fill_page-Spent-new base i ptr ids s some_free =
      let n : ℕ = (free_inode_pop s).0 in
      let t : Sys = (free_inode_pop s).1 in
      let (spent, small) = Spent-free_inode_pop s some_free in
      let o : ℕ = base + 2 * i in
      let got : get_u16 (put_u16 ids o n) o ≡ n = get_u16-put_u16 ids o n (omega arith) in
      Spent-trans 1 0 1 s t _ spent
        (Spent-slot_dump (get_u16 (put_u16 ids o n) o) (at buf (ptr * L.entry_size)) t
          (omega arith))
        refl

  -- The pages behind one that is written in place.
  pub later-Owned :
      (base k i ptr : ℕ) (ids : Bytes) (s : Sys)
      → ptr < old
      → Owned s (pages_of L ids base old (suc k) i ptr)
      → let (ids₁, s₁) = fill_page L buf new old false base i ptr (ids, s) in
        (get_u16 ids (base + 2 * i) < slot_limit)
        × Owned s₁ (pages_of L ids₁ base old k (i + 1) (ptr + L.per_page))
  later-Owned base k i ptr ids s before own =
      let p : ℕ = get_u16 ids (base + 2 * i) in
      let later : List ℕ = pages_of L ids base old k (i + 1) (ptr + L.per_page) in
      let old' : (pages_of L ids base old (suc k) i ptr ≡ p ∷ later) =
        rw (ltb-true ptr old before) in
      let own' : Owned s (p ∷ later) = subst (Owned s) old' own in
      let (one, same) = fill_page-old L buf new old base i ptr ids s own'.1 own'.2 in
      let s₁ : Sys = (fill_page L buf new old false base i ptr (ids, s)).1 in
      let apart : ((m : ℕ) → has m later ≡ true → m ∉ (p ∷ [])) = λ m h. elim (ℕ_discrete m p) [
        | yes same ↦ cc (own'.0, h, ap (λ (q : ℕ). has q later) same)
        | no ne ↦ rw (==-false m p ne)
      ] in
      (
        own'.1,
        subst (λ (b : Bytes). Owned s₁ (pages_of L b base old k (i + 1) (ptr + L.per_page)))
            (sym same) (Owned-Stays (p ∷ []) later s s₁ apart one.stays own'.3),
      )

  -- The loops over pages.
  pub fill_pages-Spent :
      (fresh : Bool) (k j ptr : ℕ) (ids : Bytes) (s : Sys)
      → (fresh ≡ true → old ≤ ptr)
      → Owned s (pages_of L ids 0 old k j ptr)
      → new_pages L new old k ptr ≤ free_inodes s.disk
      → Spent (new_pages L new old k ptr) s (fill_pages L buf new old fresh k j ptr (ids, s)).1
  fill_pages-Spent fresh zero j ptr ids s made own enough =
      rw (fill_pages-zero L buf new old fresh j ptr (ids, s), new_pages-zero ptr) (Spent-none s)
  fill_pages-Spent fresh (suc k) j ptr ids s made own enough = elim (dec_lt ptr new) [
    | no ge ↦
        rw
          (
            fill_pages-idle L buf new old fresh (suc k) j ptr (ids, s) (omega arith),
            new_pages-idle (suc k) ptr (omega arith),
          )
          (Spent-none s)
    | yes lt ↦ elim (dec_lt ptr old) [
      | yes before ↦
          (let next : Edit = fill_page L buf new old false 0 j ptr (ids, s) in
            let cost = new_pages-old k ptr before in
            let (small, own₁) = later-Owned 0 k j ptr ids s before own in
            let one = fill_page-Spent-old 0 j ptr ids s small in
            rw (fill_pages-old L buf new old fresh k j ptr (ids, s) made lt before) (
              Spent-trans 0 (new_pages L new old k (ptr + L.per_page)) _ s next.1 _ one
                (fill_pages-Spent fresh k (j + 1) (ptr + L.per_page) next.0 next.1
                  (λ h. omega (arith, made h)) own₁ (omega (arith, cost, one.count, enough)))
                (omega (arith, cost))))
      | no behind ↦
          (let next : Edit = fill_page L buf new old true 0 j ptr (ids, s) in
            let cost = new_pages-new k ptr (omega arith) lt in
            let one = fill_page-Spent-new 0 j ptr ids s (omega (arith, cost, enough)) in
            let none₁ = pages_of-nil L next.0 0 old k (j + 1) (ptr + L.per_page) (omega arith) in
            rw (fill_pages-new L buf new old fresh k j ptr (ids, s) lt (omega arith)) (
              Spent-trans 1 (new_pages L new old k (ptr + L.per_page)) _ s next.1 _ one
                (fill_pages-Spent fresh k (j + 1) (ptr + L.per_page) next.0 next.1
                  (λ h. omega arith) (subst (Owned next.1) (sym none₁) tt)
                  (omega (arith, cost, one.count, enough)))
                (omega (arith, cost))))
    ]
  ]

  pub set_pages-Spent :
      (k i ptr : ℕ) (ids : Bytes) (s : Sys)
      → old ≤ new
      → Owned s (pages_of L ids pages_at old k i ptr)
      → new_pages L new old k ptr ≤ free_inodes s.disk
      → Spent (new_pages L new old k ptr) s (set_pages L buf new old k i ptr (ids, s)).1
  set_pages-Spent zero i ptr ids s grows own enough =
      rw (set_pages-zero L buf new old i ptr (ids, s), new_pages-zero ptr) (Spent-none s)
  set_pages-Spent (suc k) i ptr ids s grows own enough = elim (dec_lt ptr new) [
    | no ge ↦
        rw
          (
            set_pages-idle L buf new old (suc k) i ptr (ids, s) (omega arith) (omega arith),
            new_pages-idle (suc k) ptr (omega arith),
          )
          (Spent-none s)
    | yes lt ↦ elim (dec_lt ptr old) [
      | yes before ↦
          (let next : Edit = fill_page L buf new old false pages_at i ptr (ids, s) in
            let cost = new_pages-old k ptr before in
            let (small, own₁) = later-Owned pages_at k i ptr ids s before own in
            let one = fill_page-Spent-old pages_at i ptr ids s small in
            rw (set_pages-grow L buf new old k i ptr (ids, s) false (leb-false old ptr before) lt) (
              Spent-trans 0 (new_pages L new old k (ptr + L.per_page)) _ s next.1 _ one
                (set_pages-Spent k (i + 1) (ptr + L.per_page) next.0 next.1 grows own₁
                  (omega (arith, cost, one.count, enough)))
                (omega (arith, cost))))
      | no behind ↦
          (let next : Edit = fill_page L buf new old true pages_at i ptr (ids, s) in
            let cost = new_pages-new k ptr (omega arith) lt in
            let one = fill_page-Spent-new pages_at i ptr ids s (omega (arith, cost, enough)) in
            let none₁ =
              pages_of-nil L next.0 pages_at old k (i + 1) (ptr + L.per_page) (omega arith) in
            rw
              (set_pages-grow L buf new old k i ptr (ids, s) true (leb-true old ptr (omega arith))
                lt)
              (Spent-trans 1 (new_pages L new old k (ptr + L.per_page)) _ s next.1 _ one
                (set_pages-Spent k (i + 1) (ptr + L.per_page) next.0 next.1 grows
                  (subst (Owned next.1) (sym none₁) tt) (omega (arith, cost, one.count, enough)))
                (omega (arith, cost))))
    ]
  ]

  -- The rounds of a list that grows are those of the longer list less those of the shorter.
  pub new_pages-split :
      (k ptr : ℕ)
      → old ≤ new
      → new_pages L new old k ptr + new_pages L old 0 k ptr ≡ new_pages L new 0 k ptr
  unfolding new_pages
  new_pages-split zero ptr grows = refl
  new_pages-split (suc k) ptr grows =
      let rest = new_pages-split k (ptr + L.per_page) grows in ground (arith, rest)
