-- ===== src/Listing/Indexes.antt =====
-- The index slots of an inode and their pages: the slots, and what they hold.
use os_fuse.Base.{
  ℕ, zero, suc, ◌+◌, ◌*◌, ◌<◌, ◌≤◌, ◌≡◌, refl, sym, ap, ◌∙◌, arith, true, ltb, ltb-true, ltb-false,
  if◌then◌else◌, List, [], ◌∷◌, ◌++◌, has, has-append,
}
use mathlib.Core.Path.{subst}
use native.Mathlib.Decide.{dec_lt}
use os_fuse.Memory.{Bytes, get_u16}
use os_fuse.Memory.Fields.{get_u16-cong}
use os_fuse.State.{Sys}
use os_fuse.Inode.{slot_load, indexes_at}
use os_fuse.Listing.{Layout, pages_per_index}
use os_fuse.Listing.Pages.{pages_of, PagesHold, PagesHold-same}
use os_fuse.Listing.Index.{slots_of}

module _ (L : Layout) where
  -- The slots of the index slots, of at most `rounds`, that begin before `end`, with their pages.
  abbrev pub indexes_of : (s : Sys) (node : Bytes) (end rounds i ptr : ℕ) → List ℕ
  indexes_of s node end zero i ptr = []
  indexes_of s node end (suc k) i ptr =
      if ltb ptr end
      then slots_of L s pages_per_index (get_u16 node (indexes_at + 2 * i)) end ptr
        ++ indexes_of s node end k (i + 1) (ptr + pages_per_index * L.per_page)
      else []

  abbrev pub IndexesHold : (s : Sys) (g node : Bytes) (end rounds i ptr : ℕ) → Type 0
  IndexesHold s g node end zero i ptr = Unit
  IndexesHold s g node end (suc k) i ptr =
      (ptr < end
        → PagesHold L s g (slot_load (get_u16 node (indexes_at + 2 * i)) s) 0 end pages_per_index 0
            ptr)
      × IndexesHold s g node end k (i + 1) (ptr + pages_per_index * L.per_page)

  pub indexes_of-nil :
      (s : Sys) (node : Bytes) (end k i ptr : ℕ) → end ≤ ptr → indexes_of s node end k i ptr ≡ []
  indexes_of-nil s node end zero i ptr le = refl
  indexes_of-nil s node end (suc k) i ptr le = rw (ltb-false ptr end le)

  pub IndexesHold-nil :
      (s : Sys) (g node : Bytes) (end k i ptr : ℕ) → end ≤ ptr → IndexesHold s g node end k i ptr
  IndexesHold-nil s g node end zero i ptr le = tt
  IndexesHold-nil s g node end (suc k) i ptr le = (
    λ lt. absurd (omega arith),
    IndexesHold-nil s g node end k (i + 1) (ptr + pages_per_index * L.per_page) (omega arith),
  )

  -- The slots are the same in a state that keeps the contents of all of them.
  pub indexes_of-same :
      (s t : Sys) (node : Bytes) (end k i ptr : ℕ)
      → ((m : ℕ) → has m (indexes_of s node end k i ptr) ≡ true → slot_load m t ≡ slot_load m s)
      → indexes_of t node end k i ptr ≡ indexes_of s node end k i ptr
  indexes_of-same s t node end zero i ptr same = refl
  indexes_of-same s t node end (suc k) i ptr same = elim (dec_lt ptr end) [
    | no ge ↦ rw (ltb-false ptr end (omega arith))
    | yes lt ↦
        (let q : ℕ = get_u16 node (indexes_at + 2 * i) in
          let pages : List ℕ = pages_of L (slot_load q s) 0 end pages_per_index 0 ptr in
          let next : ℕ = ptr + pages_per_index * L.per_page in
          let rest : List ℕ = indexes_of s node end k (i + 1) next in
          let same' : ((m : ℕ)
              → has m ((q ∷ pages) ++ rest) ≡ true
              → slot_load m t ≡ slot_load m s) =
            λ m h. same m (rw (ltb-true ptr end lt) h) in
          let later =
            indexes_of-same s t node end k (i + 1) next
              (λ m h. same' m (ground (arith, has-append m (q ∷ pages) rest))) in
          let slots : Bytes → List ℕ =
            λ (b : Bytes). q ∷ pages_of L b 0 end pages_per_index 0 ptr in
          rw (ltb-true ptr end lt) (
            ap (λ (b : Bytes). slots b ++ indexes_of t node end k (i + 1) next)
              (same' q (ground arith))
            ∙ ap (λ (xs : List ℕ). slots (slot_load q s) ++ xs) later))
  ]

  pub IndexesHold-same :
      (s t : Sys) (g node : Bytes) (end k i ptr : ℕ)
      → ((m : ℕ) → has m (indexes_of s node end k i ptr) ≡ true → slot_load m t ≡ slot_load m s)
      → IndexesHold s g node end k i ptr
      → IndexesHold t g node end k i ptr
  IndexesHold-same s t g node end zero i ptr same hold = tt
  IndexesHold-same s t g node end (suc k) i ptr same hold = elim (dec_lt ptr end) [
    | no ge ↦ (
      λ lt. absurd (ge lt),
      IndexesHold-nil t g node end k (i + 1) (ptr + pages_per_index * L.per_page) (omega arith),
    )
    | yes lt ↦
        (let q : ℕ = get_u16 node (indexes_at + 2 * i) in
          let pages : List ℕ = pages_of L (slot_load q s) 0 end pages_per_index 0 ptr in
          let next : ℕ = ptr + pages_per_index * L.per_page in
          let rest : List ℕ = indexes_of s node end k (i + 1) next in
          let same' : ((m : ℕ)
              → has m ((q ∷ pages) ++ rest) ≡ true
              → slot_load m t ≡ slot_load m s) =
            λ m h. same m (rw (ltb-true ptr end lt) h) in
          let here : PagesHold L t g (slot_load q s) 0 end pages_per_index 0 ptr =
            PagesHold-same L s t g (slot_load q s) 0 end pages_per_index 0 ptr
              (λ m h. same' m (ground (arith, has-append m (q ∷ pages) rest))) (hold.0 lt) in
          (
            λ _.
                subst (λ (b : Bytes). PagesHold L t g b 0 end pages_per_index 0 ptr)
                  (sym (same' q (ground arith))) here,
            IndexesHold-same s t g node end k (i + 1) next
                (λ m h. same' m (ground (arith, has-append m (q ∷ pages) rest))) hold.1,
          ))
  ]

  -- They depend on the numbers in the inode alone.
  pub indexes_of-cong :
      (s : Sys) (node node' : Bytes) (end k i ptr : ℕ)
      → ((x : ℕ) → indexes_at + 2 * i ≤ x → x < indexes_at + 2 * (i + k) → node' x ≡ node x)
      → indexes_of s node' end k i ptr ≡ indexes_of s node end k i ptr
  indexes_of-cong s node node' end zero i ptr same = refl
  indexes_of-cong s node node' end (suc k) i ptr same =
      let number : get_u16 node' (indexes_at + 2 * i) ≡ get_u16 node (indexes_at + 2 * i) =
        get_u16-cong node' node (indexes_at + 2 * i) (same _ (omega arith) (omega arith))
          (same _ (omega arith) (omega arith)) in
      let next : ℕ = ptr + pages_per_index * L.per_page in
      let later =
        indexes_of-cong s node node' end k (i + 1) next
          (λ x a b. same x (omega arith) (omega arith)) in
      ap
        (λ (q : ℕ).
          if ltb ptr end
          then slots_of L s pages_per_index q end ptr ++ indexes_of s node' end k (i + 1) next
          else [])
        number
      ∙ ap
          (λ (xs : List ℕ).
            if ltb ptr end
            then slots_of L s pages_per_index (get_u16 node (indexes_at + 2 * i)) end ptr ++ xs
            else [])
          later

  pub IndexesHold-cong :
      (s : Sys) (g node node' : Bytes) (end k i ptr : ℕ)
      → ((x : ℕ) → indexes_at + 2 * i ≤ x → x < indexes_at + 2 * (i + k) → node' x ≡ node x)
      → IndexesHold s g node end k i ptr
      → IndexesHold s g node' end k i ptr
  IndexesHold-cong s g node node' end zero i ptr same hold = tt
  IndexesHold-cong s g node node' end (suc k) i ptr same hold =
      let number : get_u16 node' (indexes_at + 2 * i) ≡ get_u16 node (indexes_at + 2 * i) =
        get_u16-cong node' node (indexes_at + 2 * i) (same _ (omega arith) (omega arith))
          (same _ (omega arith) (omega arith)) in
      (
        λ lt.
            subst (λ (q : ℕ). PagesHold L s g (slot_load q s) 0 end pages_per_index 0 ptr)
              (sym number) (hold.0 lt),
        IndexesHold-cong s g node node' end k (i + 1) (ptr + pages_per_index * L.per_page)
            (λ x a b. same x (omega arith) (omega arith)) hold.1,
      )
