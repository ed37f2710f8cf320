-- ===== src/Entry/Agree.antt =====
-- The single entries against the whole list.
use os_fuse.Base.{
  ℕ, suc, ◌+◌, ◌*◌, ◌-◌, ◌/◌, ◌%◌, ◌<◌, ◌≤◌, ◌≡◌, refl, ap, ◌∙◌, arith, leb-true, leb-false, pos,
}
use mathlib.Core.Path.{subst}
use native.Mathlib.Nat.{mul-le-mul_right}
use native.Mathlib.Decide.{dec_lt}
use os_fuse.Memory.{Bytes, zeros, at, get_u16, get_u32}
use os_fuse.State.{Sys}
use os_fuse.Inode.{slot_load, direct_at, pages_at, indexes_at, di_ent_c}
use os_fuse.Listing.{Layout, dir_layout, file_layout, pages_per_inode, pages_per_index}
use os_fuse.Listing.Indexes.{IndexesHold}
use os_fuse.Listing.Store.{ListHolds}
use os_fuse.Entry.{locate, entry_get, dnode_entry_get, fnode_entry_get}
use os_fuse.Stream.{blknum}
use os_fuse.Entry.Located.{
  locate-direct, locate-page, locate-index, page_entry, PagesHold-nth, four, sixty_four,
  entry_get-locate, object-in,
}

-- The bytes of entry `k`: in the inode, in a page of the inode, or in the first pages of the first
-- index slot.
module _ (L : Layout) (s : Sys) (inum n k x : ℕ) (g : Bytes) (holds : ListHolds L s inum n g)
    (whole : L.per_page * L.entry_size ≡ 128) (front : L.direct * L.entry_size ≡ 96) (lt : k < n)
    (small : x < L.entry_size) where
  abbrev Agrees : Type 0
  Agrees = entry_get L inum k s x ≡ g (k * L.entry_size + x)

  direct_entry : k < L.direct → Agrees
  direct_entry below =
      let fits : (k + 1) * L.entry_size ≤ L.direct * L.entry_size =
        mul-le-mul_right L.entry_size (omega arith) in
      let place : direct_at + k * L.entry_size + x ≡ direct_at + (k * L.entry_size + x) =
        omega arith in
      ap (λ (b : Bytes). b x) (entry_get-locate L inum k _ _ s (locate-direct L s g inum k below))
      ∙ (object-in (at (slot_load inum s) (direct_at + k * L.entry_size)) L.entry_size x small
          ∙ (ap (slot_load inum s) place
              ∙ holds.direct (k * L.entry_size + x) (omega (arith, fits, front))))

  -- `j` is the page and `r` the place in it.
  module _ (j r : ℕ) (in_page : r < L.per_page) where
    page_of_inode :
        L.direct ≤ k
        → k < L.direct + 4 * L.per_page
        → (k - L.direct) / L.per_page ≡ j
        → (k - L.direct) % L.per_page ≡ r
        → k ≡ L.direct + j * L.per_page + r
        → j < pages_per_inode
        → Agrees
    page_of_inode le below page place split lt' =
        let slot : ℕ = get_u16 (slot_load inum s) (pages_at + 2 * (0 + j)) in
        let at_slot : locate L inum k s ≡ (slot, r * L.entry_size) =
          locate-page L s g inum k le below
          ∙ (ap
                (λ (z : ℕ). (
                  get_u16 (slot_load inum s) (pages_at + 2 * z),
                  (k - L.direct) % L.per_page * L.entry_size,
                ))
                (page ∙ omega arith)
              ∙ ap (λ (z : ℕ). (slot, z * L.entry_size)) place) in
        ap (λ (b : Bytes). b x) (entry_get-locate L inum k _ _ s at_slot)
        ∙ page_entry L s g slot r (L.direct + j * L.per_page) k x whole
            (PagesHold-nth L s g (slot_load inum s) pages_at n pages_per_inode 0 L.direct j lt'
              (omega (arith, split)) holds.pages)
            in_page split small

    page_of_index :
        L.direct + 4 * L.per_page ≤ k
        → k < L.direct + 4 * L.per_page + 64
        → (k - L.direct - 4 * L.per_page) / L.per_page ≡ j
        → (k - L.direct - 4 * L.per_page) % L.per_page ≡ r
        → k ≡ L.direct + 4 * L.per_page + j * L.per_page + r
        → j < pages_per_index
        → Agrees
    page_of_index le below page place split lt' =
        let node : Bytes = slot_load inum s in
        let first : ℕ = L.direct + 4 * L.per_page in
        let ids : Bytes = slot_load (get_u16 node (indexes_at + 2 * 0)) s in
        let slot : ℕ = get_u16 ids (0 + 2 * (0 + j)) in
        let lv2 : ℕ = k - L.direct - 4 * L.per_page in
        let indexes : IndexesHold L s g node n (suc 3) 0 first =
          subst (λ (z : ℕ). IndexesHold L s g node n z 0 (L.direct + z * L.per_page)) four
            holds.indexes in
        let number : 2 * (lv2 / L.per_page) ≡ 0 + 2 * (0 + j) = omega (arith, page) in
        let at_slot : locate L inum k s ≡ (slot, r * L.entry_size) =
          locate-index L s g inum k le below
          ∙ (ap (λ (z : ℕ). (get_u16 ids z, lv2 % L.per_page * L.entry_size)) number
              ∙ ap (λ (z : ℕ). (slot, z * L.entry_size)) place) in
        ap (λ (b : Bytes). b x) (entry_get-locate L inum k _ _ s at_slot)
        ∙ page_entry L s g slot r (first + j * L.per_page) k x whole
            (PagesHold-nth L s g ids 0 n pages_per_index 0 first j lt' (omega (arith, split))
              (indexes.0 (omega (arith, lt, le))))
            in_page split small

get_u32-from :
    (b c : Bytes) (o : ℕ) → ((i : ℕ) → i < 4 → b i ≡ c (o + i)) → get_u32 b 0 ≡ get_u32 c o
unfolding get_u32
get_u32-from b c o h =
    let first : b 0 ≡ c o = h 0 (omega arith) ∙ ap c (omega arith) in
    let second : b (0 + 1) ≡ c (o + 1) = ap b (omega arith) ∙ h 1 (omega arith) in
    let third : b (0 + 2) ≡ c (o + 2) = ap b (omega arith) ∙ h 2 (omega arith) in
    let fourth : b (0 + 3) ≡ c (o + 3) = ap b (omega arith) ∙ h 3 (omega arith) in
    rw (first, second, third, fourth) refl

dir_entry :
    (s : Sys) (inum n k : ℕ) (d : Bytes)
    → ListHolds dir_layout s inum n d
    → k < n
    → k < 102
    → (x : ℕ) → x < 16
    → entry_get dir_layout inum k s x ≡ d (k * 16 + x)
dir_entry s inum n k d holds lt bound x small = elim (dec_lt k 6) [
  | yes direct ↦ direct_entry dir_layout s inum n k x d holds refl refl lt small direct
  | no behind ↦ elim (dec_lt k 38) [
    | yes paged ↦
        page_of_inode dir_layout s inum n k x d holds refl refl lt small ((k - 6) / 8) ((k - 6) % 8)
          (omega arith) (omega arith) paged refl refl (omega arith) (omega (arith, four))
    | no far ↦
        page_of_index dir_layout s inum n k x d holds refl refl lt small ((k - 6 - 4 * 8) / 8)
          ((k - 6 - 4 * 8) % 8) (omega arith) (omega arith) (omega arith) refl refl (omega arith)
          (omega (arith, sixty_four))
  ]
]

file_entry :
    (s : Sys) (inum n k : ℕ) (f : Bytes)
    → ListHolds file_layout s inum n f
    → k < n
    → k < 216
    → (x : ℕ) → x < 4
    → entry_get file_layout inum k s x ≡ f (k * 4 + x)
file_entry s inum n k f holds lt bound x small = elim (dec_lt k 24) [
  | yes direct ↦ direct_entry file_layout s inum n k x f holds refl refl lt small direct
  | no behind ↦ elim (dec_lt k 152) [
    | yes paged ↦
        page_of_inode file_layout s inum n k x f holds refl refl lt small ((k - 24) / 32)
          ((k - 24) % 32) (omega arith) (omega arith) paged refl refl (omega arith)
          (omega (arith, four))
    | no far ↦
        page_of_index file_layout s inum n k x f holds refl refl lt small ((k - 24 - 4 * 32) / 32)
          ((k - 24 - 4 * 32) % 32) (omega arith) (omega arith) (omega arith) refl refl (omega arith)
          (omega (arith, sixty_four))
  ]
]

-- Let the list of a directory hold the first `n` entries of the array `d`, and that of a file the
-- first `m` numbers of the array `f`. Then dnode_entry_get gives entry `k` of `d` for each `k`
-- below `n` and 102, and the empty entry from `n` on; and fnode_entry_get gives number `j` of `f`
-- for each `j` below `m` and 216, and 0 from `m` on. (102 and 216 are the entries up to the end of
-- the first pages of the first index slot, behind which the two look in the wrong slot.)
pub entry_get-ListHolds :
    (s : Sys) (inum n inum' m : ℕ) (d f : Bytes)
    → ListHolds dir_layout s inum n d
    → ListHolds file_layout s inum' m f
    → ((k : ℕ)
        → (k < n → k < 102 → (x : ℕ) → x < 16 → dnode_entry_get inum k s x ≡ d (k * 16 + x))
          × (n ≤ k → dnode_entry_get inum k s ≡ di_ent_c zeros 0))
      × ((j : ℕ)
          → (j < m → j < 216 → fnode_entry_get inum' (pos j) s ≡ blknum f j)
            × (m ≤ j → fnode_entry_get inum' (pos j) s ≡ 0))
unfolding dnode_entry_get fnode_entry_get
entry_get-ListHolds s inum n inum' m d f dir file = (
  λ k. (
    λ lt bound x small.
        rw (dir.size, leb-false n k lt) (dir_entry s inum n k d dir lt bound x small),
    λ le. rw (dir.size, leb-true n k le) refl,
  ),
  λ j. (
    λ lt bound.
        rw (file.size, leb-false m j lt)
          (get_u32-from (entry_get file_layout inum' j s) f (4 * j) (λ i small.
            file_entry s inum' m j f file lt bound i small
            ∙ ap f (let swap : j * 4 ≡ 4 * j = omega arith in omega arith))),
    λ le. rw (file.size, leb-true m j le) refl,
  ),
)
