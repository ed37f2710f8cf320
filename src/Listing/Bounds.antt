-- ===== src/Listing/Bounds.antt =====
-- Reading a list writes no byte behind its static array, whatever the disk holds.
use os_fuse.Base.{
  ℕ, zero, suc, ◌+◌, ◌*◌, ◌≤◌, ◌≡◌, refl, sym, ◌∙◌, arith, Bool-cases, inl, inr, leb, leb-true,
  leb-false,
}
use native.Mathlib.Nat.{mul-le-mul_right}
use native.Mathlib.Decide.{dec_le}
use os_fuse.Memory.{Bytes, at, get_u16, memcpy}
use os_fuse.Memory.Copy.{memcpy-behind}
use os_fuse.State.{Sys}
use os_fuse.Inode.{
  slot_load, direct_at, pages_at, indexes_at, size_at, dentry_max_size, fentry_max_size,
}
use os_fuse.Listing.{
  Layout, Cursor, dir_layout, file_layout, read_pages, read_indexes, listing, dnode_listing,
  fnode_listing, pages_per_index, pages_per_inode,
}
use os_fuse.Listing.RoundTrip.{dir_capacity, file_capacity}

module _ (L : Layout) (end : ℕ) (s : Sys) (whole : L.per_page * L.entry_size ≡ 128) where
  -- A loop of `k` pages from entry `ptr` on moves `ptr` on by these entries at most, and leaves
  -- what lies behind them.
  abbrev Within : (limit : ℕ) → Bytes → Cursor → Type 0
  Within limit buf (done, ptr, filled) =
      (ptr ≤ limit) × ((x : ℕ) → limit * L.entry_size ≤ x → filled x ≡ buf x)

  Within-trans :
      (limit : ℕ) (buf mid : Bytes) (c : Cursor)
      → ((x : ℕ) → limit * L.entry_size ≤ x → mid x ≡ buf x)
      → Within limit mid c
      → Within limit buf c
  Within-trans limit buf mid (done, ptr, filled) one two = (two.0, λ x le. two.1 x le ∙ one x le)

  fill_fits :
      (ptr limit x : ℕ)
      → ptr + L.per_page ≤ limit
      → limit * L.entry_size ≤ x
      → ptr * L.entry_size + 128 ≤ x
  fill_fits ptr limit x fits le =
      let step : (ptr + L.per_page) * L.entry_size ≡ ptr * L.entry_size + 128 =
        omega (arith, whole) in
      let below = mul-le-mul_right L.entry_size fits in omega (arith, step, below)

  read_pages-Within :
      (ids : Bytes) (base k i ptr limit : ℕ) (buf : Bytes)
      → ptr + k * L.per_page ≤ limit
      → Within limit buf (read_pages L ids base end s k i ptr buf)
  unfolding read_pages
  read_pages-Within ids base zero i ptr limit buf fits = (omega arith, λ x le. refl)
  read_pages-Within ids base (suc k) i ptr limit buf fits =
      let page : Bytes = slot_load (get_u16 ids (base + 2 * i)) s in
      let mid : Bytes = memcpy buf (ptr * L.entry_size) page 128 in
      let one : ((x : ℕ) → limit * L.entry_size ≤ x → mid x ≡ buf x) = λ x le.
        memcpy-behind buf page (ptr * L.entry_size) 128 x
          (fill_fits ptr limit x (omega arith) le) in
      elim (dec_le end (ptr + L.per_page)) [
        | yes le ↦ rw (leb-true end (ptr + L.per_page) le) (omega arith, one)
        | no gt ↦ rw (leb-false end (ptr + L.per_page) (omega arith)) (
            Within-trans limit buf mid
              (read_pages L ids base end s k (i + 1) (ptr + L.per_page) mid) one
              (read_pages-Within ids base k (i + 1) (ptr + L.per_page) limit mid (omega arith)))
      ]

  read_indexes-Within :
      (node : Bytes) (k i ptr limit : ℕ) (buf : Bytes)
      → ptr + k * (pages_per_index * L.per_page) ≤ limit
      → Within limit buf (read_indexes L node end s k i ptr buf)
  unfolding read_indexes
  read_indexes-Within node zero i ptr limit buf fits = (omega arith, λ x le. refl)
  read_indexes-Within node (suc k) i ptr limit buf fits =
      let ids : Bytes = slot_load (get_u16 node (indexes_at + 2 * i)) s in
      let c : Cursor = read_pages L ids 0 end s pages_per_index 0 ptr buf in
      let next : ℕ = ptr + pages_per_index * L.per_page in
      let (at_most, outside) : Within next buf c =
        read_pages-Within ids 0 pages_per_index 0 ptr next buf (omega arith) in
      let one : ((x : ℕ) → limit * L.entry_size ≤ x → c.2 x ≡ buf x) = λ x le. outside x (
        let below : next * L.entry_size ≤ limit * L.entry_size =
          mul-le-mul_right L.entry_size (omega arith) in
        omega (arith, below)) in
      elim (Bool-cases c.0) [
        | inl done ↦ rw done (omega (arith, at_most), one)
        | inr more ↦ rw more (
            Within-trans limit buf c.2 (read_indexes L node end s k (i + 1) c.1 c.2) one
              (read_indexes-Within node k (i + 1) c.1 limit c.2 (omega (arith, at_most))))
      ]

listing-Within :
    (L : Layout) (s : Sys) (inum : ℕ) (buf : Bytes) (limit : ℕ)
    → L.per_page * L.entry_size ≡ 128
    → L.direct * L.entry_size ≡ 96
    → limit
      ≡ L.direct + pages_per_inode * L.per_page + pages_per_inode * (pages_per_index * L.per_page)
    → (x : ℕ) → limit * L.entry_size ≤ x
    → (listing L inum buf s).1 x ≡ buf x
unfolding listing
listing-Within L s inum buf limit whole front all x le =
    let node : Bytes = slot_load inum s in
    let size : ℕ = get_u16 node size_at in
    let first : ℕ = L.direct + pages_per_inode * L.per_page in
    let start : Bytes = memcpy buf 0 (at node direct_at) 96 in
    let c : Cursor = read_pages L node pages_at size s pages_per_inode 0 L.direct start in
    let d : Cursor = read_indexes L node size s pages_per_inode 0 c.1 c.2 in
    let below : first * L.entry_size ≤ limit * L.entry_size =
      mul-le-mul_right L.entry_size (omega (arith, all)) in
    let direct_below : L.direct * L.entry_size ≤ first * L.entry_size =
      mul-le-mul_right L.entry_size (omega arith) in
    let untouched : start x ≡ buf x =
      memcpy-behind buf (at node direct_at) 0 96 x (omega (arith, front, below, direct_below)) in
    let (at_most, paged) : Within L size s whole first start c =
      read_pages-Within L size s whole node pages_at pages_per_inode 0 L.direct first start
        (omega arith) in
    let (_, indexed) : Within L size s whole limit c.2 d =
      read_indexes-Within L size s whole node pages_per_inode 0 c.1 limit c.2
        (omega (arith, at_most, all)) in
    elim (Bool-cases (leb size L.direct)) [
      | inl short ↦ rw short untouched
      | inr long ↦ elim (Bool-cases c.0) [
        | inl done ↦ rw (long, done) (paged x (omega (arith, below)) ∙ untouched)
        | inr more ↦ rw (long, more) (indexed x le ∙ (paged x (omega (arith, below)) ∙ untouched))
      ]
    ]

-- Whatever the disk holds, fnode_listing leaves every byte behind the 8344 numbers of its static
-- array, and dnode_listing every byte behind the 2086 entries of its array, as it was: neither
-- writes outside its array, though the size in an inode may be up to 65535.
pub listing_bounds :
    (inum : ℕ) (s : Sys)
    → ((x : ℕ) → fentry_max_size * 4 ≤ x → (fnode_listing inum s).1.file_list x ≡ s.file_list x)
      × ((x : ℕ) → dentry_max_size * 16 ≤ x → (dnode_listing inum s).1.dir_list x ≡ s.dir_list x)
unfolding fnode_listing dnode_listing
listing_bounds inum s = (
  λ x le.
      listing-Within file_layout s inum s.file_list fentry_max_size refl refl (sym file_capacity) x
        le,
  λ x le.
      listing-Within dir_layout s inum s.dir_list dentry_max_size refl refl (sym dir_capacity) x le,
)
