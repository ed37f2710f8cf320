-- ===== src/Listing/Stored.antt =====
-- store_listing, the body of dnode_listing_set and fnode_listing_set: the list of the inode is the
-- array of the caller afterwards.
use os_fuse.Base.{ℕ, ◌+◌, ◌*◌, ◌<◌, ◌≤◌, ◌≡◌, sym, ap, ◌∙◌, arith, pos, List, ◌++◌}
use mathlib.Core.Path.{subst}
use os_fuse.Memory.{Bytes, get_u16, put_u16, memcpy}
use os_fuse.Memory.Fields.{get_u16-cong}
use os_fuse.State.{Sys}
use os_fuse.Inode.{slot_load, slot_dump, pages_at, size_at, direct_at, ino_at}
use os_fuse.Listing.{Layout, Edit, set_pages, set_indexes, store_listing, pages_per_inode}
use os_fuse.Listing.Frame.{Owned, errno-slot_dump}
use os_fuse.Listing.Pages.{pages_of-cong}
use os_fuse.Listing.Indexes.{indexes_of-cong}
use os_fuse.Listing.Store.{page_slots, index_slots, IsList, TreeFilled, TreeFilled-loops}
use os_fuse.Base.{◌≢◌}
use os_fuse.Listing.Written.{Stored, written-Stored}

-- The inode as the function changes it before the loops.
abbrev pub headed : (buf : Bytes) (new : ℕ) (node : Bytes) → Bytes
headed buf new node = memcpy (put_u16 node size_at new) direct_at buf 96

headed-front :
    (buf : Bytes) (new : ℕ) (node : Bytes) (x : ℕ)
    → x < 96
    → headed buf new node (direct_at + x) ≡ buf x
unfolding memcpy
headed-front buf new node x lt = ground arith

headed-rest :
    (buf : Bytes) (new : ℕ) (node : Bytes) (x : ℕ) → 112 ≤ x → headed buf new node x ≡ node x
unfolding memcpy put_u16
headed-rest buf new node x le = ground arith

headed-header :
    (buf : Bytes) (new : ℕ) (node : Bytes) (x : ℕ)
    → x < 16
    → x ≢ 4
    → x ≢ 5
    → headed buf new node x ≡ node x
unfolding memcpy put_u16
headed-header buf new node x lt ne ne' = ground arith

headed-size :
    (buf : Bytes) (new : ℕ) (node : Bytes)
    → new < 65536
    → get_u16 (headed buf new node) size_at ≡ new
unfolding memcpy get_u16 put_u16
headed-size buf new node lt = ground arith

headed-ino :
    (buf : Bytes) (new : ℕ) (node : Bytes)
    → get_u16 (headed buf new node) ino_at ≡ get_u16 node ino_at
unfolding memcpy get_u16 put_u16
headed-ino buf new node = ground arith

-- The slots behind the inode's own are the same.
pub headed-slots :
    (L : Layout) (buf : Bytes) (new : ℕ) (node : Bytes) (s : Sys) (old : ℕ)
    → let node₀ = headed buf new node in
      (page_slots L node₀ old ++ index_slots L s node₀ old)
      ≡ (page_slots L node old ++ index_slots L s node old)
headed-slots L buf new node s old =
    let node₀ : Bytes = headed buf new node in
    let first : ℕ = L.direct + pages_per_inode * L.per_page in
    let number : ((j : ℕ)
        → 0 ≤ j
        → j < 0 + pages_per_inode
        → get_u16 node₀ (pages_at + 2 * j) ≡ get_u16 node (pages_at + 2 * j)) =
      λ j a b.
        get_u16-cong node₀ node (pages_at + 2 * j) (headed-rest buf new node _ (omega arith))
          (headed-rest buf new node _ (omega arith)) in
    ap (λ (xs : List ℕ). xs ++ index_slots L s node₀ old)
      (pages_of-cong L node node₀ pages_at old pages_per_inode 0 L.direct number)
    ∙ ap (λ (xs : List ℕ). page_slots L node old ++ xs)
        (indexes_of-cong L s node node₀ old pages_per_inode 0 first
          (λ x a b. headed-rest buf new node x (omega arith)))

-- The loops leave the inode's number.
pub headed-loops-ino :
    (L : Layout) (buf : Bytes) (new old : ℕ) (node node' : Bytes) (s t : Sys) (T : List ℕ)
    → TreeFilled L buf new T (headed buf new node) s node' t
    → get_u16 node' ino_at ≡ get_u16 node ino_at
headed-loops-ino L buf new old node node' s t T tree =
    get_u16-cong node' (headed buf new node) ino_at (tree.same _ (omega arith))
      (tree.same _ (omega arith))
    ∙ headed-ino buf new node

-- Writing the first `new` entries of the array `buf` as the list of an inode that owns its slots,
-- where no error is recorded at the end: the list holds them, the inode owns its slots again, no
-- slot in use outside the old list has changed or belongs to the new one, and of the inode's
-- header only the size may have changed.
pub store_listing-ListHolds :
    (L : Layout) (inum : ℕ) (buf : Bytes) (new : ℕ) (s : Sys)
    → new < 65536
    → IsList L s inum
    → (store_listing L inum buf new s).errno ≡ pos 0
    → let t = store_listing L inum buf new s in Stored L inum new buf s t
unfolding store_listing
store_listing-ListHolds L inum buf new s bound list err =
    let node : Bytes = slot_load inum s in
    let old : ℕ = get_u16 node size_at in
    let node₀ : Bytes = headed buf new node in
    let first : ℕ = L.direct + pages_per_inode * L.per_page in
    let T : List ℕ = page_slots L node old ++ index_slots L s node old in
    let same : (page_slots L node₀ old ++ index_slots L s node₀ old) ≡ T =
      headed-slots L buf new node s old in
    let e : Edit = set_pages L buf new old pages_per_inode 0 L.direct (node₀, s) in
    let e' : Edit = set_indexes L buf new old pages_per_inode 0 first e in
    let T₀ : List ℕ = page_slots L node₀ old ++ index_slots L s node₀ old in
    let err' : e'.1.errno ≡ pos 0 = sym (errno-slot_dump (get_u16 e'.0 ino_at) e'.0 e'.1) ∙ err in
    let tree : TreeFilled L buf new T node₀ s e'.0 e'.1 =
      subst (λ (xs : List ℕ). TreeFilled L buf new xs node₀ s e'.0 e'.1) same
        (TreeFilled-loops L buf new old node₀ s (subst (Owned s) (sym same) list.own.3) err') in
    let ino : get_u16 e'.0 ino_at ≡ inum =
      headed-loops-ino L buf new old node e'.0 s e'.1 T tree ∙ list.self in
    let size : get_u16 e'.0 size_at ≡ new =
      get_u16-cong e'.0 node₀ size_at (tree.same _ (omega arith)) (tree.same _ (omega arith))
      ∙ headed-size buf new node bound in
    subst (λ (n : ℕ). Stored L inum new buf s (slot_dump n e'.0 e'.1)) (sym ino)
      (written-Stored L buf new node₀ e'.0 s e'.1 inum list.own.1 list.own.2 list.own.0 ino size
        (λ x lt. tree.same (direct_at + x) (omega arith) ∙ headed-front buf new node x lt)
        (λ x lt ne ne'. tree.same x (omega arith) ∙ headed-header buf new node x lt ne ne') tree)
