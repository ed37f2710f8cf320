-- ===== src/Listing/TooLarge.antt =====
-- dnode_listing_set and fnode_listing_set on a size beyond the limit.
use os_fuse.Base.{
  ℕ, ◌+◌, ◌*◌, ◌-◌, ◌<◌, ◌≤◌, ◌≡◌, ◌≢◌, refl, sym, ap, ◌∙◌, ltb-true, leb-true, pos, is_neg,
}
use mathlib.Core.Bool.{false≢true}
use os_fuse.Memory.{Bytes, get_u16, put_u16, memcpy}
use os_fuse.State.{Sys, errno_push, efbig}
use os_fuse.Inode.{slot_load, direct_at, size_at, ino_at, dentry_max_size, fentry_max_size}
use os_fuse.Listing.{
  Layout, Edit, dir_layout, file_layout, set_pages, set_indexes, store_listing, dnode_listing_set,
  fnode_listing_set, pages_per_inode,
}
use os_fuse.Listing.Frame.{errno-slot_dump}
use os_fuse.Listing.InodePages.{set_pages-errno}
use os_fuse.Listing.Loop.{set_indexes-errno}

-- No step of store_listing takes an error back.
store_listing-errno :
    (L : Layout) (inum : ℕ) (buf : Bytes) (new : ℕ) (s : Sys)
    → (store_listing L inum buf new s).errno ≡ pos 0
    → s.errno ≡ pos 0
unfolding store_listing
store_listing-errno L inum buf new s err =
    let node : Bytes = slot_load inum s in
    let old : ℕ = get_u16 node size_at in
    let node₀ : Bytes = memcpy (put_u16 node size_at new) direct_at buf 96 in
    let first : ℕ = L.direct + pages_per_inode * L.per_page in
    let e : Edit = set_pages L buf new old pages_per_inode 0 L.direct (node₀, s) in
    let e' : Edit = set_indexes L buf new old pages_per_inode 0 first e in
    let err' : e'.1.errno ≡ pos 0 = sym (errno-slot_dump (get_u16 e'.0 ino_at) e'.0 e'.1) ∙ err in
    set_pages-errno L buf new old pages_per_inode 0 L.direct (node₀, s)
      (set_indexes-errno L buf new old pages_per_inode 0 first e err')

efbig-ne : (s : Sys) → (errno_push efbig s).errno ≢ pos 0
unfolding errno_push
efbig-ne s e = false≢true (sym (ap is_neg e))

-- Asked for more than 8344 block numbers, fnode_listing_set stores 8344 of them and records an
-- error.
pub fnode_listing_set-too_large :
    (inum n : ℕ) (s : Sys)
    → fentry_max_size < n
    → let t = fnode_listing_set inum n s in
      (t ≡ fnode_listing_set inum fentry_max_size (errno_push efbig s)) × (t.errno ≢ pos 0)
unfolding fnode_listing_set
fnode_listing_set-too_large inum n s lt = rw (ltb-true fentry_max_size n lt) (
  refl,
  λ err.
      efbig-ne s
        (store_listing-errno file_layout inum s.file_list fentry_max_size (errno_push efbig s) err),
)

-- Asked for 2086 directory entries or more, dnode_listing_set stores 2085 of them and records an
-- error.
pub dnode_listing_set-too_large :
    (inum n : ℕ) (s : Sys)
    → dentry_max_size ≤ n
    → let t = dnode_listing_set inum n s in
      (t ≡ dnode_listing_set inum (dentry_max_size - 1) (errno_push efbig s)) × (t.errno ≢ pos 0)
unfolding dnode_listing_set
dnode_listing_set-too_large inum n s le = rw (leb-true dentry_max_size n le) (
  refl,
  λ err. efbig-ne s (
      store_listing-errno dir_layout inum s.dir_list (dentry_max_size - 1) (errno_push efbig s)
        err),
)
