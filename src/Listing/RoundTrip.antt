-- ===== src/Listing/RoundTrip.antt =====
-- dnode_listing_set and fnode_listing_set, then dnode_listing and fnode_listing.
use os_fuse.Base.{
  ℕ, ◌+◌, ◌*◌, ◌<◌, ◌≤◌, ◌≡◌, refl, ap, has, ◌∉◌, ◌∙◌, sym, arith, true, false, ltb-false,
  leb-false, pos,
}
use mathlib.Core.Path.{subst}
use os_fuse.Memory.{Bytes, get_u16}
use os_fuse.State.{Sys, block_read}
use os_fuse.Bitmap.Laws.{is_free}
use os_fuse.Listing.Pages.{PagesHold, PagesHold-same}
use os_fuse.Listing.Indexes.{IndexesHold, IndexesHold-same}
use os_fuse.Inode.{slot_load, size_at, direct_at, pages_at, dentry_max_size, fentry_max_size}
use os_fuse.Listing.{
  Layout, dir_layout, file_layout, store_listing, dnode_listing, fnode_listing, dnode_listing_set,
  fnode_listing_set, pages_per_index, pages_per_inode,
}
use os_fuse.Listing.Frame.{Owned-mem}
use os_fuse.Listing.Store.{IsList, ListHolds}
use os_fuse.Listing.Store.{list_slots}
use os_fuse.Listing.Stored.{store_listing-ListHolds}
use os_fuse.Listing.Read.{listing-Agrees}

pub dir_capacity : 6 + pages_per_inode * 8 + pages_per_inode * (pages_per_index * 8) ≡ 2086
unfolding pages_per_inode pages_per_index
dir_capacity = refl

pub file_capacity : 24 + pages_per_inode * 32 + pages_per_inode * (pages_per_index * 32) ≡ 8344
unfolding pages_per_inode pages_per_index
file_capacity = refl

-- A list is the same in any state with the same slots.
pub ListHolds-same :
    (L : Layout) (s t : Sys) (inum n : ℕ) (g : Bytes)
    → ((m : ℕ) → slot_load m t ≡ slot_load m s)
    → ListHolds L s inum n g
    → ListHolds L t inum n g
ListHolds-same L s t inum n g same holds =
    let node : Bytes = slot_load inum s in
    let first : ℕ = L.direct + pages_per_inode * L.per_page in
    record {
      size = ap (λ (b : Bytes). get_u16 b size_at) (same inum) ∙ holds.size;
      direct = λ x lt. ap (λ (b : Bytes). b (direct_at + x)) (same inum) ∙ holds.direct x lt;
      pages =
          subst (λ (b : Bytes). PagesHold L t g b pages_at n pages_per_inode 0 L.direct)
            (sym (same inum))
            (PagesHold-same L s t g node pages_at n pages_per_inode 0 L.direct (λ m _. same m)
              holds.pages);
      indexes =
          subst (λ (b : Bytes). IndexesHold L t g b n pages_per_inode 0 first) (sym (same inum))
            (IndexesHold-same L s t g node n pages_per_inode 0 first (λ m _. same m) holds.indexes);
    }

pub slot_load-files :
    (t : Sys) (other : Bytes) (m : ℕ) → slot_load m (record t { file_list = other }) ≡ slot_load m t
unfolding slot_load block_read
slot_load-files t other m = refl

pub slot_load-dirs :
    (t : Sys) (other : Bytes) (m : ℕ) → slot_load m (record t { dir_list = other }) ≡ slot_load m t
unfolding slot_load block_read
slot_load-dirs t other m = refl

-- Let inode `inum` own the slots of a file's list, and let fnode_listing_set store the first `n`
-- numbers of the static array, `n` at most 8344, without an error at the end. Then, whatever the
-- static array holds by then, fnode_listing returns `n` and fills the array with the same `4 * n`
-- bytes, and the inode owns its slots again.
pub fnode_listing-fnode_listing_set :
    (inum n : ℕ) (s : Sys) (other : Bytes)
    → n ≤ fentry_max_size
    → IsList file_layout s inum
    → (fnode_listing_set inum n s).errno ≡ pos 0
    → let t = fnode_listing_set inum n s in
      let r = fnode_listing inum (record t { file_list = other }) in
      (r.0 ≡ n)
      × ((x : ℕ) → x < n * 4 → r.1.file_list x ≡ s.file_list x)
      × IsList file_layout t inum
unfolding fnode_listing fnode_listing_set
fnode_listing-fnode_listing_set inum n s other le list err =
    let u : Sys = store_listing file_layout inum s.file_list n s in
    let set : fnode_listing_set inum n s ≡ u = rw (ltb-false fentry_max_size n le) in
    let t : Sys = fnode_listing_set inum n s in
    let v : Sys = record t { file_list = other } in
    let stored =
      store_listing-ListHolds file_layout inum s.file_list n s (omega arith) list
        (sym (ap (λ (z : Sys). z.errno) set) ∙ err) in
    let holds' : ListHolds file_layout v inum n s.file_list =
      ListHolds-same file_layout t v inum n s.file_list (slot_load-files t other)
        (subst (λ (z : Sys). ListHolds file_layout z inum n s.file_list) (sym set) stored.holds) in
    let (size, agree) =
      listing-Agrees file_layout n v s.file_list refl inum other refl (omega (arith, file_capacity))
        holds' in
    (size, agree, subst (λ (z : Sys). IsList file_layout z inum) (sym set) stored.list)

-- The same for directories: dnode_listing_set stores the first `n` entries of the static array,
-- `n` below 2086, in an inode that owns the slots of a directory's list, and no error is recorded
-- at the end. Then dnode_listing returns `n` and fills the array, whatever it held, with the same
-- `16 * n` bytes, and the inode owns its slots again.
pub dnode_listing-dnode_listing_set :
    (inum n : ℕ) (s : Sys) (other : Bytes)
    → n < dentry_max_size
    → IsList dir_layout s inum
    → (dnode_listing_set inum n s).errno ≡ pos 0
    → let t = dnode_listing_set inum n s in
      let r = dnode_listing inum (record t { dir_list = other }) in
      (r.0 ≡ n) × ((x : ℕ) → x < n * 16 → r.1.dir_list x ≡ s.dir_list x) × IsList dir_layout t inum
unfolding dnode_listing dnode_listing_set
dnode_listing-dnode_listing_set inum n s other lt list err =
    let u : Sys = store_listing dir_layout inum s.dir_list n s in
    let set : dnode_listing_set inum n s ≡ u = rw (leb-false dentry_max_size n lt) in
    let t : Sys = dnode_listing_set inum n s in
    let v : Sys = record t { dir_list = other } in
    let stored =
      store_listing-ListHolds dir_layout inum s.dir_list n s (omega arith) list
        (sym (ap (λ (z : Sys). z.errno) set) ∙ err) in
    let holds' : ListHolds dir_layout v inum n s.dir_list =
      ListHolds-same dir_layout t v inum n s.dir_list (slot_load-dirs t other)
        (subst (λ (z : Sys). ListHolds dir_layout z inum n s.dir_list) (sym set) stored.holds) in
    let (size, agree) =
      listing-Agrees dir_layout n v s.dir_list refl inum other refl (omega (arith, dir_capacity))
        holds' in
    (size, agree, subst (λ (z : Sys). IsList dir_layout z inum) (sym set) stored.list)

-- Let inodes `inum` and `m` own the slots of the lists of two files, with no slot in common.
-- Storing a list of at most 8344 numbers for `inum` without an error at the end leaves every slot
-- of the list of `m` in use and unchanged.
pub fnode_listing_set-Stays :
    (inum n m : ℕ) (s : Sys)
    → n ≤ fentry_max_size
    → IsList file_layout s inum
    → IsList file_layout s m
    → ((p : ℕ) → has p (list_slots file_layout s m) ≡ true → p ∉ list_slots file_layout s inum)
    → (fnode_listing_set inum n s).errno ≡ pos 0
    → let t = fnode_listing_set inum n s in
      (p : ℕ)
      → has p (list_slots file_layout s m) ≡ true
      → (slot_load p t ≡ slot_load p s) × (is_free t.disk p ≡ false)
unfolding fnode_listing_set
fnode_listing_set-Stays inum n m s le list other apart err p h =
    let set : fnode_listing_set inum n s ≡ store_listing file_layout inum s.file_list n s =
      rw (ltb-false fentry_max_size n le) in
    let stored =
      store_listing-ListHolds file_layout inum s.file_list n s (omega arith) list
        (sym (ap (λ (z : Sys). z.errno) set) ∙ err) in
    let (small, used) = Owned-mem s (list_slots file_layout s m) p other.own h in
    rw set (stored.stays.slots p small used (apart p h))
