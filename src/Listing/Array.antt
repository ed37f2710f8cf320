-- ===== src/Listing/Array.antt =====
-- Storing a list changes no part of the state but the disk and the error number: the static arrays
-- stay.
use os_fuse.Base.{
  ℕ, zero, suc, ◌+◌, ◌*◌, ◌/◌, ℤ, ◌≡◌, refl, ◌∙◌, Bool, true, false, ◌||◌, ltb, leb, if◌then◌else◌,
  Option, none, some,
}
use os_fuse.Memory.{Bytes, zeros, get_u16}
use os_fuse.State.{Sys, enospc, errno_push, block_write}
use os_fuse.Inode.{slot_load, slot_dump, pages_at, indexes_at, size_at}
use os_fuse.Bitmap.{take_inode, free_inode_pop, free_inode_push}
use os_fuse.Listing.{
  Layout, Edit, fill_page, fill_pages, release_pages, set_pages, set_index, set_indexes,
  store_listing, pages_per_index, pages_per_inode,
}

module _ (part : Sys → Bytes)
    (on_write : (n : ℕ) (b : Bytes) (s : Sys) → part (block_write n b s) ≡ part s)
    (on_push : (e : ℤ) (s : Sys) → part (errno_push e s) ≡ part s) where
  abbrev Same : Sys → Sys → Type 0
  Same s t = part t ≡ part s

  Same-if : (b : Bool) (s t u : Sys) → Same s t → Same s u → Same s (if b then t else u)
  Same-if true s t u h k = h
  Same-if false s t u h k = k

  Same-edit :
      (b : Bool) (s : Sys) (d e : Edit) → Same s d.1 → Same s e.1 → Same s (if b then d else e).1
  Same-edit true s d e h k = h
  Same-edit false s d e h k = k

  Same-slot_dump : (n : ℕ) (b : Bytes) (s : Sys) → Same s (slot_dump n b s)
  unfolding slot_dump
  Same-slot_dump n b s = on_write (n / 4) _ s

  Same-take_inode : (o : Option (ℕ × ℕ × ℕ)) (s : Sys) → Same s (take_inode o s).1
  unfolding take_inode
  Same-take_inode none s = on_push enospc s
  Same-take_inode (some (i, j, p)) s = on_write 1024 _ s

  Same-free_inode_pop : (s : Sys) → Same s (free_inode_pop s).1
  unfolding free_inode_pop
  Same-free_inode_pop s = Same-take_inode _ s

  Same-free_inode_push : (n : ℕ) (s : Sys) → Same s (free_inode_push n s)
  unfolding free_inode_push
  Same-free_inode_push n s = Same-if (ltb n 2) s s _ refl (on_write 1024 _ s)

  module _ (L : Layout) (buf : Bytes) (new old : ℕ) where
    Same-fill_page :
        (fresh : Bool) (base i ptr : ℕ) (e : Edit)
        → Same e.1 (fill_page L buf new old fresh base i ptr e).1
    unfolding fill_page
    Same-fill_page fresh base i ptr (ids, s) =
        Same-slot_dump _ _ (if fresh then (free_inode_pop s).1 else s)
        ∙ Same-if fresh s (free_inode_pop s).1 s (Same-free_inode_pop s) refl

    Same-set_pages : (k i ptr : ℕ) (e : Edit) → Same e.1 (set_pages L buf new old k i ptr e).1
    unfolding set_pages
    Same-set_pages zero i ptr e = refl
    Same-set_pages (suc k) i ptr (node, s) =
        Same-set_pages k (i + 1) (ptr + L.per_page) _
        ∙ Same-edit (leb new ptr) s _ _
            (Same-if (ltb ptr old) s _ s (Same-free_inode_push (get_u16 node (pages_at + 2 * i)) s)
              refl)
            (Same-fill_page (leb old ptr) pages_at i ptr (node, s))

    Same-release_pages :
        (ids : Bytes) (k j ptr : ℕ) (s : Sys) → Same s (release_pages L buf new old ids k j ptr s)
    unfolding release_pages
    Same-release_pages ids zero j ptr s = refl
    Same-release_pages ids (suc k) j ptr s =
        Same-release_pages ids k (j + 1) (ptr + L.per_page) _
        ∙ Same-if (ltb ptr old) s _ s (Same-free_inode_push (get_u16 ids (0 + 2 * j)) s) refl

    Same-fill_pages :
        (fresh : Bool) (k j ptr : ℕ) (e : Edit)
        → Same e.1 (fill_pages L buf new old fresh k j ptr e).1
    unfolding fill_pages
    Same-fill_pages fresh zero j ptr e = refl
    Same-fill_pages fresh (suc k) j ptr e =
        Same-fill_pages fresh k (j + 1) (ptr + L.per_page) _
        ∙ Same-edit (ltb ptr new) e.1 _ e (Same-fill_page (fresh || leb old ptr) 0 j ptr e) refl

    Same-set_index : (i ptr : ℕ) (e : Edit) → Same e.1 (set_index L buf new old i ptr e).1
    unfolding set_index
    Same-set_index i ptr (node, s) =
        let here : ℕ = get_u16 node (indexes_at + 2 * i) in
        Same-edit (leb new ptr) s _ _
          (Same-if (ltb ptr old) s _ s
            (Same-free_inode_push here _
              ∙ Same-release_pages (slot_load here s) pages_per_index 0 ptr s)
            refl)
          (Same-edit (leb old ptr) s _ _
            (Same-slot_dump _ _ _
              ∙ (Same-fill_pages true pages_per_index 0 ptr (zeros, (free_inode_pop s).1)
                  ∙ Same-free_inode_pop s))
            (Same-slot_dump _ _ _
              ∙ Same-fill_pages false pages_per_index 0 ptr (slot_load here s, s)))

    Same-set_indexes : (k i ptr : ℕ) (e : Edit) → Same e.1 (set_indexes L buf new old k i ptr e).1
    unfolding set_indexes
    Same-set_indexes zero i ptr e = refl
    Same-set_indexes (suc k) i ptr e =
        Same-set_indexes k (i + 1) _ (set_index L buf new old i ptr e) ∙ Same-set_index i ptr e

  part-store_listing :
      (L : Layout) (inum : ℕ) (buf : Bytes) (new : ℕ) (s : Sys)
      → part (store_listing L inum buf new s) ≡ part s
  unfolding store_listing
  part-store_listing L inum buf new s =
      Same-slot_dump _ _ _
      ∙ (Same-set_indexes L buf new (get_u16 (slot_load inum s) size_at) pages_per_inode 0 _ _
          ∙ Same-set_pages L buf new (get_u16 (slot_load inum s) size_at) pages_per_inode 0 L.direct
              (_, s))

pub dir_list-store_listing :
    (L : Layout) (inum : ℕ) (buf : Bytes) (new : ℕ) (s : Sys)
    → (store_listing L inum buf new s).dir_list ≡ s.dir_list
unfolding block_write errno_push
dir_list-store_listing = part-store_listing (λ s. s.dir_list) (λ n b s. refl) (λ e s. refl)

pub file_list-store_listing :
    (L : Layout) (inum : ℕ) (buf : Bytes) (new : ℕ) (s : Sys)
    → (store_listing L inum buf new s).file_list ≡ s.file_list
unfolding block_write errno_push
file_list-store_listing = part-store_listing (λ s. s.file_list) (λ n b s. refl) (λ e s. refl)
