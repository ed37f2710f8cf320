-- ===== src/Sfs/Unlink.antt =====
-- sfs_unlink of a file, in a directory that has one entry for its name.
use os_fuse.Base.{
  ℕ, ◌+◌, ◌-◌, ◌<◌, ◌≤◌, ◌≡◌, ◌≢◌, ◌%◌, ◌^◌, refl, ap, ◌∙◌, arith, true, false, Bool-cases, inl,
  inr, ◌&&◌, not, if◌then◌else◌, ℤ, pos, negsuc, to_ushort, List, has, ◌∉◌, length, is_neg,
}
use os_fuse.Memory.{Bytes}
use os_fuse.CString.{equal_strings}
use os_fuse.State.{Sys, enoent, block_read}
use os_fuse.FreeBlock.Chain.{IsFree}
use os_fuse.Bitmap.{free_inode_push}
use os_fuse.Bitmap.Laws.{is_free}
use os_fuse.Inode.{slot_load, dot}
use os_fuse.Listing.{dir_layout, file_layout, fnode_listing_set}
use os_fuse.Listing.Frame.{Owned-mem, slot_limit}
use os_fuse.Listing.Store.{list_slots}
use os_fuse.Listing.Carry.{IsFree-Stays, list_slots-kept}
use os_fuse.Directory.{dnode_remove}
use os_fuse.Directory.Append.{IsDir, IsDir-dirs, IsDir-kept}
use os_fuse.Directory.Remove.{is_named}
use os_fuse.Resolve.{path_basename, path_to_inum, path_to_inum_elem}
use os_fuse.Resolve.Lookup.{names, path_to_inum_elem-same}
use os_fuse.Resolve.Quiet.{path_to_inum-found}
use os_fuse.Resolve.Entries.{Distinct, Ended}
use os_fuse.Resolve.Removed.{path_to_inum_elem-dnode_remove}
use os_fuse.Stream.{fstream_free}
use os_fuse.Stream.File.{IsFile, IsFile-disk}
use os_fuse.Stream.FreeLoop.{freed}
use os_fuse.Sfs.{sfs_unlink}
use os_fuse.Sfs.Drop.{dropped, dropped-free, dropped-reserved, dropped-kept}

module _ (path : Bytes) (inum n p k i : ℕ) (f d : Bytes) (free : List ℕ) (s s₁ : Sys)
    (found : path_to_inum path s ≡ (pos inum, pos p, s₁)) (le : 2 ≤ inum) (le' : 2 ≤ p)
    (file : IsFile s₁ inum n f free) (dir : IsDir s₁ p k d) (distinct : Distinct d k)
    (ended : Ended d k) (clear : s₁.errno ≡ pos 0) (room : length free + n < 2 ^ 31) (lt : i < k)
    (hit : is_named (path_basename path) d i ≡ true)
    (apart : (q : ℕ)
      → has q (list_slots dir_layout s₁ p) ≡ true
      → (q ≢ 0) × (q ∉ list_slots file_layout s₁ inum)) where
  abbrev gone : Sys
  gone = dropped inum n f free s₁ file clear room le

  slot_kept :
      (q : ℕ)
      → has q (list_slots dir_layout s₁ p) ≡ true
      → (slot_load q gone ≡ slot_load q s₁) × (is_free gone.disk q ≡ false)
  slot_kept q h =
      let (small, used) = Owned-mem s₁ (list_slots dir_layout s₁ p) q dir.list.own h in
      let (ne, out) = apart q h in
      dropped-kept inum n f free s₁ file clear room le q small used ne out

  IsDir-gone : IsDir gone p k d
  IsDir-gone = IsDir-kept s₁ gone p k d slot_kept dir

  same_slots : list_slots dir_layout gone p ≡ list_slots dir_layout s₁ p
  same_slots = list_slots-kept dir_layout s₁ gone p (λ q h. (slot_kept q h).0)

  zero_apart : 0 ∉ list_slots dir_layout gone p
  zero_apart = ap (has 0) same_slots ∙ (elim (Bool-cases (has 0 (list_slots dir_layout s₁ p))) [
    | inr out ↦ out
    | inl h ↦ absurd ((apart 0 h).0 refl)
  ])

  -- sfs_unlink from the three results of path_to_inum on.
  from_path : ℤ × ℤ × Sys → ℤ × Sys
  from_path (a, b, t) =
      let m = to_ushort a in
      let freed = fnode_listing_set m 0 (fstream_free m 0 t) in
      let removed = dnode_remove b (path_basename path) (free_inode_push m freed) in
      if is_neg a then (enoent, t) else (pos 0, removed)

  sfs_unlink-from : sfs_unlink path s ≡ from_path (path_to_inum path s)
  unfolding sfs_unlink from_path
  sfs_unlink-from = refl

  from_path-gone :
      from_path (pos inum, pos p, s₁) ≡ (pos 0, dnode_remove (pos p) (path_basename path) gone)
  unfolding from_path
  from_path-gone = let short : inum % 65536 ≡ inum = omega (arith, file.list.own.1) in rw short refl

  sfs_unlink-found :
      (u : Sys) × (d' : Bytes) × (sfs_unlink path s ≡ (pos 0, u))
      × (u.errno ≡ pos 0)
      × IsFree u.disk (freed f n 0 free)
      × (is_free u.disk inum ≡ true)
      × IsDir u p (k - 1) d'
      × Distinct d' (k - 1)
      × Ended d' (k - 1)
      × ((name : Bytes)
          → (path_to_inum_elem name p u).0 ≡ (
              if not (equal_strings 2 0 name dot) && names name d i
              then negsuc 0
              else (path_to_inum_elem name p s₁).0))
      × ((q : ℕ)
          → q < slot_limit
          → is_free s₁.disk q ≡ false
          → q ≢ 0
          → q ∉ list_slots file_layout s₁ inum
          → q ∉ list_slots dir_layout s₁ p
          → (slot_load q u ≡ slot_load q s₁) × (is_free u.disk q ≡ false))
  sfs_unlink-found =
      let (err, isfree, inum_free, above) = dropped-free inum n f free s₁ file clear room le in
      let (d', removed, distinct', ended', lookups) =
        path_to_inum_elem-dnode_remove p k i d (path_basename path) gone le' IsDir-gone distinct
          ended err lt hit in
      let u : Sys = dnode_remove (pos p) (path_basename path) gone in
      let slots : List ℕ = list_slots dir_layout gone p in
      (
        u,
        d',
        sfs_unlink-from ∙ (ap from_path found ∙ from_path-gone),
        removed.errno ∙ err,
        IsFree-Stays slots (freed f n 0 free) gone u removed.stays
            (dropped-reserved inum n f free s₁ file clear room le) zero_apart above isfree,
        removed.frees inum inum_free,
        removed.dir,
        distinct',
        ended',
        λ name.
            lookups name
            ∙ ap
                (λ (a : ℤ).
                  if not (equal_strings 2 0 name dot) && names name d i then negsuc 0 else a)
                (path_to_inum_elem-same name p k d s₁ gone le' dir IsDir-gone),
        λ q small used ne out out'.
            let (same, used') =
              dropped-kept inum n f free s₁ file clear room le q small used ne out in
            let (same', used'') =
              removed.stays.slots q small used' (ap (has q) same_slots ∙ out') in
            (same' ∙ same, used''),
      )

-- Let the path be found as a file of `n` blocks, not inode 0 or 1, in a directory of `k` entries,
-- no two of one name and each name of at most 13 characters, of which entry `i` has the last name
-- of the path. Let the two have no slot in common and the directory not have slot 0, let no error
-- be recorded, and let the number of free blocks stay within an `int`. Then sfs_unlink returns 0
-- and records no error. The blocks of the file are in front of the free block list, the last in
-- front, and its inode is free. The directory has one entry less, no two of one name and each of
-- at most 13 characters; a lookup of any name in it gives what it gave before, but none for the
-- name of entry `i`. All other slots in use, but slot 0, are in use and unchanged.
pub sfs_unlink-path_to_inum_elem :
    (path : Bytes) (inum n p k i : ℕ) (f d : Bytes) (free : List ℕ) (s : Sys)
    → (path_to_inum path s).0 ≡ pos inum
    → (path_to_inum path s).1 ≡ pos p
    → 2 ≤ inum
    → 2 ≤ p
    → IsFile s inum n f free
    → IsDir s p k d
    → Distinct d k
    → Ended d k
    → s.errno ≡ pos 0
    → length free + n < 2 ^ 31
    → i < k
    → is_named (path_basename path) d i ≡ true
    → ((q : ℕ)
        → has q (list_slots dir_layout s p) ≡ true
        → (q ≢ 0) × (q ∉ list_slots file_layout s inum))
    → (u : Sys) × (d' : Bytes) × (sfs_unlink path s ≡ (pos 0, u))
      × (u.errno ≡ pos 0)
      × IsFree u.disk (freed f n 0 free)
      × (is_free u.disk inum ≡ true)
      × IsDir u p (k - 1) d'
      × Distinct d' (k - 1)
      × Ended d' (k - 1)
      × ((name : Bytes)
          → (path_to_inum_elem name p u).0 ≡ (
              if not (equal_strings 2 0 name dot) && names name d i
              then negsuc 0
              else (path_to_inum_elem name p s).0))
      × ((q : ℕ)
          → q < slot_limit
          → is_free s.disk q ≡ false
          → q ≢ 0
          → q ∉ list_slots file_layout s inum
          → q ∉ list_slots dir_layout s p
          → (slot_load q u ≡ slot_load q s) × (is_free u.disk q ≡ false))
unfolding slot_load block_read
sfs_unlink-path_to_inum_elem path inum n p k i f d free s number parent le le' file dir distinct
      ended clear room lt hit apart =
    let r : ℤ × ℤ × Sys = path_to_inum path s in
    let s₁ : Sys = record s { dir_list = r.2.dir_list } in
    let found : r ≡ (pos inum, pos p, s₁) =
      path_to_inum-found path inum s number ∙ ap (λ (a : ℤ). (pos inum, a, s₁)) parent in
    let dir₁ = IsDir-dirs s p k d r.2.dir_list dir in
    let file₁ = IsFile-disk s s₁ inum n f free refl file in
    let (u, d', result, err, isfree, inum_free, dir', distinct', ended', lookups, others) =
      sfs_unlink-found path inum n p k i f d free s s₁ found le le' file₁ dir₁ distinct ended clear
        room lt hit apart in
    (
      u,
      d',
      result,
      err,
      isfree,
      inum_free,
      dir',
      distinct',
      ended',
      λ name.
          lookups name
          ∙ ap
              (λ (a : ℤ).
                if not (equal_strings 2 0 name dot) && names name d i then negsuc 0 else a)
              (path_to_inum_elem-same name p k d s s₁ le' dir dir₁),
      others,
    )
