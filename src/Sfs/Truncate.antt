-- ===== src/Sfs/Truncate.antt =====
-- sfs_truncate to a length within the blocks of the file.
use os_fuse.Base.{
  ℕ, zero, ◌+◌, ◌-◌, ◌/◌, ◌%◌, ◌^◌, ◌<◌, ◌≤◌, ◌≡◌, refl, ap, ◌∙◌, arith, ℤ, pos, none, some, is_neg,
  to_ushort, List, length, if◌then◌else◌,
}
use os_fuse.Memory.{Bytes}
use os_fuse.State.{Sys, enoent}
use os_fuse.Inode.{inode_set_attr_upc}
use os_fuse.Listing.{fnode_listing, fnode_listing_set}
use os_fuse.Resolve.{path_to_inum}
use os_fuse.Resolve.Quiet.{path_to_inum-found}
use os_fuse.Stream.{fstream_free}
use os_fuse.Stream.Read.{content}
use os_fuse.Stream.File.{IsFile, IsFile-disk, file_size, fnode_listing-IsFile}
use os_fuse.Stream.FreeLoop.{freed}
use os_fuse.Stream.Free.{fstream_free-Shortened}
use os_fuse.Stream.Shortened.{fnode_listing_set-Shortened}
use os_fuse.Stream.Resize.{inode_set_attr_upc-Shortened}
use os_fuse.Sfs.{extend_list, sfs_truncate}

extend_list-zero : (i : ℕ) (s : Sys) → extend_list zero i s ≡ s
unfolding extend_list
extend_list-zero i s = refl

module _ (path : Bytes) (inum n offset : ℕ) (f : Bytes) (free : List ℕ) (s s₁ : Sys) (p : ℤ)
    (found : path_to_inum path s ≡ (pos inum, p, s₁)) (file : IsFile s₁ inum n f free)
    (inside : offset / 512 + 1 ≤ n) (clear : s₁.errno ≡ pos 0)
    (room : length free + (n - (offset / 512 + 1)) < 2 ^ 31) where
  abbrev m : ℕ
  m = offset / 512 + 1

  abbrev listed : Sys
  listed = record s₁ { file_list = (fnode_listing inum s₁).1.file_list }

  abbrev stored : Sys
  stored = fnode_listing_set inum m (fstream_free inum m listed)

  abbrev done : Sys
  done = inode_set_attr_upc inum none (some (pos offset)) stored

  -- sfs_truncate from the results of path_to_inum on, and behind fnode_listing.
  from_path : ℤ × ℤ × Sys → ℤ × Sys
  from_path (a, b, t) =
      let k = to_ushort a in
      let (b_size, listed) = fnode_listing k t in
      let extended = extend_list (m - b_size) b_size listed in
      let stored = fnode_listing_set k m (fstream_free k m extended) in
      if is_neg a
      then (enoent, t)
      else (pos 0, inode_set_attr_upc k none (some (pos offset)) stored)

  from_listing : ℕ × Sys → ℤ × Sys
  from_listing (b_size, t) =
      let extended = extend_list (m - b_size) b_size t in
      let stored = fnode_listing_set inum m (fstream_free inum m extended) in
      (pos 0, inode_set_attr_upc inum none (some (pos offset)) stored)

  sfs_truncate-from : sfs_truncate path offset s ≡ from_path (path_to_inum path s)
  unfolding sfs_truncate from_path
  sfs_truncate-from = refl

  from_path-listing : from_path (pos inum, p, s₁) ≡ from_listing (fnode_listing inum s₁)
  unfolding from_path from_listing
  from_path-listing =
      let short : inum % 65536 ≡ inum = omega (arith, file.list.own.1) in rw short refl

  from_listing-done : from_listing (n, listed) ≡ (pos 0, done)
  unfolding from_listing
  from_listing-done =
      let none_new : m - n ≡ 0 = omega (arith, inside) in
      rw (none_new, extend_list-zero n listed) refl

  result : sfs_truncate path offset s ≡ (pos 0, done)
  result =
      sfs_truncate-from
      ∙ (ap from_path found
          ∙ (from_path-listing
              ∙ (ap from_listing (fnode_listing-IsFile s₁ inum n f free file).0
                  ∙ from_listing-done)))

  done-facts :
      (h : Bytes) × IsFile done inum m h (freed f (n - m) m free)
      × (done.errno ≡ pos 0)
      × (file_size done inum ≡ offset)
      × ((y : ℕ) → y < offset → content done h y ≡ content s₁ f y)
  done-facts =
      let held = IsFile-disk s₁ listed inum n f free refl file in
      let h : Bytes = (fnode_listing inum listed).1.file_list in
      let short =
        fnode_listing_set-Shortened inum m f h (freed f (n - m) m free) listed
          (fstream_free inum m listed)
          (fstream_free-Shortened inum n m f free listed held inside clear room) in
      let (kept, err, size, bytes) =
        inode_set_attr_upc-Shortened inum m offset f h (freed f (n - m) m free) listed stored short
          (omega arith) in
      (h, kept, err, size, λ y lt. bytes y (omega arith))

-- Let the path be found as a file of `n` blocks, let `offset` lie within its blocks, let no error
-- be recorded, and let the number of free blocks stay within an `int`. Then sfs_truncate returns 0
-- and records no error. The file has `offset / 512 + 1` blocks and `offset` bytes, which are its
-- first bytes of before; the blocks behind are in front of the free block list, the last in front.
pub sfs_truncate-content :
    (path : Bytes) (inum n offset : ℕ) (f : Bytes) (free : List ℕ) (s : Sys)
    → (path_to_inum path s).0 ≡ pos inum
    → IsFile s inum n f free
    → offset / 512 + 1 ≤ n
    → s.errno ≡ pos 0
    → length free + (n - (offset / 512 + 1)) < 2 ^ 31
    → let m = offset / 512 + 1 in
      (u : Sys) × (h : Bytes) × (sfs_truncate path offset s ≡ (pos 0, u))
      × (u.errno ≡ pos 0)
      × IsFile u inum m h (freed f (n - m) m free)
      × (file_size u inum ≡ offset)
      × ((y : ℕ) → y < offset → content u h y ≡ content s f y)
sfs_truncate-content path inum n offset f free s number file inside clear room =
    let r : ℤ × ℤ × Sys = path_to_inum path s in
    let s₁ : Sys = record s { dir_list = r.2.dir_list } in
    let found = path_to_inum-found path inum s number in
    let file₁ = IsFile-disk s s₁ inum n f free refl file in
    let (h, kept, err, size, bytes) =
      done-facts path inum n offset f free s s₁ r.1 found file₁ inside clear room in
    (
      done path inum n offset f free s s₁ r.1 found file₁ inside clear room,
      h,
      result path inum n offset f free s s₁ r.1 found file₁ inside clear room,
      err,
      kept,
      size,
      bytes,
    )
