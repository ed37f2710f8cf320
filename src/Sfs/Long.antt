-- ===== src/Sfs/Long.antt =====
-- sfs_create of a name that is too long for an entry.
use os_fuse.Base.{ℕ, ◌+◌, ◌<◌, ◌≤◌, ◌≡◌, refl, ◌∙◌, true, false, pos, negsuc, List, has}
use os_fuse.Memory.{Bytes}
use os_fuse.State.{Sys}
use os_fuse.FreeBlock.Chain.{IsFree}
use os_fuse.Bitmap.Laws.{is_free}
use os_fuse.Bitmap.Count.{free_inodes}
use os_fuse.Inode.{dentry_max_size}
use os_fuse.Listing.{dir_layout}
use os_fuse.Listing.Enough.{slots_needed}
use os_fuse.Directory.Append.{IsDir}
use os_fuse.Resolve.{path_basename, path_to_inum, path_to_inum_elem}
use os_fuse.Resolve.Entries.{Ended}
use os_fuse.Resolve.Unique.{Long, di_ent_c-Long, path_to_inum_elem-Long}
use os_fuse.Sfs.{sfs_create}
use os_fuse.Sfs.Create.{sfs_create-path_to_inum_elem}

-- Let the last name of the path have more than 13 characters, and let the path not be found, its
-- parent be a directory of `n` entries, each name of at most 13 characters, with room for one
-- more. Let no error be recorded, let the free blocks lie behind the bitmap and inode 0 be
-- reserved, and let an inode be free besides those that the longer list of the directory needs.
-- Then sfs_create returns 0, takes an inode that was free and makes the directory one entry
-- longer, but a lookup of that name in the directory still finds nothing.
pub sfs_create-Long :
    (path : Bytes) (p n : ℕ) (d : Bytes) (free : List ℕ) (s : Sys)
    → Long (path_basename path)
    → Ended d n
    → (path_to_inum path s).0 ≡ negsuc 0
    → (path_to_inum path s).1 ≡ pos p
    → 2 ≤ p
    → IsDir s p n d
    → s.errno ≡ pos 0
    → n + 1 < dentry_max_size
    → IsFree s.disk free
    → ((x : ℕ) → has x free ≡ true → 1024 < x)
    → is_free s.disk 0 ≡ false
    → 1 + slots_needed dir_layout (n + 1) ≤ slots_needed dir_layout n + free_inodes s.disk
    → (u : Sys) × (new : ℕ) × (d' : Bytes) × (sfs_create path s ≡ (pos 0, u))
      × (is_free s.disk new ≡ true)
      × IsDir u p (n + 1) d'
      × ((path_to_inum_elem (path_basename path) p u).0 ≡ negsuc 0)
sfs_create-Long path p n d free s long ended missing parent le dir clear room isfree beyond reserved
      slots =
    let (u, new, d', result, free_before, err, dir', lookups) =
      sfs_create-path_to_inum_elem path p n d free s missing parent le dir clear room isfree beyond
        reserved slots in
    let before = path_to_inum_elem-Long (path_basename path) p n d s le dir ended long in
    (
      u,
      new,
      d',
      result,
      free_before,
      dir',
      lookups (path_basename path) ∙ rw (before, di_ent_c-Long (path_basename path) new long) refl,
    )
