-- ===== src/Sfs/Create.antt =====
-- sfs_create of a path that is not found, in a directory that is.
use os_fuse.Base.{
  ℕ, ◌+◌, ◌<◌, ◌≤◌, ◌≡◌, ◌%◌, refl, ap, ◌∙◌, arith, true, false, if◌then◌else◌, ℤ, pos, negsuc,
  to_ushort, List, has,
}
use os_fuse.Memory.{Bytes, zeros, get_u16, put_u8, memcpy}
use os_fuse.Memory.Fields.{get_u16-put_u16}
use os_fuse.CString.{equal_strings}
use os_fuse.State.{Sys, eexist, errno_pop}
use os_fuse.FreeBlock.Chain.{IsFree}
use os_fuse.Bitmap.{free_inode_pop}
use os_fuse.Bitmap.Laws.{is_free}
use os_fuse.Bitmap.Count.{free_inodes, free_inode_pop-Taken}
use os_fuse.Inode.{di_ent_c, fnode_init, dentry_max_size}
use os_fuse.Listing.{dir_layout}
use os_fuse.Listing.Frame.{Owned-mem}
use os_fuse.Listing.Store.{list_slots}
use os_fuse.Listing.Enough.{slots_needed, slots_needed-le}
use os_fuse.Directory.{dnode_append}
use os_fuse.Directory.Append.{IsDir, IsDir-dirs, IsDir-kept, dnode_append-IsDir, longer}
use os_fuse.Resolve.{path_basename, path_to_inum, path_to_inum_elem}
use os_fuse.Resolve.Lookup.{or_entry, path_to_inum_elem-dnode_append, path_to_inum_elem-same}
use os_fuse.Resolve.Quiet.{path_to_inum-Quiet}
use os_fuse.Stream.Create.{kept, away, fnode_init-IsFile}
use os_fuse.Sfs.{finish_create, exists, sfs_create}

module _ (path : Bytes) (p n : ℕ) (d : Bytes) (free : List ℕ) (s s₁ : Sys)
    (found : path_to_inum path s ≡ (negsuc 0, pos p, s₁)) (parent : 2 ≤ p) (dir : IsDir s₁ p n d)
    (clear : s₁.errno ≡ pos 0) (room : n + 1 < dentry_max_size) (isfree : IsFree s₁.disk free)
    (beyond : (x : ℕ) → has x free ≡ true → 1024 < x) (reserved : is_free s₁.disk 0 ≡ false)
    (slots : 1 + slots_needed dir_layout (n + 1)
      ≤ slots_needed dir_layout n + free_inodes s₁.disk) where
  some_free : 0 < free_inodes s₁.disk
  some_free = omega (arith, slots, slots_needed-le dir_layout n (n + 1) (omega arith))

  abbrev inum : ℕ
  inum = (free_inode_pop s₁).0

  abbrev filled : Sys
  filled = fnode_init inum p (free_inode_pop s₁).1

  abbrev item : Bytes
  item = di_ent_c (path_basename path) inum

  abbrev listed : Sys
  listed = dnode_append (pos p) item filled

  IsDir-filled : IsDir filled p n d
  IsDir-filled =
      IsDir-kept s₁ filled p n d
        (λ q h.
          let (lt, used) = Owned-mem s₁ (list_slots dir_layout s₁ p) q dir.list.own h in
          (kept p free s₁ isfree beyond reserved some_free).slots q lt used
            (away p free s₁ isfree beyond reserved some_free q used))
        dir

  made :
      (filled.errno ≡ pos 0)
      × (free_inodes filled.disk + 1 ≡ free_inodes s₁.disk)
      × (is_free s₁.disk inum ≡ true)
  made =
      let (free_before, _, _, err, count) =
        fnode_init-IsFile p free s₁ isfree beyond reserved some_free in
      (err ∙ clear, count, free_before)

  supply : slots_needed dir_layout (n + 1) ≤ slots_needed dir_layout n + free_inodes filled.disk
  supply = let count = made.1 in omega (arith, slots, count)

  number : get_u16 item 14 ≡ inum
  unfolding di_ent_c
  number =
      let taken = (free_inode_pop-Taken s₁ some_free).0 in
      get_u16-put_u16 (put_u8 (memcpy zeros 0 (path_basename path) 14) 13 0) 14 inum
        (omega (arith, taken.least.lt))

  -- sfs_create from the three results of path_to_inum on.
  from_path : ℤ × ℤ × Sys → ℤ × Sys
  from_path (found, p_inum, t) =
      let (inum, popped) = free_inode_pop t in
      let filled = fnode_init inum (to_ushort p_inum) popped in
      let listed = dnode_append p_inum (di_ent_c (path_basename path) inum) filled in
      if exists found then (eexist, t) else finish_create p_inum (path_basename path) inum listed

  sfs_create-from : sfs_create path s ≡ from_path (path_to_inum path s)
  unfolding sfs_create from_path
  sfs_create-from = refl

  from_path-listed : listed.errno ≡ pos 0 → from_path (negsuc 0, pos p, s₁) ≡ (pos 0, listed)
  unfolding from_path finish_create errno_pop
  from_path-listed err =
      let short : p % 65536 ≡ p = omega (arith, dir.list.own.1) in rw (short, err) refl

  -- The result, in terms of the state that the lookup of the path leaves.
  sfs_create-found :
      (u : Sys) × (new : ℕ) × (d' : Bytes) × (sfs_create path s ≡ (pos 0, u))
      × (is_free s₁.disk new ≡ true)
      × (u.errno ≡ pos 0)
      × IsDir u p (n + 1) d'
      × ((name : Bytes)
          → (path_to_inum_elem name p u).0
            ≡ or_entry
                (path_to_inum_elem name p s₁).0
                (equal_strings 14 0 name (di_ent_c (path_basename path) new))
                new)
  sfs_create-found =
      let (dir', _, _, err) =
        dnode_append-IsDir p n d item filled IsDir-filled made.0 room supply in
      (
        listed,
        inum,
        longer p n d item filled IsDir-filled made.0 room supply,
        sfs_create-from ∙ (ap from_path found ∙ from_path-listed err),
        made.2,
        err,
        dir',
        λ name.
            path_to_inum_elem-dnode_append name p n d item filled parent IsDir-filled made.0 room
              supply
            ∙ (ap (λ (r : ℤ). or_entry r (equal_strings 14 0 name item) (get_u16 item 14))
                  (path_to_inum_elem-same name p n d s₁ filled parent dir IsDir-filled)
                ∙ ap (or_entry (path_to_inum_elem name p s₁).0 (equal_strings 14 0 name item))
                    number),
      )

-- Let the path not be found, and its parent be a directory of `n` entries with room for one more.
-- Let no error be recorded, let the free blocks lie behind the bitmap and inode 0 be reserved, and
-- let an inode be free besides those that the longer list of the directory needs. Then sfs_create
-- returns 0 and takes an inode that was free. The parent is a directory of one entry more, and a
-- lookup of any name in it gives what it gave before, and the new inode if it gave none and the
-- name is that of the new entry.
pub sfs_create-path_to_inum_elem :
    (path : Bytes) (p n : ℕ) (d : Bytes) (free : List ℕ) (s : Sys)
    → (path_to_inum path s).0 ≡ negsuc 0
    → (path_to_inum path s).1 ≡ pos p
    → 2 ≤ p
    → IsDir s p n d
    → s.errno ≡ pos 0
    → n + 1 < dentry_max_size
    → IsFree s.disk free
    → ((x : ℕ) → has x free ≡ true → 1024 < x)
    → is_free s.disk 0 ≡ false
    → 1 + slots_needed dir_layout (n + 1) ≤ slots_needed dir_layout n + free_inodes s.disk
    → (u : Sys) × (new : ℕ) × (d' : Bytes) × (sfs_create path s ≡ (pos 0, u))
      × (is_free s.disk new ≡ true)
      × (u.errno ≡ pos 0)
      × IsDir u p (n + 1) d'
      × ((name : Bytes)
          → (path_to_inum_elem name p u).0
            ≡ or_entry
                (path_to_inum_elem name p s).0
                (equal_strings 14 0 name (di_ent_c (path_basename path) new))
                new)
sfs_create-path_to_inum_elem path p n d free s missing parent le dir clear room isfree beyond
      reserved slots =
    let r : ℤ × ℤ × Sys = path_to_inum path s in
    let s₁ : Sys = record s { dir_list = r.2.dir_list } in
    let found : r ≡ (negsuc 0, pos p, s₁) =
      ap (λ (a : ℤ). (a, r.1, r.2)) missing
      ∙ (ap (λ (a : ℤ). (negsuc 0, a, r.2)) parent
          ∙ ap (λ (t : Sys). (negsuc 0, pos p, t)) (path_to_inum-Quiet path s)) in
    let dir₁ = IsDir-dirs s p n d r.2.dir_list dir in
    let (u, new, d', result, free_before, err, dir', names) =
      sfs_create-found path p n d free s s₁ found le dir₁ clear room isfree beyond reserved slots in
    (
      u,
      new,
      d',
      result,
      free_before,
      err,
      dir',
      λ name.
          names name
          ∙ ap
              (λ (a : ℤ).
                or_entry a (equal_strings 14 0 name (di_ent_c (path_basename path) new)) new)
              (path_to_inum_elem-same name p n d s s₁ le dir dir₁),
    )
