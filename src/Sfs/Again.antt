-- ===== src/Sfs/Again.antt =====
-- sfs_create of a path, and the same path afterwards.
use os_fuse.Base.{
  Bool, ℕ, ◌+◌, ◌<◌, ◌≤◌, ◌≡◌, refl, ap, ◌∙◌, sym, arith, ltb-true, true, false, ℤ, pos, negsuc,
  is_neg, List, [], ◌∷◌, has, length,
}
use mathlib.Core.Path.{subst}
use mathlib.Core.Bool.{false≢true}
use mathlib.Core.List.{◌++◌, append-nil}
use os_fuse.Memory.{Bytes}
use os_fuse.CString.{path_max, slash, equal_strings}
use os_fuse.State.{Sys, eexist}
use os_fuse.FreeBlock.Chain.{IsFree}
use os_fuse.Bitmap.Laws.{is_free}
use os_fuse.Bitmap.Count.{free_inodes}
use os_fuse.Inode.{di_ent_c, dot, dentry_max_size}
use os_fuse.Listing.{dir_layout}
use os_fuse.Listing.Enough.{slots_needed}
use os_fuse.Directory.Append.{IsDir}
use os_fuse.Resolve.{path_basename, path_to_inum, path_to_inum_elem}
use os_fuse.Resolve.Quiet.{path_to_inum-Quiet}
use os_fuse.Resolve.Lookup.{or_entry, names, path_to_inum_elem-IsDir}
use os_fuse.Resolve.Entries.{find_entry-miss}
use native.Mathlib.Decide.{ℕ_discrete}
use os_fuse.Resolve.Names.{AllNames, Spells}
use os_fuse.Resolve.Text.{text}
use os_fuse.Resolve.Trimmed.{path_text}
use os_fuse.Resolve.Whole.{descend, resolve, path_to_inum-resolve}
use os_fuse.Resolve.Basename.{text-di_ent_c}
use os_fuse.Sfs.{sfs_create, sfs_mkdir, sfs_open, exists}
use os_fuse.Sfs.Create.{sfs_create-path_to_inum_elem}
use os_fuse.Sfs.Missing.{Refused}

path_text-one : (name : List ℕ) → path_text (name ∷ []) false ≡ slash ∷ name
path_text-one name =
    append-nil (slash ∷ (name ++ [])) ∙ ap (λ (xs : List ℕ). slash ∷ xs) (append-nil name)

-- A path of one name is looked up in the root.
path_to_inum-one :
    (path : Bytes) (name : List ℕ) (s : Sys)
    → AllNames (name ∷ [])
    → length name < 14
    → Spells path 0 (slash ∷ name)
    → ((path_to_inum path s).0 ≡ (path_to_inum_elem (text name) 2 s).0)
      × ((path_to_inum path s).1 ≡ pos 2)
unfolding resolve descend path_max
path_to_inum-one path name s all lt spells =
    let one = path_text-one name in
    let same =
      path_to_inum-resolve path (name ∷ []) false s all (omega arith)
        (let long = ap length one in omega (arith, long, lt))
        (subst (λ (xs : List ℕ). Spells path 0 xs) (sym one) spells) in
    (ap (λ (r : ℤ × ℤ × Sys). r.0) same, ap (λ (r : ℤ × ℤ × Sys). r.1) same)

-- What create, mkdir and open do on a path that is found.
present :
    (path : Bytes) (inum : ℕ) (s : Sys)
    → 0 < inum
    → (path_to_inum path s).0 ≡ pos inum
    → Refused eexist s (sfs_create path s)
      × Refused eexist s (sfs_mkdir path s)
      × ((sfs_open path s).0 ≡ pos 0)
unfolding sfs_create sfs_mkdir sfs_open
present path inum s gt number =
    let q = path_to_inum-Quiet path s in
    let found : exists (path_to_inum path s).0 ≡ true = ap exists number ∙ ltb-true 0 inum gt in
    rw (found, ap is_neg number) ((refl, q), (refl, q), refl)

-- Let a path be the text of one name of at most 13 characters with a slash in front, and let the
-- name not be "." and not be that of one of the `n` entries of the root, which has room for one
-- more. Let no error be recorded, let the free blocks lie behind the bitmap and inode 0 be
-- reserved, and let an inode be free besides those that the longer list of the root needs. Then
-- sfs_create returns 0 and takes an inode that was free, and from then on the path leads to that
-- inode: sfs_open returns 0, and sfs_create and sfs_mkdir each return -EEXIST and change the
-- static array of directory entries alone.
pub sfs_create-again :
    (path : Bytes) (name : List ℕ) (n : ℕ) (d : Bytes) (free : List ℕ) (s : Sys)
    → AllNames (name ∷ [])
    → length name < 14
    → Spells path 0 (slash ∷ name)
    → IsDir s 2 n d
    → equal_strings 2 0 (text name) dot ≡ false
    → ((j : ℕ) → j < n → names (text name) d j ≡ false)
    → s.errno ≡ pos 0
    → n + 1 < dentry_max_size
    → IsFree s.disk free
    → ((x : ℕ) → has x free ≡ true → 1024 < x)
    → is_free s.disk 0 ≡ false
    → 1 + slots_needed dir_layout (n + 1) ≤ slots_needed dir_layout n + free_inodes s.disk
    → (u : Sys) × (new : ℕ) × (sfs_create path s ≡ (pos 0, u))
      × (is_free s.disk new ≡ true)
      × ((path_to_inum path u).0 ≡ pos new)
      × Refused eexist u (sfs_create path u)
      × Refused eexist u (sfs_mkdir path u)
      × ((sfs_open path u).0 ≡ pos 0)
sfs_create-again path name n d free s all lt spells dir other miss clear room isfree beyond reserved
      slots =
    let (before, parent) = path_to_inum-one path name s all lt spells in
    let nothing : (path_to_inum_elem (text name) 2 s).0 ≡ negsuc 0 =
      path_to_inum_elem-IsDir (text name) 2 n d s other (omega arith) dir
      ∙ find_entry-miss (text name) d n 0 (λ j low high. miss j (omega arith)) in
    let (u, new, d', result, free_before, _, dir', lookups) =
      sfs_create-path_to_inum_elem path 2 n d free s (before ∙ nothing) parent (omega arith) dir
        clear room isfree beyond reserved slots in
    let number : (path_to_inum path u).0 ≡ pos new =
      (path_to_inum-one path name u all lt spells).0
      ∙ (lookups (text name)
          ∙ (ap
                (λ (a : ℤ).
                  or_entry a (equal_strings 14 0 (text name) (di_ent_c (path_basename path) new))
                    new)
                nothing
              ∙ ap (λ (hit : Bool). or_entry (negsuc 0) hit new)
                  (text-di_ent_c path name new lt all.0.1 spells))) in
    let positive : 0 < new = elim (ℕ_discrete new 0) [
      | no ne ↦ omega (arith, ne)
      | yes zeroth ↦
          absurd (false≢true (sym reserved ∙ (ap (is_free s.disk) (sym zeroth) ∙ free_before)))
    ] in
    let (again, directory, opened) = present path new u positive number in
    (u, new, result, free_before, number, again, directory, opened)
