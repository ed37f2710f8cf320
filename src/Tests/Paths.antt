-- ===== src/Tests/Paths.antt =====
-- The theorems on paths and names, applied to a disk with an empty root and one free block.
use os_fuse.Base.{
  ℕ, zero, suc, ◌+◌, ◌*◌, ◌≤◌, ◌≡◌, refl, ap, ◌∙◌, ◌%◌, arith, true, false, not, ◌&&◌, ltb, ◌==◌,
  if◌then◌else◌, pos, negsuc, [], ◌∷◌,
}
use mathlib.Core.Bool.{false≢true}
use os_fuse.Memory.{Bytes, at, memcpy, object, get_u8, get_u16, put_u8, put_u16}
use os_fuse.CString.{path_max, strlen, strrchr, equal_strings}
use os_fuse.State.{Sys, block_read, block_write}
use os_fuse.Inode.{
  slot_load, slot_dump, dnode_init, di_ent_c, dot, dot_dot, fentry_max_size, dentry_max_size,
}
use os_fuse.Bitmap.Laws.{is_free}
use os_fuse.Listing.{fnode_listing, dnode_listing}
use os_fuse.Listing.Bounds.{listing_bounds}
use os_fuse.Directory.{dnode_append, dnode_remove}
use os_fuse.Directory.Append.{IsDir}
use os_fuse.Directory.Create.{first_entries, dnode_init-IsDir}
use os_fuse.Directory.Remove.{is_named, Removed}
use os_fuse.Resolve.{path_basename, path_to_inum, path_to_inum_elem}
use os_fuse.Resolve.Lookup.{names}
use os_fuse.Resolve.Entries.{Distinct, Ended}
use os_fuse.Resolve.Whole.{resolve, path_to_inum-resolve}
use os_fuse.Resolve.Removed.{path_to_inum_elem-dnode_remove}
use os_fuse.Resolve.Unique.{dnode_append-Distinct, Long}
use os_fuse.Sfs.{sfs_create}
use os_fuse.Base.{length, ◌≢◌}
use os_fuse.Sfs.{sfs_readdir}
use os_fuse.Sfs.Readdir.{AllFound, is_listed, sfs_readdir-path_to_inum_elem}
use os_fuse.Sfs.Long.{sfs_create-Long}
use os_fuse.Tests.Lookups.{name_a}
use os_fuse.Tests.Creation.{
  path_a, bare, small, used, root_used, small_errno, small-IsFree, few_slots, some_free,
}

path_to_inum-resolve_example : path_to_inum path_a small ≡ resolve ((b'a' ∷ []) ∷ []) small
unfolding path_max get_u8
path_to_inum-resolve_example =
    path_to_inum-resolve path_a ((b'a' ∷ []) ∷ []) false small
      ((omega arith, (λ e. absurd (omega (arith, e)), λ e. absurd (omega (arith, e)), tt)), tt)
      (omega arith) (omega arith) (refl, (refl, refl))

pub root : IsDir small 2 2 (first_entries 2 2)
root = (dnode_init-IsDir 2 2 bare (omega arith) root_used).0

root-Distinct : Distinct (first_entries 2 2) 2
unfolding equal_strings get_u8 memcpy object put_u8 put_u16
root-Distinct zero zero l l' h = refl
root-Distinct zero (suc zero) l l' h = absurd (false≢true h)
root-Distinct (suc zero) zero l l' h = absurd (false≢true h)
root-Distinct (suc zero) (suc zero) l l' h = refl
root-Distinct (suc (suc j)) k l l' h = absurd (omega arith)
root-Distinct j (suc (suc k)) l l' h = absurd (omega arith)

root-Ended : Ended (first_entries 2 2) 2
unfolding equal_strings get_u8 memcpy object put_u8 put_u16
root-Ended zero l = refl
root-Ended (suc zero) l = refl
root-Ended (suc (suc j)) l = absurd (omega arith)

dot_dot_named : is_named dot_dot (first_entries 2 2) 1 ≡ true
unfolding equal_strings get_u8 memcpy object put_u8 put_u16
dot_dot_named = refl

path_to_inum_elem-dnode_remove_example :
    let t = dnode_remove (pos 2) dot_dot small in
    (d' : Bytes) × Removed 2 2 1 (first_entries 2 2) small t d'
    × Distinct d' 1
    × Ended d' 1
    × ((name : Bytes)
        → (path_to_inum_elem name 2 t).0 ≡ (
            if not (equal_strings 2 0 name dot) && names name (first_entries 2 2) 1
            then negsuc 0
            else (path_to_inum_elem name 2 small).0))
path_to_inum_elem-dnode_remove_example =
    path_to_inum_elem-dnode_remove 2 2 1 (first_entries 2 2) dot_dot small (omega arith) root
      root-Distinct root-Ended small_errno (omega arith) dot_dot_named

name_a_missing : (path_to_inum_elem name_a 2 small).0 ≡ negsuc 0
unfolding path_to_inum_elem path_max get_u8 strlen equal_strings put_u8 dnode_listing get_u16
    slot_load object block_read dnode_init slot_dump block_write memcpy put_u16
name_a_missing = refl

name_a_ends : get_u8 name_a 1 ≡ 0
unfolding get_u8
name_a_ends = refl

dnode_append-Distinct_example :
    let t = dnode_append (pos 2) (di_ent_c name_a 3) small in
    (d' : Bytes) × IsDir t 2 3 d'
    × Distinct d' 3
    × Ended d' 3
    × ((path_to_inum_elem name_a 2 t).0 ≡ pos 3)
dnode_append-Distinct_example =
    dnode_append-Distinct name_a 2 2 3 (first_entries 2 2) small (omega arith) root root-Distinct
      root-Ended (1, omega arith, name_a_ends) name_a_missing (omega arith) small_errno
      (omega arith) (omega (arith, few_slots.0, few_slots.1))

-- A slash and fourteen letters.
abbrev path_long : Bytes
path_long i = if i == 0 then b'/' else if ltb i 15 then b'a' else 0

long_missing : (path_to_inum path_long small).0 ≡ negsuc 0
unfolding path_to_inum path_max get_u8 strlen equal_strings put_u8 dnode_listing get_u16 slot_load
    object block_read dnode_init slot_dump block_write memcpy put_u16
long_missing = refl

long_parent : (path_to_inum path_long small).1 ≡ pos 2
unfolding path_to_inum path_max get_u8 strlen equal_strings put_u8 dnode_listing get_u16 slot_load
    object block_read dnode_init slot_dump block_write memcpy put_u16
long_parent = refl

long_name : at path_long 1 ≡ path_basename path_long
unfolding path_basename strrchr path_max get_u8
long_name = refl

long : Long (path_basename path_long)
unfolding get_u8
long x lt e =
    let same : path_long (1 + x) % 256 ≡ 0 = ap (λ (b : Bytes). get_u8 b x) long_name ∙ e in
    let letter : path_long (1 + x) ≡ b'a' = ground arith in omega (arith, same, letter)

sfs_create-Long_example :
    (u : Sys) × (new : ℕ) × (d' : Bytes) × (sfs_create path_long small ≡ (pos 0, u))
    × (is_free small.disk new ≡ true)
    × IsDir u 2 3 d'
    × ((path_to_inum_elem (path_basename path_long) 2 u).0 ≡ negsuc 0)
sfs_create-Long_example =
    sfs_create-Long path_long 2 2 (first_entries 2 2) (1025 ∷ []) small long root-Ended long_missing
      long_parent (omega arith) root small_errno (omega arith) small-IsFree (λ x h. ground arith)
      used.0 (omega (arith, few_slots.0, few_slots.1, some_free))

listing_bounds_example :
    ((x : ℕ) → fentry_max_size * 4 ≤ x → (fnode_listing 2 small).1.file_list x ≡ small.file_list x)
    × ((x : ℕ) → dentry_max_size * 16 ≤ x → (dnode_listing 2 small).1.dir_list x ≡ small.dir_list x)
listing_bounds_example = listing_bounds 2 small

-- A slash alone.
abbrev path_root : Bytes
path_root i = if i == 0 then b'/' else 0

root_number : (path_to_inum path_root small).0 ≡ pos 2
unfolding path_to_inum path_max get_u8 strlen put_u8
root_number = refl

sfs_readdir-path_to_inum_elem_example :
    let (result, filled, _) = sfs_readdir path_root small in
    (result ≡ pos 0)
    × (length filled ≡ 2)
    × AllFound small 2 filled
    × ((name : Bytes)
        → equal_strings 2 0 name dot ≡ false
        → (path_to_inum_elem name 2 small).0 ≢ negsuc 0
        → is_listed name filled ≡ true)
sfs_readdir-path_to_inum_elem_example =
    sfs_readdir-path_to_inum_elem path_root 2 2 (first_entries 2 2) small root_number (omega arith)
      root
