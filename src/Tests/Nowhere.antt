-- ===== src/Tests/Nowhere.antt =====
-- The theorems on paths that lead nowhere, and on a path that is created, applied to "/a" on a disk
-- with an empty root.
use os_fuse.Base.{ℕ, zero, suc, ◌<◌, ◌≡◌, refl, arith, true, false, pos, List, [], ◌∷◌}
use os_fuse.Memory.{zeros, memcpy, object, get_u8, put_u8, put_u16}
use os_fuse.CString.{path_max, equal_strings}
use os_fuse.State.{Sys, enoent, eexist}
use os_fuse.Bitmap.Laws.{is_free}
use os_fuse.Inode.{dot}
use os_fuse.Directory.Create.{first_entries}
use os_fuse.Resolve.{path_to_inum}
use os_fuse.Resolve.Lookup.{names}
use os_fuse.Resolve.Names.{AllNames}
use os_fuse.Resolve.Text.{text}
use os_fuse.Resolve.Nowhere.{Nowhere}
use os_fuse.Sfs.{
  sfs_unlink, sfs_open, sfs_opendir, sfs_read, sfs_write, sfs_truncate, sfs_create, sfs_mkdir,
}
use os_fuse.Sfs.Missing.{Refused, sfs_missing}
use os_fuse.Sfs.Again.{sfs_create-again}
use os_fuse.Tests.Creation.{path_a, small, used, small_errno, small-IsFree, few_slots, some_free}
use os_fuse.Tests.Paths.{root}

abbrev letters : List ℕ
letters = b'a' ∷ []

not_dot : equal_strings 2 0 (text letters) dot ≡ false
unfolding equal_strings get_u8 text put_u8
not_dot = refl

no_entry : (j : ℕ) → j < 2 → names (text letters) (first_entries 2 2) j ≡ false
unfolding equal_strings get_u8 text memcpy object put_u8 put_u16
no_entry zero lt = refl
no_entry (suc zero) lt = refl
no_entry (suc (suc j)) lt = absurd (omega arith)

letters_names : AllNames (letters ∷ [])
letters_names =
    ((omega arith, (λ e. absurd (omega (arith, e)), λ e. absurd (omega (arith, e)), tt)), tt)

nowhere : Nowhere small letters [] 2
nowhere = (omega arith, 2, first_entries 2 2, root, not_dot, no_entry)

sfs_missing_example :
    Refused enoent small (sfs_unlink path_a small)
    × Refused enoent small (sfs_open path_a small)
    × Refused enoent small (sfs_opendir path_a small)
    × (let (retstat, filled, t) = sfs_read path_a zeros 5 7 small in
        Refused enoent small (retstat, t) × (filled ≡ zeros))
    × Refused enoent small (sfs_write path_a zeros 5 7 small)
    × Refused enoent small (sfs_truncate path_a 7 small)
unfolding path_max get_u8
sfs_missing_example =
    sfs_missing path_a zeros 5 7 letters [] false small letters_names (omega arith)
      (refl, (refl, refl)) nowhere

sfs_create-again_example :
    (u : Sys) × (new : ℕ) × (sfs_create path_a small ≡ (pos 0, u))
    × (is_free small.disk new ≡ true)
    × ((path_to_inum path_a u).0 ≡ pos new)
    × Refused eexist u (sfs_create path_a u)
    × Refused eexist u (sfs_mkdir path_a u)
    × ((sfs_open path_a u).0 ≡ pos 0)
unfolding get_u8
sfs_create-again_example =
    sfs_create-again path_a letters 2 (first_entries 2 2) (1025 ∷ []) small letters_names
      (omega arith) (refl, (refl, refl)) root not_dot no_entry small_errno (omega arith)
      small-IsFree (λ x h. ground arith) used.0 (omega (arith, few_slots.0, few_slots.1, some_free))
