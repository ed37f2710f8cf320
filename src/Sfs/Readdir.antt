-- ===== src/Sfs/Readdir.antt =====
-- sfs_readdir against the lookup of names.
use os_fuse.Base.{
  ℕ, zero, suc, ◌+◌, ◌*◌, ◌<◌, ◌≤◌, ◌≡◌, ◌≢◌, ◌%◌, refl, ap, ◌∙◌, sym, arith, Bool, Bool-cases,
  true, false, inl, inr, ◌||◌, ltb-true, ℤ, pos, negsuc, is_neg, to_ushort, if◌then◌else◌, List, [],
  ◌∷◌, length,
}
use mathlib.Core.Path.{subst}
use mathlib.Core.Bool.{false≢true}
use os_fuse.Memory.{Bytes, at, object}
use os_fuse.CString.{equal_strings}
use os_fuse.CString.Compare.{equal_strings-cong_left, equal_strings_comm}
use os_fuse.State.{Sys, enoent}
use os_fuse.Inode.{dot}
use os_fuse.Listing.{dnode_listing}
use os_fuse.Directory.Append.{IsDir, IsDir-dirs, dnode_listing-IsDir}
use os_fuse.Resolve.{path_to_inum, path_to_inum_elem, find_entry}
use os_fuse.Resolve.Lookup.{
  names, path_to_inum_elem-dot, path_to_inum_elem-find_entry, path_to_inum_elem-same,
}
use os_fuse.Resolve.Entries.{number, find_entry-here, find_entry-next}
use os_fuse.Resolve.Quiet.{path_to_inum-found}
use os_fuse.Sfs.{sfs_readdir, entry_names}

-- Each of the names is found in directory `inum`.
abbrev pub AllFound : Sys → (inum : ℕ) → List Bytes → Type 0
AllFound s inum [] = Unit
AllFound s inum (name ∷ names) =
    ((x : ℕ) × ((path_to_inum_elem name inum s).0 ≡ pos x)) × AllFound s inum names

-- One of the names is the same for a lookup.
abbrev pub is_listed : Bytes → List Bytes → Bool
is_listed name [] = false
is_listed name (other ∷ names) = equal_strings 14 0 name other || is_listed name names

equal_strings_refl : (n i : ℕ) (a : Bytes) → equal_strings n i a a ≡ true
unfolding equal_strings
equal_strings_refl zero i a = refl
equal_strings_refl (suc n) i a = ground (arith, equal_strings_refl n (i + 1) a)

-- The name that filler gets for entry `j`.
entry_name : Bytes → ℕ → Bytes
entry_name d j = object (at d (j * 16)) 14

names-entry_name :
    (name d : Bytes) (j : ℕ) → equal_strings 14 0 name (entry_name d j) ≡ names name d j
unfolding entry_name object
names-entry_name name d j =
    equal_strings_comm 14 0 name (entry_name d j)
    ∙ (equal_strings-cong_left 14 0 (at d (j * 16)) (entry_name d j) name
          (λ x low high. rw (ltb-true x 14 (omega arith)) refl)
        ∙ equal_strings_comm 14 0 (at d (j * 16)) name)

find_entry-found :
    (name d : Bytes) (k i j : ℕ)
    → i ≤ j
    → j < i + k
    → names name d j ≡ true
    → (x : ℕ) × (find_entry name d k i ≡ pos x)
find_entry-found name d zero i j low high hit = absurd (omega arith)
find_entry-found name d (suc k) i j low high hit = elim (Bool-cases (names name d i)) [
  | inl here ↦ (number d i, find_entry-here name d k i here)
  | inr miss ↦
      let ne : i ≢ j = λ e. false≢true (sym miss ∙ (ap (names name d) e ∙ hit)) in
      let (x, found) = find_entry-found name d k (i + 1) j (omega (arith, ne)) (omega arith) hit in
      (x, find_entry-next name d k i miss ∙ found)
]

find_entry-listed :
    (name d : Bytes) (k i : ℕ)
    → find_entry name d k i ≢ negsuc 0
    → is_listed name (entry_names d k i) ≡ true
unfolding entry_names find_entry entry_name
find_entry-listed name d zero i found = absurd (found refl)
find_entry-listed name d (suc k) i found = elim (Bool-cases (names name d i)) [
  | inl here ↦ rw (names-entry_name name d i ∙ here) refl
  | inr miss ↦
      rw (names-entry_name name d i ∙ miss)
        (find_entry-listed name d k (i + 1) (λ e. found (find_entry-next name d k i miss ∙ e)))
]

length-entry_names : (d : Bytes) (k i : ℕ) → length (entry_names d k i) ≡ k
unfolding entry_names
length-entry_names d zero i = refl
length-entry_names d (suc k) i = let rest = length-entry_names d k (i + 1) in omega (arith, rest)

entry_names-AllFound :
    (s : Sys) (inum : ℕ) (d : Bytes) (k i n : ℕ)
    → i + k ≤ n
    → ((j : ℕ) → j < n → (x : ℕ) × ((path_to_inum_elem (entry_name d j) inum s).0 ≡ pos x))
    → AllFound s inum (entry_names d k i)
unfolding entry_names entry_name
entry_names-AllFound s inum d zero i n le found = tt
entry_names-AllFound s inum d (suc k) i n le found =
    (found i (omega arith), entry_names-AllFound s inum d k (i + 1) n (omega arith) found)

-- The names that dnode_listing gives, in the state that it was called in.
entry_name-found :
    (inum j : ℕ) (s : Sys)
    → 2 ≤ inum
    → let (n, t) = dnode_listing inum s in
      j < n → (x : ℕ) × ((path_to_inum_elem (entry_name t.dir_list j) inum s).0 ≡ pos x)
entry_name-found inum j s le lt =
    let (n, t) = dnode_listing inum s in
    let name : Bytes = entry_name t.dir_list j in
    elim (Bool-cases (equal_strings 2 0 name dot)) [
      | inl self ↦ (inum, path_to_inum_elem-dot name inum s self le)
      | inr other ↦
          let hit : names name t.dir_list j ≡ true =
            sym (names-entry_name name t.dir_list j) ∙ equal_strings_refl 14 0 name in
          let (x, found) = find_entry-found name t.dir_list n 0 j (omega arith) (omega arith) hit in
          (x, path_to_inum_elem-find_entry name inum s other le ∙ found)
    ]

-- sfs_readdir from the results of path_to_inum on.
from_path : ℤ × ℤ × Sys → ℤ × List Bytes × Sys
from_path (a, b, t) =
    let (size, listed) = dnode_listing (to_ushort a) t in
    if is_neg a then (enoent, [], t) else (pos 0, entry_names listed.dir_list size 0, listed)

sfs_readdir-from : (path : Bytes) (s : Sys) → sfs_readdir path s ≡ from_path (path_to_inum path s)
unfolding sfs_readdir from_path
sfs_readdir-from path s = refl

from_path-found :
    (inum : ℕ) (p : ℤ) (t : Sys)
    → inum < 65536
    → let (size, listed) = dnode_listing inum t in
      from_path (pos inum, p, t) ≡ (pos 0, entry_names listed.dir_list size 0, listed)
unfolding from_path
from_path-found inum p t lt = let short : inum % 65536 ≡ inum = omega arith in rw short refl

-- Let the path be found as a directory of `n` entries, not inode 0 or 1. Then sfs_readdir returns
-- 0 and hands `n` names to filler. Each of them is found by a lookup in the directory, and each
-- name but "." that a lookup in the directory finds is one of them.
pub sfs_readdir-path_to_inum_elem :
    (path : Bytes) (p n : ℕ) (d : Bytes) (s : Sys)
    → (path_to_inum path s).0 ≡ pos p
    → 2 ≤ p
    → IsDir s p n d
    → let (result, filled, _) = sfs_readdir path s in
      (result ≡ pos 0)
      × (length filled ≡ n)
      × AllFound s p filled
      × ((name : Bytes)
          → equal_strings 2 0 name dot ≡ false
          → (path_to_inum_elem name p s).0 ≢ negsuc 0
          → is_listed name filled ≡ true)
sfs_readdir-path_to_inum_elem path p n d s number le dir =
    let s₁ : Sys = record s { dir_list = (path_to_inum path s).2.dir_list } in
    let dir₁ = IsDir-dirs s p n d s₁.dir_list dir in
    let r : ℕ × Sys = dnode_listing p s₁ in
    let size : r.0 ≡ n = ap (λ (z : ℕ × Sys). z.0) (dnode_listing-IsDir s₁ p n d dir₁).0 in
    let g : Bytes = r.1.dir_list in
    let same : ((name : Bytes) → (path_to_inum_elem name p s₁).0 ≡ (path_to_inum_elem name p s).0) =
      λ name. path_to_inum_elem-same name p n d s s₁ le dir dir₁ in
    let run : sfs_readdir path s ≡ (pos 0, entry_names g r.0 0, r.1) =
      sfs_readdir-from path s
      ∙ (ap from_path (path_to_inum-found path p s number)
          ∙ from_path-found p _ s₁ (omega (arith, dir.list.own.1))) in
    subst
      (λ (z : ℤ × List Bytes × Sys).
        (z.0 ≡ pos 0)
        × (length z.1 ≡ n)
        × AllFound s p z.1
        × ((name : Bytes)
            → equal_strings 2 0 name dot ≡ false
            → (path_to_inum_elem name p s).0 ≢ negsuc 0
            → is_listed name z.1 ≡ true))
      (sym run)
      (
        refl,
        length-entry_names g r.0 0 ∙ size,
        entry_names-AllFound s p g r.0 0 r.0 (omega arith) (λ j lt.
            let (x, found) = entry_name-found p j s₁ le lt in
            (x, sym (same (entry_name g j)) ∙ found)),
        λ name other found.
            find_entry-listed name g r.0 0 (λ e.
              found (sym (same name) ∙ (path_to_inum_elem-find_entry name p s₁ other le ∙ e))),
      )
