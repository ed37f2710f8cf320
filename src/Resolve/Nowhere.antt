-- ===== src/Resolve/Nowhere.antt =====
-- Paths that lead through directories to a name that is not there.
use os_fuse.Base.{
  ℕ, ◌<◌, ◌≤◌, ◌≡◌, ◌%◌, ap, ◌∙◌, arith, false, ℤ, pos, negsuc, to_ushort, List, [], ◌∷◌, length,
  Bool,
}
use os_fuse.Memory.{Bytes}
use os_fuse.CString.{path_max, equal_strings}
use os_fuse.State.{Sys}
use os_fuse.Inode.{dot}
use os_fuse.Directory.Append.{IsDir, IsDir-dirs}
use os_fuse.Resolve.{path_to_inum, path_to_inum_elem}
use os_fuse.Resolve.Lookup.{names, path_to_inum_elem-IsDir, path_to_inum_elem-same}
use os_fuse.Resolve.Entries.{find_entry-miss}
use os_fuse.Resolve.Quiet.{path_to_inum_elem-Quiet}
use os_fuse.Resolve.Names.{AllNames, Spells}
use os_fuse.Resolve.Text.{text}
use os_fuse.Resolve.Trimmed.{path_text}
use os_fuse.Resolve.Whole.{descend, resolve, path_to_inum-resolve}

-- From directory `cur` on, each name but the last is found in the directory that the one before it
-- gave; the last is not "." and not the name of an entry of the last directory.
abbrev pub Nowhere : Sys → (name : List ℕ) → (more : List (List ℕ)) → (cur : ℕ) → Type 0
Nowhere s name [] cur =
    (2 ≤ cur)
    × (n : ℕ) × (d : Bytes) × IsDir s cur n d
    × (equal_strings 2 0 (text name) dot ≡ false)
    × ((j : ℕ) → j < n → names (text name) d j ≡ false)
Nowhere s name (next ∷ more) cur =
    (2 ≤ cur)
    × (n : ℕ) × (d : Bytes) × IsDir s cur n d
    × (inum : ℕ) × ((path_to_inum_elem (text name) cur s).0 ≡ pos inum)
    × Nowhere s next more inum

descend-Nowhere :
    (s : Sys) (name : List ℕ) (more : List (List ℕ)) (cur : ℕ) (g : Bytes)
    → Nowhere s name more cur
    → (descend name more (pos cur) (record s { dir_list = g })).0 ≡ negsuc 0
unfolding descend
descend-Nowhere s name [] cur g (le, n, d, dir, other, miss) =
    let t : Sys = record s { dir_list = g } in
    let short : cur % 65536 ≡ cur = omega (arith, dir.list.own.1) in
    ap (λ (c : ℕ). (path_to_inum_elem (text name) c t).0) short
    ∙ (path_to_inum_elem-IsDir (text name) cur n d t other le (IsDir-dirs s cur n d g dir)
        ∙ find_entry-miss (text name) d n 0 (λ j low high. miss j (omega arith)))
descend-Nowhere s name (next ∷ more) cur g (le, n, d, dir, inum, found, rest) =
    let t : Sys = record s { dir_list = g } in
    let short : cur % 65536 ≡ cur = omega (arith, dir.list.own.1) in
    let r : ℤ × Sys = path_to_inum_elem (text name) (to_ushort (pos cur)) t in
    let number : r.0 ≡ pos inum =
      ap (λ (c : ℕ). (path_to_inum_elem (text name) c t).0) short
      ∙ (path_to_inum_elem-same (text name) cur n d s t le dir (IsDir-dirs s cur n d g dir)
          ∙ found) in
    let quiet : r.1 ≡ record s { dir_list = r.1.dir_list } =
      path_to_inum_elem-Quiet (text name) (to_ushort (pos cur)) t in
    ap (λ (a : ℤ). (descend next more a r.1).0) number
    ∙ (ap (λ (u : Sys). (descend next more (pos inum) u).0) quiet
        ∙ descend-Nowhere s next more inum r.1.dir_list rest)

-- path_to_inum on the text of such a path.
pub path_to_inum-Nowhere :
    (path : Bytes) (name : List ℕ) (more : List (List ℕ)) (slashed : Bool) (s : Sys)
    → AllNames (name ∷ more)
    → length (path_text (name ∷ more) slashed) < path_max
    → Spells path 0 (path_text (name ∷ more) slashed)
    → Nowhere s name more 2
    → (path_to_inum path s).0 ≡ negsuc 0
unfolding resolve
path_to_inum-Nowhere path name more slashed s all short spells nowhere =
    ap (λ (r : ℤ × ℤ × Sys). r.0)
      (path_to_inum-resolve path (name ∷ more) slashed s all (omega arith) short spells)
    ∙ descend-Nowhere s name more 2 s.dir_list nowhere
