-- ===== src/Resolve/Along.antt =====
-- Paths that lead through directories to an inode, and what keeps them.
use os_fuse.Base.{
  ℕ, ◌<◌, ◌≤◌, ◌≡◌, ◌≢◌, ◌∉◌, ◌%◌, ap, ◌∙◌, sym, arith, true, false, ℤ, pos, to_ushort, List, [],
  ◌∷◌, has, length, Bool,
}
use os_fuse.Memory.{Bytes}
use os_fuse.CString.{path_max}
use os_fuse.State.{Sys}
use os_fuse.Bitmap.Laws.{is_free}
use os_fuse.Inode.{slot_load}
use os_fuse.Listing.{dir_layout}
use os_fuse.Listing.Frame.{Owned-mem, slot_limit}
use os_fuse.Listing.Store.{list_slots}
use os_fuse.Listing.Carry.{list_slots-kept}
use os_fuse.Directory.Append.{IsDir, IsDir-kept, IsDir-dirs}
use os_fuse.Resolve.{path_to_inum, path_to_inum_elem}
use os_fuse.Resolve.Lookup.{path_to_inum_elem-same}
use os_fuse.Resolve.Quiet.{path_to_inum_elem-Quiet}
use os_fuse.Resolve.Names.{AllNames, Spells}
use os_fuse.Resolve.Text.{text}
use os_fuse.Resolve.Trimmed.{path_text}
use os_fuse.Resolve.Whole.{descend, resolve, path_to_inum-resolve}

-- Slot 0 and the slots `xs` are not of the list of directory `inum`.
abbrev pub Outside : Sys → List ℕ → ℕ → Type 0
Outside s xs inum = (q : ℕ) → has q (list_slots dir_layout s inum) ≡ true → (q ≢ 0) × (q ∉ xs)

-- Each name is found in the directory that the one before it gave, from `cur` on, and the last
-- gives `inum`; the directories have no slot of `xs`.
abbrev pub Along : Sys → List ℕ → (inum : ℕ) → List (List ℕ) → (cur : ℕ) → Type 0
Along s xs inum [] cur = cur ≡ inum
Along s xs inum (name ∷ names) cur =
    (2 ≤ cur)
    × (k : ℕ) × (d : Bytes) × IsDir s cur k d
    × Outside s xs cur
    × (next : ℕ) × ((path_to_inum_elem (text name) cur s).0 ≡ pos next)
    × Along s xs inum names next

-- From `s` to `t`, slots in use outside `xs` keep their contents and stay in use.
abbrev pub Keeps : List ℕ → Sys → Sys → Type 0
Keeps xs s t =
    (q : ℕ)
    → q < slot_limit
    → is_free s.disk q ≡ false
    → q ≢ 0
    → q ∉ xs
    → (slot_load q t ≡ slot_load q s) × (is_free t.disk q ≡ false)

pub Along-kept :
    (s t : Sys) (xs : List ℕ) (inum : ℕ) (names : List (List ℕ)) (cur : ℕ)
    → Keeps xs s t
    → Along s xs inum names cur
    → Along t xs inum names cur
Along-kept s t xs inum [] cur keeps along = along
Along-kept s t xs inum (name ∷ names) cur keeps (le, k, d, dir, out, next, found, along) =
    let kept : ((q : ℕ)
        → has q (list_slots dir_layout s cur) ≡ true
        → (slot_load q t ≡ slot_load q s) × (is_free t.disk q ≡ false)) =
      λ q h.
        let (small, used) = Owned-mem s (list_slots dir_layout s cur) q dir.list.own h in
        let (ne, miss) = out q h in keeps q small used ne miss in
    let dir' = IsDir-kept s t cur k d kept dir in
    let same = list_slots-kept dir_layout s t cur (λ q h. (kept q h).0) in
    (
      le,
      k,
      d,
      dir',
      λ q h. out q (sym (ap (has q) same) ∙ h),
      next,
      path_to_inum_elem-same (text name) cur k d s t le dir dir' ∙ found,
      Along-kept s t xs inum names next keeps along,
    )

-- The lookups change the array of entries only.
descend-Along :
    (s : Sys) (xs : List ℕ) (inum : ℕ) (name : List ℕ) (names : List (List ℕ)) (cur : ℕ) (g : Bytes)
    → Along s xs inum (name ∷ names) cur
    → (descend name names (pos cur) (record s { dir_list = g })).0 ≡ pos inum
unfolding descend
descend-Along s xs inum name [] cur g (le, k, d, dir, out, next, found, last) =
    let t : Sys = record s { dir_list = g } in
    let short : cur % 65536 ≡ cur = omega (arith, dir.list.own.1) in
    ap (λ (c : ℕ). (path_to_inum_elem (text name) c t).0) short
    ∙ (path_to_inum_elem-same (text name) cur k d s t le dir (IsDir-dirs s cur k d g dir)
        ∙ (found ∙ ap pos last))
descend-Along s xs inum name (m ∷ names) cur g (le, k, d, dir, out, next, found, along) =
    let t : Sys = record s { dir_list = g } in
    let short : cur % 65536 ≡ cur = omega (arith, dir.list.own.1) in
    let r : ℤ × Sys = path_to_inum_elem (text name) (to_ushort (pos cur)) t in
    let number : r.0 ≡ pos next =
      ap (λ (c : ℕ). (path_to_inum_elem (text name) c t).0) short
      ∙ (path_to_inum_elem-same (text name) cur k d s t le dir (IsDir-dirs s cur k d g dir)
          ∙ found) in
    let quiet : r.1 ≡ record s { dir_list = r.1.dir_list } =
      path_to_inum_elem-Quiet (text name) (to_ushort (pos cur)) t in
    ap (λ (a : ℤ). (descend m names a r.1).0) number
    ∙ (ap (λ (u : Sys). (descend m names (pos next) u).0) quiet
        ∙ descend-Along s xs inum m names next r.1.dir_list along)

-- path_to_inum on the text of such a path.
pub path_to_inum-Along :
    (path : Bytes) (name : List ℕ) (names : List (List ℕ)) (slashed : Bool) (inum : ℕ) (xs : List ℕ)
    (s : Sys)
    → AllNames (name ∷ names)
    → length (path_text (name ∷ names) slashed) < path_max
    → Spells path 0 (path_text (name ∷ names) slashed)
    → Along s xs inum (name ∷ names) 2
    → (path_to_inum path s).0 ≡ pos inum
unfolding resolve
path_to_inum-Along path name names slashed inum xs s all short spells along =
    ap (λ (r : ℤ × ℤ × Sys). r.0)
      (path_to_inum-resolve path (name ∷ names) slashed s all (omega arith) short spells)
    ∙ descend-Along s xs inum name names 2 s.dir_list along
