-- ===== src/Resolve/Quiet.antt =====
-- path_to_inum only reads: of the state it changes the static array of dnode_listing alone.
use os_fuse.Base.{
  ℕ, zero, suc, ◌≡◌, refl, ◌∙◌, ap, Bool-cases, inl, inr, if◌then◌else◌, ◌==◌, ltb, to_ushort, ℤ,
  pos, ◌-◌,
}
use os_fuse.Memory.{Bytes, get_u8, put_u8, at}
use os_fuse.State.{Sys}
use os_fuse.CString.{equal_strings, slash, path_max, strlen}
use os_fuse.Inode.{dot}
use os_fuse.Listing.{dnode_listing}
use os_fuse.Resolve.{Walk, walk_step, walk, path_to_inum_elem, path_to_inum}

-- The states agree but for the array of directory entries.
abbrev pub Quiet : Sys → Sys → Type 0
Quiet s t = t ≡ record s { dir_list = t.dir_list }

Quiet-trans : (s t u : Sys) → Quiet s t → Quiet t u → Quiet s u
Quiet-trans s t u h k = k ∙ ap (λ (z : Sys). record z { dir_list = u.dir_list }) h

dnode_listing-Quiet : (inum : ℕ) (s : Sys) → Quiet s (dnode_listing inum s).1
unfolding dnode_listing
dnode_listing-Quiet inum s = refl

pub path_to_inum_elem-Quiet :
    (path : Bytes) (dest : ℕ) (s : Sys) → Quiet s (path_to_inum_elem path dest s).1
unfolding path_to_inum_elem
path_to_inum_elem-Quiet path dest s = elim (Bool-cases (ltb dest 2)) [
  | inl h ↦ rw h refl
  | inr h ↦ elim (Bool-cases (equal_strings 2 0 path dot)) [
    | inl k ↦ rw (h, k) refl
    | inr k ↦ rw (h, k) (dnode_listing-Quiet dest s)
  ]
]

walk_step-Quiet : (w : Walk) → Quiet w.sys (walk_step w).sys
unfolding walk_step
walk_step-Quiet w = elim (Bool-cases (get_u8 w.path_dup w.tail == slash)) [
  | inl h ↦
      rw h
        (path_to_inum_elem-Quiet (at (put_u8 w.path_dup w.tail 0) w.head) (to_ushort w.inum) w.sys)
  | inr h ↦ rw h refl
]

walk-Quiet : (k : ℕ) (w : Walk) → Quiet w.sys (walk k w).sys
unfolding walk
walk-Quiet zero w = refl
walk-Quiet (suc k) w = elim (Bool-cases (get_u8 w.path_dup w.tail == 0)) [
  | inl h ↦ rw h refl
  | inr h ↦ rw h (
      Quiet-trans w.sys (walk_step w).sys (walk k (walk_step w)).sys (walk_step-Quiet w)
        (walk-Quiet k (walk_step w)))
]

-- Looking a path up leaves the disk, the superblock's buffers, the error number and the array of
-- block numbers as they were, whatever the path and the disk hold.
pub path_to_inum-Quiet : (path : Bytes) (s : Sys) → Quiet s (path_to_inum path s).2
unfolding path_to_inum
path_to_inum-Quiet path s =
    let last : ℕ = strlen path - 1 in
    let path_dup : Bytes = if get_u8 path last == slash then put_u8 path last 0 else path in
    let start : Walk = record { path_dup = path_dup; head = 1; tail = 1; inum = pos 2; sys = s } in
    let w : Walk = walk path_max start in
    let seen = path_to_inum_elem-Quiet (at w.path_dup w.head) (to_ushort w.inum) w.sys in
    elim (Bool-cases (w.head == w.tail)) [
      | inl h ↦ rw h (walk-Quiet path_max start)
      | inr h ↦ rw h (Quiet-trans s w.sys _ (walk-Quiet path_max start) seen)
    ]

-- The results of path_to_inum on a path that is found.
pub path_to_inum-found :
    (path : Bytes) (inum : ℕ) (s : Sys)
    → (path_to_inum path s).0 ≡ pos inum
    → let r = path_to_inum path s in r ≡ (pos inum, r.1, record s { dir_list = r.2.dir_list })
path_to_inum-found path inum s number =
    let r : ℤ × ℤ × Sys = path_to_inum path s in
    ap (λ (a : ℤ). (a, r.1, r.2)) number
    ∙ ap (λ (t : Sys). (pos inum, r.1, t)) (path_to_inum-Quiet path s)
