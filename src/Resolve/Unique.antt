-- ===== src/Resolve/Unique.antt =====
-- A directory has no two entries of one name: dnode_append keeps this, where the new name is not
-- found.
use os_fuse.Base.{
  ℕ, zero, suc, ◌+◌, ◌*◌, ◌<◌, ◌≤◌, ◌≡◌, ◌≢◌, refl, ap, ◌∙◌, sym, arith, Bool-cases, true, false,
  pos, negsuc, inl, inr,
}
use mathlib.Core.Bool.{false≢true}
use native.Mathlib.Decide.{ℕ_discrete}
use os_fuse.Memory.{Bytes, zeros, at, get_u8, get_u16, put_u8, put_u16, memcpy}
use os_fuse.Memory.Fields.{get_u8-cong, get_u16-put_u16}
use os_fuse.CString.{equal_strings}
use os_fuse.CString.Compare.{
  equal_strings_comm, equal_strings_trans, equal_strings_longer, equal_strings-copy,
  equal_strings-long, equal_strings-cong_left,
}
use os_fuse.State.{Sys}
use os_fuse.Bitmap.Count.{free_inodes}
use os_fuse.Inode.{di_ent_c, dot, dentry_max_size}
use os_fuse.Listing.{dir_layout}
use os_fuse.Listing.Enough.{slots_needed}
use os_fuse.Directory.{dnode_append}
use os_fuse.Directory.Append.{IsDir, dnode_append-IsDir, longer}
use os_fuse.Resolve.{find_entry, path_to_inum_elem}
use os_fuse.Resolve.Lookup.{
  names, path_to_inum_elem-IsDir, path_to_inum_elem-dot, path_to_inum_elem-dnode_append,
}
use os_fuse.Resolve.Entries.{Distinct, Ended, find_entry-miss, find_entry-here, find_entry-next}

-- A name of at most 13 characters.
abbrev pub Short : Bytes → Type 0
Short name = (l : ℕ) × (l < 14) × (get_u8 name l ≡ 0)

-- A name of more than 13 characters.
abbrev pub Long : Bytes → Type 0
Long name = (x : ℕ) → x < 14 → get_u8 name x ≢ 0

di_ent_c-ended : (name : Bytes) (x : ℕ) → get_u8 (di_ent_c name x) 13 ≡ 0
unfolding di_ent_c get_u8 put_u8 put_u16
di_ent_c-ended name x = refl

di_ent_c-name : (name : Bytes) (x i : ℕ) → i < 13 → get_u8 (di_ent_c name x) i ≡ get_u8 name i
unfolding di_ent_c get_u8 put_u8 put_u16 memcpy
di_ent_c-name name x i lt = ground arith

di_ent_c-number : (name : Bytes) (x : ℕ) → x < 65536 → get_u16 (di_ent_c name x) 14 ≡ x
unfolding di_ent_c
di_ent_c-number name x lt = get_u16-put_u16 (put_u8 (memcpy zeros 0 name 14) 13 0) 14 x lt

-- A short name is that of its entry.
pub di_ent_c-Short :
    (name : Bytes) (x : ℕ) → Short name → equal_strings 14 0 name (di_ent_c name x) ≡ true
di_ent_c-Short name x (l, lt, stop) =
    equal_strings-copy 14 0 l name (di_ent_c name x) (omega arith) (omega arith) stop (λ i low high.
      elim (ℕ_discrete i 13) [
        | no ne ↦ di_ent_c-name name x i (omega (arith, ne))
        | yes e ↦
            (let end : i ≡ l = omega (arith, e) in
              ap (get_u8 (di_ent_c name x)) e
              ∙ (di_ent_c-ended name x ∙ (sym stop ∙ ap (get_u8 name) (sym end))))
      ])

-- A long name is not that of the entry that is made for it.
pub di_ent_c-Long :
    (name : Bytes) (x : ℕ) → Long name → equal_strings 14 0 name (di_ent_c name x) ≡ false
di_ent_c-Long name x long =
    equal_strings-long 13 0 name (di_ent_c name x) (λ i a b. long i (omega arith))
      (di_ent_c-ended name x)

-- A name that is not found is that of no entry.
names-missing :
    (name d : Bytes) (k i j : ℕ)
    → find_entry name d k i ≡ negsuc 0
    → i ≤ j
    → j < i + k
    → names name d j ≡ false
names-missing name d zero i j missing low high = absurd (omega arith)
names-missing name d (suc k) i j missing low high = elim (Bool-cases (names name d i)) [
  | inl hit ↦ cc (missing, find_entry-here name d k i hit)
  | inr miss ↦ elim (ℕ_discrete j i) [
    | yes e ↦ ap (names name d) e ∙ miss
    | no ne ↦
        names-missing name d k (i + 1) j (sym (find_entry-next name d k i miss) ∙ missing)
          (omega (arith, ne)) (omega arith)
  ]
]

-- Behind `n` entries of `d` the array `d'` has the entry of a name that none of them has.
module _ (name d d' : Bytes) (n x : ℕ) (short : Short name) (distinct : Distinct d n)
    (ended : Ended d n) (missing : (j : ℕ) → j < n → names name d j ≡ false)
    (old : (y : ℕ) → y < n * 16 → d' y ≡ d y)
    (new : (y : ℕ) → y < 16 → d' (n * 16 + y) ≡ di_ent_c name x y) where
  Ended-append : Ended d' (n + 1)
  Ended-append j lt = elim (ℕ_discrete j n) [
    | yes e ↦
        ap (λ (z : ℕ). get_u8 (at d' (z * 16)) 13) e
        ∙ (get_u8-cong (at d' (n * 16)) (di_ent_c name x) 13 (new 13 (omega arith))
            ∙ di_ent_c-ended name x)
    | no ne ↦
        get_u8-cong (at d' (j * 16)) (at d (j * 16)) 13 (old (j * 16 + 13) (omega (arith, ne)))
        ∙ ended j (omega (arith, ne))
  ]

  -- The new entry has another name than the old ones.
  stranger : (j : ℕ) → j < n → equal_strings 13 0 (di_ent_c name x) (at d (j * 16)) ≡ false
  stranger j lt = elim (Bool-cases (equal_strings 13 0 (di_ent_c name x) (at d (j * 16)))) [
    | inr miss ↦ miss
    | inl hit ↦
        (let all : equal_strings 14 0 (di_ent_c name x) (at d (j * 16)) ≡ true =
            equal_strings_longer 13 0 (di_ent_c name x) (at d (j * 16)) hit (di_ent_c-ended name x)
              (ended j lt) in
          let mine = equal_strings_comm 14 0 (di_ent_c name x) name ∙ di_ent_c-Short name x short in
          absurd (
            false≢true (
              sym (missing j lt)
              ∙ equal_strings_trans 14 0 (di_ent_c name x) name (at d (j * 16)) mine all)))
  ]

  entry_old :
      (j : ℕ) (c : Bytes)
      → j < n
      → equal_strings 13 0 (at d' (j * 16)) c ≡ equal_strings 13 0 (at d (j * 16)) c
  entry_old j c lt =
      equal_strings-cong_left 13 0 (at d (j * 16)) (at d' (j * 16)) c
        (λ y low high. old (j * 16 + y) (omega arith))

  entry_new :
      (j : ℕ) (c : Bytes)
      → j ≡ n
      → equal_strings 13 0 (at d' (j * 16)) c ≡ equal_strings 13 0 (di_ent_c name x) c
  entry_new j c e =
      equal_strings-cong_left 13 0 (di_ent_c name x) (at d' (j * 16)) c
        (λ y low high. ap (λ (z : ℕ). d' (z * 16 + y)) e ∙ new y (omega arith))

  -- An old entry and the new one.
  apart : (j k : ℕ) → j < n → k ≡ n → equal_strings 13 0 (at d' (k * 16)) (at d' (j * 16)) ≡ false
  apart j k lt e =
      entry_new k (at d' (j * 16)) e
      ∙ (equal_strings_comm 13 0 (di_ent_c name x) (at d' (j * 16))
          ∙ (entry_old j (di_ent_c name x) lt
              ∙ (equal_strings_comm 13 0 (at d (j * 16)) (di_ent_c name x) ∙ stranger j lt)))

  Distinct-append : Distinct d' (n + 1)
  Distinct-append j k lj lk same = elim (ℕ_discrete j n) [
    | yes e ↦ elim (ℕ_discrete k n) [
      | yes e' ↦ e ∙ sym e'
      | no ne ↦ absurd (false≢true (sym (apart k j (omega (arith, ne)) e) ∙ same))
    ]
    | no ne ↦ elim (ℕ_discrete k n) [
      | yes e' ↦ absurd (
          false≢true (
            sym (apart j k (omega (arith, ne)) e')
            ∙ (equal_strings_comm 13 0 (at d' (k * 16)) (at d' (j * 16)) ∙ same)))
      | no ne' ↦ distinct j k (omega (arith, ne)) (omega (arith, ne')) (
          sym (
            entry_old j (at d' (k * 16)) (omega (arith, ne))
            ∙ (equal_strings_comm 13 0 (at d (j * 16)) (at d' (k * 16))
                ∙ (entry_old k (at d (j * 16)) (omega (arith, ne'))
                    ∙ equal_strings_comm 13 0 (at d (k * 16)) (at d (j * 16)))))
          ∙ same)
    ]
  ]

not_dot : (name : Bytes) → Long name → equal_strings 2 0 name dot ≡ false
unfolding equal_strings get_u8 put_u8
not_dot name long =
    let first = long 0 (omega arith) in
    let second = long 1 (omega arith) in ground (arith, first, second)

-- Let inode `inum`, not 0 or 1, be a directory of `n` entries, no two of one name and each name of
-- at most 13 characters, and let a lookup of a name of at most 13 characters in it find nothing.
-- Let no error be recorded, one entry more be within the limit, and enough inodes be free for the
-- slots that the longer list needs. After dnode_append of that name with number `x` the directory
-- has one entry more, still no two of one name and each name of at most 13 characters, and the
-- lookup of the name finds `x`.
pub dnode_append-Distinct :
    (name : Bytes) (inum n x : ℕ) (d : Bytes) (s : Sys)
    → 2 ≤ inum
    → IsDir s inum n d
    → Distinct d n
    → Ended d n
    → Short name
    → (path_to_inum_elem name inum s).0 ≡ negsuc 0
    → x < 65536
    → s.errno ≡ pos 0
    → n + 1 < dentry_max_size
    → slots_needed dir_layout (n + 1) ≤ slots_needed dir_layout n + free_inodes s.disk
    → let t = dnode_append (pos inum) (di_ent_c name x) s in
      (d' : Bytes) × IsDir t inum (n + 1) d'
      × Distinct d' (n + 1)
      × Ended d' (n + 1)
      × ((path_to_inum_elem name inum t).0 ≡ pos x)
dnode_append-Distinct name inum n x d s le dir distinct ended short missing small clear room slots =
    let item : Bytes = di_ent_c name x in
    let d' : Bytes = longer inum n d item s dir clear room slots in
    let (dir', old, new, _) = dnode_append-IsDir inum n d item s dir clear room slots in
    let other : equal_strings 2 0 name dot ≡ false =
      elim (Bool-cases (equal_strings 2 0 name dot)) [
        | inr miss ↦ miss
        | inl self ↦ cc (missing, path_to_inum_elem-dot name inum s self le)
      ] in
    let none : ((j : ℕ) → j < n → names name d j ≡ false) = λ j lt.
      names-missing name d n 0 j
        (sym (path_to_inum_elem-IsDir name inum n d s other le dir) ∙ missing) (omega arith)
        (omega arith) in
    (
      d',
      dir',
      Distinct-append name d d' n x short distinct ended none old new,
      Ended-append name d d' n x short distinct ended none old new,
      path_to_inum_elem-dnode_append name inum n d item s le dir clear room slots
          ∙ (rw (missing, di_ent_c-Short name x short, di_ent_c-number name x small) refl),
    )

-- A lookup of a name of more than 13 characters finds nothing in a directory whose names have at
-- most 13 characters.
pub path_to_inum_elem-Long :
    (name : Bytes) (inum n : ℕ) (d : Bytes) (s : Sys)
    → 2 ≤ inum
    → IsDir s inum n d
    → Ended d n
    → Long name
    → (path_to_inum_elem name inum s).0 ≡ negsuc 0
path_to_inum_elem-Long name inum n d s le dir ended long =
    path_to_inum_elem-IsDir name inum n d s (not_dot name long) le dir
    ∙ find_entry-miss name d n 0 (λ j low high.
      equal_strings-long 13 0 name (at d (j * 16)) (λ x a b. long x (omega arith))
        (ended j (omega arith)))
