-- ===== src/Resolve/Lookup.antt =====
-- Looking a name up in a directory, and what dnode_append does to the lookups.
use os_fuse.Base.{
  ℕ, zero, suc, ◌+◌, ◌*◌, ◌<◌, ◌≤◌, ◌≡◌, refl, ap, ◌∙◌, sym, arith, Bool, Bool-cases, true, false,
  ◌&&◌, ltb-false, if◌then◌else◌, ℤ, pos, negsuc, is_neg, inl, inr,
}
use mathlib.Core.Path.{subst}
use os_fuse.Memory.{Bytes, at, get_u8, get_u16}
use os_fuse.Memory.Fields.{get_u8-cong, get_u16-cong}
use os_fuse.CString.{equal_strings}
use os_fuse.State.{Sys}
use os_fuse.Bitmap.Count.{free_inodes}
use os_fuse.Inode.{dot, dentry_max_size}
use os_fuse.Listing.{dir_layout, dnode_listing}
use os_fuse.Listing.Enough.{slots_needed}
use os_fuse.Directory.{dnode_append}
use os_fuse.Directory.Append.{IsDir, dnode_listing-IsDir, dnode_append-IsDir, longer}
use os_fuse.Resolve.{find_entry, path_to_inum_elem}

pub equal_strings-cong :
    (n i : ℕ) (a b c : Bytes)
    → ((x : ℕ) → i ≤ x → x < i + n → c x ≡ b x)
    → equal_strings n i a c ≡ equal_strings n i a b
unfolding equal_strings
equal_strings-cong zero i a b c same = refl
equal_strings-cong (suc n) i a b c same =
    let rest =
      equal_strings-cong n (i + 1) a b c (λ x low high. same x (omega arith) (omega arith)) in
    let here : get_u8 c i ≡ get_u8 b i = get_u8-cong c b i (same i (omega arith) (omega arith)) in
    rw (rest, here) refl

-- An entry that two arrays have in common.
abbrev pub names : Bytes → Bytes → ℕ → Bool
names path d i = equal_strings 14 0 path (at d (i * 16))

find_entry-cong :
    (path d g : Bytes) (k i : ℕ)
    → ((x : ℕ) → i * 16 ≤ x → x < (i + k) * 16 → g x ≡ d x)
    → find_entry path g k i ≡ find_entry path d k i
unfolding find_entry
find_entry-cong path d g zero i same = refl
find_entry-cong path d g (suc k) i same =
    let rest =
      find_entry-cong path d g k (i + 1) (λ x low high. same x (omega arith) (omega arith)) in
    let name : names path g i ≡ names path d i =
      equal_strings-cong 14 0 path (at d (i * 16)) (at g (i * 16))
        (λ x low high. same (i * 16 + x) (omega arith) (omega arith)) in
    let number : get_u16 (at g (i * 16)) 14 ≡ get_u16 (at d (i * 16)) 14 =
      get_u16-cong (at g (i * 16)) (at d (i * 16)) 14
        (same (i * 16 + 14) (omega arith) (omega arith))
        (same (i * 16 + 15) (omega arith) (omega arith)) in
    rw (name, number, rest) refl

-- The result `found` of a lookup, and one entry more behind the others.
abbrev pub or_entry : (found : ℤ) → Bool → ℕ → ℤ
or_entry found hit number = if is_neg found && hit then pos number else found

find_entry-snoc :
    (path d : Bytes) (k i j : ℕ)
    → i + k ≡ j
    → find_entry path d (suc k) i
      ≡ or_entry (find_entry path d k i) (names path d j) (get_u16 (at d (j * 16)) 14)
unfolding find_entry
find_entry-snoc path d zero i j e =
    let same : i ≡ j = omega arith in
    subst
      (λ (z : ℕ).
        find_entry path d 1 i ≡ or_entry (negsuc 0) (names path d z) (get_u16 (at d (z * 16)) 14))
      same refl
find_entry-snoc path d (suc k) i j e =
    let rest = find_entry-snoc path d k (i + 1) j (omega arith) in
    elim (Bool-cases (names path d i)) [ inl hit ↦ rw hit refl | inr miss ↦ rw (miss, rest) refl ]

pub path_to_inum_elem-dot :
    (path : Bytes) (dest : ℕ) (s : Sys)
    → equal_strings 2 0 path dot ≡ true
    → 2 ≤ dest
    → (path_to_inum_elem path dest s).0 ≡ pos dest
unfolding path_to_inum_elem
path_to_inum_elem-dot path dest s self le = rw (ltb-false dest 2 le, self) refl

pub path_to_inum_elem-find_entry :
    (path : Bytes) (dest : ℕ) (s : Sys)
    → equal_strings 2 0 path dot ≡ false
    → 2 ≤ dest
    → (path_to_inum_elem path dest s).0
      ≡ find_entry path (dnode_listing dest s).1.dir_list (dnode_listing dest s).0 0
unfolding path_to_inum_elem
path_to_inum_elem-find_entry path dest s other le = rw (ltb-false dest 2 le, other) refl

-- A lookup in a directory searches its entries.
pub path_to_inum_elem-IsDir :
    (path : Bytes) (dest n : ℕ) (d : Bytes) (s : Sys)
    → equal_strings 2 0 path dot ≡ false
    → 2 ≤ dest
    → IsDir s dest n d
    → (path_to_inum_elem path dest s).0 ≡ find_entry path d n 0
path_to_inum_elem-IsDir path dest n d s other le dir =
    let (pair, agree) = dnode_listing-IsDir s dest n d dir in
    let g : Bytes = (dnode_listing dest s).1.dir_list in
    let size : (dnode_listing dest s).0 ≡ n = ap (λ (r : ℕ × Sys). r.0) pair in
    path_to_inum_elem-find_entry path dest s other le
    ∙ (ap (λ (k : ℕ). find_entry path g k 0) size
        ∙ find_entry-cong path d g n 0 (λ x low high. agree x (omega arith)))

-- Lookups depend on the entries alone.
pub path_to_inum_elem-same :
    (path : Bytes) (dest n : ℕ) (d : Bytes) (s t : Sys)
    → 2 ≤ dest
    → IsDir s dest n d
    → IsDir t dest n d
    → (path_to_inum_elem path dest t).0 ≡ (path_to_inum_elem path dest s).0
path_to_inum_elem-same path dest n d s t le dir dir' =
    elim (Bool-cases (equal_strings 2 0 path dot)) [
      | inl self ↦
          path_to_inum_elem-dot path dest t self le
          ∙ sym (path_to_inum_elem-dot path dest s self le)
      | inr other ↦
          path_to_inum_elem-IsDir path dest n d t other le dir'
          ∙ sym (path_to_inum_elem-IsDir path dest n d s other le dir)
    ]

-- Let inode `inum`, not 0 or 1, be a directory of `n` entries, no error recorded, one entry more
-- within the limit, and enough inodes free for the slots that the longer list needs. Then a lookup
-- of any name in the directory after dnode_append gives what it gave before, and the number of the
-- new entry if it gave none and the new entry has that name.
pub path_to_inum_elem-dnode_append :
    (path : Bytes) (inum n : ℕ) (d item : Bytes) (s : Sys)
    → 2 ≤ inum
    → IsDir s inum n d
    → s.errno ≡ pos 0
    → n + 1 < dentry_max_size
    → slots_needed dir_layout (n + 1) ≤ slots_needed dir_layout n + free_inodes s.disk
    → (path_to_inum_elem path inum (dnode_append (pos inum) item s)).0
      ≡ or_entry (path_to_inum_elem path inum s).0 (equal_strings 14 0 path item) (get_u16 item 14)
path_to_inum_elem-dnode_append path inum n d item s le dir clear room slots =
    let t : Sys = dnode_append (pos inum) item s in
    let d' : Bytes = longer inum n d item s dir clear room slots in
    let (dir', old, new, _) = dnode_append-IsDir inum n d item s dir clear room slots in
    elim (Bool-cases (equal_strings 2 0 path dot)) [
      | inl self ↦
          rw (path_to_inum_elem-dot path inum t self le, path_to_inum_elem-dot path inum s self le)
            refl
      | inr other ↦
          (let one : n + 1 ≡ suc n = omega arith in
            let name : names path d' n ≡ equal_strings 14 0 path item =
              equal_strings-cong 14 0 path item (at d' (n * 16))
                (λ x low high. new x (omega arith)) in
            let number : get_u16 (at d' (n * 16)) 14 ≡ get_u16 item 14 =
              get_u16-cong (at d' (n * 16)) item 14 (new 14 (omega arith)) (new 15 (omega arith)) in
            let before = path_to_inum_elem-IsDir path inum n d s other le dir in
            path_to_inum_elem-IsDir path inum (n + 1) d' t other le dir'
            ∙ (ap (λ (k : ℕ). find_entry path d' k 0) one
                ∙ (find_entry-snoc path d' n 0 n (omega arith)
                    ∙ (ap (λ (r : ℤ). or_entry r (names path d' n) (get_u16 (at d' (n * 16)) 14))
                          (find_entry-cong path d d' n 0 (λ x low high. old x (omega arith))
                            ∙ sym before)
                        ∙ rw (name, number) refl))))
    ]
