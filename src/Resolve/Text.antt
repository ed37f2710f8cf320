-- ===== src/Resolve/Text.antt =====
-- A text in memory is all that the string functions and the lookup of a name see of it.
use os_fuse.Base.{ℕ, zero, suc, ◌+◌, ◌*◌, ◌%◌, ◌≡◌, refl, ap, ◌∙◌, arith, List, [], ◌∷◌}
use mathlib.Core.Path.{subst}
use os_fuse.Memory.{Bytes, at, get_u8}
use os_fuse.CString.{equal_strings}
use os_fuse.State.{Sys}
use os_fuse.Inode.{dot}
use os_fuse.Listing.{dnode_listing}
use os_fuse.Resolve.{find_entry, path_to_inum_elem}
use os_fuse.Resolve.Names.{Spells}

-- The memory of a text.
unfoldable pub text : List ℕ → Bytes
text [] i = 0
text (c ∷ cs) zero = c
text (c ∷ cs) (suc i) = text cs i

pub Spells-text :
    (b g : Bytes) (o k : ℕ) (xs : List ℕ)
    → Spells b o xs
    → ((i : ℕ) → g (k + i) ≡ text xs i)
    → Spells g k xs
unfolding text get_u8
Spells-text b g o k [] h same = ap (λ (v : ℕ). v % 256) (ap g (omega arith) ∙ same 0)
Spells-text b g o k (x ∷ xs) h same =
    let first : g k ≡ x = ap g (omega arith) ∙ same 0 in
    (
      ap (λ (v : ℕ). v % 256) first ∙ (let e = h.0 in omega arith),
      Spells-text b g (o + 1) (k + 1) xs h.1 (λ i. ap g (omega arith) ∙ same (suc i)),
    )

pub Spells-at : (b : Bytes) (o i : ℕ) (xs : List ℕ) → Spells b (o + i) xs → Spells (at b o) i xs
unfolding get_u8
Spells-at b o i [] h = h
Spells-at b o i (x ∷ xs) h =
    (h.0, Spells-at b o (i + 1) xs (subst (λ (p : ℕ). Spells b p xs) (omega arith) h.1))

-- The string functions see the text alone.
pub equal_strings-Spells :
    (n i : ℕ) (a b c : Bytes) (xs : List ℕ)
    → Spells a i xs
    → Spells b i xs
    → equal_strings n i a c ≡ equal_strings n i b c
unfolding equal_strings
equal_strings-Spells zero i a b c xs h k = refl
equal_strings-Spells (suc n) i a b c [] h k = rw (h, k) refl
equal_strings-Spells (suc n) i a b c (x ∷ xs) h k =
    rw (h.0, k.0, equal_strings-Spells n (i + 1) a b c xs h.1 k.1) refl

find_entry-Spells :
    (k i : ℕ) (a b d : Bytes) (xs : List ℕ)
    → Spells a 0 xs
    → Spells b 0 xs
    → find_entry a d k i ≡ find_entry b d k i
unfolding find_entry
find_entry-Spells zero i a b d xs h l = refl
find_entry-Spells (suc k) i a b d xs h l =
    rw
      (
        equal_strings-Spells 14 0 a b (at d (i * 16)) xs h l,
        find_entry-Spells k (i + 1) a b d xs h l,
      )
      refl

pub path_to_inum_elem-Spells :
    (a b : Bytes) (dest : ℕ) (s : Sys) (xs : List ℕ)
    → Spells a 0 xs
    → Spells b 0 xs
    → path_to_inum_elem a dest s ≡ path_to_inum_elem b dest s
unfolding path_to_inum_elem
path_to_inum_elem-Spells a b dest s xs h l =
    let (size, listed) = dnode_listing dest s in
    rw
      (equal_strings-Spells 2 0 a b dot xs h l, find_entry-Spells size 0 a b listed.dir_list xs h l)
      refl
