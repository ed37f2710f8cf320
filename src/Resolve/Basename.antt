-- ===== src/Resolve/Basename.antt =====
-- The last name of a path of one name.
use os_fuse.Base.{
  ℕ, zero, suc, ◌+◌, ◌<◌, ◌≡◌, refl, true, ap, ◌∙◌, arith, ==-false, Option, none, some, List, [],
  ◌∷◌, length,
}
use os_fuse.Memory.{Bytes, at, get_u8}
use os_fuse.CString.{path_max, slash, last_index, strrchr, equal_strings}
use os_fuse.Inode.{di_ent_c}
use os_fuse.Resolve.{path_basename}
use os_fuse.Resolve.Names.{Letters, Spells}
use os_fuse.Resolve.Text.{text, Spells-text, Spells-at, equal_strings-Spells}
use os_fuse.Resolve.Unique.{di_ent_c-Short}

last_index-Letters :
    (k i : ℕ) (last : Option ℕ) (b : Bytes) (xs : List ℕ)
    → length xs < k
    → Letters xs
    → Spells b i xs
    → last_index k slash i last b ≡ last
unfolding last_index
last_index-Letters zero i last b xs lt letters spells = absurd (omega arith)
last_index-Letters (suc k) i last b [] lt letters spells = rw spells refl
last_index-Letters (suc k) i last b (x ∷ xs) lt (ne, other, letters) (here, spells) =
    rw (here, ==-false x 0 ne, ==-false x slash other)
      (last_index-Letters k (i + 1) last b xs (omega arith) letters spells)

last_index-slash :
    (k : ℕ) (b : Bytes) (xs : List ℕ)
    → length xs + 1 < k
    → Letters xs
    → Spells b 0 (slash ∷ xs)
    → last_index k slash 0 none b ≡ some 0
unfolding last_index
last_index-slash zero b xs lt letters spells = absurd (omega arith)
last_index-slash (suc k) b xs lt letters (here, spells) =
    rw here (last_index-Letters k 1 (some 0) b xs (omega arith) letters spells)

path_basename-slash :
    (path : Bytes) (name : List ℕ)
    → length name + 1 < path_max
    → Letters name
    → Spells path 0 (slash ∷ name)
    → path_basename path ≡ at path 1
unfolding path_basename strrchr
path_basename-slash path name lt letters spells =
    ap (λ (o : Option ℕ). elim o [ some i ↦ at path (i + 1) | none ↦ path ])
      (last_index-slash path_max path name lt letters spells)

Spells-end : (b : Bytes) (o : ℕ) (xs : List ℕ) → Spells b o xs → get_u8 b (o + length xs) ≡ 0
Spells-end b o [] h = ap (get_u8 b) (omega arith) ∙ h
Spells-end b o (x ∷ xs) h = ap (get_u8 b) (omega arith) ∙ Spells-end b (o + 1) xs h.1

-- A lookup of a name of at most 13 characters matches the entry that is made from its path.
pub text-di_ent_c :
    (path : Bytes) (name : List ℕ) (x : ℕ)
    → length name < 14
    → Letters name
    → Spells path 0 (slash ∷ name)
    → equal_strings 14 0 (text name) (di_ent_c (path_basename path) x) ≡ true
unfolding path_max
text-di_ent_c path name x lt letters spells =
    let base = path_basename-slash path name (omega arith) letters spells in
    let spelled : Spells (at path 1) 0 name = Spells-at path 1 0 name spells.1 in
    rw base (
      equal_strings-Spells 14 0 (text name) (at path 1) (di_ent_c (at path 1) x) name
        (Spells-text (at path 1) (text name) 0 0 name spelled (λ i. ap (text name) (omega arith)))
        spelled
      ∙ di_ent_c-Short (at path 1) x (
        length name,
        lt,
        ap (get_u8 (at path 1)) (omega arith) ∙ Spells-end (at path 1) 0 name spelled,
      ))
