-- ===== src/Resolve/Trimmed.antt =====
-- The copy of the path that path_to_inum makes, without a slash at its end.
use os_fuse.Base.{
  ℕ, ◌+◌, ◌-◌, ◌<◌, ◌≡◌, ◌≢◌, refl, ap, ◌∙◌, sym, arith, Bool, true, false, ==-false, if◌then◌else◌,
  ◌==◌, List, [], ◌∷◌, ◌++◌, length, length-append,
}
use mathlib.Core.Path.{subst}
use mathlib.Core.List.{append-nil, append_assoc}
use os_fuse.Memory.{Bytes, get_u8, put_u8}
use os_fuse.CString.{slash, strlen, path_max}
use os_fuse.Resolve.Names.{
  Spells, IsName, AllNames, Marked, spell, Spells-cut, Spells-drop, Marked-append, Marked-spell,
  string_end-Spells, Letters-last,
}

-- The copy of the path that path_to_inum works on: without a slash at its end.
abbrev pub trimmed : Bytes → Bytes
trimmed path =
    let last = strlen path - 1 in if get_u8 path last == slash then put_u8 path last 0 else path

pub strlen-Spells :
    (path : Bytes) (xs : List ℕ)
    → Marked xs
    → Spells path 0 xs
    → length xs < path_max
    → strlen path ≡ length xs
unfolding strlen
strlen-Spells path xs m sp lt = string_end-Spells path_max 0 path xs m sp lt ∙ omega arith

pub slash_marked : slash ≢ 0
slash_marked e = absurd (omega (arith, e))

name-last :
    (n : List ℕ) (ns : List (List ℕ))
    → IsName n
    → AllNames ns
    → (ys : List ℕ) × (c : ℕ) × (n ++ spell ns ≡ ys ++ c ∷ []) × (c ≢ slash)
name-last n [] name names =
    let (ys, c, e, ne) = Letters-last n name in (ys, c, append-nil n ∙ e, ne)
name-last n (m ∷ ms) name names =
    let (ys, c, e, ne) = name-last m ms names.0 names.1 in
    (
      n ++ slash ∷ ys,
      c,
      ap (λ (zs : List ℕ). n ++ slash ∷ zs) e ∙ sym (append_assoc n (slash ∷ ys) (c ∷ [])),
      ne,
    )

-- The last character of a path without a slash behind it.
spell-last :
    (n : List ℕ) (ns : List (List ℕ))
    → IsName n
    → AllNames ns
    → (ys : List ℕ) × (c : ℕ) × (spell (n ∷ ns) ≡ ys ++ c ∷ []) × (c ≢ slash)
spell-last n ns name names =
    let (ys, c, e, ne) = name-last n ns name names in
    (slash ∷ ys, c, ap (λ (zs : List ℕ). slash ∷ zs) e, ne)

-- The text of a path, with or without a slash behind the last name.
abbrev pub path_text : List (List ℕ) → Bool → List ℕ
path_text ns slashed = spell ns ++ (if slashed then slash ∷ [] else [])

pub trimmed-Spells :
    (path : Bytes) (ns : List (List ℕ)) (slashed : Bool)
    → AllNames ns
    → 0 < length (path_text ns slashed)
    → length (path_text ns slashed) < path_max
    → Spells path 0 (path_text ns slashed)
    → Spells (trimmed path) 0 (spell ns)
trimmed-Spells path ns true names some_text lt sp =
    let count = length-append (spell ns) (slash ∷ []) in
    let len =
      strlen-Spells path (spell ns ++ slash ∷ [])
        (Marked-append (spell ns) (slash ∷ []) (Marked-spell ns names) (slash_marked, tt)) sp lt in
    let last : strlen path - 1 ≡ length (spell ns) = omega (arith, count, len) in
    let mark : get_u8 path (length (spell ns)) ≡ slash =
      ap (get_u8 path) (omega arith) ∙ (Spells-drop path 0 (spell ns) (slash ∷ []) sp).0 in
    let cut : trimmed path ≡ put_u8 path (length (spell ns)) 0 = rw (last, mark) refl in
    let place : length (spell ns) ≡ 0 + length (spell ns) = omega arith in
    let dup : trimmed path ≡ put_u8 path (0 + length (spell ns)) 0 =
      cut ∙ ap (λ (p : ℕ). put_u8 path p 0) place in
    subst (λ (b : Bytes). Spells b 0 (spell ns)) (sym dup)
      (Spells-cut path 0 (spell ns) (slash ∷ []) sp)
trimmed-Spells path [] false names some_text lt sp = absurd (omega arith)
trimmed-Spells path (n ∷ ns) false names some_text lt sp =
    let xs : List ℕ = spell (n ∷ ns) in
    let whole : Spells path 0 xs = subst (Spells path 0) (append-nil xs) sp in
    let (ys, c, e, ne) = spell-last n ns names.0 names.1 in
    let size = ap (λ (zs : List ℕ). length zs) e in
    let count = length-append ys (c ∷ []) in
    let total = length-append xs [] in
    let len = strlen-Spells path xs (Marked-spell (n ∷ ns) names) whole (omega (arith, total)) in
    let last : strlen path - 1 ≡ length ys = omega (arith, size, count, len) in
    let mark : get_u8 path (length ys) ≡ c =
      ap (get_u8 path) (omega arith)
      ∙ (Spells-drop path 0 ys (c ∷ []) (subst (Spells path 0) e whole)).0 in
    let dup : trimmed path ≡ path = rw (last, mark, ==-false c slash ne) refl in
    subst (λ (b : Bytes). Spells b 0 xs) (sym dup) whole
