-- ===== src/Resolve/Names.antt =====
-- Whole paths against a specification on lists of names: what path_to_inum does on the text
-- "/a/b/c" is to look up "a", "b" and "c", one in the other.
use os_fuse.Base.{
  ℕ, zero, suc, ◌+◌, ◌<◌, ◌≡◌, ◌≢◌, refl, ap, ◌∙◌, sym, arith, ==-false, List, [], ◌∷◌, ◌++◌,
  length,
}
use mathlib.Core.Path.{subst}
use os_fuse.Memory.{Bytes, get_u8, put_u8}
use os_fuse.Memory.Fields.{get_u8-put_u8, get_u8-put_u8_ne}
use os_fuse.CString.{slash, string_end}

-- The memory `b` holds the text from offset `o` on, and an end mark behind it.
abbrev pub Spells : Bytes → ℕ → List ℕ → Type 0
Spells b o [] = get_u8 b o ≡ 0
Spells b o (c ∷ cs) = (get_u8 b o ≡ c) × Spells b (o + 1) cs

-- The characters of a name, at least one.
abbrev pub Letters : List ℕ → Type 0
Letters [] = Unit
Letters (c ∷ cs) = (c ≢ 0) × (c ≢ slash) × Letters cs

abbrev pub IsName : List ℕ → Type 0
IsName n = (0 < length n) × Letters n

abbrev pub AllNames : List (List ℕ) → Type 0
AllNames [] = Unit
AllNames (n ∷ ns) = IsName n × AllNames ns

-- The text of a path: a slash in front of each name.
abbrev pub spell : List (List ℕ) → List ℕ
spell [] = []
spell (n ∷ ns) = slash ∷ n ++ spell ns

-- No character is the end mark.
abbrev pub Marked : List ℕ → Type 0
Marked [] = Unit
Marked (c ∷ cs) = (c ≢ 0) × Marked cs

pub Marked-append : (xs ys : List ℕ) → Marked xs → Marked ys → Marked (xs ++ ys)
Marked-append [] ys l m = m
Marked-append (x ∷ xs) ys l m = (l.0, Marked-append xs ys l.1 m)

Letters-Marked : (xs : List ℕ) → Letters xs → Marked xs
Letters-Marked [] l = tt
Letters-Marked (x ∷ xs) l = (l.0, Letters-Marked xs l.2)

pub Marked-spell : (ns : List (List ℕ)) → AllNames ns → Marked (spell ns)
Marked-spell [] a = tt
Marked-spell (n ∷ ns) a = (
  λ e. absurd (omega (arith, e)),
  Marked-append n (spell ns) (Letters-Marked n a.0.1) (Marked-spell ns a.1),
)

-- Cutting the memory behind the text `xs`.
pub Spells-cut :
    (b : Bytes) (o : ℕ) (xs ys : List ℕ)
    → Spells b o (xs ++ ys)
    → Spells (put_u8 b (o + length xs) 0) o xs
Spells-cut b o [] ys h =
    ap (λ (p : ℕ). get_u8 (put_u8 b p 0) o) (omega arith) ∙ get_u8-put_u8 b o 0 (omega arith)
Spells-cut b o (x ∷ xs) ys h =
    let place : o + length (x ∷ xs) ≡ o + 1 + length xs = omega arith in
    (
      get_u8-put_u8_ne b o (o + length (x ∷ xs)) 0 (omega arith) ∙ h.0,
      subst (λ (p : ℕ). Spells (put_u8 b p 0) (o + 1) xs) (sym place)
          (Spells-cut b (o + 1) xs ys h.1),
    )

-- A change in front of a text.
pub Spells-later :
    (b : Bytes) (o p : ℕ) (xs : List ℕ) → p < o → Spells b o xs → Spells (put_u8 b p 0) o xs
Spells-later b o p [] lt h = get_u8-put_u8_ne b o p 0 (omega arith) ∙ h
Spells-later b o p (x ∷ xs) lt h =
    (get_u8-put_u8_ne b o p 0 (omega arith) ∙ h.0, Spells-later b (o + 1) p xs (omega arith) h.1)

pub Spells-drop :
    (b : Bytes) (o : ℕ) (xs ys : List ℕ) → Spells b o (xs ++ ys) → Spells b (o + length xs) ys
Spells-drop b o [] ys h = subst (λ (p : ℕ). Spells b p ys) (omega arith) h
Spells-drop b o (x ∷ xs) ys h =
    subst (λ (p : ℕ). Spells b p ys) (omega arith) (Spells-drop b (o + 1) xs ys h.1)

pub string_end-Spells :
    (k i : ℕ) (b : Bytes) (xs : List ℕ)
    → Marked xs
    → Spells b i xs
    → length xs < k
    → string_end k i b ≡ i + length xs
unfolding string_end
string_end-Spells zero i b xs m h lt = absurd (omega arith)
string_end-Spells (suc k) i b [] m h lt = rw h (omega arith)
string_end-Spells (suc k) i b (x ∷ xs) m h lt =
    let ne : get_u8 b i ≢ 0 = λ e. m.0 (sym h.0 ∙ e) in
    rw (==-false (get_u8 b i) 0 ne)
      (string_end-Spells k (i + 1) b xs m.1 h.1 (omega arith) ∙ omega arith)

-- A path that ends in a name does not end in a slash.
pub Letters-last :
    (xs : List ℕ) → IsName xs → (ys : List ℕ) × (c : ℕ) × (xs ≡ ys ++ c ∷ []) × (c ≢ slash)
Letters-last [] h = absurd (omega (arith, h.0))
Letters-last (x ∷ []) h = ([], x, refl, h.1.1)
Letters-last (x ∷ y ∷ xs) h =
    let (ys, c, e, ne) = Letters-last (y ∷ xs) (omega arith, h.1.2) in
    (x ∷ ys, c, ap (λ (zs : List ℕ). x ∷ zs) e, ne)
