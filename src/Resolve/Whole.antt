-- ===== src/Resolve/Whole.antt =====
-- path_to_inum goes along the names of the path, one directory after the other.
use os_fuse.Base.{
  ℕ, suc, ◌+◌, ◌-◌, ◌<◌, ◌≡◌, ◌≢◌, refl, ap, ◌∙◌, sym, arith, Bool, true, false, ==-false,
  if◌then◌else◌, ◌==◌, ℤ, pos, to_ushort, List, [], ◌∷◌, ◌++◌, length, length-append,
}
use mathlib.Core.Path.{subst}
use mathlib.Core.List.{append-nil}
use os_fuse.Memory.{Bytes, at, get_u8, put_u8}
use os_fuse.Memory.Fields.{get_u8-put_u8_ne}
use os_fuse.CString.{slash, strlen, path_max}
use os_fuse.State.{Sys}
use os_fuse.Resolve.{path_to_inum_elem, path_to_inum, Walk, walk_step, walk}
use os_fuse.Resolve.Ends.{walk-stop, walk-go}
use os_fuse.Resolve.Names.{
  Spells, Letters, IsName, AllNames, spell, Spells-cut, Spells-later, Spells-drop,
}
use os_fuse.Resolve.Text.{text, Spells-text, Spells-at, path_to_inum_elem-Spells}
use os_fuse.Resolve.Trimmed.{trimmed, path_text, strlen-Spells, trimmed-Spells, slash_marked}

-- Following the names from the directory `cur`: the number of the last, that of its parent, and the
-- state that the lookups leave.
unfoldable pub descend : (name : List ℕ) (names : List (List ℕ)) (cur : ℤ) → Sys → ℤ × ℤ × Sys
descend name [] cur s =
    let (found, s) = path_to_inum_elem (text name) (to_ushort cur) s in (found, cur, s)
descend name (next ∷ names) cur s =
    let (found, s) = path_to_inum_elem (text name) (to_ushort cur) s in descend next names found s

-- The root is inode 2 and its own parent.
unfoldable pub resolve : List (List ℕ) → Sys → ℤ × ℤ × Sys
unfolding descend
resolve [] s = (pos 2, pos 2, s)
resolve (name ∷ names) s = descend name names (pos 2) s

abbrev loop_at : (b : Bytes) (h t : ℕ) (c : ℤ) → Sys → Walk
loop_at b h t c s = record { path_dup = b; head = h; tail = t; inum = c; sys = s }

-- path_to_inum behind the loop.
finish : Walk → ℤ × ℤ × Sys
finish w =
    let (found, s) = path_to_inum_elem (at w.path_dup w.head) (to_ushort w.inum) w.sys in
    if w.head == w.tail then (w.inum, w.inum, w.sys) else (found, w.inum, s)

walk_step-letter :
    (b : Bytes) (h t : ℕ) (c : ℤ) (s : Sys)
    → get_u8 b t ≢ slash
    → walk_step (loop_at b h t c s) ≡ loop_at b h (t + 1) c s
unfolding walk_step
walk_step-letter b h t c s ne = rw (==-false (get_u8 b t) slash ne) refl

-- The number that a lookup finds, and the state that it leaves.
walk_step-slash :
    (b : Bytes) (h t : ℕ) (c : ℤ) (s : Sys)
    → get_u8 b t ≡ slash
    → let r = path_to_inum_elem (at (put_u8 b t 0) h) (to_ushort c) s in
      walk_step (loop_at b h t c s) ≡ loop_at (put_u8 b t 0) (t + 1) (t + 1) r.0 r.1
unfolding walk_step
walk_step-slash b h t c s e = rw e refl

-- The loop runs over a name.
walk-name :
    (n rest : List ℕ) (k : ℕ) (b : Bytes) (h t : ℕ) (c : ℤ) (s : Sys)
    → Letters n
    → Spells b t (n ++ rest)
    → walk (length n + k) (loop_at b h t c s) ≡ walk k (loop_at b h (t + length n) c s)
walk-name [] rest k b h t c s l sp =
    ap (λ (m : ℕ). walk m (loop_at b h t c s)) (omega arith)
    ∙ ap (λ (p : ℕ). walk k (loop_at b h p c s)) (omega arith)
walk-name (x ∷ n) rest k b h t c s l sp =
    ap (λ (m : ℕ). walk m (loop_at b h t c s)) (omega arith)
    ∙ (walk-go (length n + k) (loop_at b h t c s) (λ e. l.0 (sym sp.0 ∙ e))
        ∙ (ap (walk (length n + k)) (walk_step-letter b h t c s (λ e. l.1 (sym sp.0 ∙ e)))
            ∙ (walk-name n rest k b h (t + 1) c s l.2 sp.1
                ∙ ap (λ (p : ℕ). walk k (loop_at b h p c s)) (omega arith))))

pub descend-cons :
    (n m : List ℕ) (ms : List (List ℕ)) (c : ℤ) (s : Sys)
    → let r = path_to_inum_elem (text n) (to_ushort c) s in
      descend m ms r.0 r.1 ≡ descend n (m ∷ ms) c s
unfolding descend
descend-cons n m ms c s = refl

finish-last :
    (n : List ℕ) (b : Bytes) (o : ℕ) (c : ℤ) (s : Sys)
    → 0 < length n
    → Spells b o n
    → finish (loop_at b o (o + length n) c s) ≡ descend n [] c s
unfolding finish descend
finish-last n b o c s some_letter sp =
    let here : Spells (at b o) 0 n =
      Spells-at b o 0 n (subst (λ (p : ℕ). Spells b p n) (omega arith) sp) in
    rw
      (
        ==-false o (o + length n) (omega arith),
        path_to_inum_elem-Spells (at b o) (text n) (to_ushort c) s n here
            (Spells-text b (text n) o 0 n sp (λ i. ap (text n) (omega arith))),
      )
      refl

finish-root : (b : Bytes) (s : Sys) → finish (loop_at b 1 1 (pos 2) s) ≡ (pos 2, pos 2, s)
unfolding finish
finish-root b s = refl

walk-descend :
    (n : List ℕ) (ns : List (List ℕ)) (k : ℕ) (b : Bytes) (o : ℕ) (c : ℤ) (s : Sys)
    → IsName n
    → AllNames ns
    → Spells b o (n ++ spell ns)
    → length n + length (spell ns) < k
    → finish (walk k (loop_at b o o c s)) ≡ descend n ns c s
walk-descend n [] k b o c s name names sp lt =
    let fuel : k ≡ length n + (k - length n) = omega arith in
    let stop : get_u8 b (o + length n) ≡ 0 = Spells-drop b o n [] sp in
    let alone : Spells b o n = subst (Spells b o) (append-nil n) sp in
    ap (λ (m : ℕ). finish (walk m (loop_at b o o c s))) fuel
    ∙ (ap finish (walk-name n [] (k - length n) b o o c s name.1 sp)
        ∙ (ap finish (walk-stop (k - length n) (loop_at b o (o + length n) c s) stop)
            ∙ finish-last n b o c s name.0 alone))
walk-descend n (m ∷ ms) k b o c s name names sp lt =
    let end : ℕ = o + length n in
    let cut : Bytes = put_u8 b end 0 in
    let rest : List ℕ = m ++ spell ms in
    let behind : Spells b end (slash ∷ rest) = Spells-drop b o n (spell (m ∷ ms)) sp in
    let ends_name : get_u8 b end ≢ 0 = λ e. absurd (let z = behind.0 in omega (arith, e)) in
    let here : Spells cut o n = Spells-cut b o n (spell (m ∷ ms)) sp in
    let r : ℤ × Sys = path_to_inum_elem (at cut o) (to_ushort c) s in
    let r' : ℤ × Sys = path_to_inum_elem (text n) (to_ushort c) s in
    let same : r ≡ r' =
      path_to_inum_elem-Spells (at cut o) (text n) (to_ushort c) s n
        (Spells-at cut o 0 n (subst (λ (p : ℕ). Spells cut p n) (omega arith) here))
        (Spells-text cut (text n) o 0 n here (λ i. ap (text n) (omega arith))) in
    let k' : ℕ = k - length n - 1 in
    let fuel : k ≡ length n + suc k' = omega arith in
    let left = length-append m (spell ms) in
    ap (λ (z : ℕ). finish (walk z (loop_at b o o c s))) fuel
    ∙ (ap finish (walk-name n (spell (m ∷ ms)) (suc k') b o o c s name.1 sp)
        ∙ (ap finish (walk-go k' (loop_at b o end c s) ends_name)
            ∙ (ap (λ (w : Walk). finish (walk k' w)) (walk_step-slash b o end c s behind.0)
                ∙ (walk-descend m ms k' cut (end + 1) r.0 r.1 names.0 names.1
                      (Spells-later b (end + 1) end rest (omega arith) behind.1)
                      (omega (arith, left))
                    ∙ (ap (λ (z : ℤ × Sys). descend m ms z.0 z.1) same
                        ∙ descend-cons n m ms c s)))))

path_to_inum-finish :
    (path : Bytes) (s : Sys)
    → path_to_inum path s ≡ finish (walk path_max (loop_at (trimmed path) 1 1 (pos 2) s))
unfolding path_to_inum finish
path_to_inum-finish path s = refl

-- Let `path` be the text of a list of names, each with a slash in front and without slash or end
-- mark in it, shorter than PATH_MAX. Then path_to_inum looks up each name in the directory that
-- the one before it gave, from the root on: it returns the last number and that of the parent, and
-- leaves the state that these lookups leave. A slash behind the last name makes no difference, and
-- a path that is a slash alone is the root.
pub path_to_inum-resolve :
    (path : Bytes) (ns : List (List ℕ)) (slashed : Bool) (s : Sys)
    → AllNames ns
    → 0 < length (path_text ns slashed)
    → length (path_text ns slashed) < path_max
    → Spells path 0 (path_text ns slashed)
    → path_to_inum path s ≡ resolve ns s
unfolding resolve
path_to_inum-resolve path [] false s names some_text lt sp = absurd (omega arith)
path_to_inum-resolve path [] true s names some_text lt sp =
    let len = strlen-Spells path (slash ∷ []) (slash_marked, tt) sp lt in
    let dup : trimmed path ≡ put_u8 path 0 0 =
      (let last : strlen path - 1 ≡ 0 = omega (arith, len) in rw (last, sp.0) refl) in
    let mark : get_u8 (put_u8 path 0 0) 1 ≡ 0 = get_u8-put_u8_ne path 1 0 0 (omega arith) ∙ sp.1 in
    path_to_inum-finish path s
    ∙ (ap (λ (b : Bytes). finish (walk path_max (loop_at b 1 1 (pos 2) s))) dup
        ∙ (ap finish (walk-stop path_max (loop_at (put_u8 path 0 0) 1 1 (pos 2) s) mark)
            ∙ finish-root (put_u8 path 0 0) s))
path_to_inum-resolve path (n ∷ ns) slashed s names some_text lt sp =
    let short : length n + length (spell ns) < path_max =
      (let all = length-append (spell (n ∷ ns)) (if slashed then slash ∷ [] else []) in
        let some = length-append n (spell ns) in omega (arith, all, some)) in
    path_to_inum-finish path s
    ∙ walk-descend n ns path_max (trimmed path) 1 (pos 2) s names.0 names.1
        (trimmed-Spells path (n ∷ ns) slashed names some_text lt sp).1 short
