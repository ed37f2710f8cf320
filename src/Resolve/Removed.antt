-- ===== src/Resolve/Removed.antt =====
-- What dnode_remove does to the lookups in a directory without two entries of one name.
use os_fuse.Base.{
  ℕ, ◌+◌, ◌-◌, ◌*◌, ◌<◌, ◌≤◌, ◌≡◌, ◌≢◌, refl, ap, ◌∙◌, sym, arith, Bool-cases, true, false, ◌&&◌,
  not, if◌then◌else◌, ◌==◌, ℤ, pos, negsuc, inl, inr,
}
use mathlib.Core.Bool.{false≢true}
use native.Mathlib.Decide.{ℕ_discrete, dec_lt}
use os_fuse.Memory.{Bytes, at}
use os_fuse.Memory.Fields.{get_u8-cong, get_u16-cong}
use os_fuse.CString.{equal_strings}
use os_fuse.CString.Compare.{equal_strings-cong_left}
use os_fuse.State.{Sys}
use os_fuse.Inode.{dot}
use os_fuse.Directory.{dnode_remove}
use os_fuse.Directory.Append.{IsDir}
use os_fuse.Directory.Remove.{is_named, Removed, without, dnode_remove-Removed}
use os_fuse.Resolve.{find_entry, path_to_inum_elem}
use os_fuse.Resolve.Lookup.{
  names, equal_strings-cong, path_to_inum_elem-IsDir, path_to_inum_elem-dot,
}
use os_fuse.Resolve.Entries.{
  Ended, number, find_entry-miss, find_entry-hit, find_entry-cases, Distinct, names-alone,
  is_named-alone,
}

module _ (inum n i : ℕ) (d : Bytes) (s t : Sys) (d' : Bytes) (lt : i < n)
    (removed : Removed inum n i d s t d') (distinct : Distinct d n) where
  -- Where entry `m` of the shorter list comes from.
  source : ℕ → ℕ
  source m = if m == i then n - 1 else m

  source-lt : (m : ℕ) → m < n - 1 → source m < n
  unfolding source
  source-lt m below = ground arith

  source-ne : (m : ℕ) → m < n - 1 → source m ≢ i
  unfolding source
  source-ne m below e = ground arith

  source-alone : (m k : ℕ) → m < n - 1 → k < n - 1 → source m ≡ source k → m ≡ k
  unfolding source
  source-alone m k lm lk e = ground arith

  source_self : (m : ℕ) → m ≡ i → source m ≡ n - 1
  unfolding source
  source_self m e = ground arith

  source-other : (m : ℕ) → m ≢ i → source m ≡ m
  unfolding source
  source-other m ne = ground arith

  bytes : (m x : ℕ) → m < n - 1 → x < 16 → d' (m * 16 + x) ≡ d (source m * 16 + x)
  bytes m x below small = elim (ℕ_discrete m i) [
    | yes e ↦
        ap (λ (k : ℕ). d' (k * 16 + x)) e
        ∙ (removed.place x small ∙ ap (λ (k : ℕ). d (k * 16 + x)) (sym (source_self m e)))
    | no ne ↦
        (let here = ap (λ (k : ℕ). d (k * 16 + x)) (sym (source-other m ne)) in
          elim (dec_lt m i) [
            | yes front ↦ removed.before (m * 16 + x) (omega arith) ∙ here
            | no rear ↦ removed.behind (m * 16 + x) (omega (arith, ne)) (omega arith) ∙ here
          ])
  ]

  names-source : (path : Bytes) (m : ℕ) → m < n - 1 → names path d' m ≡ names path d (source m)
  names-source path m below =
      equal_strings-cong 14 0 path (at d (source m * 16)) (at d' (m * 16))
        (λ x low high. bytes m x below (omega arith))

  number-source : (m : ℕ) → m < n - 1 → number d' m ≡ number d (source m)
  number-source m below =
      get_u16-cong (at d' (m * 16)) (at d (source m * 16)) 14 (bytes m 14 below (omega arith))
        (bytes m 15 below (omega arith))

  -- The place of entry `j` in the shorter list.
  find_entry-kept :
      (path : Bytes) (m : ℕ)
      → m < n - 1
      → names path d (source m) ≡ true
      → find_entry path d' (n - 1) 0 ≡ find_entry path d n 0
  find_entry-kept path m below hit =
      find_entry-hit path d' (n - 1) 0 m (omega arith) (omega arith)
        (names-source path m below ∙ hit)
        (λ k low high.
          names-source path k (omega arith)
          ∙ names-alone path d n (source m) (source k) distinct (source-lt m below)
              (source-lt k (omega arith)) hit
              (λ e. absurd (let same = source-alone m k below (omega arith) e in omega arith)))
      ∙ (ap pos (number-source m below)
          ∙ sym (
              find_entry-hit path d n 0 (source m) (omega arith)
                (let b = source-lt m below in omega arith) hit
                (λ k low high.
                  names-alone path d n (source m) k distinct (source-lt m below)
                    (let b = source-lt m below in omega arith) hit
                    (λ e. absurd (omega (arith, e))))))

  -- Entry `i` is not found any more, every other is.
  find_entry-Removed :
      (path : Bytes)
      → find_entry path d' (n - 1) 0 ≡ (if names path d i then negsuc 0 else find_entry path d n 0)
  find_entry-Removed path = elim (Bool-cases (names path d i)) [
    | inl gone ↦ rw gone (
        find_entry-miss path d' (n - 1) 0 (λ m low high.
          names-source path m (omega arith)
          ∙ names-alone path d n i (source m) distinct lt (source-lt m (omega arith)) gone
              (λ e. source-ne m (omega arith) (sym e))))
    | inr other ↦ rw other (elim (find_entry-cases path d n 0) [
      | inl none ↦
          find_entry-miss path d' (n - 1) 0 (λ m low high.
            names-source path m (omega arith)
            ∙ none (source m) (omega arith) (let b = source-lt m (omega arith) in omega arith))
          ∙ sym (find_entry-miss path d n 0 none)
      | inr (j, low, high, hit) ↦
          (let ne : j ≢ i = λ e. false≢true (sym other ∙ (ap (names path d) (sym e) ∙ hit)) in
            elim (dec_lt j (n - 1)) [
              | yes short ↦
                  find_entry-kept path j short (ap (names path d) (source-other j ne) ∙ hit)
              | no last ↦
                  (let e : source i ≡ j = source_self i refl ∙ omega arith in
                    find_entry-kept path i (omega (arith, ne)) (ap (names path d) e ∙ hit))
            ])
    ])
  ]

  -- The shorter list has no two entries of one name either.
  Distinct-Removed : Distinct d' (n - 1)
  Distinct-Removed j k lj lk e = source-alone j k lj lk (
      distinct (source j) (source k) (source-lt j lj) (source-lt k lk) (
        sym (
          equal_strings-cong_left 13 0 (at d (source j * 16)) (at d' (j * 16)) (at d' (k * 16))
            (λ x low high. bytes j x lj (omega arith))
          ∙ equal_strings-cong 13 0 (at d (source j * 16)) (at d (source k * 16)) (at d' (k * 16))
              (λ x low high. bytes k x lk (omega arith)))
        ∙ e))

  Ended-Removed : Ended d n → Ended d' (n - 1)
  Ended-Removed ended j lt =
      get_u8-cong (at d' (j * 16)) (at d (source j * 16)) 13 (bytes j 13 lt (omega arith))
      ∙ ended (source j) (source-lt j lt)

-- Let inode `inum`, not 0 or 1, be a directory of `n` entries, no two of one name and each name of
-- at most 13 characters, let entry `i` have the given name, and let no error be recorded. Then
-- dnode_remove leaves a directory of `n - 1` entries with the last entry in the place of entry
-- `i`, no two of one name and each of at most 13 characters. It records no error, takes no inode,
-- and changes no slot in use outside the list of the directory and no block behind the bitmap. A
-- lookup of any name in the directory gives what it gave before, but none for the name of entry
-- `i`; the lookup of "." does not look at the entries.
pub path_to_inum_elem-dnode_remove :
    (inum n i : ℕ) (d filename : Bytes) (s : Sys)
    → 2 ≤ inum
    → IsDir s inum n d
    → Distinct d n
    → Ended d n
    → s.errno ≡ pos 0
    → i < n
    → is_named filename d i ≡ true
    → let t = dnode_remove (pos inum) filename s in
      (d' : Bytes) × Removed inum n i d s t d'
      × Distinct d' (n - 1)
      × Ended d' (n - 1)
      × ((name : Bytes)
          → (path_to_inum_elem name inum t).0 ≡ (
              if not (equal_strings 2 0 name dot) && names name d i
              then negsuc 0
              else (path_to_inum_elem name inum s).0))
path_to_inum_elem-dnode_remove inum n i d filename s le dir distinct ended clear lt hit =
    let only : ((j : ℕ) → j < n → j ≢ i → is_named filename d j ≡ false) =
      λ j below ne. is_named-alone filename d n i j distinct lt below hit ne in
    let t : Sys = dnode_remove (pos inum) filename s in
    let d' : Bytes = without inum n i d filename s dir clear lt hit only in
    let removed = dnode_remove-Removed inum n i d filename s dir clear lt hit only in
    (
      d',
      removed,
      Distinct-Removed inum n i d s t d' lt removed distinct,
      Ended-Removed inum n i d s t d' lt removed distinct ended,
      λ name. elim (Bool-cases (equal_strings 2 0 name dot)) [
        | inl self ↦
            rw (path_to_inum_elem-dot name inum t self le, self)
              (sym (path_to_inum_elem-dot name inum s self le))
        | inr other ↦ rw other (
            path_to_inum_elem-IsDir name inum (n - 1) d' t other le removed.dir
            ∙ (find_entry-Removed inum n i d s t d' lt removed distinct name
                ∙ ap (λ (r : ℤ). if names name d i then negsuc 0 else r)
                    (sym (path_to_inum_elem-IsDir name inum n d s other le dir))))
      ],
    )
