-- ===== src/Resolve/Entries.antt =====
-- The search through the entries of a directory, and directories without two entries of one name.
use os_fuse.Base.{
  ℕ, zero, suc, ◌+◌, ◌*◌, ◌<◌, ◌≤◌, ◌≡◌, ◌≢◌, refl, ap, ◌∙◌, arith, Bool-cases, true, false, pos,
  negsuc, ◌⊎◌, inl, inr,
}
use native.Mathlib.Decide.{ℕ_discrete}
use os_fuse.Memory.{Bytes, at, get_u8, get_u16}
use os_fuse.CString.{equal_strings}
use os_fuse.CString.Compare.{equal_strings_comm, equal_strings_trans, equal_strings_shorter}
use os_fuse.Directory.Remove.{is_named}
use os_fuse.Resolve.{find_entry}
use os_fuse.Resolve.Lookup.{names}

-- The number in entry `j`.
abbrev pub number : Bytes → ℕ → ℕ
number d j = get_u16 (at d (j * 16)) 14

pub find_entry-miss :
    (path d : Bytes) (k i : ℕ)
    → ((j : ℕ) → i ≤ j → j < i + k → names path d j ≡ false)
    → find_entry path d k i ≡ negsuc 0
unfolding find_entry
find_entry-miss path d zero i miss = refl
find_entry-miss path d (suc k) i miss =
    rw (miss i (omega arith) (omega arith))
      (find_entry-miss path d k (i + 1) (λ j low high. miss j (omega arith) (omega arith)))

pub find_entry-here :
    (path d : Bytes) (k i : ℕ)
    → names path d i ≡ true
    → find_entry path d (suc k) i ≡ pos (number d i)
unfolding find_entry
find_entry-here path d k i hit = rw hit refl

pub find_entry-next :
    (path d : Bytes) (k i : ℕ)
    → names path d i ≡ false
    → find_entry path d (suc k) i ≡ find_entry path d k (i + 1)
unfolding find_entry
find_entry-next path d k i miss = rw miss refl

pub find_entry-hit :
    (path d : Bytes) (k i j : ℕ)
    → i ≤ j
    → j < i + k
    → names path d j ≡ true
    → ((m : ℕ) → i ≤ m → m < j → names path d m ≡ false)
    → find_entry path d k i ≡ pos (number d j)
find_entry-hit path d zero i j low high hit miss = absurd (omega arith)
find_entry-hit path d (suc k) i j low high hit miss = elim (ℕ_discrete i j) [
  | yes e ↦
      find_entry-here path d k i (ap (names path d) e ∙ hit) ∙ ap (λ (m : ℕ). pos (number d m)) e
  | no ne ↦
      find_entry-next path d k i (miss i (omega arith) (omega (arith, ne)))
      ∙ find_entry-hit path d k (i + 1) j (omega (arith, ne)) (omega arith) hit
          (λ m a b. miss m (omega arith) b)
]

pub find_entry-cases :
    (path d : Bytes) (k i : ℕ)
    → ((j : ℕ) → i ≤ j → j < i + k → names path d j ≡ false)
      ⊎ ((j : ℕ) × (i ≤ j) × (j < i + k) × (names path d j ≡ true))
find_entry-cases path d zero i = inl (λ j low high. absurd (omega arith))
find_entry-cases path d (suc k) i = elim (Bool-cases (names path d i)) [
  | inl hit ↦ inr (i, omega arith, omega arith, hit)
  | inr miss ↦ elim (find_entry-cases path d k (i + 1)) [
    | inr (j, low, high, hit) ↦ inr (j, omega arith, omega arith, hit)
    | inl none ↦ inl (λ j low high. elim (ℕ_discrete j i) [
      | yes e ↦ ap (names path d) e ∙ miss
      | no ne ↦ none j (omega (arith, ne)) (omega arith)
    ])
  ]
]

-- No two of the first `n` entries have the same name.
abbrev pub Distinct : Bytes → ℕ → Type 0
Distinct d n =
    (j k : ℕ) → j < n → k < n → equal_strings 13 0 (at d (j * 16)) (at d (k * 16)) ≡ true → j ≡ k

-- The names of the first `n` entries have their end mark within 14 bytes.
abbrev pub Ended : Bytes → ℕ → Type 0
Ended d n = (j : ℕ) → j < n → get_u8 (at d (j * 16)) 13 ≡ 0

-- A name is that of one entry at most.
pub names-alone :
    (path d : Bytes) (n j k : ℕ)
    → Distinct d n
    → j < n
    → k < n
    → names path d j ≡ true
    → j ≢ k
    → names path d k ≡ false
names-alone path d n j k distinct lj lk hit ne = elim (Bool-cases (names path d k)) [
  | inr miss ↦ miss
  | inl hit' ↦ absurd (
      ne (
        distinct j k lj lk (
          equal_strings_trans 13 0 path (at d (j * 16)) (at d (k * 16))
            (equal_strings_shorter 13 0 path (at d (j * 16)) hit)
            (equal_strings_shorter 13 0 path (at d (k * 16)) hit'))))
]

pub is_named-alone :
    (filename d : Bytes) (n i j : ℕ)
    → Distinct d n
    → i < n
    → j < n
    → is_named filename d i ≡ true
    → j ≢ i
    → is_named filename d j ≡ false
is_named-alone filename d n i j distinct li lj hit ne = elim (Bool-cases (is_named filename d j)) [
  | inr miss ↦ miss
  | inl hit' ↦ absurd (
      ne (
        distinct j i lj li (
          equal_strings_trans 13 0 filename (at d (j * 16)) (at d (i * 16))
            (equal_strings_comm 13 0 filename (at d (j * 16)) ∙ hit')
            (equal_strings_comm 13 0 filename (at d (i * 16)) ∙ hit))))
]
