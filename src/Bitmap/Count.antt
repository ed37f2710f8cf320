-- ===== src/Bitmap/Count.antt =====
-- The number of free inodes: one less for each inode taken.
use os_fuse.Base.{
  ℕ, zero, suc, ◌+◌, ◌<◌, ◌≤◌, ◌≡◌, refl, sym, ap, ◌∙◌, arith, true, false, ◌==◌, ==-false,
  eq-==_self, if◌then◌else◌, inl, inr,
}
use native.Mathlib.Decide.{ℕ_discrete}
use os_fuse.State.{Sys, Disk}
use os_fuse.Bitmap.{free_inode_pop}
use os_fuse.Bitmap.Laws.{is_free, Taken, free_inode_pop-cases}

-- The free inodes among the first `k`.
unfoldable pub count_free : Disk → ℕ → ℕ
count_free d zero = 0
count_free d (suc k) = (if is_free d k then 1 else 0) + count_free d k

-- The free inodes of the bitmap.
abbrev pub free_inodes : Disk → ℕ
free_inodes d = count_free d 1024

pub count_free-same :
    (d d' : Disk) (k : ℕ)
    → ((m : ℕ) → is_free d' m ≡ is_free d m)
    → count_free d' k ≡ count_free d k
unfolding count_free
count_free-same d d' zero same = refl
count_free-same d d' (suc k) same = rw (same k, count_free-same d d' k same) refl

count_free-none : (d : Disk) (k : ℕ) → ((m : ℕ) → m < k → is_free d m ≡ false) → count_free d k ≡ 0
unfolding count_free
count_free-none d zero used = refl
count_free-none d (suc k) used =
    rw (used k (omega arith), count_free-none d k (λ m lt. used m (omega arith))) refl

count_free-below :
    (d d' : Disk) (n k : ℕ)
    → ((m : ℕ) → is_free d' m ≡ (if m == n then false else is_free d m))
    → k ≤ n
    → count_free d' k ≡ count_free d k
unfolding count_free
count_free-below d d' n zero taken le = refl
count_free-below d d' n (suc k) taken le =
    rw (taken k, ==-false k n (omega arith), count_free-below d d' n k taken (omega arith)) refl

count_free-taken :
    (d d' : Disk) (n k : ℕ)
    → ((m : ℕ) → is_free d' m ≡ (if m == n then false else is_free d m))
    → is_free d n ≡ true
    → n < k
    → count_free d' k + 1 ≡ count_free d k
unfolding count_free
count_free-taken d d' n zero taken free lt = absurd (omega arith)
count_free-taken d d' n (suc k) taken free lt = elim (ℕ_discrete k n) [
  | yes e ↦
      (let below = count_free-below d d' n k taken (omega arith) in
        let now : is_free d' k ≡ false = taken k ∙ rw (e, eq-==_self n) refl in
        let before : is_free d k ≡ true = ap (is_free d) e ∙ free in
        rw (now, before) (omega (arith, below)))
  | no ne ↦
      (let rest = count_free-taken d d' n k taken free (omega arith) in
        let same : is_free d' k ≡ is_free d k = taken k ∙ rw (==-false k n ne) refl in
        rw same (omega (arith, rest)))
]

-- While some inode is free, free_inode_pop takes one, and one less is free.
pub free_inode_pop-Taken :
    (s : Sys)
    → 0 < free_inodes s.disk
    → Taken s (free_inode_pop s).0 (free_inode_pop s).1
      × (free_inodes (free_inode_pop s).1.disk + 1 ≡ free_inodes s.disk)
free_inode_pop-Taken s some_free = elim (free_inode_pop-cases s) [
  | inl taken ↦ (
    taken,
    count_free-taken s.disk (free_inode_pop s).1.disk (free_inode_pop s).0 1024 taken.free
        taken.least.free taken.least.lt,
  )
  | inr (none_free, _, _) ↦
      (let empty : free_inodes s.disk ≡ 0 = count_free-none s.disk 1024 none_free in
        absurd (omega (arith, empty)))
]

count_free-pos : (d : Disk) (n k : ℕ) → n < k → is_free d n ≡ true → 0 < count_free d k
unfolding count_free
count_free-pos d n zero lt free = absurd (omega arith)
count_free-pos d n (suc k) lt free = elim (ℕ_discrete n k) [
  | yes e ↦ (let here : is_free d k ≡ true = ap (is_free d) (sym e) ∙ free in rw here (omega arith))
  | no ne ↦ (let rest = count_free-pos d n k (omega arith) free in omega (arith, rest))
]

-- A free inode counts.
pub free_inodes-pos : (d : Disk) (n : ℕ) → n < 1024 → is_free d n ≡ true → 0 < free_inodes d
free_inodes-pos d n lt free = count_free-pos d n 1024 lt free
