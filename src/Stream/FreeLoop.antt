-- ===== src/Stream/FreeLoop.antt =====
-- The loop of fstream_free.
use os_fuse.Base.{
  ℕ, zero, suc, ◌+◌, ◌^◌, ◌<◌, ◌≤◌, ◌≡◌, ◌≢◌, refl, ap, ◌∙◌, sym, arith, true, ==-false, List, ◌∷◌,
  has, length, ◌∉◌, ◌⊎◌, inl, inr,
}
use mathlib.Core.Path.{subst}
use native.Mathlib.Decide.{ℕ_discrete}
use os_fuse.Memory.{Bytes}
use os_fuse.State.{Sys}
use os_fuse.FreeBlock.{free_block_push}
use os_fuse.FreeBlock.Chain.{IsFree}
use os_fuse.FreeBlock.Push.{free_block_push-IsFree}
use os_fuse.Inode.{slot_load}
use os_fuse.Listing.Frame.{slot_limit}
use os_fuse.Stream.{blknum, free_blocks}
use os_fuse.Stream.Round.{slot_load-SameData}

-- The free blocks after the blocks `f[i], …, f[i + k - 1]` were given back, the last in front.
abbrev pub freed : (f : Bytes) (k i : ℕ) → List ℕ → List ℕ
freed f zero i free = free
freed f (suc k) i free = freed f k (i + 1) (blknum f i ∷ free)

pub length-freed :
    (f : Bytes) (k i : ℕ) (free : List ℕ) → length (freed f k i free) ≡ length free + k
length-freed f zero i free = omega arith
length-freed f (suc k) i free = length-freed f k (i + 1) (blknum f i ∷ free) ∙ omega arith

pub freed-cong :
    (f g : Bytes) (k i : ℕ) (free : List ℕ)
    → ((j : ℕ) → i ≤ j → j < i + k → blknum g j ≡ blknum f j)
    → freed g k i free ≡ freed f k i free
freed-cong f g zero i free same = refl
freed-cong f g (suc k) i free same =
    ap (λ (b : ℕ). freed g k (i + 1) (b ∷ free)) (same i (omega arith) (omega arith))
    ∙ freed-cong f g k (i + 1) (blknum f i ∷ free)
        (λ j low high. same j (omega arith) (omega arith))

-- Whatever is free now was free before or was given back.
pub freed-cases :
    (f : Bytes) (k i : ℕ) (free : List ℕ) (x : ℕ)
    → has x (freed f k i free) ≡ true
    → (has x free ≡ true) ⊎ ((j : ℕ) × (i ≤ j) × (j < i + k) × (x ≡ blknum f j))
freed-cases f zero i free x h = inl h
freed-cases f (suc k) i free x h = elim (freed-cases f k (i + 1) (blknum f i ∷ free) x h) [
  | inr (j, low, high, e) ↦ inr (j, omega arith, omega arith, e)
  | inl old ↦ elim (ℕ_discrete x (blknum f i)) [
    | yes e ↦ inr (i, omega arith, omega arith, e)
    | no ne ↦ inl (ground (arith, old, ==-false x (blknum f i) ne))
  ]
]

-- The list is the same array, and only the blocks given back and the superblock's words have
-- changed.
pub record Freed (f : Bytes) (k i : ℕ) (free : List ℕ) (s t : Sys) : Type 0 where
  pub errno : t.errno ≡ s.errno
  pub array : t.file_list ≡ s.file_list
  pub isfree : IsFree t.disk (freed f k i free)
  pub others :
      (b : ℕ) → b ≢ 0 → ((j : ℕ) → i ≤ j → j < i + k → b ≢ blknum f j) → t.disk b ≡ s.disk b
  pub low : (m : ℕ) → m ≢ 0 → m < slot_limit → slot_load m t ≡ slot_load m s

file_list-free_block_push : (b : ℕ) (s : Sys) → (free_block_push b s).1.file_list ≡ s.file_list
unfolding free_block_push
file_list-free_block_push b s = refl

free_blocks-zero : (i : ℕ) (s : Sys) → free_blocks zero i s ≡ s
unfolding free_blocks
free_blocks-zero i s = refl

free_blocks-suc :
    (k i : ℕ) (s : Sys)
    → free_blocks (suc k) i s ≡ free_blocks k (i + 1) (free_block_push (blknum s.file_list i) s).1
unfolding free_blocks
free_blocks-suc k i s = refl

-- The blocks from `i` on, distinct and not free, are given back.
pub free_blocks-Freed :
    (f : Bytes) (k i : ℕ) (free : List ℕ) (s : Sys)
    → s.file_list ≡ f
    → ((j : ℕ)
        → i ≤ j
        → j < i + k
        → (1024 < blknum f j) × (blknum f j < 2 ^ 31) × (blknum f j ∉ free))
    → ((j l : ℕ) → i ≤ j → j < i + k → i ≤ l → l < i + k → blknum f j ≡ blknum f l → j ≡ l)
    → length free + k < 2 ^ 31
    → IsFree s.disk free
    → Freed f k i free s (free_blocks k i s)
free_blocks-Freed f zero i free s eq fine distinct room isfree = rw (free_blocks-zero i s) (record {
  errno = refl;
  array = refl;
  isfree = isfree;
  others = λ b ne out. refl;
  low = λ m ne lt. refl;
})
free_blocks-Freed f (suc k) i free s eq fine distinct room isfree =
    let b : ℕ = blknum f i in
    let s₁ : Sys = (free_block_push b s).1 in
    let t : Sys = free_blocks k (i + 1) s₁ in
    let (above, word, out) = fine i (omega arith) (omega arith) in
    let (isfree₁, data_same, err) =
      free_block_push-IsFree s b free (omega arith) word out (omega arith) isfree in
    let array₁ : s₁.file_list ≡ s.file_list = file_list-free_block_push b s in
    let step : free_blocks (suc k) i s ≡ t =
      free_blocks-suc k i s
      ∙ ap (λ (g : Bytes). free_blocks k (i + 1) (free_block_push (blknum g i) s).1) eq in
    let away : ((m : ℕ) → m ≢ 0 → m ≢ b → s₁.disk m ≡ s.disk m) =
      λ m ne ne'. data_same.blocks m ne ∙ rw (==-false m b ne') refl in
    let rest : Freed f k (i + 1) (b ∷ free) s₁ t =
      free_blocks-Freed f k (i + 1) (b ∷ free) s₁ (array₁ ∙ eq)
        (λ j low high.
          let (above', word', out') = fine j (omega arith) (omega arith) in
          (
            above',
            word',
            ground (
              arith,
              out',
              ==-false (blknum f j) b (λ e.
                  let same =
                    distinct j i (omega arith) (omega arith) (omega arith) (omega arith) e in
                  omega arith),
            ),
          ))
        (λ j l a a' c c' e. distinct j l (omega arith) (omega arith) (omega arith) (omega arith) e)
        (omega arith) isfree₁ in
    subst (λ (z : Sys). Freed f (suc k) i free s z) (sym step)
      (record {
        errno = rest.errno ∙ err;
        array = rest.array ∙ array₁;
        isfree = rest.isfree;
        others = λ m ne o.
            rest.others m ne (λ j low high. o j (omega arith) (omega arith))
            ∙ away m ne (o i (omega arith) (omega arith));
        low = λ m ne lt. rest.low m ne lt ∙ slot_load-SameData s s₁ b _ m above data_same ne lt;
      })
