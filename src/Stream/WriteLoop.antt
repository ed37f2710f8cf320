-- ===== src/Stream/WriteLoop.antt =====
-- The loop of fstream_write over the blocks of a range that begins inside the file or at its end.
use Prim.Native.Nat.{max}
use os_fuse.Base.{
  ℕ, zero, suc, ◌+◌, ◌%◌, ◌^◌, ◌<◌, ◌≤◌, ◌≡◌, refl, ap, ◌∙◌, sym, arith, some, List, [], ◌∷◌,
  length,
}
use mathlib.Core.Path.{subst}
use native.Mathlib.Decide.{dec_lt}
use os_fuse.Memory.{Bytes, at, object}
use os_fuse.State.{Sys, block_write}
use os_fuse.FreeBlock.{free_block_allocate}
use os_fuse.FreeBlock.Chain.{IsFree}
use os_fuse.FreeBlock.Pop.{free_block_allocate-cons}
use os_fuse.Inode.{fentry_max_size}
use os_fuse.Stream.{blknum, write_blocks}
use os_fuse.Stream.Blocks.{Mapped, extend, write_blocks-old, write_blocks-new}
use os_fuse.Stream.Wrote.{Wrote, Wrote-none, Wrote-cons}
use os_fuse.Stream.Round.{Wrote-old, Wrote-new}

-- A list that is not empty.
head : (xs : List ℕ) → 0 < length xs → (x : ℕ) × (rest : List ℕ) × (xs ≡ x ∷ rest)
head [] lt = absurd (omega arith)
head (x ∷ xs) lt = (x, xs, refl)

module _ (buf : Bytes) (b_size : ℕ) where
  write_blocks-zero : (i ptr : ℕ) (s : Sys) → write_blocks buf b_size zero i ptr s ≡ (i, s)
  unfolding write_blocks
  write_blocks-zero i ptr s = refl

  -- The loop has run to its end.
  abbrev Done : (k i ptr n : ℕ) (free : List ℕ) (s : Sys) → ℕ × Sys → Type 0
  Done k i ptr n free s (j, t) = (rest : List ℕ) × (j ≡ i + k) × Wrote buf i k ptr n free s rest t

  -- One round, then the loop from the state that it leaves.
  Done-cons :
      (k i ptr n : ℕ) (free mid : List ℕ) (s s₁ : Sys) (e : ℕ × Sys)
      → i ≤ n
      → Wrote buf i 1 ptr n free s mid s₁
      → e ≡ write_blocks buf b_size k (i + 1) (ptr + 512) s₁
      → Done k
          (i + 1)
          (ptr + 512)
          (max n (i + 1))
          mid
          s₁
          (write_blocks buf b_size k (i + 1) (ptr + 512) s₁)
      → Done (suc k) i ptr n free s e
  Done-cons k i ptr n free mid s s₁ e le one step (rest, end, more) =
      subst (λ (z : ℕ × Sys). Done (suc k) i ptr n free s z) (sym step)
        (rest, end ∙ omega arith, Wrote-cons buf i k ptr n free mid rest s s₁ _ le one more)

  -- With enough free blocks the loop runs to its end.
  pub write_blocks-Done :
      (k i ptr n : ℕ) (free : List ℕ) (s : Sys)
      → n ≡ max b_size i
      → i + k ≤ fentry_max_size
      → i + k ≤ n + length free
      → IsFree s.disk free
      → Mapped s.file_list n free
      → Done k i ptr n free s (write_blocks buf b_size k i ptr s)
  write_blocks-Done zero i ptr n free s eq room enough isfree mapped =
      subst (λ (e : ℕ × Sys). Done zero i ptr n free s e) (sym (write_blocks-zero i ptr s))
        (free, omega arith, Wrote-none buf i ptr n free s (omega arith) isfree mapped)
  write_blocks-Done (suc k) i ptr n free s eq room enough isfree mapped = elim (dec_lt i b_size) [
    | yes lt ↦
        (let s₁ : Sys = block_write (blknum s.file_list i) (object (at buf ptr) 512) s in
          let one : Wrote buf i 1 ptr n free s free s₁ =
            Wrote-old buf i ptr n free s (omega arith) isfree mapped in
          Done-cons k i ptr n free free s s₁ _ (omega arith) one
            (write_blocks-old buf b_size k i ptr s (omega arith) lt)
            (write_blocks-Done k (i + 1) (ptr + 512) (max n (i + 1)) free s₁ (omega arith)
              (omega arith) (omega arith) one.free_now one.mapped))
    | no ge ↦
        (let here : n ≡ i = omega arith in
          let (x, free', split) = head free (omega (arith, here)) in
          let isfree' : IsFree s.disk (x ∷ free') =
            subst (λ (l : List ℕ). IsFree s.disk l) split isfree in
          let mapped' : Mapped s.file_list i (x ∷ free') =
            subst (λ (l : List ℕ). Mapped s.file_list i l) split
              (subst (λ (z : ℕ). Mapped s.file_list z free) here mapped) in
          let got = free_block_allocate-cons s (some (object (at buf ptr) 512)) x free' isfree' in
          let t : Sys = (free_block_allocate (some (object (at buf ptr) 512)) s).1 in
          let s₁ : Sys = record t { file_list = extend t.file_list i (x % 2 ^ 32) } in
          let one : Wrote buf i 1 ptr i (x ∷ free') s free' s₁ =
            Wrote-new buf i ptr x free' s isfree'.chain.2 isfree'.chain.3 isfree' mapped' in
          let one' : Wrote buf i 1 ptr n free s free' s₁ =
            subst (λ (z : ℕ). Wrote buf i 1 ptr z free s free' s₁) (sym here)
              (subst (λ (l : List ℕ). Wrote buf i 1 ptr i l s free' s₁) (sym split) one) in
          Done-cons k i ptr n free free' s s₁ _ (omega arith) one'
            (write_blocks-new buf b_size k i ptr s (omega arith) x (omega arith) got.0)
            (write_blocks-Done k (i + 1) (ptr + 512) (max n (i + 1)) free' s₁ (omega arith)
              (omega arith) (omega (arith, ap length split)) one'.free_now one'.mapped))
  ]
