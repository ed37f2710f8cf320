-- ===== src/Stream/Wrote.antt =====
-- What a run of rounds of the loop of fstream_write leaves: one round, and rounds in sequence.
use Prim.Native.Nat.{max}
use os_fuse.Base.{
  ℕ, suc, ◌+◌, ◌-◌, ◌*◌, ◌<◌, ◌≤◌, ◌≡◌, ◌≢◌, refl, ap, ◌∙◌, sym, arith, true, Bool-cases, ◌⊎◌, inl,
  inr, List, has, length, ◌∉◌,
}
use mathlib.Core.Path.{subst}
use mathlib.Core.Bool.{false≢true}
use native.Mathlib.Decide.{dec_lt, ℕ_discrete}
use os_fuse.Memory.{Bytes}
use os_fuse.State.{Sys}
use os_fuse.FreeBlock.Chain.{IsFree}
use os_fuse.Inode.{slot_load}
use os_fuse.Listing.Frame.{slot_limit}
use os_fuse.Stream.{blknum}
use os_fuse.Stream.Blocks.{Mapped}

-- The rounds `i` to `i + k` have written the bytes of `buf` from `ptr` on into the blocks of these
-- places. Before, the array had `n` numbers and `free` was the free block list; it is `rest` now.
pub record Wrote (buf : Bytes) (i k ptr n : ℕ) (free : List ℕ) (s : Sys) (rest : List ℕ) (t : Sys)
    : Type 0 where
  pub errno : t.errno ≡ s.errno
  pub free_now : IsFree t.disk rest
  pub mapped : Mapped t.file_list (max n (i + k)) rest
  pub used : length rest + (i + k - n) ≡ length free
  pub part : (x : ℕ) → has x rest ≡ true → has x free ≡ true
  pub fresh : (j : ℕ) → n ≤ j → j < i + k → has (blknum t.file_list j) free ≡ true
  pub same : (j : ℕ) → j < n → blknum t.file_list j ≡ blknum s.file_list j
  pub written :
      (j y : ℕ)
      → i ≤ j
      → j < i + k
      → y < 512
      → t.disk (blknum t.file_list j) y ≡ buf (ptr + ((j - i) * 512 + y))
  pub kept :
      (j : ℕ)
      → j < n
      → (j < i) ⊎ (i + k ≤ j)
      → t.disk (blknum s.file_list j) ≡ s.disk (blknum s.file_list j)
  pub others :
      (b : ℕ)
      → 1024 < b
      → b ∉ free
      → ((j : ℕ) → j < n → b ≢ blknum s.file_list j)
      → t.disk b ≡ s.disk b
  pub low : (m : ℕ) → m ≢ 0 → m < slot_limit → slot_load m t ≡ slot_load m s
  pub bitmap : t.disk 1024 ≡ s.disk 1024

pub Wrote-none :
    (buf : Bytes) (i ptr n : ℕ) (free : List ℕ) (s : Sys)
    → i ≤ n
    → IsFree s.disk free
    → Mapped s.file_list n free
    → Wrote buf i 0 ptr n free s free s
Wrote-none buf i ptr n free s le isfree mapped = record {
  errno = refl;
  free_now = isfree;
  mapped =
      let e : n ≡ max n (i + 0) = omega arith in
      subst (λ (z : ℕ). Mapped s.file_list z free) e mapped;
  used = omega arith;
  part = λ x h. h;
  fresh = λ j le' lt. absurd (omega arith);
  same = λ j lt. refl;
  written = λ j y le' lt ly. absurd (omega arith);
  kept = λ j lt h. refl;
  others = λ b above out ne. refl;
  low = λ m ne lt. refl;
  bitmap = refl;
}

-- One round, then the others.
pub Wrote-cons :
    (buf : Bytes) (i k ptr n : ℕ) (free mid rest : List ℕ) (s s₁ t : Sys)
    → i ≤ n
    → Wrote buf i 1 ptr n free s mid s₁
    → Wrote buf (i + 1) k (ptr + 512) (max n (i + 1)) mid s₁ rest t
    → Wrote buf i (suc k) ptr n free s rest t
Wrote-cons buf i k ptr n free mid rest s s₁ t le one more =
    let first : ℕ = blknum s₁.file_list i in
    let mine : blknum t.file_list i ≡ first = more.same i (omega arith) in
    record {
      errno = more.errno ∙ one.errno;
      free_now = more.free_now;
      mapped =
          let e : max (max n (i + 1)) (i + 1 + k) ≡ max n (i + suc k) = omega arith in
          subst (λ (z : ℕ). Mapped t.file_list z rest) e more.mapped;
      used = omega (arith, one.used, more.used);
      part = λ x h. one.part x (more.part x h);
      fresh = λ j low high. elim (dec_lt j (i + 1)) [
        | yes lt ↦ ap (λ (b : ℕ). has b free) (more.same j (omega arith)) ∙ one.fresh j low lt
        | no ge ↦ one.part (blknum t.file_list j) (more.fresh j (omega arith) (omega arith))
      ];
      same = λ j lt. more.same j (omega arith) ∙ one.same j lt;
      written = λ j y low high ly. elim (ℕ_discrete j i) [
        | yes e ↦
            (let kept = more.kept i (omega arith) (inl (omega arith)) in
              let here : t.disk (blknum t.file_list i) y ≡ buf (ptr + ((i - i) * 512 + y)) =
                ap (λ (b : ℕ). t.disk b y) mine
                ∙ (ap (λ (c : Bytes). c y) kept ∙ one.written i y (omega arith) (omega arith) ly) in
              subst (λ (z : ℕ). t.disk (blknum t.file_list z) y ≡ buf (ptr + ((z - i) * 512 + y)))
                (sym e) here)
        | no ne ↦
            (let e : ptr + 512 + ((j - (i + 1)) * 512 + y) ≡ ptr + ((j - i) * 512 + y) =
                omega arith in
              more.written j y (omega arith) (omega arith) ly ∙ ap buf e)
      ];
      kept = λ j lt h.
          let eq = one.same j lt in
          let later : t.disk (blknum s₁.file_list j) ≡ s₁.disk (blknum s₁.file_list j) =
            more.kept j (omega arith)
              (elim h [ inl l ↦ inl (omega arith) | inr r ↦ inr (omega arith) ]) in
          ap t.disk (sym eq)
          ∙ (later
              ∙ (ap s₁.disk eq
                  ∙ one.kept j lt (elim h [ inl l ↦ inl l | inr r ↦ inr (omega arith) ])));
      others = λ b above out ne.
          let out' : b ∉ mid = elim (Bool-cases (has b mid)) [
            | inl hit ↦ absurd (false≢true (sym out ∙ one.part b hit))
            | inr miss ↦ miss
          ] in
          more.others b above out' (λ j lt eq. elim (dec_lt j n) [
            | yes l ↦ ne j l (eq ∙ one.same j l)
            | no ge ↦ false≢true (
                sym out ∙ (ap (λ (z : ℕ). has z free) eq ∙ one.fresh j (omega arith) (omega arith)))
          ])
          ∙ one.others b above out ne;
      low = λ m ne lt. more.low m ne lt ∙ one.low m ne lt;
      bitmap = more.bitmap ∙ one.bitmap;
    }
