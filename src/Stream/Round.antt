-- ===== src/Stream/Round.antt =====
-- One round of the loop of fstream_write: a block of the file, or a free block.
use Prim.Native.Nat.{max}
use os_fuse.Base.{
  ℕ, ◌+◌, ◌-◌, ◌*◌, ◌/◌, ◌%◌, ◌^◌, ◌<◌, ◌≡◌, ◌≢◌, refl, ap, ◌∙◌, sym, fun_ext, arith, ltb, ==-false,
  eq-==_self, if◌then◌else◌, inl, inr, some, List, ◌∷◌, has, ◌∉◌,
}
use mathlib.Core.Path.{subst}
use native.Mathlib.Decide.{ℕ_discrete}
use os_fuse.Memory.{Bytes, at, object}
use os_fuse.State.{Sys, update, block_read, block_write}
use os_fuse.FreeBlock.{free_block_allocate}
use os_fuse.FreeBlock.Chain.{IsFree, IsFree-update, SameData}
use os_fuse.FreeBlock.Pop.{free_block_allocate-cons}
use os_fuse.Inode.{slot_load}
use os_fuse.Inode.Slots.{slot_load-of-disk}
use os_fuse.Listing.Frame.{slot_limit}
use os_fuse.Stream.{blknum}
use os_fuse.Stream.Wrote.{Wrote}
use os_fuse.Stream.Blocks.{
  Mapped, Mapped-extend, extend, blknum-extend, blknum-extend_ne, file_list-free_block_allocate,
}

-- A slot in front of the bitmap, on two disks that agree but for the free block list and one block.
pub slot_load-SameData :
    (s t : Sys) (x : ℕ) (c : Bytes) (m : ℕ)
    → 1024 < x
    → SameData (update s.disk x c) t.disk
    → m ≢ 0
    → m < slot_limit
    → slot_load m t ≡ slot_load m s
unfolding slot_load block_read object
slot_load-SameData s t x c m above data_same ne small = fun_ext λ y.
    let off : ℕ = m % 4 * 128 + y in
    let old : update s.disk x c (m / 4) ≡ s.disk (m / 4) =
      rw (==-false (m / 4) x (omega arith)) refl in
    let both : t.disk (m / 4) off ≡ update s.disk x c (m / 4) off = elim (ℕ_discrete (m / 4) 0) [
      | yes e ↦
          ap (λ (z : ℕ). t.disk z off) e
          ∙ (data_same.rest off (omega arith) ∙ ap (λ (z : ℕ). update s.disk x c z off) (sym e))
      | no ne' ↦ ap (λ (b : Bytes). b off) (data_same.blocks (m / 4) ne')
    ] in
    ap (λ (z : ℕ). if ltb y 128 then z else 0) (both ∙ ap (λ (b : Bytes). b off) old)

piece-at :
    (buf : Bytes) (ptr i j y : ℕ)
    → j ≡ i
    → y < 512
    → object (at buf ptr) 512 y ≡ buf (ptr + ((j - i) * 512 + y))
unfolding object
piece-at buf ptr i j y e lt =
    let o : ptr + y ≡ ptr + ((j - i) * 512 + y) = omega arith in ground (arith, ap buf o)

-- A round that overwrites a block of the file.
pub Wrote-old :
    (buf : Bytes) (i ptr n : ℕ) (free : List ℕ) (s : Sys)
    → i < n
    → IsFree s.disk free
    → Mapped s.file_list n free
    → Wrote buf i 1 ptr n free s free
        (block_write (blknum s.file_list i) (object (at buf ptr) 512) s)
unfolding block_write
Wrote-old buf i ptr n free s lt isfree mapped =
    let b : ℕ = blknum s.file_list i in
    let c : Bytes = object (at buf ptr) 512 in
    let above : 1024 < b = mapped.beyond i lt in
    let away : ((m : ℕ) → m ≢ b → update s.disk b c m ≡ s.disk m) =
      λ m ne. rw (==-false m b ne) refl in
    record {
      errno = refl;
      free_now = IsFree-update s.disk b c free (omega arith) (mapped.taken i lt) isfree;
      mapped =
          let e : n ≡ max n (i + 1) = omega arith in
          subst (λ (z : ℕ). Mapped s.file_list z free) e mapped;
      used = omega arith;
      part = λ x h. h;
      fresh = λ j low high. absurd (omega arith);
      same = λ j l. refl;
      written = λ j y low high ly.
          let e : j ≡ i = omega arith in
          ap (λ (z : ℕ). update s.disk b c (blknum s.file_list z) y) e
          ∙ (rw (eq-==_self b) refl ∙ piece-at buf ptr i j y e ly);
      kept = λ j l h. away (blknum s.file_list j) (λ e.
          let same : j ≡ i = mapped.distinct j i l lt e in
          elim h [ inl a ↦ omega arith | inr a ↦ omega arith ]);
      others = λ m ab out ne. away m (ne i lt);
      low = λ m ne small.
          slot_load-of-disk m s (block_write b c s) (away (m / 4) (λ e. absurd (omega arith)));
      bitmap = away 1024 (λ e. omega arith);
    }

-- A round that takes a free block.
pub Wrote-new :
    (buf : Bytes) (i ptr x : ℕ) (free : List ℕ) (s : Sys)
    → x < 2 ^ 31
    → x ∉ free
    → IsFree s.disk (x ∷ free)
    → Mapped s.file_list i (x ∷ free)
    → let t = (free_block_allocate (some (object (at buf ptr) 512)) s).1 in
      Wrote buf i 1 ptr i
        (x ∷ free)
        s
        free
        (record t { file_list = extend t.file_list i (x % 2 ^ 32) })
Wrote-new buf i ptr x free s small out isfree mapped =
    let c : Bytes = object (at buf ptr) 512 in
    let t : Sys = (free_block_allocate (some c) s).1 in
    let (_, isfree', here, alike, err) = free_block_allocate-cons s (some c) x free isfree in
    let array : t.file_list ≡ s.file_list = file_list-free_block_allocate (some c) s in
    let wrap : x % 2 ^ 32 ≡ x = omega arith in
    let list : extend t.file_list i (x % 2 ^ 32) ≡ extend s.file_list i x =
      ap (λ (f : Bytes). extend f i (x % 2 ^ 32)) array ∙ ap (extend s.file_list i) wrap in
    let u : Sys = record t { file_list = extend t.file_list i (x % 2 ^ 32) } in
    let above : 1024 < x = mapped.free_beyond x (rw (eq-==_self x) refl) in
    let mine : blknum u.file_list i ≡ x =
      ap (λ (f : Bytes). blknum f i) list ∙ blknum-extend s.file_list i x (omega arith) in
    let old : ((j : ℕ) → j < i → blknum u.file_list j ≡ blknum s.file_list j) = λ j lt.
      ap (λ (f : Bytes). blknum f j) list ∙ blknum-extend_ne s.file_list i x j (omega arith) in
    let away : ((m : ℕ) → m ≢ 0 → m ≢ x → t.disk m ≡ s.disk m) =
      λ m ne ne'. alike.blocks m ne ∙ rw (==-false m x ne') refl in
    record {
      errno = err;
      free_now = isfree';
      mapped =
          let e : i + 1 ≡ max i (i + 1) = omega arith in
          subst (λ (z : ℕ). Mapped u.file_list z free) e
            (subst (λ (f : Bytes). Mapped f (i + 1) free) (sym list)
              (Mapped-extend s.file_list i x free small out mapped));
      used = omega arith;
      part = λ y h. ground arith;
      fresh = λ j low high.
          let e : j ≡ i = omega arith in
          ap (λ (z : ℕ). has (blknum u.file_list z) (x ∷ free)) e
          ∙ (ap (λ (z : ℕ). has z (x ∷ free)) mine ∙ rw (eq-==_self x) refl);
      same = old;
      written = λ j y low high ly.
          let e : j ≡ i = omega arith in
          ap (λ (z : ℕ). u.disk (blknum u.file_list z) y) e
          ∙ (ap (λ (z : ℕ). t.disk z y) mine
              ∙ (ap (λ (b : Bytes). b y) here ∙ piece-at buf ptr i j y e ly));
      kept = λ j lt h.
          away (blknum s.file_list j) (λ e. omega (arith, mapped.beyond j lt))
            (λ e. ground (arith, mapped.taken j lt, eq-==_self x));
      others = λ m ab o ne. away m (λ e. omega arith) (λ e. ground (arith, o, eq-==_self x));
      low = λ m ne sm. slot_load-SameData s u x c m above alike ne sm;
      bitmap = away 1024 (λ e. omega arith) (λ e. omega arith);
    }
