-- ===== src/Bitmap/Laws.antt =====
-- What free_inode_pop and free_inode_push do to the set of free inodes.
use Prim.Native.Nat.{bit_and, bit_or}
use os_fuse.Base.{
  ℕ, zero, suc, ◌+◌, ◌*◌, ◌-◌, ◌/◌, ◌%◌, ◌^◌, ◌<◌, ◌≤◌, ◌≡◌, ◌≢◌, refl, arith, Bool, true, false,
  ◌&&◌, Option, none, some, leb, ltb, ltb-true, ltb-false, ◌∙◌, Bool-cases, ◌==◌, ==-false, ◌⊎◌,
  inl, inr, if◌then◌else◌,
}
use native.Mathlib.Decide.{ℕ_discrete, dec_lt}
use os_fuse.Memory.{Bytes, get_u8, put_u8}
use os_fuse.Memory.Fields.{get_u8-lt, get_u8-put_u8, get_u8-put_u8_ne}
use os_fuse.State.{Sys, Disk, enospc, update, block_read, block_write, errno_push}
use os_fuse.Bitmap.{find_byte, take_inode, free_inode_pop, free_inode_push}
use os_fuse.Bitmap.Bits.{bit, FirstBit, FirstBit-ne_zero, find_bit-cases, bit-or, bit-zero}

-- Inode `n` is free: its bit in block 1024 is set.
unfoldable pub is_free : Disk → ℕ → Bool
is_free d n = bit (get_u8 (d 1024) (n / 8)) (n % 8) == 1

-- What the outer loop finds: the first byte that is not 0, and its first bit.
record FirstByte (b : Bytes) (from end i j mask : ℕ) : Type 0 where
  le : from ≤ i
  lt : i < end
  before : (m : ℕ) → from ≤ m → m < i → get_u8 b m ≡ 0
  first : FirstBit (get_u8 b i) j mask

abbrev Search : Bytes → ℕ → ℕ → Option (ℕ × ℕ × ℕ) → Type 0
Search b from end none = (m : ℕ) → from ≤ m → m < end → get_u8 b m ≡ 0
Search b from end (some (i, j, mask)) = FirstByte b from end i j mask

Search-skip :
    (b : Bytes) (from end : ℕ) (o : Option (ℕ × ℕ × ℕ))
    → get_u8 b from ≡ 0
    → Search b (from + 1) end o
    → Search b from end o
Search-skip b from end none e h =
    λ m le lt. elim (ℕ_discrete m from) [ yes same ↦ rw same e | no ne ↦ h m (omega arith) lt ]
Search-skip b from end (some (i, j, mask)) e h = record {
  le = omega arith;
  lt = h.lt;
  before = λ m le lt. elim (ℕ_discrete m from) [
    | yes same ↦ rw same e
    | no ne ↦ h.before m (omega arith) lt
  ];
  first = h.first;
}

find_byte-Search :
    (k from end : ℕ) (b : Bytes) → from + k ≡ end → Search b from end (find_byte k from b)
unfolding find_byte
find_byte-Search zero from end b e = λ m le lt. absurd (omega arith)
find_byte-Search (suc k) from end b e = elim (find_bit-cases (get_u8 b from) (get_u8-lt b from)) [
  | inl (miss, none') ↦
      rw none' (Search-skip b from end _ none' (find_byte-Search k (from + 1) end b (omega arith)))
  | inr (j, mask, hit, first) ↦
      rw (==-false (get_u8 b from) 0 (FirstBit-ne_zero first), hit)
        (record {
          le = omega arith;
          lt = omega arith;
          before = λ m le lt. absurd (omega arith);
          first = first;
        })
]

-- `found` is free and no smaller number is.
pub record Least (d : Disk) (found : ℕ) : Type 0 where
  pub lt : found < 1024
  pub free : is_free d found ≡ true
  pub before : (m : ℕ) → m < found → is_free d m ≡ false

-- The outcome `n` and `t` of free_inode_pop when there is a free inode.
pub record Taken (s : Sys) (n : ℕ) (t : Sys) : Type 0 where
  pub least : Least s.disk n
  pub free : (m : ℕ) → is_free t.disk m ≡ (if m == n then false else is_free s.disk m)
  pub blocks : (k : ℕ) → k ≢ 1024 → t.disk k ≡ s.disk k
  pub errno : t.errno ≡ s.errno

abbrev pub NoneFree : Disk → Type 0
NoneFree d = (m : ℕ) → m < 1024 → is_free d m ≡ false

is_free_of_zero : (d : Disk) (m : ℕ) → get_u8 (d 1024) (m / 8) ≡ 0 → is_free d m ≡ false
unfolding is_free
is_free_of_zero d m e = rw (e, bit-zero (m % 8) (omega arith))

FirstByte-Least :
    (d : Disk) (i j mask : ℕ) → FirstByte (d 1024) 0 128 i j mask → Least d (8 * i + j)
unfolding is_free
FirstByte-Least d i j mask h =
    let byte : (8 * i + j) / 8 ≡ i = omega arith in
    let place : (8 * i + j) % 8 ≡ j = omega arith in
    record {
      lt = omega arith;
      free = rw (byte, place, h.first.set);
      before = λ m lt. elim (ℕ_discrete (m / 8) i) [
        | yes e ↦ rw (e, h.first.before (m % 8) (omega arith))
        | no ne ↦ is_free_of_zero d m (h.before (m / 8) (omega arith) (omega arith))
      ];
    }

clear-is_free :
    (d : Disk) (i j mask : ℕ)
    → FirstByte (d 1024) 0 128 i j mask
    → (m : ℕ)
    → is_free (update d 1024 (put_u8 (d 1024) i (bit_and (get_u8 (d 1024) i) (255 - mask)))) m
      ≡ (if m == 8 * i + j then false else is_free d m)
unfolding is_free
clear-is_free d i j mask h m = elim (ℕ_discrete (m / 8) i) [
  | yes e ↦
      rw (e, get_u8-put_u8 (d 1024) i _ h.first.small, h.first.clear (m % 8) (omega arith))
        (ground arith)
  | no ne ↦
      ground
        (arith, get_u8-put_u8_ne (d 1024) (m / 8) i (bit_and (get_u8 (d 1024) i) (255 - mask)) ne)
]

take_inode-cases :
    (s : Sys) (o : Option (ℕ × ℕ × ℕ))
    → Search (s.disk 1024) 0 128 o
    → let (n, t) = take_inode o s in
      Taken s n t ⊎ (NoneFree s.disk × (n ≡ 0) × (t ≡ record s { errno = enospc }))
unfolding take_inode block_read block_write errno_push
take_inode-cases s none h =
    inr (λ m lt. is_free_of_zero s.disk m (h (m / 8) (omega arith) (omega arith)), refl, refl)
take_inode-cases s (some (i, j, mask)) h = inl (record {
  least = FirstByte-Least s.disk i j mask h;
  free = clear-is_free s.disk i j mask h;
  blocks = λ k ne. ground arith;
  errno = refl;
})

-- free_inode_pop returns the least free inode and makes it the only one that is no longer free; it
-- writes no block but the bitmap, and raises ENOSPC exactly when no inode is free.
pub free_inode_pop-cases :
    (s : Sys)
    → let (n, t) = free_inode_pop s in
      Taken s n t ⊎ (NoneFree s.disk × (n ≡ 0) × (t ≡ record s { errno = enospc }))
unfolding free_inode_pop block_read
free_inode_pop-cases s = take_inode-cases s _ (find_byte-Search 128 0 128 (s.disk 1024) refl)

Least-unique : {d : Disk} {m n : ℕ} → Least d m → Least d n → m ≡ n
Least-unique {d} {m} {n} a b = ground (arith, a.before n, b.before m)

-- With a free inode, free_inode_pop returns the least one.
pub free_inode_pop-Least :
    (s : Sys) (n : ℕ) → Least s.disk n → let (r, t) = free_inode_pop s in (r ≡ n) × Taken s r t
free_inode_pop-Least s n least = elim (free_inode_pop-cases s) [
  | inl taken ↦ (Least-unique taken.least least, taken)
  | inr (none', _, _) ↦ cc (least.free, none' n least.lt)
]

-- What free_inode_push does to the bitmap, for every number.
pub is_free-free_inode_push :
    (s : Sys) (n m : ℕ)
    → is_free (free_inode_push n s).disk m
      ≡ (if m == n && leb 2 n && ltb n 4096 then true else is_free s.disk m)
unfolding free_inode_push is_free block_read block_write
is_free-free_inode_push s n m = elim (dec_lt (n / 8) 512) [
  | no out ↦ rw (ltb-false (n / 8) 512 (omega arith), ltb-false n 4096 (omega arith)) (ground arith)
  | yes small ↦
      rw (ltb-true (n / 8) 512 small, ltb-true n 4096 (omega arith))
        (elim (ℕ_discrete (m / 8) (n / 8)) [
          | yes e ↦
              (let x : ℕ = get_u8 (s.disk 1024) (n / 8) in
                let (low, bits) =
                  bit-or x (n % 8) (m % 8) (get_u8-lt (s.disk 1024) (n / 8)) (omega arith)
                    (omega arith) in
                ground (
                  arith,
                  e,
                  low,
                  bits,
                  get_u8-put_u8 (s.disk 1024) (n / 8) (bit_or x (0x80 / 2 ^ (n % 8))),
                ))
          | no ne ↦ ground (
            arith,
            get_u8-put_u8_ne (s.disk 1024) (m / 8) (n / 8)
                (bit_or (get_u8 (s.disk 1024) (n / 8)) (0x80 / 2 ^ (n % 8))) ne,
          )
        ])
]

-- Let `n` be an inode whose bit lies within the block of the bitmap, that is, below 4096. Then
-- free_inode_push makes it free, if it is not one of the reserved numbers 0 and 1, changes no other
-- inode's state, writes no block but the bitmap, and leaves the rest of the state as it was.
pub free_inode_push-is_free :
    (s : Sys) (n : ℕ)
    → n < 4096
    → let t = free_inode_push n s in
      ((m : ℕ) → is_free t.disk m ≡ (if m == n && leb 2 n then true else is_free s.disk m))
      × ((k : ℕ) → k ≢ 1024 → t.disk k ≡ s.disk k)
      × (t ≡ record s { disk = t.disk })
unfolding free_inode_push block_write
free_inode_push-is_free s n lt = (
  λ m. is_free-free_inode_push s n m ∙ rw (ltb-true n 4096 lt) (ground arith),
  λ k ne. ground arith,
  elim (Bool-cases (ltb n 2)) [ inl h ↦ rw h refl | inr h ↦ rw h refl ],
)

pub disk-free_inode_push : (s : Sys) (n k : ℕ) → k ≢ 1024 → (free_inode_push n s).disk k ≡ s.disk k
unfolding free_inode_push block_write
disk-free_inode_push s n k ne = ground arith
