-- ===== src/Bitmap/Bits.antt =====
-- The bits of one byte of the bitmap, by a table over all bytes.
use Prim.Native.Nat.{bit_and, bit_or}
use os_fuse.Base.{
  ℕ, zero, suc, ◌-◌, ◌/◌, ◌%◌, ◌^◌, ◌<◌, ◌≡◌, ◌≢◌, refl, ap, sym, ◌∙◌, arith, Bool, true, false,
  Bool-cases, ◌&&◌, Option, none, some, ltb, ◌==◌, ==-true, lt_of_ltb, ◌⊎◌, inl, inr, if◌then◌else◌,
}
use mathlib.Core.Bool.{false≢true}
use native.Mathlib.Decide.{ℕ_discrete}
use os_fuse.Bitmap.{find_bit}

-- Bit `j` of a byte, from the high end.
unfoldable pub bit : ℕ → ℕ → ℕ
bit x j = x / 2 ^ (7 - j) % 2

-- A test that holds of the numbers from `k - 1` down to 0.
unfoldable pub all_bits : ℕ → (ℕ → Bool) → Bool
all_bits zero test = true
all_bits (suc k) test = let below = all_bits k test in if test k then below else false

pub all_bits-member :
    (k : ℕ) (test : ℕ → Bool) (i : ℕ) → all_bits k test ≡ true → i < k → test i ≡ true
unfolding all_bits
all_bits-member zero test i every less = absurd (omega (arith, less))
all_bits-member (suc k) test i every less = elim (Bool-cases (test k)) [
  | inr fails ↦
      absurd
        (false≢true (sym (ap (λ (b : Bool). if b then all_bits k test else false) fails) ∙ every))
  | inl holds ↦
      (let below : all_bits k test ≡ true =
          sym (ap (λ (b : Bool). if b then all_bits k test else false) holds) ∙ every in
        elim (ℕ_discrete i k) [
          | yes last ↦ rw last holds
          | no other ↦ all_bits-member k test i below (omega arith)
        ])
]

-- The outcome of the search for a bit in the byte `x`: position `j` holds its first set bit, and
-- clearing the bits of the mask clears that bit alone.
abbrev found_first : ℕ → Option (ℕ × ℕ) → Bool
found_first x none = x == 0
found_first x (some (j, ptr)) =
    ltb j 8
    && bit x j == 1
    && all_bits j (λ i. bit x i == 0)
    && all_bits 8 (λ i. bit (bit_and x (255 - ptr)) i == (if i == j then 0 else bit x i))
    && ltb (bit_and x (255 - ptr)) 256

find_bit_table : all_bits 256 (λ x. found_first x (find_bit 8 0 0x80 x)) ≡ true
unfolding all_bits bit find_bit
find_bit_table = refl

push_table :
    all_bits 256 (λ x. all_bits 8 (λ j.
      ltb (bit_or x (0x80 / 2 ^ j)) 256
      && all_bits 8 (λ i. bit (bit_or x (0x80 / 2 ^ j)) i == (if i == j then 1 else bit x i))))
    ≡ true
unfolding all_bits bit
push_table = refl

-- Position `j` holds the first set bit of `x`, and `mask` clears that bit alone.
pub record FirstBit (x j mask : ℕ) : Type 0 where
  pub lt : j < 8
  pub set : bit x j ≡ 1
  pub before : (i : ℕ) → i < j → bit x i ≡ 0
  pub clear : (i : ℕ) → i < 8 → bit (bit_and x (255 - mask)) i ≡ (if i == j then 0 else bit x i)
  pub small : bit_and x (255 - mask) < 256

&&-left : (a b : Bool) → (a && b) ≡ true → a ≡ true
&&-left a b h = ground arith

&&-right : (a b : Bool) → (a && b) ≡ true → b ≡ true
&&-right a b h = ground arith

found_first-FirstBit : (x j mask : ℕ) → found_first x (some (j, mask)) ≡ true → FirstBit x j mask
found_first-FirstBit x j mask h =
    let h1 = &&-left _ _ h in
    let h2 = &&-left _ _ h1 in
    let h3 = &&-left _ _ h2 in
    record {
      lt = lt_of_ltb j 8 (&&-left _ _ h3);
      set = ==-true _ _ (&&-right _ _ h3);
      before = λ i lt. ==-true _ _ (all_bits-member j _ i (&&-right _ _ h2) lt);
      clear = λ i lt. ==-true _ _ (all_bits-member 8 _ i (&&-right _ _ h1) lt);
      small = lt_of_ltb _ 256 (&&-right _ _ h);
    }

found-cases :
    (x : ℕ) (o : Option (ℕ × ℕ))
    → found_first x o ≡ true
    → ((o ≡ none) × (x ≡ 0)) ⊎ ((j : ℕ) × (mask : ℕ) × (o ≡ some (j, mask)) × FirstBit x j mask)
found-cases x none h = inl (refl, ==-true x 0 h)
found-cases x (some (j, mask)) h = inr (j, mask, refl, found_first-FirstBit x j mask h)

-- The inner loop of free_inode_pop finds the first set bit of a byte.
pub find_bit-cases :
    (x : ℕ)
    → x < 256
    → ((find_bit 8 0 0x80 x ≡ none) × (x ≡ 0))
      ⊎ ((j : ℕ) × (mask : ℕ) × (find_bit 8 0 0x80 x ≡ some (j, mask)) × FirstBit x j mask)
find_bit-cases x lt =
    found-cases x (find_bit 8 0 0x80 x)
      (all_bits-member 256 (λ y. found_first y (find_bit 8 0 0x80 y)) x find_bit_table lt)

-- Setting a bit sets that bit alone.
pub bit-or :
    (x j i : ℕ)
    → x < 256
    → j < 8
    → i < 8
    → (bit_or x (0x80 / 2 ^ j) < 256)
      × (bit (bit_or x (0x80 / 2 ^ j)) i ≡ (if i == j then 1 else bit x i))
bit-or x j i hx hj hi =
    let row = all_bits-member 8 _ j (all_bits-member 256 _ x push_table hx) hj in
    (lt_of_ltb _ 256 (&&-left _ _ row), ==-true _ _ (all_bits-member 8 _ i (&&-right _ _ row) hi))

zero_table : all_bits 8 (λ i. bit 0 i == 0) ≡ true
unfolding all_bits bit
zero_table = refl

pub bit-zero : (i : ℕ) → i < 8 → bit 0 i ≡ 0
bit-zero i h = ==-true _ _ (all_bits-member 8 (λ i. bit 0 i == 0) i zero_table h)

pub FirstBit-ne_zero : {x j mask : ℕ} → FirstBit x j mask → x ≢ 0
FirstBit-ne_zero {x} {j} first e =
    omega (arith, first.set, ap (λ (t : ℕ). bit t j) e, bit-zero j first.lt)
