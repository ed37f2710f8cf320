-- ===== src/Base/Int.antt =====
-- C's `int`: the integers, and the conversions between them and bit patterns.
use Prim.Native.Nat.{ℕ, ◌-◌, ◌%◌, ◌^◌, ◌<◌}
use mathlib.Core.Path.{◌≡◌}
use mathlib.Core.Bool.{Bool, true, false, ◌&&◌}
use native.Mathlib.Omega.{arith}
use os_fuse.Base.Tests.{ltb, if◌then◌else◌}

-- `negsuc n` is -(n + 1).
pub data ℤ : Type 0 where
  pos : ℕ → ℤ
  negsuc : ℕ → ℤ

abbrev pub is_neg : ℤ → Bool
is_neg (pos n) = false
is_neg (negsuc n) = true

abbrev pub pos_part : ℤ → ℕ
pos_part (pos n) = n
pos_part (negsuc n) = 0

-- The 32-bit pattern of an `int`.
abbrev pub to_word : ℤ → ℕ
to_word (pos n) = n % 2 ^ 32
to_word (negsuc n) = 2 ^ 32 - 1 - n % 2 ^ 32

-- The `int` that a 32-bit pattern stands for.
abbrev pub to_int : ℕ → ℤ
to_int w = if ltb w (2 ^ 31) then pos w else negsuc (2 ^ 32 - 1 - w)

-- The conversion of an `int` to `unsigned short`.
abbrev pub to_ushort : ℤ → ℕ
to_ushort (pos n) = n % 65536
to_ushort (negsuc n) = 65535 - n % 65536

-- `x > 0` for the `int` with bit pattern `w`.
abbrev pub word_gt_zero : ℕ → Bool
word_gt_zero w = ltb 0 w && ltb w (2 ^ 31)

pub word_gt_zero-true : (w : ℕ) → 0 < w → w < 2 ^ 31 → word_gt_zero w ≡ true
word_gt_zero-true w h k = ground arith

pub to_int-pos : (w : ℕ) → w < 2 ^ 31 → to_int w ≡ pos w
to_int-pos w h = ground arith
