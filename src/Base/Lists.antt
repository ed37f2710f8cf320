-- ===== src/Base/Lists.antt =====
-- Lists of native numbers: length, membership as a Boolean, distinctness.
use Prim.Native.Nat.{ℕ, suc, ◌+◌}
use mathlib.Core.Path.{◌≡◌, refl, ap}
use mathlib.Core.Logic.{◌≢◌}
use mathlib.Core.Bool.{Bool, true, false, ◌||◌}
use mathlib.Core.List.{List, [], ◌∷◌, ◌++◌}
use native.Mathlib.Omega.{arith}
use os_fuse.Base.Tests.{◌==◌}

abbrev pub length {ℓ} : {A : Type ℓ} → List A → ℕ
length [] = 0
length (_ ∷ xs) = suc (length xs)

abbrev pub has : ℕ → List ℕ → Bool
has a [] = false
has a (x ∷ xs) = a == x || has a xs

infix 40 ◌∉◌
abbrev pub ◌∉◌ : ℕ → List ℕ → Type 0
a ∉ xs = has a xs ≡ false

pub has-append : (a : ℕ) (xs ys : List ℕ) → has a (xs ++ ys) ≡ (has a xs || has a ys)
has-append a [] ys = refl
has-append a (x ∷ xs) ys = ground (arith, has-append a xs ys)

pub not-mem-append : (a : ℕ) (xs ys : List ℕ) → a ∉ xs → a ∉ ys → a ∉ (xs ++ ys)
not-mem-append a xs ys h k = ground (arith, has-append a xs ys)

pub not-mem-append_left : (a : ℕ) (xs ys : List ℕ) → a ∉ (xs ++ ys) → a ∉ xs
not-mem-append_left a xs ys h = ground (arith, has-append a xs ys)

pub not-mem-append_right : (a : ℕ) (xs ys : List ℕ) → a ∉ (xs ++ ys) → a ∉ ys
not-mem-append_right a xs ys h = ground (arith, has-append a xs ys)

-- A member and a stranger differ.
pub ne_of_mem : (a b : ℕ) (xs : List ℕ) → has a xs ≡ true → b ∉ xs → a ≢ b
ne_of_mem a b xs h out e = cc (h, out, ap (λ (x : ℕ). has x xs) e)

pub length-append {ℓ} : {A : Type ℓ} (xs ys : List A) → length (xs ++ ys) ≡ length xs + length ys
length-append [] ys = omega arith
length-append (x ∷ xs) ys = omega (arith, length-append xs ys)
