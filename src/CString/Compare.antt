-- ===== src/CString/Compare.antt =====
-- Laws of the comparison of strings.
use os_fuse.Base.{ℕ, zero, suc, ◌+◌, ◌<◌, ◌≤◌, ◌≡◌, refl, arith, true, false, ◌≢◌, ap, ◌∙◌}
use native.Mathlib.Decide.{ℕ_discrete}
use os_fuse.Memory.{Bytes, get_u8}
use os_fuse.Memory.Fields.{get_u8-cong}
use os_fuse.CString.{equal_strings}

-- It reads `n` bytes at most.
pub equal_strings-cong_left :
    (n i : ℕ) (a b c : Bytes)
    → ((x : ℕ) → i ≤ x → x < i + n → b x ≡ a x)
    → equal_strings n i b c ≡ equal_strings n i a c
unfolding equal_strings
equal_strings-cong_left zero i a b c same = refl
equal_strings-cong_left (suc n) i a b c same =
    let rest =
      equal_strings-cong_left n (i + 1) a b c (λ x low high. same x (omega arith) (omega arith)) in
    let here : get_u8 b i ≡ get_u8 a i = get_u8-cong b a i (same i (omega arith) (omega arith)) in
    rw (rest, here) refl

pub equal_strings_comm : (n i : ℕ) (a b : Bytes) → equal_strings n i a b ≡ equal_strings n i b a
unfolding equal_strings
equal_strings_comm zero i a b = refl
equal_strings_comm (suc n) i a b = ground (arith, equal_strings_comm n (i + 1) a b)

-- Two strings that a third is equal to.
pub equal_strings_trans :
    (n i : ℕ) (a b c : Bytes)
    → equal_strings n i a b ≡ true
    → equal_strings n i a c ≡ true
    → equal_strings n i b c ≡ true
unfolding equal_strings
equal_strings_trans zero i a b c h k = refl
equal_strings_trans (suc n) i a b c h k = ground (arith, equal_strings_trans n (i + 1) a b c)

-- Comparing one character less.
pub equal_strings_shorter :
    (n i : ℕ) (a b : Bytes) → equal_strings (suc n) i a b ≡ true → equal_strings n i a b ≡ true
unfolding equal_strings
equal_strings_shorter zero i a b h = refl
equal_strings_shorter (suc n) i a b h = ground (arith, equal_strings_shorter n (i + 1) a b)

-- Comparing one character more, where both strings have their end mark there.
pub equal_strings_longer :
    (n i : ℕ) (a b : Bytes)
    → equal_strings n i a b ≡ true
    → get_u8 a (i + n) ≡ 0
    → get_u8 b (i + n) ≡ 0
    → equal_strings (suc n) i a b ≡ true
unfolding equal_strings
equal_strings_longer zero i a b h k l =
    let here : get_u8 a i ≡ 0 = ap (get_u8 a) (omega arith) ∙ k in
    let there : get_u8 b i ≡ 0 = ap (get_u8 b) (omega arith) ∙ l in rw (here, there) refl
equal_strings_longer (suc n) i a b h k l =
    let next : i + suc n ≡ i + 1 + n = omega arith in
    let rest = equal_strings_longer n (i + 1) a b in
    ground (arith, rest, ap (get_u8 a) next, ap (get_u8 b) next)

-- A string that ends at `l`, and memory with the same characters.
pub equal_strings-copy :
    (n i l : ℕ) (a b : Bytes)
    → i ≤ l
    → l < i + n
    → get_u8 a l ≡ 0
    → ((x : ℕ) → i ≤ x → x ≤ l → get_u8 b x ≡ get_u8 a x)
    → equal_strings n i a b ≡ true
unfolding equal_strings
equal_strings-copy zero i l a b le lt stop same = refl
equal_strings-copy (suc n) i l a b le lt stop same = elim (ℕ_discrete i l) [
  | yes e ↦ rw (same i (omega arith) le, ap (get_u8 a) e ∙ stop) refl
  | no ne ↦
      (let rest =
          equal_strings-copy n (i + 1) l a b (omega (arith, ne)) (omega arith) stop
            (λ x low high. same x (omega arith) high) in
        let here = same i (omega arith) le in ground (arith, rest, here))
]

-- A longer string is not equal to one that ends at `i + k`.
pub equal_strings-long :
    (k i : ℕ) (a b : Bytes)
    → ((x : ℕ) → i ≤ x → x ≤ i + k → get_u8 a x ≢ 0)
    → get_u8 b (i + k) ≡ 0
    → equal_strings (suc k) i a b ≡ false
unfolding equal_strings
equal_strings-long zero i a b long stop =
    let here = long i (omega arith) (omega arith) in
    let there : get_u8 b i ≡ 0 = ap (get_u8 b) (omega arith) ∙ stop in ground (arith, here, there)
equal_strings-long (suc k) i a b long stop =
    let here = long i (omega arith) (omega arith) in
    let rest =
      equal_strings-long k (i + 1) a b (λ x low high. long x (omega arith) (omega arith))
        (ap (get_u8 b) (omega arith) ∙ stop) in
    ground (arith, here, rest)
