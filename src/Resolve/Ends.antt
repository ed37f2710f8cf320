-- ===== src/Resolve/Ends.antt =====
-- The loop of path_to_inum ends at the end mark of the path, so PATH_MAX rounds are enough.
use os_fuse.Base.{ℕ, zero, suc, ◌+◌, ◌<◌, ◌≤◌, ◌≡◌, ◌≢◌, refl, ap, ◌∙◌, arith, ==-false}
use native.Mathlib.Decide.{ℕ_discrete}
use os_fuse.Memory.{get_u8}
use os_fuse.Memory.Fields.{get_u8-put_u8_ne}
use os_fuse.Resolve.{Walk, walk_step, walk}

-- A round moves `tail` on by one and changes no byte behind it.
walk_step-tail : (w : Walk) → (walk_step w).tail ≡ w.tail + 1
unfolding walk_step
walk_step-tail w = ground arith

walk_step-later :
    (w : Walk) (e : ℕ) → w.tail < e → get_u8 (walk_step w).path_dup e ≡ get_u8 w.path_dup e
unfolding walk_step
walk_step-later w e lt =
    let kept = get_u8-put_u8_ne w.path_dup e w.tail 0 (omega arith) in ground (arith, kept)

pub walk-stop : (k : ℕ) (w : Walk) → get_u8 w.path_dup w.tail ≡ 0 → walk k w ≡ w
unfolding walk
walk-stop zero w stop = refl
walk-stop (suc k) w stop = rw stop refl

pub walk-go :
    (k : ℕ) (w : Walk) → get_u8 w.path_dup w.tail ≢ 0 → walk (suc k) w ≡ walk k (walk_step w)
unfolding walk
walk-go k w ne = rw (==-false (get_u8 w.path_dup w.tail) 0 ne) refl

-- Let the loop of path_to_inum be at a place not behind an end mark `e` of the path. Then after
-- `k` rounds, more than there are places up to `e`, it has stopped at an end mark not behind `e`,
-- and any further rounds change nothing.
pub walk-ends :
    (k more : ℕ) (w : Walk) (e : ℕ)
    → w.tail ≤ e
    → e < w.tail + k
    → get_u8 w.path_dup e ≡ 0
    → let v = walk k w in
      (get_u8 v.path_dup v.tail ≡ 0) × (w.tail ≤ v.tail) × (v.tail ≤ e) × (walk (k + more) w ≡ v)
walk-ends zero more w e le lt mark = absurd (omega arith)
walk-ends (suc k) more w e le lt mark = elim (ℕ_discrete (get_u8 w.path_dup w.tail) 0) [
  | yes stop ↦
      rw (walk-stop (suc k) w stop) (stop, omega arith, le, walk-stop (suc k + more) w stop)
  | no go ↦
      (let behind : w.tail ≢ e = λ eq. go (ap (get_u8 w.path_dup) eq ∙ mark) in
        let tail = walk_step-tail w in
        let (stop, low, high, same) =
          walk-ends k more (walk_step w) e (omega (arith, tail, behind)) (omega (arith, tail))
            (walk_step-later w e (omega (arith, behind)) ∙ mark) in
        let all : suc k + more ≡ suc (k + more) = omega arith in
        rw (walk-go k w go) (
          stop,
          omega (arith, low, tail),
          high,
          ap (λ (n : ℕ). walk n w) all ∙ (walk-go (k + more) w go ∙ same),
        ))
]
