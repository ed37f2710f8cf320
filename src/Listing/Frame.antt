-- ===== src/Listing/Frame.antt =====
-- What the writing loops of dnode_listing_set and fnode_listing_set leave alone: slots in use are
-- told from free ones by the bitmap, so a slot that is not free changes only where a list owns it.
use os_fuse.Base.{
  ℕ, ◌+◌, ◌/◌, ◌<◌, ◌≡◌, refl, ap, ◌∙◌, arith, true, false, ==-false, pos, List, [], ◌∷◌, ◌++◌, has,
  ◌∉◌, inl, inr, not-mem-append, not-mem-append_left, not-mem-append_right,
}
use mathlib.Core.Bool.{false≢true}
use native.Mathlib.Decide.{ℕ_discrete}
use os_fuse.Memory.{Bytes, at, object}
use os_fuse.State.{Sys, Disk, block_write}
use os_fuse.Inode.{slot_load, slot_dump}
use os_fuse.Inode.Slots.{
  slot_load-slot_dump, slot_load-slot_dump_ne, disk-slot_dump, slot_load-of-disk,
}
use os_fuse.Bitmap.{free_inode_pop, free_inode_push}
use os_fuse.Bitmap.Laws.{
  is_free, Taken, free_inode_pop-cases, is_free-free_inode_push, disk-free_inode_push,
}

-- Slots below 4096 lie in front of the bitmap's block.
abbrev pub slot_limit : ℕ
slot_limit = 4096

-- From `s` to `t` a slot in use that is not among `touched` keeps its contents and stays in use,
-- and the blocks behind the bitmap, which hold the contents of files, are the same.
pub record Stays (touched : List ℕ) (s t : Sys) : Type 0 where
  pub slots :
      (m : ℕ)
      → m < slot_limit
      → is_free s.disk m ≡ false
      → m ∉ touched
      → (slot_load m t ≡ slot_load m s) × (is_free t.disk m ≡ false)
  pub beyond : (k : ℕ) → 1024 < k → t.disk k ≡ s.disk k

-- Distinct slots in use.
abbrev pub Owned : Sys → List ℕ → Type 0
Owned s [] = Unit
Owned s (x ∷ xs) = (x ∉ xs) × (x < slot_limit) × (is_free s.disk x ≡ false) × Owned s xs

-- Slot `p` holds the 128 bytes of `g` from `off` on.
abbrev pub SlotHolds : Sys → ℕ → Bytes → ℕ → Type 0
SlotHolds s p g off = (y : ℕ) → y < 128 → slot_load p s y ≡ g (off + y)

pub is_free-of-disk : (d e : Disk) (m : ℕ) → e 1024 ≡ d 1024 → is_free e m ≡ is_free d m
unfolding is_free
is_free-of-disk d e m h = rw h

-- Writing a slot in front of the bitmap.
pub is_free-slot_dump :
    (n : ℕ) (b : Bytes) (s : Sys) (m : ℕ)
    → n < slot_limit
    → is_free (slot_dump n b s).disk m ≡ is_free s.disk m
is_free-slot_dump n b s m lt =
    is_free-of-disk s.disk _ m (disk-slot_dump 1024 n b s (λ e. absurd (omega arith)))

pub SlotHolds-slot_dump :
    (n : ℕ) (g : Bytes) (off : ℕ) (s : Sys) → SlotHolds (slot_dump n (at g off) s) n g off
unfolding object
SlotHolds-slot_dump n g off s y lt = rw (slot_load-slot_dump n (at g off) s) (ground arith)

pub Stays-slot_dump :
    (n : ℕ) (b : Bytes) (s : Sys) → n < slot_limit → Stays (n ∷ []) s (slot_dump n b s)
Stays-slot_dump n b s lt = record {
  slots = λ m small used out.
      (slot_load-slot_dump_ne m n b s (λ e. ground arith), is_free-slot_dump n b s m lt ∙ used);
  beyond = λ k above. disk-slot_dump k n b s (λ e. absurd (omega arith));
}

pub errno-slot_dump : (n : ℕ) (b : Bytes) (s : Sys) → (slot_dump n b s).errno ≡ s.errno
unfolding slot_dump block_write
errno-slot_dump n b s = refl

-- Taking an inode that reports no error.
pub Taken-of-errno :
    (s : Sys)
    → (free_inode_pop s).1.errno ≡ pos 0
    → Taken s (free_inode_pop s).0 (free_inode_pop s).1
Taken-of-errno s e = elim (free_inode_pop-cases s) [
  | inl taken ↦ taken
  | inr (_, _, full) ↦ cc (e, ap (λ (t : Sys). t.errno) full)
]

pub Stays-Taken : {s t : Sys} {n : ℕ} → Taken s n t → Stays [] s t
Stays-Taken {s} {t} {n} taken = record {
  slots = λ m small used out. (
    slot_load-of-disk m s t (taken.blocks (m / 4) (λ e. absurd (omega arith))),
    ground (arith, taken.free m),
  );
  beyond = λ k above. taken.blocks k (λ e. absurd (omega arith));
}

-- Releasing an inode.
pub Stays-free_inode_push : (s : Sys) (n : ℕ) → Stays (n ∷ []) s (free_inode_push n s)
Stays-free_inode_push s n = record {
  slots = λ m small used out. (
    slot_load-of-disk m s (free_inode_push n s)
        (disk-free_inode_push s n (m / 4) (λ e. absurd (omega arith))),
    ground (arith, is_free-free_inode_push s n m),
  );
  beyond = λ k above. disk-free_inode_push s n k (λ e. absurd (omega arith));
}

pub errno-free_inode_push : (s : Sys) (n : ℕ) → (free_inode_push n s).errno ≡ s.errno
unfolding free_inode_push block_write
errno-free_inode_push s n = ground arith

pub Stays-trans :
    (V T U : List ℕ) (s t u : Sys)
    → ((m : ℕ) → m ∉ V → (m ∉ T) × (m ∉ U))
    → Stays T s t
    → Stays U t u
    → Stays V s u
Stays-trans V T U s t u parts a b = record {
  slots = λ m small used out.
      let (outT, outU) = parts m out in
      let (same, used') = a.slots m small used outT in
      let (same', used'') = b.slots m small used' outU in (same' ∙ same, used'');
  beyond = λ k above. b.beyond k above ∙ a.beyond k above;
}

pub Stays-refl : (T : List ℕ) (s : Sys) → Stays T s s
Stays-refl T s = record { slots = λ m small used out. (refl, used); beyond = λ k above. refl }

-- A list that was in use stays in use where nothing of it is touched.
pub Owned-Stays :
    (T xs : List ℕ) (s t : Sys)
    → ((m : ℕ) → has m xs ≡ true → m ∉ T)
    → Stays T s t
    → Owned s xs
    → Owned t xs
Owned-Stays T [] s t apart stays own = tt
Owned-Stays T (x ∷ xs) s t apart stays own = (
  own.0,
  own.1,
  (stays.slots x own.1 own.2 (apart x (ground arith))).1,
  Owned-Stays T xs s t (λ m h. apart m (ground arith)) stays own.3,
)

pub Owned-append_left : (s : Sys) (xs ys : List ℕ) → Owned s (xs ++ ys) → Owned s xs
Owned-append_left s [] ys own = tt
Owned-append_left s (x ∷ xs) ys own =
    (not-mem-append_left x xs ys own.0, own.1, own.2, Owned-append_left s xs ys own.3)

pub Owned-append_right : (s : Sys) (xs ys : List ℕ) → Owned s (xs ++ ys) → Owned s ys
Owned-append_right s [] ys own = own
Owned-append_right s (x ∷ xs) ys own = Owned-append_right s xs ys own.3

-- The parts of a list of owned slots have no slot in common.
pub Owned-append_apart :
    (s : Sys) (xs ys : List ℕ) → Owned s (xs ++ ys) → (m : ℕ) → has m xs ≡ true → m ∉ ys
Owned-append_apart s [] ys own m h = absurd (false≢true h)
Owned-append_apart s (x ∷ xs) ys own m h = elim (ℕ_discrete m x) [
  | yes e ↦ rw e (not-mem-append_right x xs ys own.0)
  | no ne ↦ Owned-append_apart s xs ys own.3 m (ground (arith, ==-false m x ne))
]

pub Owned-append :
    (s : Sys) (xs ys : List ℕ)
    → Owned s xs
    → Owned s ys
    → ((m : ℕ) → has m xs ≡ true → m ∉ ys)
    → Owned s (xs ++ ys)
Owned-append s [] ys own own' apart = own'
Owned-append s (x ∷ xs) ys own own' apart = (
  not-mem-append x xs ys own.0 (apart x (ground arith)),
  own.1,
  own.2,
  Owned-append s xs ys own.3 own' (λ m h. apart m (ground arith)),
)

-- A slot of an owned list is in use and in range.
pub Owned-mem :
    (s : Sys) (xs : List ℕ) (m : ℕ)
    → Owned s xs
    → has m xs ≡ true
    → (m < slot_limit) × (is_free s.disk m ≡ false)
Owned-mem s [] m own h = absurd (false≢true h)
Owned-mem s (x ∷ xs) m own h = elim (ℕ_discrete m x) [
  | yes e ↦ rw e (own.1, own.2)
  | no ne ↦ Owned-mem s xs m own.3 (ground (arith, ==-false m x ne))
]
