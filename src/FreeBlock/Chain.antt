-- ===== src/FreeBlock/Chain.antt =====
-- The list of free blocks that the links on the disk spell out, and what disturbs it.
use os_fuse.Base.{ℕ, ◌-◌, ◌^◌, ◌≤◌, ◌<◌, ◌≡◌, ◌≢◌, refl, List, [], ◌∷◌, arith, length, ◌∉◌}
use os_fuse.Memory.{Bytes, get_u32}
use os_fuse.State.{Disk, update}

-- From the word `w` the links lead through the distinct blocks `xs` to the end mark -1.
abbrev pub Chain : Disk → ℕ → List ℕ → Type 0
Chain d w [] = w ≡ 2 ^ 32 - 1
Chain d w (x ∷ xs) = (w ≡ x) × (0 < x) × (x < 2 ^ 31) × (x ∉ xs) × Chain d (get_u32 (d x) 0) xs

-- The blocks `xs` are free, in the order in which they will be handed out.
pub record IsFree (d : Disk) (xs : List ℕ) : Type 0 where
  pub chain : Chain d (get_u32 (d 0) 0) xs
  pub count : get_u32 (d 0) 4 ≡ length xs
  pub small : length xs < 2 ^ 31

-- A write to a block that is not in the chain.
pub Chain-update :
    (d : Disk) (n : ℕ) (b : Bytes) (w : ℕ) (xs : List ℕ)
    → n ∉ xs
    → Chain d w xs
    → Chain (update d n b) w xs
Chain-update d n b w [] out c = c
Chain-update d n b w (x ∷ xs) out c =
    let e : update d n b x ≡ d x = ground arith in
    (c.0, c.1, c.2, c.3, rw e (Chain-update d n b (get_u32 (d x) 0) xs (ground arith) c.4))

pub Chain-zero-mem : (d : Disk) (w : ℕ) (xs : List ℕ) → Chain d w xs → 0 ∉ xs
Chain-zero-mem d w [] c = refl
Chain-zero-mem d w (x ∷ xs) c = ground (arith, Chain-zero-mem d (get_u32 (d x) 0) xs c.4)

-- Only the first 8 bytes of block 0 may differ.
pub record SameData (d e : Disk) : Type 0 where
  pub blocks : (n : ℕ) → n ≢ 0 → e n ≡ d n
  pub rest : (i : ℕ) → 8 ≤ i → e 0 i ≡ d 0 i

-- A write to an allocated block leaves the list of free blocks alone.
pub IsFree-update :
    (d : Disk) (n : ℕ) (b : Bytes) (xs : List ℕ)
    → 0 < n
    → n ∉ xs
    → IsFree d xs
    → IsFree (update d n b) xs
IsFree-update d n b xs gt out free =
    let e : update d n b 0 ≡ d 0 = ground arith in
    record {
      chain = rw e (Chain-update d n b (get_u32 (d 0) 0) xs out free.chain);
      count = rw e free.count;
      small = free.small;
    }

pub SameData-update :
    (d e : Disk) (n : ℕ) (b : Bytes) → 0 < n → SameData d e → SameData (update d n b) (update e n b)
SameData-update d e n b gt same = record {
  blocks = λ m ne. ground (arith, same.blocks m);
  rest = λ i le. ground (arith, same.rest i);
}

-- A write to block 0 that keeps the superblock's two words.
pub IsFree-update_zero :
    (d : Disk) (b : Bytes) (xs : List ℕ)
    → get_u32 b 0 ≡ get_u32 (d 0) 0
    → get_u32 b 4 ≡ get_u32 (d 0) 4
    → IsFree d xs
    → IsFree (update d 0 b) xs
IsFree-update_zero d b xs head count free =
    let out = Chain-zero-mem d (get_u32 (d 0) 0) xs free.chain in
    record {
      chain = rw head (Chain-update d 0 b (get_u32 (d 0) 0) xs out free.chain);
      count = rw count free.count;
      small = free.small;
    }
