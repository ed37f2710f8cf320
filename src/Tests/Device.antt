-- ===== src/Tests/Device.antt =====
-- The theorems on the disk file, applied to a file in memory.
use os_fuse.Base.{
  ℕ, suc, ◌+◌, ◌-◌, ◌*◌, ◌<◌, ◌≤◌, ◌≡◌, ◌≢◌, refl, ap, ℤ, pos, negsuc, is_neg, true, ltb, ◌==◌,
  if◌then◌else◌, fun_ext, arith,
}
use Prim.Native.Nat.{min, max}
use os_fuse.Memory.{Bytes, zeros, at, memcpy}
use os_fuse.Device
use os_fuse.Device.{Posix, view, offset_of, block_read-cases, block_read-block_write}

-- A file in memory: its size, and its bytes up to there.
abbrev MemoryFile : Type 0
MemoryFile = ℕ × Bytes

abbrev memory_byte : MemoryFile → Bytes
memory_byte (n, b) x = if ltb x n then b x else 0

abbrev memory_pread : MemoryFile → Bytes → ℕ → ℤ → ℤ × Bytes
memory_pread f buf count (pos offset) = (
  pos (min count (f.0 - offset)),
  memcpy buf 0 (at (memory_byte f) offset) (min count (f.0 - offset)),
)
memory_pread f buf count (negsuc _) = (negsuc 21, buf)

abbrev memory_pwrite : MemoryFile → Bytes → ℕ → ℤ → ℤ × MemoryFile
memory_pwrite f buf count (pos offset) =
    (pos count, (max f.0 (offset + count), memcpy (memory_byte f) offset buf count))
memory_pwrite f buf count (negsuc _) = (negsuc 21, f)

memory_behind : (f : MemoryFile) (x : ℕ) → f.0 ≤ x → memory_byte f x ≡ 0
memory_behind f x le = ground arith

memory_written :
    (f : MemoryFile) (buf : Bytes) (count offset : ℕ)
    → memory_byte (memory_pwrite f buf count (pos offset)).1
      ≡ memcpy (memory_byte f) offset buf count
unfolding memcpy
memory_written f buf count offset = fun_ext λ x. ground arith

pos_of : ℤ → ℕ
pos_of (pos n) = n
pos_of (negsuc n) = 0

memory_bytes :
    (f : MemoryFile) (buf : Bytes) (count offset n : ℕ)
    → (memory_pread f buf count (pos offset)).0 ≡ pos n
    → (n ≤ min count (f.0 - offset))
      × ((memory_pread f buf count (pos offset)).1 ≡ memcpy buf 0 (at (memory_byte f) offset) n)
unfolding pos_of
memory_bytes f buf count offset n got =
    let all : min count (f.0 - offset) ≡ n = ap pos_of got in (omega (arith, all), rw all refl)

memory_end :
    (f : MemoryFile) (count offset : ℕ)
    → pos (min count (f.0 - offset)) ≡ pos 0
    → 0 < count
    → f.0 ≤ offset
unfolding pos_of
memory_end f count offset got gt =
    let all : min count (f.0 - offset) ≡ 0 = ap pos_of got in omega (arith, all)

abbrev memory : Posix
memory = record {
  File = MemoryFile;
  size = λ f. f.0;
  byte = memory_byte;
  byte_behind = memory_behind;
  open_file = λ path. (pos 3, (0, zeros));
  close_file = λ fd f. f;
  pread = memory_pread;
  pread_bytes = λ f buf count offset n got. memory_bytes f buf count offset n got;
  pread_end = λ f buf count offset got gt. memory_end f count offset got gt;
  pwrite = memory_pwrite;
  pwrite_byte = λ f buf count offset _. memory_written f buf count offset;
  pwrite_size = λ f buf count offset _. refl;
}

block_read-cases_example :
    let (r, filled) = Device.block_read memory 1 zeros (1024, λ i. i) in
    (is_neg r ≡ true → (x : ℕ) → x < 512 → filled x ≡ 0)
    × (r ≡ pos 0
        → (1024 ≤ 1 * 512)
          × ((x : ℕ) → x < 512 → (filled x ≡ 0) × (view memory (1024, λ i. i) 1 x ≡ 0)))
    × ((k : ℕ)
        → r ≡ pos (suc k)
        → (suc k ≤ 512)
          × (1 * 512 + suc k ≤ 1024)
          × ((x : ℕ) → x < suc k → filled x ≡ view memory (1024, λ i. i) 1 x)
          × ((x : ℕ) → suc k ≤ x → filled x ≡ zeros x))
block_read-cases_example = block_read-cases memory 1 zeros (1024, λ i. i) (omega arith)

block_read-block_write_example :
    let (r, filled) =
      Device.block_read memory 1 zeros (Device.block_write memory 1 (λ i. i) (1024, zeros)).1 in
    (r ≡ pos 512
      → (x : ℕ) → x < 512
      → filled x ≡ (if 1 == 1 then x else view memory (1024, zeros) 1 x))
    × (◌≡◌ {A = ℕ} 1 1 → r ≢ pos 0)
unfolding Device.block_write offset_of
block_read-block_write_example =
    block_read-block_write memory 1 1 (λ i. i) zeros (1024, zeros) (omega arith) (omega arith) refl
