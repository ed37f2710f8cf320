-- ===== src/Device.antt =====
-- block.c: the disk file behind the blocks. open, close, pread and pwrite are those of the host, an
-- instance of `Posix`. State.antt keeps the blocks of the file as a function, which `view` is.
use os_fuse.Base.{
  ℕ, suc, to_int, to_int-pos, ap, ◌≢◌, ◌^◌, ◌+◌, ◌*◌, ◌-◌, ◌%◌, ◌<◌, ◌≤◌, ◌≡◌, refl, sym, ◌∙◌,
  fun_ext, arith, ℤ, pos, negsuc, is_neg, Bool, true, ==-false, eq-==_self, ◌==◌, not,
  if◌then◌else◌, Option, none, some,
}
use Prim.Native.Nat.{min, max}
use native.Mathlib.Decide.{ℕ_discrete}
use mathlib.Core.Bool.{false≢true}
use os_fuse.Memory.{Bytes, zeros, at, memcpy, object}
use os_fuse.State.{Disk, update}

-- The calls of the host, with what pread(2) and pwrite(2) document for a regular file: a file has
-- a size and bytes, zero behind its end; a read stops at the end; a full write changes its range
-- alone.
pub record Posix : Type 1 where
  pub File : Type 0
  pub size : File → ℕ
  pub byte : File → Bytes
  pub byte_behind : (f : File) (x : ℕ) → size f ≤ x → byte f x ≡ 0
  -- `open` gives a descriptor and the file, `close` the file that stays.
  pub open_file : Bytes → ℤ × File
  pub close_file : ℤ → File → File
  -- The buffer is an argument and a result.
  -- The buffer is an argument and a result. A read may deliver fewer bytes than there are, but 0
  -- only at the end of the file.
  pub pread : File → Bytes → (count : ℕ) → (offset : ℤ) → ℤ × Bytes
  pub pread_bytes :
      (f : File) (buf : Bytes) (count offset n : ℕ)
      → (pread f buf count (pos offset)).0 ≡ pos n
      → (n ≤ min count (size f - offset))
        × ((pread f buf count (pos offset)).1 ≡ memcpy buf 0 (at (byte f) offset) n)
  pub pread_end :
      (f : File) (buf : Bytes) (count offset : ℕ)
      → (pread f buf count (pos offset)).0 ≡ pos 0
      → 0 < count
      → size f ≤ offset
  pub pwrite : File → Bytes → (count : ℕ) → (offset : ℤ) → ℤ × File
  pub pwrite_byte :
      (f : File) (buf : Bytes) (count offset : ℕ)
      → (pwrite f buf count (pos offset)).0 ≡ pos count
      → byte (pwrite f buf count (pos offset)).1 ≡ memcpy (byte f) offset buf count
  pub pwrite_size :
      (f : File) (buf : Bytes) (count offset : ℕ)
      → (pwrite f buf count (pos offset)).0 ≡ pos count
      → size (pwrite f buf count (pos offset)).1 ≡ max (size f) (offset + count)

-- `block_num*BLOCK_SIZE`, a product of ints that wraps around in 32 bits.
unfoldable pub offset_of : ℕ → ℤ
offset_of n = to_int (n * 512 % 2 ^ 32)

-- Below block 2^22 it does not.
pub offset_of-pos : (n : ℕ) → n < 2 ^ 22 → offset_of n ≡ pos (n * 512)
unfolding offset_of
offset_of-pos n lt =
    let small : n * 512 % 2 ^ 32 ≡ n * 512 = omega arith in
    rw small (to_int-pos (n * 512) (omega arith))

zeroed : (buf : Bytes) (x : ℕ) → x < 512 → memcpy buf 0 zeros 512 x ≡ 0
unfolding memcpy
zeroed buf x lt = ground arith

behind : (b : Bytes) (o x : ℕ) → b (o + x) ≡ 0 → object (at b o) 512 x ≡ 0
unfolding object
behind b o x h = ground (arith, h)

-- A full write, seen block by block.
block-memcpy :
    (b buf : Bytes) (n m : ℕ)
    → object (at (memcpy b (n * 512) buf 512) (m * 512)) 512
      ≡ (if m == n then object buf 512 else object (at b (m * 512)) 512)
unfolding memcpy object
block-memcpy b buf n m = fun_ext λ x. elim (ℕ_discrete m n) [
  | yes e ↦ rw (e, eq-==_self n) (ground arith)
  | no ne ↦ rw (==-false m n ne) (ground arith)
]

module _ (P : Posix) where
  open P use {File, size, byte, pread, pwrite, open_file, close_file}

  -- The variable `diskfile` with the file. `none` is the exit after a failed open.
  unfoldable pub disk_open : Bytes → ℤ × File → Option (ℤ × File)
  disk_open path (diskfile, f) =
      let opened = open_file path in
      if not (is_neg diskfile)
      then some (diskfile, f)
      else if is_neg opened.0
      then none
      else some opened

  unfoldable pub disk_close : ℤ × File → ℤ × File
  disk_close (diskfile, f) =
      if not (is_neg diskfile) then (diskfile, close_file diskfile f) else (diskfile, f)

  -- `retstat <= 0`
  abbrev no_bytes : ℤ → Bool
  no_bytes (pos n) = n == 0
  no_bytes (negsuc n) = true

  -- `n` is the 32 bits of block_num.
  unfoldable pub block_read : ℕ → Bytes → File → ℤ × Bytes
  block_read n buf f =
      let (retstat, filled) = pread f buf 512 (offset_of n) in
      (retstat, if no_bytes retstat then memcpy filled 0 zeros 512 else filled)

  unfoldable pub block_write : ℕ → Bytes → File → ℤ × File
  block_write n buf f = pwrite f buf 512 (offset_of n)

  -- The blocks of the file.
  abbrev pub view : File → Disk
  view f n = object (at (byte f) (n * 512)) 512

  no_bytes-neg : (r : ℤ) → is_neg r ≡ true → no_bytes r ≡ true
  no_bytes-neg (pos n) h = absurd (false≢true h)
  no_bytes-neg (negsuc n) h = refl

  block_read-at :
      (n : ℕ) (buf : Bytes) (f : File)
      → n < 2 ^ 22
      → let (r, filled) = pread f buf 512 (pos (n * 512)) in
        block_read n buf f ≡ (r, if no_bytes r then memcpy filled 0 zeros 512 else filled)
  unfolding block_read
  block_read-at n buf f lt = rw (offset_of-pos n lt) refl

  block_write-at :
      (n : ℕ) (buf : Bytes) (f : File)
      → n < 2 ^ 22
      → block_write n buf f ≡ pwrite f buf 512 (pos (n * 512))
  unfolding block_write
  block_write-at n buf f lt = ap (pwrite f buf 512) (offset_of-pos n lt)

  -- Let `n` be below 2^22. A block_read of block `n` that returns a negative number leaves 512 zero
  -- bytes in the buffer. One that returns 0 was behind the end of the file, and leaves zeros, which
  -- are the bytes of the block. One that returns a positive number, at most 512, stayed inside the
  -- file, leaves that many bytes of the block in the buffer and the rest of the buffer as it was.
  pub block_read-cases :
      (n : ℕ) (buf : Bytes) (f : File)
      → n < 2 ^ 22
      → let (r, filled) = block_read n buf f in
        (is_neg r ≡ true → (x : ℕ) → x < 512 → filled x ≡ 0)
        × (r ≡ pos 0 → (size f ≤ n * 512) × ((x : ℕ) → x < 512 → (filled x ≡ 0) × (view f n x ≡ 0)))
        × ((k : ℕ)
            → r ≡ pos (suc k)
            → (suc k ≤ 512)
              × (n * 512 + suc k ≤ size f)
              × ((x : ℕ) → x < suc k → filled x ≡ view f n x)
              × ((x : ℕ) → suc k ≤ x → filled x ≡ buf x))
  unfolding memcpy object
  block_read-cases n buf f lt =
      let got : ℤ × Bytes = pread f buf 512 (pos (n * 512)) in
      rw (block_read-at n buf f lt) (
        (λ neg x l. rw (no_bytes-neg got.0 neg) (zeroed got.1 x l)),
        (λ end.
            let past = P.pread_end f buf 512 (n * 512) end (omega arith) in
            (
              past,
              λ x l. (
                rw end (zeroed got.1 x l),
                behind (byte f) (n * 512) x (P.byte_behind f (n * 512 + x) (omega arith)),
              ),
            )),
        (λ k part.
            let (most, bytes) = P.pread_bytes f buf 512 (n * 512) (suc k) part in
            (
              omega (arith, most),
              omega (arith, most),
              (λ x l. rw (part, bytes, ==-false (suc k) 0 (omega arith)) (ground (arith, most))),
              (λ x l. rw (part, bytes, ==-false (suc k) 0 (omega arith)) (ground arith)),
            )),
      )

  -- A block_write that returns 512 replaces that block alone.
  view-block_write :
      (n : ℕ) (buf : Bytes) (f : File)
      → n < 2 ^ 22
      → (block_write n buf f).0 ≡ pos 512
      → view (block_write n buf f).1 ≡ update (view f) n (object buf 512)
  view-block_write n buf f lt ok =
      let at_once = block_write-at n buf f lt in
      let full : (pwrite f buf 512 (pos (n * 512))).0 ≡ pos 512 =
        sym (ap (λ (r : ℤ × File). r.0) at_once) ∙ ok in
      fun_ext λ m.
        rw at_once (rw (P.pwrite_byte f buf 512 (n * 512) full) (block-memcpy (byte f) buf n m))

  -- Let `n` and `m` be below 2^22, and let a block_write of block `n` return 512. Then a
  -- block_read of block `m` that returns 512 afterwards delivers the bytes written if `m` is `n`,
  -- and else those that block `m` had before; and a block_read of block `n` does not return 0.
  pub block_read-block_write :
      (n m : ℕ) (buf other : Bytes) (f : File)
      → n < 2 ^ 22
      → m < 2 ^ 22
      → (block_write n buf f).0 ≡ pos 512
      → let (r, filled) = block_read m other (block_write n buf f).1 in
        (r ≡ pos 512 → (x : ℕ) → x < 512 → filled x ≡ (if m == n then buf x else view f m x))
        × (m ≡ n → r ≢ pos 0)
  unfolding object
  block_read-block_write n m buf other f ln lm ok =
      let t : File = (block_write n buf f).1 in
      let at_once = block_write-at n buf f ln in
      let full : (pwrite f buf 512 (pos (n * 512))).0 ≡ pos 512 =
        sym (ap (λ (r : ℤ × File). r.0) at_once) ∙ ok in
      let length : size t ≡ max (size f) (n * 512 + 512) =
        ap (λ (r : ℤ × File). size r.1) at_once ∙ P.pwrite_size f buf 512 (n * 512) full in
      let (_, at_end, inside) = block_read-cases m other t lm in
      (
        (λ read x lt.
            (inside 511 read).2 x lt
            ∙ (ap (λ (d : Disk). d m x) (view-block_write n buf f ln ok) ∙ ground arith)),
        λ same read. let past = (at_end read).0 in absurd (omega (arith, past, length, same)),
      )
