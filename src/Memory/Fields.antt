-- ===== src/Memory/Fields.antt =====
-- What a field reads after a write to the object: the value written, or what it held before.
use os_fuse.Base.{ℕ, ◌+◌, ◌≤◌, ◌<◌, ◌^◌, ◌≡◌, ◌≢◌, ◌⊎◌, arith}
use os_fuse.Memory.{Bytes, get_u8, get_u16, get_u32, put_u8, put_u16, put_u32, memcpy, object}

pub get_u8-lt : (b : Bytes) (o : ℕ) → get_u8 b o < 256
unfolding get_u8
get_u8-lt b o = omega arith

pub get_u32-lt : (b : Bytes) (o : ℕ) → get_u32 b o < 2 ^ 32
unfolding get_u32
get_u32-lt b o = omega arith

pub get_u8-put_u8 : (b : Bytes) (o v : ℕ) → v < 256 → get_u8 (put_u8 b o v) o ≡ v
unfolding get_u8 put_u8
get_u8-put_u8 b o v h = ground arith

pub get_u8-put_u8_ne : (b : Bytes) (o p v : ℕ) → o ≢ p → get_u8 (put_u8 b p v) o ≡ get_u8 b o
unfolding get_u8 put_u8
get_u8-put_u8_ne b o p v h = ground arith

pub get_u16-put_u16 : (b : Bytes) (o v : ℕ) → v < 65536 → get_u16 (put_u16 b o v) o ≡ v
unfolding get_u16 put_u16
get_u16-put_u16 b o v h = ground arith

pub get_u32-put_u32 : (b : Bytes) (o v : ℕ) → v < 2 ^ 32 → get_u32 (put_u32 b o v) o ≡ v
unfolding get_u32 put_u32
get_u32-put_u32 b o v h = ground arith

-- A field that lies before or behind what was written.
pub get_u32-put_u32_ne :
    (b : Bytes) (o p v : ℕ) → (o + 4 ≤ p) ⊎ (p + 4 ≤ o) → get_u32 (put_u32 b p v) o ≡ get_u32 b o
unfolding get_u32 put_u32
get_u32-put_u32_ne b o p v h = ground arith

-- Reading a field of a copied object.
pub get_u32-object : (b : Bytes) (n o : ℕ) → o + 4 ≤ n → get_u32 (object b n) o ≡ get_u32 b o
unfolding get_u32 object
get_u32-object b n o h = ground arith

pub get_u16-object : (b : Bytes) (n o : ℕ) → o + 2 ≤ n → get_u16 (object b n) o ≡ get_u16 b o
unfolding get_u16 object
get_u16-object b n o h = ground arith

pub get_u32-memcpy_front :
    (b c : Bytes) (n o : ℕ) → o + 4 ≤ n → get_u32 (memcpy b 0 c n) o ≡ get_u32 c o
unfolding get_u32 memcpy
get_u32-memcpy_front b c n o h = ground arith

pub get_u32-memcpy_ne :
    (b c : Bytes) (p n o : ℕ) → (o + 4 ≤ p) ⊎ (p + n ≤ o) → get_u32 (memcpy b p c n) o ≡ get_u32 b o
unfolding get_u32 memcpy
get_u32-memcpy_ne b c p n o h = ground arith

-- A field depends on its own bytes alone.
pub get_u8-cong : (b c : Bytes) (o : ℕ) → b o ≡ c o → get_u8 b o ≡ get_u8 c o
unfolding get_u8
get_u8-cong b c o h = rw h

pub get_u16-cong :
    (b c : Bytes) (o : ℕ) → b o ≡ c o → b (o + 1) ≡ c (o + 1) → get_u16 b o ≡ get_u16 c o
unfolding get_u16
get_u16-cong b c o h k = rw (h, k)

pub get_u32-cong :
    (b c : Bytes) (o : ℕ) → ((i : ℕ) → i < 4 → b (o + i) ≡ c (o + i)) → get_u32 b o ≡ get_u32 c o
unfolding get_u32
get_u32-cong b c o h = ground (arith, h 0, h 1, h 2, h 3)
