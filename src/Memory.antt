-- ===== src/Memory.antt =====
-- Memory objects as functions from offsets to bytes, and the C accesses to them: little-endian
-- fields (x86-64), memcpy and memset. A cell is read as a byte, so every field is in its range.
pub mod Fields
pub mod Copy
use os_fuse.Base.{ℕ, ◌+◌, ◌-◌, ◌*◌, ◌/◌, ◌%◌, ◌&&◌, ltb, leb, ◌==◌, if◌then◌else◌}

abbrev pub Bytes : Type 0
Bytes = ℕ → ℕ

abbrev pub zeros : Bytes
zeros i = 0

-- The object at `p + n`.
abbrev pub at : Bytes → ℕ → Bytes
at b n i = b (n + i)

unfoldable pub get_u8 : Bytes → ℕ → ℕ
get_u8 b o = b o % 256

unfoldable pub get_u16 : Bytes → ℕ → ℕ
get_u16 b o = b o % 256 + 256 * (b (o + 1) % 256)

unfoldable pub get_u32 : Bytes → ℕ → ℕ
get_u32 b o =
    b o % 256 + 256 * (b (o + 1) % 256) + 65536 * (b (o + 2) % 256) + 16777216 * (b (o + 3) % 256)

unfoldable pub put_u8 : Bytes → ℕ → ℕ → Bytes
put_u8 b o v i = if i == o then v % 256 else b i

unfoldable pub put_u16 : Bytes → ℕ → ℕ → Bytes
put_u16 b o v i = if i == o then v % 256 else if i == o + 1 then v / 256 % 256 else b i

unfoldable pub put_u32 : Bytes → ℕ → ℕ → Bytes
put_u32 b o v i =
    if i == o
    then v % 256
    else if i == o + 1
    then v / 256 % 256
    else if i == o + 2
    then v / 65536 % 256
    else if i == o + 3
    then v / 16777216 % 256
    else b i

-- `memcpy(dst + o, src, n)`
unfoldable pub memcpy : Bytes → ℕ → Bytes → ℕ → Bytes
memcpy dst o src n i = if leb o i && ltb i (o + n) then src (i - o) else dst i

-- The object of `n` bytes that `memcpy(&x, src, n)` fills. Nothing is read behind its end.
unfoldable pub object : Bytes → ℕ → Bytes
object src n i = if ltb i n then src i else 0
