-- ===== src/CString.antt =====
-- C strings in memory objects, and the functions of string.h that the code calls on them. A path
-- is shorter than PATH_MAX, which bounds the walks.
pub mod Compare
use os_fuse.Base.{ℕ, zero, suc, ◌+◌, Option, none, some, Bool, true, false, ◌==◌, if◌then◌else◌}
use os_fuse.Memory.{Bytes, get_u8}

unfoldable pub path_max : ℕ
path_max = 4096

abbrev pub slash : ℕ
slash = b'/'

-- `!strncmp(a, b, n)`
unfoldable pub equal_strings : ℕ → ℕ → Bytes → Bytes → Bool
equal_strings zero i a b = true
equal_strings (suc n) i a b =
    let rest = equal_strings n (i + 1) a b in
    if get_u8 a i == get_u8 b i then (if get_u8 a i == 0 then true else rest) else false

-- `strlen(b + i)` plus `i`
unfoldable pub string_end : ℕ → ℕ → Bytes → ℕ
string_end zero i b = i
string_end (suc n) i b = let rest = string_end n (i + 1) b in if get_u8 b i == 0 then i else rest

unfoldable pub strlen : Bytes → ℕ
unfolding string_end
strlen b = string_end path_max 0 b

-- The last position of `c` from `i` on, else `last`.
unfoldable pub last_index : ℕ → ℕ → ℕ → Option ℕ → Bytes → Option ℕ
last_index zero c i last b = last
last_index (suc n) c i last b =
    let rest = last_index n c (i + 1) (if get_u8 b i == c then some i else last) b in
    if get_u8 b i == 0 then last else rest

unfoldable pub strrchr : Bytes → ℕ → Option ℕ
unfolding last_index
strrchr b c = last_index path_max c 0 none b
