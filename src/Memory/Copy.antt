-- ===== src/Memory/Copy.antt =====
-- What memcpy leaves, byte by byte.
use os_fuse.Base.{ℕ, ◌+◌, ◌<◌, ◌≤◌, ◌≡◌, arith}
use os_fuse.Memory.{Bytes, memcpy}

pub memcpy-in : (dst src : Bytes) (o n x : ℕ) → x < n → memcpy dst o src n (o + x) ≡ src x
unfolding memcpy
memcpy-in dst src o n x lt = ground arith

pub memcpy-front : (dst src : Bytes) (n x : ℕ) → x < n → memcpy dst 0 src n x ≡ src x
unfolding memcpy
memcpy-front dst src n x lt = ground arith

pub memcpy-before : (dst src : Bytes) (o n x : ℕ) → x < o → memcpy dst o src n x ≡ dst x
unfolding memcpy
memcpy-before dst src o n x lt = ground arith

pub memcpy-behind : (dst src : Bytes) (o n x : ℕ) → o + n ≤ x → memcpy dst o src n x ≡ dst x
unfolding memcpy
memcpy-behind dst src o n x le = ground arith
