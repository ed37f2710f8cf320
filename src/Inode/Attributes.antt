-- ===== src/Inode/Attributes.antt =====
-- The inodes that dnode_init and fnode_init write, as inode_get_attr and the lists read them, and
-- inode_set_attr_upc followed by inode_get_attr.
use os_fuse.Base.{ℕ, ◌^◌, ◌<◌, ◌≡◌, refl, ◌∙◌, arith, ltb, if◌then◌else◌, pos, none, some}
use os_fuse.Memory.{Bytes, get_u8, get_u16, get_u32, put_u8, put_u16, put_u32, memcpy, object}
use os_fuse.Memory.Fields.{get_u32-object, get_u32-put_u32}
use os_fuse.State.{Sys}
use os_fuse.Inode.{
  slot_load, dnode_init, dnode_image, fnode_init, fnode_image, inode_get_attr, inode_set_attr_upc,
  dir_mode, file_mode, nlink_at, size_at, fsize_at, isdir_at, clamp, fcontent_max_size,
}
use os_fuse.Inode.Slots.{slot_load-slot_dump}

-- A new directory has the mode of a directory, two links and two entries.
pub inode_get_attr-dnode_init :
    (inum pnum : ℕ) (s : Sys)
    → inode_get_attr inum (dnode_init inum pnum s)
      ≡ record { st_blksize = 512; st_mode = dir_mode; st_nlink = 2; st_blocks = 0; st_size = 2 }
unfolding inode_get_attr dnode_init get_u8 get_u16 put_u8 put_u16 memcpy object
inode_get_attr-dnode_init inum pnum s = rw (slot_load-slot_dump inum (dnode_image inum pnum) s)

-- A new file has the mode of a file, one link, no blocks and no bytes.
pub inode_get_attr-fnode_init :
    (inum pnum : ℕ) (s : Sys)
    → inode_get_attr inum (fnode_init inum pnum s)
      ≡ record { st_blksize = 512; st_mode = file_mode; st_nlink = 1; st_blocks = 0; st_size = 0 }
unfolding inode_get_attr fnode_init get_u8 get_u16 get_u32 put_u8 put_u16 put_u32 memcpy object
inode_get_attr-fnode_init inum pnum s = rw (slot_load-slot_dump inum (fnode_image inum pnum) s)

-- The image with another file size.
abbrev resized : Bytes → ℕ → Bytes
resized node w = object (put_u32 node fsize_at w) 128

resized-isdir : (node : Bytes) (w : ℕ) → get_u8 (resized node w) isdir_at ≡ get_u8 node isdir_at
unfolding get_u8 put_u32 object
resized-isdir node w = refl

resized-nlink : (node : Bytes) (w : ℕ) → get_u16 (resized node w) nlink_at ≡ get_u16 node nlink_at
unfolding get_u16 put_u32 object
resized-nlink node w = refl

resized-size : (node : Bytes) (w : ℕ) → get_u16 (resized node w) size_at ≡ get_u16 node size_at
unfolding get_u16 put_u32 object
resized-size node w = refl

resized-fsize : (node : Bytes) (w : ℕ) → w < 2 ^ 32 → get_u32 (resized node w) fsize_at ≡ w
resized-fsize node w lt =
    get_u32-object (put_u32 node fsize_at w) 128 fsize_at (omega arith)
    ∙ get_u32-put_u32 node fsize_at w lt

clamp-lt : (n : ℕ) → clamp fcontent_max_size (pos n) < 2 ^ 32
clamp-lt n = ground arith

-- Setting the size of a file to `n` bytes: the size that is read afterwards is `n`, or the largest
-- file size where `n` exceeds it, and no other attribute changes.
pub inode_get_attr-inode_set_attr_upc :
    (inum n : ℕ) (s : Sys)
    → get_u8 (slot_load inum s) isdir_at ≡ 0
    → inode_get_attr inum (inode_set_attr_upc inum none (some (pos n)) s)
      ≡ record (inode_get_attr inum s) {
        st_size = if ltb fcontent_max_size n then fcontent_max_size else n;
      }
unfolding inode_get_attr inode_set_attr_upc
inode_get_attr-inode_set_attr_upc inum n s file =
    let node : Bytes = slot_load inum s in
    let w : ℕ = clamp fcontent_max_size (pos n) in
    rw (
      file,
      slot_load-slot_dump inum (put_u32 node fsize_at w) s,
      resized-isdir node w,
      file,
      resized-nlink node w,
      resized-size node w,
      resized-fsize node w (clamp-lt n),
    )
