-- ===== src/Tests/Lookups.antt =====
-- The theorems on path lookup, applied to the root of a new disk and to the path "/a".
use os_fuse.Base.{◌+◌, ◌≤◌, ◌≡◌, refl, arith, pos, ◌==◌, if◌then◌else◌}
use os_fuse.Memory.{Bytes, get_u8, get_u16}
use os_fuse.CString.{equal_strings}
use os_fuse.Inode.{di_ent_c}
use os_fuse.Listing.{dir_layout, pages_per_inode, pages_per_index}
use os_fuse.Listing.Supply.{new_pages}
use os_fuse.Listing.Growth.{new_indexes}
use os_fuse.Listing.Enough.{slots_needed}
use os_fuse.Directory.{dnode_append}
use os_fuse.Directory.Create.{first_entries}
use os_fuse.Resolve.{Walk, walk, path_to_inum_elem}
use os_fuse.Resolve.Lookup.{or_entry, path_to_inum_elem-dnode_append}
use os_fuse.Resolve.Ends.{walk-ends}
use os_fuse.Tests.Files.{new_disk, new_errno, new_root}

-- The name "a".
abbrev pub name_a : Bytes
name_a i = if i == 0 then b'a' else 0

three_entries : (slots_needed dir_layout 3 ≡ 0) × (slots_needed dir_layout 2 ≡ 0)
unfolding slots_needed new_pages new_indexes pages_per_inode pages_per_index
three_entries = (refl, refl)

path_to_inum_elem-dnode_append_example :
    (path_to_inum_elem name_a 2 (dnode_append (pos 2) (di_ent_c name_a 3) new_disk)).0
    ≡ or_entry
        (path_to_inum_elem name_a 2 new_disk).0
        (equal_strings 14 0 name_a (di_ent_c name_a 3))
        (get_u16 (di_ent_c name_a 3) 14)
path_to_inum_elem-dnode_append_example =
    path_to_inum_elem-dnode_append name_a 2 2 (first_entries 2 2) (di_ent_c name_a 3) new_disk
      (omega arith) new_root new_errno (omega arith) (omega (arith, three_entries.0))

-- The loop of path_to_inum on "/a", at its start.
abbrev slash_a : Walk
slash_a = record {
  path_dup = λ i. if i == 0 then b'/' else if i == 1 then b'a' else 0;
  head = 1;
  tail = 1;
  inum = pos 2;
  sys = new_disk;
}

mark : get_u8 slash_a.path_dup 2 ≡ 0
unfolding get_u8
mark = refl

walk-ends_example :
    let v = walk 2 slash_a in
    (get_u8 v.path_dup v.tail ≡ 0) × (1 ≤ v.tail) × (v.tail ≤ 2) × (walk (2 + 4094) slash_a ≡ v)
walk-ends_example = walk-ends 2 4094 slash_a 2 (omega arith) (omega arith) mark
