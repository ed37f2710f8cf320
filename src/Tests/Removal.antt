-- ===== src/Tests/Removal.antt =====
-- The theorems on sfs_unlink, sfs_truncate, sfs_write with sfs_read, and the readers of one entry,
-- applied to "/a" on the disk of Stocked.
use os_fuse.Base.{
  ℕ, ◌+◌, ◌*◌, ◌<◌, ◌≤◌, ◌≡◌, ◌≢◌, ◌∉◌, refl, ap, ◌∙◌, sym, arith, true, false, not, ◌&&◌,
  if◌then◌else◌, pos, negsuc, [], ◌∷◌, has,
}
use os_fuse.Memory.{Bytes, zeros}
use os_fuse.CString.{equal_strings}
use os_fuse.State.{Sys}
use os_fuse.FreeBlock.Chain.{IsFree}
use os_fuse.Bitmap.Laws.{is_free}
use os_fuse.Listing.Frame.{slot_limit}
use os_fuse.Inode.{slot_load, di_ent_c, dot}
use os_fuse.Listing.{dir_layout, file_layout}
use os_fuse.Listing.Store.{list_slots}
use os_fuse.Entry.{dnode_entry_get, fnode_entry_get}
use os_fuse.Entry.Agree.{entry_get-ListHolds}
use os_fuse.Stream.{blknum}
use os_fuse.Stream.File.{IsFile, file_size}
use os_fuse.Stream.FreeLoop.{freed}
use os_fuse.Stream.Read.{content}
use os_fuse.Directory.Append.{IsDir}
use os_fuse.Resolve.{path_to_inum_elem}
use os_fuse.Resolve.Lookup.{names}
use os_fuse.Resolve.Entries.{Distinct, Ended}
use os_fuse.Sfs.{sfs_unlink, sfs_truncate}
use os_fuse.Sfs.Unlink.{sfs_unlink-path_to_inum_elem}
use os_fuse.Sfs.Truncate.{sfs_truncate-content}
use os_fuse.Base.{length}
use os_fuse.Memory.{get_u8, put_u8, get_u16, put_u16, object, memcpy}
use os_fuse.CString.{path_max}
use os_fuse.State.{block_read}
use os_fuse.Listing.{dnode_listing}
use os_fuse.Resolve.Names.{Spells}
use os_fuse.Resolve.Text.{text}
use os_fuse.Resolve.Trimmed.{path_text}
use os_fuse.Resolve.Along.{Along}
use os_fuse.Sfs.{sfs_read, sfs_write}
use os_fuse.Sfs.Contents.{sfs_read-sfs_write}
use os_fuse.Tests.Files.{few_slots}
use os_fuse.Tests.Creation.{path_a}
use os_fuse.Tests.Stocked.{
  stocked, entries, numbers, stocked_size, a_number, a_parent, root_slots, file_slots,
  root-ListHolds, file-ListHolds, stocked-IsDir, stocked-IsFile, entries-Distinct, entries-Ended,
  a_named,
}

a_short : length (path_text ((b'a' ∷ []) ∷ []) false) < path_max
unfolding path_max
a_short = omega arith

path_a-Spells : Spells path_a 0 (path_text ((b'a' ∷ []) ∷ []) false)
unfolding get_u8
path_a-Spells = (refl, (refl, refl))

three_bytes : 3 ≤ file_size stocked 3
three_bytes = omega (arith, stocked_size)

apart :
    (q : ℕ)
    → has q (list_slots dir_layout stocked 2) ≡ true
    → (q ≢ 0) × (q ∉ list_slots file_layout stocked 3)
apart q h =
    let two : has q (2 ∷ []) ≡ true = sym (ap (has q) root_slots) ∙ h in
    let other : has q (3 ∷ []) ≡ false = ground arith in
    (ground arith, ap (has q) file_slots ∙ other)

sfs_unlink-path_to_inum_elem_example :
    (u : Sys) × (d' : Bytes) × (sfs_unlink path_a stocked ≡ (pos 0, u))
    × (u.errno ≡ pos 0)
    × IsFree u.disk (freed numbers 1 0 (1026 ∷ []))
    × (is_free u.disk 3 ≡ true)
    × IsDir u 2 2 d'
    × Distinct d' 2
    × Ended d' 2
    × ((name : Bytes)
        → (path_to_inum_elem name 2 u).0 ≡ (
            if not (equal_strings 2 0 name dot) && names name entries 2
            then negsuc 0
            else (path_to_inum_elem name 2 stocked).0))
    × ((q : ℕ)
        → q < slot_limit
        → is_free stocked.disk q ≡ false
        → q ≢ 0
        → q ∉ list_slots file_layout stocked 3
        → q ∉ list_slots dir_layout stocked 2
        → (slot_load q u ≡ slot_load q stocked) × (is_free u.disk q ≡ false))
sfs_unlink-path_to_inum_elem_example =
    sfs_unlink-path_to_inum_elem path_a 3 1 2 3 2 numbers entries (1026 ∷ []) stocked a_number
      a_parent (omega arith) (omega arith) stocked-IsFile stocked-IsDir entries-Distinct
      entries-Ended refl (omega arith) (omega arith) a_named apart

sfs_truncate-content_example :
    (u : Sys) × (h : Bytes) × (sfs_truncate path_a 2 stocked ≡ (pos 0, u))
    × (u.errno ≡ pos 0)
    × IsFile u 3 1 h (freed numbers 0 1 (1026 ∷ []))
    × (file_size u 3 ≡ 2)
    × ((y : ℕ) → y < 2 → content u h y ≡ content stocked numbers y)
sfs_truncate-content_example =
    sfs_truncate-content path_a 3 1 2 numbers (1026 ∷ []) stocked a_number stocked-IsFile
      (omega arith) refl (omega arith)

entry_get-ListHolds_example :
    ((k : ℕ)
      → (k < 3 → k < 102 → (x : ℕ) → x < 16 → dnode_entry_get 2 k stocked x ≡ entries (k * 16 + x))
        × (3 ≤ k → dnode_entry_get 2 k stocked ≡ di_ent_c zeros 0))
    × ((j : ℕ)
        → (j < 1 → j < 216 → fnode_entry_get 3 (pos j) stocked ≡ blknum numbers j)
          × (1 ≤ j → fnode_entry_get 3 (pos j) stocked ≡ 0))
entry_get-ListHolds_example =
    entry_get-ListHolds stocked 2 3 3 1 entries numbers root-ListHolds file-ListHolds

a_found : (path_to_inum_elem (text (b'a' ∷ [])) 2 stocked).0 ≡ pos 3
unfolding path_to_inum_elem equal_strings get_u8 put_u8 dnode_listing get_u16 slot_load object
    block_read memcpy put_u16 di_ent_c text
a_found = refl

path_a-Along : Along stocked (list_slots file_layout stocked 3) 3 ((b'a' ∷ []) ∷ []) 2
path_a-Along = (omega arith, 3, entries, stocked-IsDir, apart, 3, a_found, refl)

sfs_read-sfs_write_example :
    let (result, u) = sfs_write path_a (λ i. i) 2 3 stocked in
    let (count, filled, _) = sfs_read path_a zeros 2 3 u in
    (result ≡ pos 2) × (count ≡ pos 2) × ((x : ℕ) → x < 2 → filled x ≡ x)
sfs_read-sfs_write_example =
    sfs_read-sfs_write path_a (b'a' ∷ []) [] false 3 1 2 3 (λ i. i) zeros numbers (1026 ∷ [])
      stocked
      ((omega arith, (λ e. absurd (omega (arith, e)), λ e. absurd (omega (arith, e)), tt)), tt)
      a_short path_a-Spells path_a-Along stocked-IsFile refl (omega arith) three_bytes (omega arith)
      (omega arith) (omega (arith, few_slots))
