-- ===== src/Tests/Lists.antt =====
-- The theorems on slots and lists, applied to the formatted disk.
use os_fuse.Base.{
  ◌≢◌, ℕ, ◌*◌, ◌<◌, ◌≡◌, refl, pos, leb, ◌==◌, ◌&&◌, if◌then◌else◌, true, false, none, some, arith,
  ◌⊎◌,
}
use os_fuse.Memory.{zeros, memcpy, object, put_u8, put_u16, put_u32, get_u8, get_u16}
use os_fuse.State.{block_read, block_write, enospc}
use os_fuse.Inode.{slot_load, slot_dump, dnode_init, fnode_init, inode_get_attr, inode_set_attr_upc}
use os_fuse.Inode.Attributes.{inode_get_attr-inode_set_attr_upc}
use os_fuse.Bitmap.Bits.{bit}
use os_fuse.Bitmap.{free_inode_pop, free_inode_push}
use os_fuse.Bitmap.Laws.{is_free, Taken, NoneFree, free_inode_pop-cases, free_inode_push-is_free}
use os_fuse.Listing.{
  dir_layout, file_layout, dnode_listing, fnode_listing, dnode_listing_set, fnode_listing_set,
  pages_per_index, pages_per_inode,
}
use os_fuse.Listing.Store.{IsList}
use os_fuse.Listing.Empty.{fnode_init-IsList}
use os_fuse.Listing.RoundTrip.{fnode_listing-fnode_listing_set, dnode_listing-dnode_listing_set}
use os_fuse.Tests.{formatted, with_file}
use os_fuse.Listing.{store_listing}
use os_fuse.Listing.Stored.{store_listing-ListHolds}
use os_fuse.Listing.Written.{Stored}

used_3 : is_free (free_inode_pop formatted).1.disk 3 ≡ false
unfolding is_free free_inode_pop dnode_init slot_dump bit get_u8 block_read block_write put_u8
used_3 = refl

file_IsList : IsList file_layout with_file 3
file_IsList = (fnode_init-IsList 3 2 (free_inode_pop formatted).1 (omega arith) used_3).0

stored_errno : (fnode_listing_set 3 30 with_file).errno ≡ pos 0
unfolding fnode_listing_set free_inode_pop dnode_init fnode_init slot_dump pages_per_index
    pages_per_inode block_write get_u16 slot_load object block_read memcpy put_u32 put_u16 get_u8
    put_u8
stored_errno = refl

fnode_listing-fnode_listing_set_example :
    let t = fnode_listing_set 3 30 with_file in
    let r = fnode_listing 3 (record t { file_list = zeros }) in
    (r.0 ≡ 30)
    × ((x : ℕ) → x < 30 * 4 → r.1.file_list x ≡ with_file.file_list x)
    × IsList file_layout t 3
fnode_listing-fnode_listing_set_example =
    fnode_listing-fnode_listing_set 3 30 with_file zeros (omega arith) file_IsList stored_errno

root_IsList : IsList dir_layout formatted 2
unfolding free_inode_pop dnode_init fnode_init slot_dump pages_per_index pages_per_inode block_write
    get_u16 slot_load object block_read memcpy put_u32 put_u16 get_u8 put_u8 is_free bit
root_IsList = record { own = (refl, omega arith, refl, tt); self = refl }

root_errno : (dnode_listing_set 2 7 formatted).errno ≡ pos 0
unfolding dnode_listing_set free_inode_pop dnode_init fnode_init slot_dump pages_per_index
    pages_per_inode block_write get_u16 slot_load object block_read memcpy put_u32 put_u16 get_u8
    put_u8
root_errno = refl

dnode_listing-dnode_listing_set_example :
    let t = dnode_listing_set 2 7 formatted in
    let r = dnode_listing 2 (record t { dir_list = zeros }) in
    (r.0 ≡ 7)
    × ((x : ℕ) → x < 7 * 16 → r.1.dir_list x ≡ formatted.dir_list x)
    × IsList dir_layout t 2
dnode_listing-dnode_listing_set_example =
    dnode_listing-dnode_listing_set 2 7 formatted zeros (omega arith) root_IsList root_errno

store_errno : (store_listing file_layout 3 (λ i. i) 30 with_file).errno ≡ pos 0
unfolding store_listing free_inode_pop dnode_init fnode_init slot_dump pages_per_index
    pages_per_inode block_write get_u16 slot_load object block_read memcpy put_u32 put_u16 get_u8
    put_u8
store_errno = refl

store_listing-ListHolds_example :
    let t = store_listing file_layout 3 (λ i. i) 30 with_file in
    Stored file_layout 3 30 (λ i. i) with_file t
store_listing-ListHolds_example =
    store_listing-ListHolds file_layout 3 (λ i. i) 30 with_file (omega arith) file_IsList
      store_errno

file_not_dir : get_u8 (slot_load 3 with_file) 12 ≡ 0
unfolding free_inode_pop dnode_init fnode_init slot_dump block_write slot_load object block_read
    memcpy put_u32 put_u16 get_u8 put_u8
file_not_dir = refl

inode_get_attr-inode_set_attr_upc_example :
    inode_get_attr 3 (inode_set_attr_upc 3 none (some (pos 100)) with_file)
    ≡ record (inode_get_attr 3 with_file) { st_size = 100 }
inode_get_attr-inode_set_attr_upc_example =
    inode_get_attr-inode_set_attr_upc 3 100 with_file file_not_dir

free_inode_pop-cases_example :
    let (n, t) = free_inode_pop formatted in
    Taken formatted n t
    ⊎ (NoneFree formatted.disk × (n ≡ 0) × (t ≡ record formatted { errno = enospc }))
free_inode_pop-cases_example = free_inode_pop-cases formatted

free_inode_push-is_free_example :
    let t = free_inode_push 2 formatted in
    ((m : ℕ) → is_free t.disk m ≡ (if m == 2 && leb 2 2 then true else is_free formatted.disk m))
    × ((k : ℕ) → k ≢ 1024 → t.disk k ≡ formatted.disk k)
    × (t ≡ record formatted { disk = t.disk })
free_inode_push-is_free_example = free_inode_push-is_free formatted 2 (omega arith)
