-- ===== src/Stream/Record.antt =====
-- The end of fstream_write: the new size and the new list of blocks go to the inode.
use Prim.Native.Nat.{max}
use os_fuse.Base.{
  ℕ, ◌+◌, ◌*◌, ◌^◌, ◌<◌, ◌≤◌, ◌≡◌, ◌≢◌, ap, ◌∙◌, sym, arith, true, false, pos, List, [], ◌∷◌, has,
  ◌∉◌, ◌⊎◌, inl, inr, ne_of_mem,
}
use mathlib.Core.Path.{subst}
use os_fuse.Memory.{Bytes, get_u16, get_u32, put_u32, object}
use os_fuse.Memory.Fields.{get_u8-cong, get_u16-cong, get_u32-cong, get_u32-object, get_u32-put_u32}
use os_fuse.State.{Sys, block_read}
use os_fuse.Bitmap.Laws.{is_free}
use os_fuse.Bitmap.Count.{free_inodes, count_free-same}
use os_fuse.Listing.Enough.{slots_needed, store_listing-errno}
use os_fuse.Inode.{slot_load, slot_dump, isdir_at, fsize_at, size_at, fentry_max_size}
use os_fuse.Inode.Slots.{slot_load-slot_dump, slot_load-slot_dump_ne}
use os_fuse.Listing.{file_layout, store_listing}
use os_fuse.Listing.Frame.{
  Owned-mem, slot_limit, is_free-of-disk, is_free-slot_dump, errno-slot_dump, Stays-slot_dump,
}
use os_fuse.Listing.Store.{IsList, list_slots}
use os_fuse.Listing.Written.{Stored}
use os_fuse.Listing.Stored.{store_listing-ListHolds}
use os_fuse.Listing.Carry.{tail, list_slots-same, IsList-same, IsFree-Stays}
use os_fuse.Stream.Blocks.{Mapped}
use os_fuse.Stream.Wrote.{Wrote}
use os_fuse.Stream.File.{IsFile, file_size}

-- The inode with another file size, elsewhere.
pub resized_elsewhere :
    (inum v : ℕ) (s : Sys) (x : ℕ)
    → (x < 8) ⊎ (12 ≤ x)
    → object (put_u32 (slot_load inum s) fsize_at v) 128 x ≡ slot_load inum s x
unfolding slot_load block_read object put_u32
resized_elsewhere inum v s x h = ground arith

module _ (buf f : Bytes) (inum n b k v : ℕ) (free rest : List ℕ) (s t : Sys)
    (file : IsFile s inum n f free) (loop : Wrote buf b k 0 n free s rest t) where
  -- The state with the new size.
  abbrev pub sized : Sys
  sized = slot_dump inum (put_u32 (slot_load inum t) fsize_at v) t

  inum_pos : inum ≢ 0
  inum_pos e = ground (arith, file.apart, e)

  small : inum < slot_limit
  small = file.list.own.1

  pub node_same : slot_load inum t ≡ slot_load inum s
  node_same = loop.low inum inum_pos small

  sized-others :
      (m : ℕ) → has m (tail file_layout s t inum) ≡ true → slot_load m sized ≡ slot_load m s
  sized-others m h =
      let out : 0 ∉ tail file_layout s t inum = ground (arith, file.apart) in
      let (lt, used) = Owned-mem s (tail file_layout s t inum) m file.list.own.3 h in
      slot_load-slot_dump_ne m inum _ t
        (ne_of_mem m inum (tail file_layout s t inum) h file.list.own.0)
      ∙ loop.low m (ne_of_mem m 0 (tail file_layout s t inum) h out) lt

  sized-mine : (x : ℕ) → (x < 8) ⊎ (12 ≤ x) → slot_load inum sized x ≡ slot_load inum s x
  sized-mine x h =
      ap (λ (c : Bytes). c x) (slot_load-slot_dump inum (put_u32 (slot_load inum t) fsize_at v) t)
      ∙ (resized_elsewhere inum v t x h ∙ ap (λ (c : Bytes). c x) node_same)

  sized-mine' : (x : ℕ) → (x < 6) ⊎ (112 ≤ x) → slot_load inum sized x ≡ slot_load inum s x
  sized-mine' x (inl l) = sized-mine x (inl (omega arith))
  sized-mine' x (inr r) = sized-mine x (inr (omega arith))

  pub sized-bits : (m : ℕ) → is_free sized.disk m ≡ is_free s.disk m
  sized-bits m = is_free-slot_dump inum _ t m small ∙ is_free-of-disk s.disk t.disk m loop.bitmap

  pub sized-IsList : IsList file_layout sized inum
  sized-IsList = IsList-same file_layout s sized inum sized-others sized-mine' sized-bits file.list

  pub sized-slots : list_slots file_layout sized inum ≡ list_slots file_layout s inum
  sized-slots = list_slots-same file_layout s sized inum sized-others sized-mine'

  sized-size : v < 2 ^ 32 → file_size sized inum ≡ v
  sized-size lt =
      ap (λ (c : Bytes). get_u32 c fsize_at)
        (slot_load-slot_dump inum (put_u32 (slot_load inum t) fsize_at v) t)
      ∙ (get_u32-object (put_u32 (slot_load inum t) fsize_at v) 128 fsize_at (omega arith)
          ∙ get_u32-put_u32 (slot_load inum t) fsize_at v lt)

  -- Storing the list of `new` blocks raises no error when enough inodes are free.
  pub stored-errno :
      (new : ℕ)
      → n ≤ new
      → s.errno ≡ pos 0
      → slots_needed file_layout new ≤ slots_needed file_layout n + free_inodes s.disk
      → let u = store_listing file_layout inum t.file_list new sized in
        (u.errno ≡ pos 0)
        × (free_inodes u.disk + slots_needed file_layout new
            ≡ free_inodes s.disk + slots_needed file_layout n)
  stored-errno new grows clear enough =
      let size : get_u16 (slot_load inum sized) size_at ≡ n =
        get_u16-cong (slot_load inum sized) (slot_load inum s) size_at
          (sized-mine size_at (inl (omega arith))) (sized-mine (size_at + 1) (inl (omega arith)))
        ∙ file.holds.size in
      let count : free_inodes sized.disk ≡ free_inodes s.disk =
        count_free-same s.disk sized.disk 1024 sized-bits in
      let u : Sys = store_listing file_layout inum t.file_list new sized in
      let old : ℕ = get_u16 (slot_load inum sized) size_at in
      let (clear', taken) =
        store_listing-errno file_layout inum t.file_list new sized sized-IsList
          (omega (arith, size, grows))
          (errno-slot_dump inum (put_u32 (slot_load inum t) fsize_at v) t ∙ (loop.errno ∙ clear))
          (subst
            (λ (m : ℕ).
              slots_needed file_layout new ≤ slots_needed file_layout m + free_inodes sized.disk)
            (sym size) (omega (arith, count, enough))) in
      let old_slots : slots_needed file_layout old ≡ slots_needed file_layout n =
        ap (slots_needed file_layout) size in
      (clear', omega (arith, taken, count, old_slots))

  -- The list is stored.
  pub stored :
      (new : ℕ)
      → new ≤ fentry_max_size
      → let u = store_listing file_layout inum t.file_list new sized in
        u.errno ≡ pos 0 → Stored file_layout inum new t.file_list sized u
  stored new room err =
      store_listing-ListHolds file_layout inum t.file_list new sized (omega arith) sized-IsList err

  -- The file after the list is stored: its size, its blocks, and the blocks behind the bitmap.
  pub stored-IsFile :
      (new : ℕ)
      → new ≡ max n (b + k)
      → new ≤ fentry_max_size
      → v ≤ new * 512
      → let u = store_listing file_layout inum t.file_list new sized in
        u.errno ≡ pos 0
        → IsFile u inum new t.file_list rest
          × (file_size u inum ≡ v)
          × ((m : ℕ) → 1024 < m → u.disk m ≡ t.disk m)
  stored-IsFile new eq room cover err =
      let u : Sys = store_listing file_layout inum t.file_list new sized in
      let st = stored new room err in
      let out : 0 ∉ list_slots file_layout sized inum = ap (has 0) sized-slots ∙ file.apart in
      let reserved : is_free sized.disk 0 ≡ false = sized-bits 0 ∙ file.reserved in
      let dumped = Stays-slot_dump inum (put_u32 (slot_load inum t) fsize_at v) t small in
      let beyond = loop.mapped.free_beyond in
      let size : file_size u inum ≡ v =
        get_u32-cong (slot_load inum u) (slot_load inum sized) fsize_at
          (λ i l. st.header (fsize_at + i) (omega arith) (λ e. omega arith) (λ e. omega arith))
        ∙ sized-size (omega arith) in
      (
        record {
          list = st.list;
          holds = st.holds;
          apart = st.avoids 0 (omega arith) reserved out;
          reserved = (st.stays.slots 0 (omega arith) reserved out).1;
          file =
              get_u8-cong (slot_load inum u) (slot_load inum sized) isdir_at
                (st.header isdir_at (omega arith) (omega arith) (omega arith))
              ∙ (get_u8-cong (slot_load inum sized) (slot_load inum s) isdir_at
                    (sized-mine isdir_at (inr (omega arith)))
                  ∙ file.file);
          isfree =
              IsFree-Stays (list_slots file_layout sized inum) rest sized u st.stays reserved out
                beyond
                (IsFree-Stays (inum ∷ []) rest t sized dumped
                  (is_free-of-disk s.disk t.disk 0 loop.bitmap ∙ file.reserved)
                  (ground (arith, file.apart)) beyond loop.free_now);
          mapped = subst (λ (z : ℕ). Mapped t.file_list z rest) (sym eq) loop.mapped;
          cover = omega (arith, size, cover);
          bound = room;
        },
        size,
        λ m lt. st.stays.beyond m lt ∙ dumped.beyond m lt,
      )
