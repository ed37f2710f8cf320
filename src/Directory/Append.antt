-- ===== src/Directory/Append.antt =====
-- dnode_append: the list of the directory gets one entry more.
use os_fuse.Base.{
  ℕ, ◌+◌, ◌*◌, ◌%◌, ◌<◌, ◌≤◌, ◌≡◌, refl, ap, ◌∙◌, sym, arith, true, false, leb-false, pos, has, ◌⊎◌,
  inl, inr, ne_of_mem,
}
use mathlib.Core.Path.{subst}
use os_fuse.Memory.{Bytes, get_u16, put_u16, memcpy, object}
use os_fuse.State.{Sys, block_read}
use os_fuse.Bitmap.Count.{free_inodes}
use os_fuse.Bitmap.Laws.{is_free}
use os_fuse.Inode.{
  slot_load, slot_dump, inode_load, inode_dump, size_at, nlink_at, direct_at, dentry_max_size,
}
use os_fuse.Inode.Slots.{slot_load-slot_dump, slot_load-slot_dump_ne}
use os_fuse.Listing.{dir_layout, dnode_listing, dnode_listing_set, store_listing, listing}
use os_fuse.Listing.Frame.{slot_limit, is_free-slot_dump, errno-slot_dump}
use os_fuse.Listing.Store.{IsList, ListHolds, list_slots}
use os_fuse.Listing.Read.{listing-Agrees}
use os_fuse.Listing.Stored.{store_listing-ListHolds}
use os_fuse.Listing.Enough.{slots_needed, store_listing-errno}
use os_fuse.Listing.Carry.{tail, IsList-same, ListHolds-carried, IsList-kept, ListHolds-kept}
use os_fuse.Listing.RoundTrip.{ListHolds-same, slot_load-dirs, dir_capacity}
use os_fuse.Memory.Copy.{memcpy-in, memcpy-before}
use os_fuse.Directory.{di_ent_size, bump_nlink, dnode_append}

-- Inode `inum` has a directory's list of `n` entries, the first of the array `d`, and owns its
-- slots.
pub record IsDir (s : Sys) (inum n : ℕ) (d : Bytes) : Type 0 where
  pub list : IsList dir_layout s inum
  pub holds : ListHolds dir_layout s inum n d
  pub bound : n < dentry_max_size

pub IsDir-dirs :
    (s : Sys) (inum n : ℕ) (d g : Bytes)
    → IsDir s inum n d
    → IsDir (record s { dir_list = g }) inum n d
IsDir-dirs s inum n d g dir =
    let t : Sys = record s { dir_list = g } in
    let same = slot_load-dirs s g in
    record {
      list =
          IsList-same dir_layout s t inum (λ m h. same m)
            (λ x h. ap (λ (c : Bytes). c x) (same inum)) (λ m. refl) dir.list;
      holds = ListHolds-same dir_layout s t inum n d same dir.holds;
      bound = dir.bound;
    }

-- A directory in a state that keeps its slots, and has them in use.
pub IsDir-kept :
    (s t : Sys) (inum n : ℕ) (d : Bytes)
    → ((q : ℕ)
        → has q (list_slots dir_layout s inum) ≡ true
        → (slot_load q t ≡ slot_load q s) × (is_free t.disk q ≡ false))
    → IsDir s inum n d
    → IsDir t inum n d
IsDir-kept s t inum n d kept dir = record {
  list = IsList-kept dir_layout s t inum (λ q h. (kept q h).0) (λ q h. (kept q h).1) dir.list;
  holds = ListHolds-kept dir_layout s t inum (λ q h. (kept q h).0) n d dir.holds;
  bound = dir.bound;
}

-- dnode_listing on a directory.
pub dnode_listing-IsDir :
    (s : Sys) (inum n : ℕ) (d : Bytes)
    → IsDir s inum n d
    → (dnode_listing inum s ≡ (n, record s { dir_list = (dnode_listing inum s).1.dir_list }))
      × ((x : ℕ) → x < n * 16 → (dnode_listing inum s).1.dir_list x ≡ d x)
unfolding dnode_listing
dnode_listing-IsDir s inum n d dir =
    let (size, agree) =
      listing-Agrees dir_layout n s d refl inum s.dir_list refl
        (omega (arith, dir_capacity, dir.bound)) dir.holds in
    (
      ap (λ (m : ℕ). (m, record s { dir_list = (listing dir_layout inum s.dir_list s).1 })) size,
      agree,
    )

-- The count of links is not part of the list.
relinked :
    (inum v : ℕ) (s : Sys) (x : ℕ)
    → (x < 6) ⊎ (8 ≤ x)
    → object (put_u16 (slot_load inum s) nlink_at v) 128 x ≡ slot_load inum s x
unfolding slot_load block_read put_u16 object
relinked inum v s x h = ground arith

pub bump_nlink-IsDir :
    (inum change n : ℕ) (d : Bytes) (s : Sys)
    → IsDir s inum n d
    → IsDir (bump_nlink (pos inum) change s) inum n d
      × ((bump_nlink (pos inum) change s).errno ≡ s.errno)
unfolding bump_nlink inode_load inode_dump
bump_nlink-IsDir inum change n d s dir =
    let node : Bytes = slot_load inum s in
    let image : Bytes = put_u16 node nlink_at (get_u16 node nlink_at + change) in
    let t : Sys = slot_dump inum image s in
    let small : inum < slot_limit = dir.list.own.1 in
    let byte : ((x : ℕ) → (x < 6) ⊎ (8 ≤ x) → slot_load inum t x ≡ node x) = λ x h.
      ap (λ (c : Bytes). c x) (slot_load-slot_dump inum image s)
      ∙ relinked inum (get_u16 node nlink_at + change) s x h in
    let others : ((m : ℕ)
        → has m (tail dir_layout s t inum) ≡ true
        → slot_load m t ≡ slot_load m s) =
      λ m h.
        slot_load-slot_dump_ne m inum image s
          (ne_of_mem m inum (tail dir_layout s t inum) h dir.list.own.0) in
    let mine : ((x : ℕ) → (x < 6) ⊎ (112 ≤ x) → slot_load inum t x ≡ slot_load inum s x) =
      λ x h. byte x (elim h [ inl l ↦ inl l | inr r ↦ inr (omega arith) ]) in
    (
      record {
        list =
            IsList-same dir_layout s t inum others mine
              (λ m. is_free-slot_dump inum image s m small) dir.list;
        holds =
            ListHolds-carried dir_layout s t inum others mine n d
              (λ x lt. byte (direct_at + x) (inr (omega arith))) dir.holds;
        bound = dir.bound;
      },
      errno-slot_dump inum image s,
    )

module _ (inum n : ℕ) (d item : Bytes) (s : Sys) (dir : IsDir s inum n d) (clear : s.errno ≡ pos 0)
    (room : n + 1 < dentry_max_size)
    (slots : slots_needed dir_layout (n + 1) ≤ slots_needed dir_layout n + free_inodes s.disk) where
  -- The array with the entry behind the others.
  abbrev pub longer : Bytes
  longer = memcpy (dnode_listing inum s).1.dir_list (n * di_ent_size) item di_ent_size

  abbrev ready : Sys
  ready = record s { dir_list = longer }

  abbrev stored : Sys
  stored = store_listing dir_layout inum longer (n + 1) ready

  from_listing : ℕ × Sys → Sys
  from_listing (size, t) =
      let t = record t { dir_list = memcpy t.dir_list (size * di_ent_size) item di_ent_size } in
      let t = dnode_listing_set inum (size + 1) t in bump_nlink (pos inum) 1 t

  dnode_append-from :
      inum < 65536 → dnode_append (pos inum) item s ≡ from_listing (dnode_listing inum s)
  unfolding dnode_append from_listing
  dnode_append-from lt = let e : inum % 65536 ≡ inum = omega arith in rw e refl

  from_listing-stored :
      from_listing (n, record s { dir_list = (dnode_listing inum s).1.dir_list })
      ≡ bump_nlink (pos inum) 1 stored
  unfolding from_listing dnode_listing_set
  from_listing-stored = rw (leb-false dentry_max_size (n + 1) room) refl

  -- Let inode `inum` be a directory of `n` entries, no error recorded, one entry more within the
  -- limit, and enough inodes free for the slots that the longer list needs. Then dnode_append
  -- makes it a directory of `n + 1` entries, the old ones and the new one behind them, and records
  -- no error.
  pub dnode_append-IsDir :
      let t = dnode_append (pos inum) item s in
      IsDir t inum (n + 1) longer
      × ((x : ℕ) → x < n * 16 → longer x ≡ d x)
      × ((x : ℕ) → x < 16 → longer (n * 16 + x) ≡ item x)
      × (t.errno ≡ pos 0)
  dnode_append-IsDir =
      let (pair, agree) = dnode_listing-IsDir s inum n d dir in
      let here = IsDir-dirs s inum n d longer dir in
      let step : dnode_append (pos inum) item s ≡ bump_nlink (pos inum) 1 stored =
        dnode_append-from (omega (arith, dir.list.own.1))
        ∙ (ap from_listing pair ∙ from_listing-stored) in
      let size = here.holds.size in
      let enough : slots_needed dir_layout (n + 1)
          ≤ slots_needed dir_layout (get_u16 (slot_load inum ready) size_at)
            + free_inodes ready.disk =
        subst
          (λ (m : ℕ).
            slots_needed dir_layout (n + 1) ≤ slots_needed dir_layout m + free_inodes s.disk)
          (sym size) slots in
      let err =
        store_listing-errno dir_layout inum longer (n + 1) ready here.list (omega (arith, size))
          clear enough in
      let st =
        store_listing-ListHolds dir_layout inum longer (n + 1) ready (omega arith) here.list
          err.0 in
      let (bumped, same) =
        bump_nlink-IsDir inum 1 (n + 1) longer stored
          (record { list = st.list; holds = st.holds; bound = room }) in
      subst
        (λ (t : Sys).
          IsDir t inum (n + 1) longer
          × ((x : ℕ) → x < n * 16 → longer x ≡ d x)
          × ((x : ℕ) → x < 16 → longer (n * 16 + x) ≡ item x)
          × (t.errno ≡ pos 0))
        (sym step)
        (
          bumped,
          λ x lt.
              memcpy-before (dnode_listing inum s).1.dir_list item (n * 16) 16 x lt ∙ agree x lt,
          λ x lt. memcpy-in (dnode_listing inum s).1.dir_list item (n * 16) 16 x lt,
          same ∙ err.0,
        )
