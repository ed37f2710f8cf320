-- ===== src/Stream/Free.antt =====
-- fstream_free gives the blocks behind the new end back.
use os_fuse.Base.{
  ℕ, ◌+◌, ◌-◌, ◌*◌, ◌/◌, ◌%◌, ◌^◌, ◌<◌, ◌≤◌, ◌≡◌, ◌≢◌, refl, ap, ◌∙◌, sym, arith, Bool-cases, true,
  false, ltb-false, eq-==_self, pos, List, has, length, ◌∉◌, ◌⊎◌, inl, inr, ne_of_mem,
}
use mathlib.Core.Path.{subst}
use mathlib.Core.Bool.{false≢true}
use os_fuse.Memory.{Bytes, get_u8, get_u16}
use os_fuse.Memory.Fields.{get_u8-cong}
use os_fuse.State.{Sys, block_read}
use os_fuse.FreeBlock.Chain.{IsFree}
use os_fuse.Bitmap.Laws.{is_free}
use os_fuse.Inode.{slot_load, isdir_at, size_at, fentry_max_size}
use os_fuse.Listing.{file_layout, fnode_listing, fnode_listing_set, store_listing}
use os_fuse.Listing.Frame.{Owned-mem, is_free-of-disk}
use os_fuse.Listing.Store.{IsList, ListHolds, list_slots}
use os_fuse.Listing.Written.{Stored}
use os_fuse.Listing.Stored.{store_listing-ListHolds}
use os_fuse.Listing.Shrink.{errno-store_listing}
use os_fuse.Listing.Carry.{tail, list_slots-same, IsList-same, IsFree-Stays}
use os_fuse.Stream.{blknum, free_blocks, fstream_free}
use os_fuse.Stream.Read.{content}
use os_fuse.Stream.Blocks.{Mapped}
use os_fuse.Stream.Shortened.{FreedKeeps, Shortened}
use os_fuse.Listing.Array.{file_list-store_listing}
use os_fuse.Stream.File.{IsFile, IsFile-disk, fnode_listing-IsFile, blknum-cong}
use os_fuse.Stream.FreeLoop.{freed, freed-cong, freed-cases, Freed, free_blocks-Freed}

module _ (inum n m : ℕ) (f : Bytes) (free : List ℕ) (s : Sys) (file : IsFile s inum n f free)
    (le : m ≤ n) (clear : s.errno ≡ pos 0) (room : length free + (n - m) < 2 ^ 31) where
  abbrev g : Bytes
  g = (fnode_listing inum s).1.file_list

  abbrev listed : Sys
  listed = record s { file_list = g }

  abbrev given : Sys
  given = free_blocks (n - m) m listed

  abbrev stored : Sys
  stored = store_listing file_layout inum given.file_list m given

  same : (j : ℕ) → j < n → blknum g j ≡ blknum f j
  same j lt = blknum-cong f g n j (fnode_listing-IsFile s inum n f free file).1 lt

  loop : Freed g (n - m) m free listed given
  loop =
      let mapped = file.mapped in
      free_blocks-Freed g (n - m) m free listed refl
        (λ j low high.
          let e = same j (omega arith) in
          let above = mapped.beyond j (omega arith) in
          let word = mapped.word j (omega arith) in
          (
            omega (arith, e),
            omega (arith, e),
            ap (λ (x : ℕ). has x free) e ∙ mapped.taken j (omega arith),
          ))
        (λ j l a a' c c' e.
          mapped.distinct j l (omega arith) (omega arith)
            (sym (same j (omega arith)) ∙ (e ∙ same l (omega arith))))
        room file.isfree

  -- fstream_free behind fnode_listing.
  from_listing : ℕ × Sys → Sys
  from_listing (b_size, t) = fnode_listing_set inum m (free_blocks (b_size - m) m t)

  fstream_free-from : fstream_free inum m s ≡ from_listing (fnode_listing inum s)
  unfolding fstream_free from_listing
  fstream_free-from = refl

  from_listing-stored : from_listing (n, listed) ≡ stored
  unfolding from_listing fnode_listing_set
  from_listing-stored = rw (ltb-false fentry_max_size m (omega (arith, file.bound))) refl

  fstream_free-stored : fstream_free inum m s ≡ stored
  fstream_free-stored =
      fstream_free-from
      ∙ (ap from_listing (fnode_listing-IsFile s inum n f free file).0 ∙ from_listing-stored)

  held : IsFile listed inum n f free
  held = IsFile-disk s listed inum n f free refl file

  given-slot :
      (p : ℕ)
      → has p (list_slots file_layout listed inum) ≡ true
      → slot_load p given ≡ slot_load p listed
  given-slot p h =
      let (lt, used) = Owned-mem listed (list_slots file_layout listed inum) p held.list.own h in
      loop.low p (ne_of_mem p 0 (list_slots file_layout listed inum) h held.apart) lt

  given-node : slot_load inum given ≡ slot_load inum listed
  given-node = given-slot inum (ground (arith, eq-==_self inum))

  given-tail :
      (p : ℕ)
      → has p (tail file_layout listed given inum) ≡ true
      → slot_load p given ≡ slot_load p listed
  given-tail p h = given-slot p (ground arith)

  given-mine : (x : ℕ) → (x < 6) ⊎ (112 ≤ x) → slot_load inum given x ≡ slot_load inum listed x
  given-mine x h = ap (λ (c : Bytes). c x) given-node

  given-bits : (p : ℕ) → is_free given.disk p ≡ is_free listed.disk p
  given-bits p = is_free-of-disk listed.disk given.disk p (
      loop.others 1024 (omega arith) (λ j low high e.
        let e' = same j (omega arith) in omega (arith, e', file.mapped.beyond j (omega arith))))

  given-slots : list_slots file_layout given inum ≡ list_slots file_layout listed inum
  given-slots = list_slots-same file_layout listed given inum given-tail given-mine

  given-out : 0 ∉ list_slots file_layout given inum
  given-out = ap (has 0) given-slots ∙ held.apart

  no_error : stored.errno ≡ pos 0
  no_error =
      let size : get_u16 (slot_load inum given) size_at ≡ n =
        ap (λ (c : Bytes). get_u16 c size_at) given-node ∙ held.holds.size in
      errno-store_listing file_layout inum given.file_list m given (omega (arith, size))
      ∙ (loop.errno ∙ clear)

  now_free : freed g (n - m) m free ≡ freed f (n - m) m free
  now_free = freed-cong f g (n - m) m free (λ j low high. same j (omega arith))

  -- The blocks that the file keeps are not free.
  left : Mapped g m (freed g (n - m) m free)
  left =
      let mapped = file.mapped in
      record {
        beyond =
            λ i lt. let e = same i (omega arith) in omega (arith, e, mapped.beyond i (omega arith));
        word =
            λ i lt. let e = same i (omega arith) in omega (arith, e, mapped.word i (omega arith));
        taken = λ i lt. elim (Bool-cases (has (blknum g i) (freed g (n - m) m free))) [
          | inr miss ↦ miss
          | inl hit ↦ elim (freed-cases g (n - m) m free (blknum g i) hit) [
            | inl old ↦ absurd (
                false≢true (
                  sym (mapped.taken i (omega arith))
                  ∙ (ap (λ (x : ℕ). has x free) (sym (same i (omega arith))) ∙ old)))
            | inr (j, low, high, e) ↦
                (let both =
                    mapped.distinct i j (omega arith) (omega arith)
                      (sym (same i (omega arith)) ∙ (e ∙ same j (omega arith))) in
                  absurd (omega arith))
          ]
        ];
        distinct = λ i j li lj e.
            mapped.distinct i j (omega arith) (omega arith)
              (sym (same i (omega arith)) ∙ (e ∙ same j (omega arith)));
        free_beyond = λ x h. elim (freed-cases g (n - m) m free x h) [
          | inl old ↦ mapped.free_beyond x old
          | inr (j, low, high, e) ↦
              (let e' = same j (omega arith) in
                let above = mapped.beyond j (omega arith) in omega arith)
        ];
      }

  listed' : IsList file_layout given inum
  listed' = IsList-same file_layout listed given inum given-tail given-mine given-bits held.list

  Stored-stored : Stored file_layout inum m given.file_list given stored
  Stored-stored =
      store_listing-ListHolds file_layout inum given.file_list m given (omega (arith, file.bound))
        listed' no_error

  FreedKeeps-stored : FreedKeeps inum s stored
  unfolding slot_load block_read
  FreedKeeps-stored =
      let out : ((p : ℕ)
          → p ∉ list_slots file_layout s inum
          → p ∉ list_slots file_layout given inum) =
        λ p h. ap (has p) given-slots ∙ h in
      record {
        slots = λ p lt used ne h.
            (Stored-stored.stays.slots p lt (given-bits p ∙ used) (out p h)).0 ∙ loop.low p ne lt;
        used = λ p lt used h. (
          (Stored-stored.stays.slots p lt (given-bits p ∙ used) (out p h)).1,
          Stored-stored.avoids p lt (given-bits p ∙ used) (out p h),
        );
      }

  Shortened-stored : Shortened inum m f (freed f (n - m) m free) s stored g
  Shortened-stored =
      let st = Stored-stored in
      let reserved : is_free given.disk 0 ≡ false = given-bits 0 ∙ file.reserved in
      let isfree : IsFree stored.disk (freed g (n - m) m free) =
        IsFree-Stays (list_slots file_layout given inum) _ given stored st.stays reserved given-out
          left.free_beyond loop.isfree in
      record {
        errno = no_error;
        array = file_list-store_listing file_layout inum given.file_list m given ∙ loop.array;
        list = st.list;
        holds = subst (λ (h : Bytes). ListHolds file_layout stored inum m h) loop.array st.holds;
        apart = st.avoids 0 (omega arith) reserved given-out;
        reserved = (st.stays.slots 0 (omega arith) reserved given-out).1;
        file =
            get_u8-cong (slot_load inum stored) (slot_load inum given) isdir_at
              (st.header isdir_at (omega arith) (omega arith) (omega arith))
            ∙ (ap (λ (c : Bytes). get_u8 c isdir_at) given-node ∙ held.file);
        isfree = subst (λ (l : List ℕ). IsFree stored.disk l) now_free isfree;
        mapped = subst (λ (l : List ℕ). Mapped g m l) now_free left;
        bound = omega (arith, file.bound);
        blocks = λ j lt. same j (omega arith);
        bytes = λ y lt.
            let j : ℕ = y / 512 in
            let above = left.beyond j (omega arith) in
            let apart : ((i : ℕ) → m ≤ i → i < m + (n - m) → blknum g j ≢ blknum g i) =
              λ i low high e.
                let both =
                  file.mapped.distinct j i (omega arith) (omega arith)
                    (sym (same j (omega arith)) ∙ (e ∙ same i (omega arith))) in
                omega arith in
            ap (λ (c : Bytes). c (y % 512))
              (st.stays.beyond (blknum g j) above ∙ loop.others (blknum g j) (omega arith) apart)
            ∙ ap (λ (b : ℕ). s.disk b (y % 512)) (same j (omega arith));
        keeps = FreedKeeps-stored;
      }

  pub fstream_free-Shortened :
      Shortened inum m f
        (freed f (n - m) m free)
        s
        (fstream_free inum m s)
        (fnode_listing inum s).1.file_list
  fstream_free-Shortened =
      subst (λ (u : Sys). Shortened inum m f (freed f (n - m) m free) s u g)
        (sym fstream_free-stored) Shortened-stored

  -- Let inode `inum` be a file of `n` blocks, `m` not above `n`, no error recorded, and the number
  -- of free blocks within an `int` when those behind the new end are counted. Then fstream_free to
  -- `m` blocks records no error; the list of the inode are its first `m` blocks, and the inode
  -- owns its slots; the free block list are the blocks given back, the last in front, before the
  -- old free blocks; and the bytes of the blocks that are left have not changed.
  pub fstream_free-freed :
      (u : Sys) × (h : Bytes) × (fstream_free inum m s ≡ u)
      × (u.errno ≡ pos 0)
      × IsList file_layout u inum
      × ListHolds file_layout u inum m h
      × ((j : ℕ) → j < m → blknum h j ≡ blknum f j)
      × IsFree u.disk (freed f (n - m) m free)
      × Mapped h m (freed f (n - m) m free)
      × ((y : ℕ) → y < m * 512 → content u h y ≡ content s f y)
  fstream_free-freed =
      let r = Shortened-stored in
      (
        stored, g, fstream_free-stored, r.errno, r.list, r.holds, r.blocks, r.isfree, r.mapped,
        r.bytes,
      )
