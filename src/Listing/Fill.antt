-- ===== src/Listing/Fill.antt =====
-- One page: `fill_page` writes 128 bytes of the array to a page's slot, which it takes if `fresh`.
use os_fuse.Base.{
  ℕ, ◌+◌, ◌*◌, ◌<◌, ◌≤◌, ◌≡◌, ◌≢◌, refl, sym, ap, ◌∙◌, arith, Bool, true, false, pos, List, [], ◌∷◌,
  ◌∉◌, ◌⊎◌,
}
use os_fuse.Memory.{Bytes, at, get_u16, put_u16}
use os_fuse.Memory.Fields.{get_u16-put_u16}
use os_fuse.State.{Sys, Disk}
use os_fuse.Inode.Slots.{slot_load-slot_dump_ne}
use os_fuse.Bitmap.{free_inode_pop}
use os_fuse.Bitmap.Laws.{is_free}
use os_fuse.Listing.{Layout, fill_page}
use os_fuse.Listing.Frame.{
  Stays, SlotHolds, slot_limit, is_free-slot_dump, SlotHolds-slot_dump, Stays-slot_dump,
  errno-slot_dump, Taken-of-errno, Stays-Taken,
}

-- Outside the 2 bytes at `o` the slots are the same.
abbrev pub SameOutside : ℕ → ℕ → Bytes → Bytes → Type 0
SameOutside from end a b = (x : ℕ) → (x < from) ⊎ (end ≤ x) → b x ≡ a x

pub same-put_u16 : (b : Bytes) (o v : ℕ) → SameOutside o (o + 2) b (put_u16 b o v)
unfolding put_u16
same-put_u16 b o v x out = ground arith

pub ne_of_free : (d : Disk) (m n : ℕ) → is_free d m ≡ false → is_free d n ≡ true → m ≢ n
ne_of_free d m n used free e = cc (used, free, ap (is_free d) e)

-- The outcome `ids'` and `t` of writing the page at `ptr` whose number stands at `o`; `touched` is
-- the old page, or nothing if the page is new.
pub record Filled (buf : Bytes) (off o : ℕ) (touched : List ℕ) (ids : Bytes) (s : Sys)
    (ids' : Bytes) (t : Sys) : Type 0 where
  pub holds : SlotHolds t (get_u16 ids' o) buf off
  pub small : get_u16 ids' o < slot_limit
  pub used : is_free t.disk (get_u16 ids' o) ≡ false
  pub stays : Stays touched s t
  pub avoids : (a : ℕ) → is_free s.disk a ≡ false → a ∉ touched → a ≢ get_u16 ids' o
  pub same : SameOutside o (o + 2) ids ids'

module _ (L : Layout) (buf : Bytes) (new old base i ptr : ℕ) (ids : Bytes) (s : Sys) where
  abbrev here : ℕ
  here = base + 2 * i

  abbrev off : ℕ
  off = ptr * L.entry_size

  -- An old page is written in place.
  pub fill_page-old :
      get_u16 ids (base + 2 * i) < slot_limit
      → is_free s.disk (get_u16 ids (base + 2 * i)) ≡ false
      → let (ids', t) = fill_page L buf new old false base i ptr (ids, s) in
        Filled buf
          (ptr * L.entry_size)
          (base + 2 * i)
          (get_u16 ids (base + 2 * i) ∷ [])
          ids
          s
          ids'
          t
        × (ids' ≡ ids)
  unfolding fill_page
  fill_page-old small used =
      let p = get_u16 ids here in
      (
        record {
          holds = SlotHolds-slot_dump p buf off s;
          small = small;
          used = is_free-slot_dump p (at buf off) s p small ∙ used;
          stays = Stays-slot_dump p (at buf off) s small;
          avoids = λ a u out e. ground arith;
          same = λ x out. refl;
        },
        refl,
      )

  -- A new page is taken from the bitmap, if that reports no error.
  pub fill_page-new :
      (fill_page L buf new old true base i ptr (ids, s)).1.errno ≡ pos 0
      → let (ids', t) = fill_page L buf new old true base i ptr (ids, s) in
        Filled buf (ptr * L.entry_size) (base + 2 * i) [] ids s ids' t
  unfolding fill_page
  fill_page-new e =
      let n = (free_inode_pop s).0 in
      let t = (free_inode_pop s).1 in
      let taken = Taken-of-errno s (sym (errno-slot_dump _ _ t) ∙ e) in
      let got : get_u16 (put_u16 ids here n) here ≡ n =
        get_u16-put_u16 ids here n (omega (arith, taken.least.lt)) in
      let small : n < slot_limit = omega (arith, taken.least.lt) in
      record {
        holds = rw got (SlotHolds-slot_dump n buf off t);
        small = rw got small;
        used = rw got (is_free-slot_dump n (at buf off) t n small ∙ ground (arith, taken.free n));
        stays = rw got (record {
          slots = λ m lt used out.
              let ne = ne_of_free s.disk m n used taken.least.free in
              let (kept, still) = (Stays-Taken taken).slots m lt used refl in
              (slot_load-slot_dump_ne m n _ t ne ∙ kept, is_free-slot_dump n _ t m small ∙ still);
          beyond = λ k above.
              (Stays-slot_dump n (at buf off) t small).beyond k above
              ∙ (Stays-Taken taken).beyond k above;
        });
        avoids = λ a u out eq. ne_of_free s.disk a n u taken.least.free (eq ∙ got);
        same = same-put_u16 ids here n;
      }

  pub fill_page-errno :
      (fresh : Bool)
      → (fill_page L buf new old fresh base i ptr (ids, s)).1.errno ≡ pos 0
      → s.errno ≡ pos 0
  unfolding fill_page
  fill_page-errno true e =
      let clear = sym (errno-slot_dump _ _ _) ∙ e in sym (Taken-of-errno s clear).errno ∙ clear
  fill_page-errno false e = sym (errno-slot_dump _ _ s) ∙ e
