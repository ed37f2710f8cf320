-- ===== src/Stream/Other.antt =====
-- Another file on the disk, through the end of fstream_write.
use Prim.Native.Nat.{max}
use os_fuse.Base.{
  ℕ, ◌+◌, ◌*◌, ◌/◌, ◌<◌, ◌≤◌, ◌≡◌, ◌≢◌, ap, ◌∙◌, sym, arith, Bool-cases, true, false, List, has,
  ◌∉◌, inl, inr, ne_of_mem,
}
use mathlib.Core.Path.{subst}
use mathlib.Core.Bool.{false≢true}
use native.Mathlib.Decide.{dec_lt}
use os_fuse.Memory.{Bytes, get_u8, get_u32}
use os_fuse.State.{Sys, Disk}
use os_fuse.FreeBlock.Chain.{IsFree}
use os_fuse.Bitmap.Laws.{is_free}
use os_fuse.Inode.{slot_load, isdir_at, fsize_at}
use os_fuse.Inode.Slots.{slot_load-slot_dump_ne, slot_load-of-disk}
use os_fuse.Listing.{file_layout}
use os_fuse.Listing.Frame.{Owned-mem, slot_limit}
use os_fuse.Listing.Store.{list_slots}
use os_fuse.Listing.Written.{Stored}
use os_fuse.Listing.Carry.{node_kept, list_slots-kept, IsList-kept, ListHolds-kept}
use os_fuse.Stream.{blknum}
use os_fuse.Stream.Blocks.{Mapped}
use os_fuse.Stream.Wrote.{Wrote}
use os_fuse.Stream.File.{IsFile}
use os_fuse.Stream.Record.{sized, sized-slots, sized-bits}

-- Two files have no slot and no block in common.
pub record Apart (s : Sys) (inum n : ℕ) (f : Bytes) (m n' : ℕ) (f' : Bytes) : Type 0 where
  pub slots :
      (p : ℕ) → has p (list_slots file_layout s m) ≡ true → p ∉ list_slots file_layout s inum
  pub blocks : (i j : ℕ) → i < n → j < n' → blknum f i ≢ blknum f' j

-- Files in states with the same disk.
pub Apart-disk :
    (s t : Sys) (inum n : ℕ) (f : Bytes) (m n' : ℕ) (f' : Bytes)
    → t.disk ≡ s.disk
    → Apart s inum n f m n' f'
    → Apart t inum n f m n' f'
Apart-disk s t inum n f m n' f' eq apart =
    let slots : ((a : ℕ) → list_slots file_layout t a ≡ list_slots file_layout s a) = λ a.
      list_slots-kept file_layout s t a
        (λ p h. slot_load-of-disk p s t (ap (λ (d : Disk). d (p / 4)) eq)) in
    record {
      slots = λ p h. ap (has p) (slots inum) ∙ apart.slots p (sym (ap (has p) (slots m)) ∙ h);
      blocks = apart.blocks;
    }

module _ (buf f : Bytes) (inum n b k v : ℕ) (free rest : List ℕ) (s t : Sys)
    (file : IsFile s inum n f free) (loop : Wrote buf b k 0 n free s rest t) where
  -- A slot in use outside the list of the file, before the list is stored, and behind.
  resized-kept :
      (p : ℕ)
      → p < slot_limit
      → is_free s.disk p ≡ false
      → p ≢ 0
      → p ∉ list_slots file_layout s inum
      → let r = sized buf f inum n b k v free rest s t file loop in
        (slot_load p r ≡ slot_load p s) × (is_free r.disk p ≡ false)
  resized-kept p small used ne out = (
    slot_load-slot_dump_ne p inum _ t (λ e. ground arith) ∙ loop.low p ne small,
    sized-bits buf f inum n b k v free rest s t file loop p ∙ used,
  )

  pub stored-kept :
      (new : ℕ) (u : Sys)
      → Stored file_layout inum new t.file_list (sized buf f inum n b k v free rest s t file loop) u
      → (p : ℕ) → p < slot_limit
      → is_free s.disk p ≡ false
      → p ≢ 0
      → p ∉ list_slots file_layout s inum
      → (slot_load p u ≡ slot_load p s) × (is_free u.disk p ≡ false)
  stored-kept new u st p small used ne out =
      let (load, used') = resized-kept p small used ne out in
      let own_slots = sized-slots buf f inum n b k v free rest s t file loop in
      let (load', used'') = st.stays.slots p small used' (ap (has p) own_slots ∙ out) in
      (load' ∙ load, used'')

module _ (buf f f' : Bytes) (inum n b k v m n' : ℕ) (free rest : List ℕ) (s t : Sys)
    (file : IsFile s inum n f free) (loop : Wrote buf b k 0 n free s rest t)
    (other : IsFile s m n' f' free) (apart : Apart s inum n f m n' f')
    (same : (i : ℕ) → i < n → blknum s.file_list i ≡ blknum f i) where
  abbrev resized : Sys
  resized = sized buf f inum n b k v free rest s t file loop

  -- The slots of the other file, before the list of the first is stored.
  resized-other :
      (p : ℕ)
      → has p (list_slots file_layout s m) ≡ true
      → (slot_load p resized ≡ slot_load p s) × (is_free resized.disk p ≡ false) × (p < slot_limit)
  resized-other p h =
      let (small, used) = Owned-mem s (list_slots file_layout s m) p other.list.own h in
      let ne = ne_of_mem p 0 (list_slots file_layout s m) h other.apart in
      let (load, used') =
        resized-kept buf f inum n b k v free rest s t file loop p small used ne (apart.slots p h) in
      (load, used', small)

  -- Its blocks.
  block_same : (j : ℕ) → j < n' → t.disk (blknum f' j) ≡ s.disk (blknum f' j)
  block_same j lt =
      loop.others (blknum f' j) (other.mapped.beyond j lt) (other.mapped.taken j lt)
        (λ i li e. apart.blocks i j li lt (sym (same i li) ∙ sym e))

  other-Mapped : Mapped f' n' rest
  other-Mapped = record {
    beyond = other.mapped.beyond;
    word = other.mapped.word;
    taken = λ i lt. elim (Bool-cases (has (blknum f' i) rest)) [
      | inl hit ↦ absurd (false≢true (sym (other.mapped.taken i lt) ∙ loop.part (blknum f' i) hit))
      | inr miss ↦ miss
    ];
    distinct = other.mapped.distinct;
    free_beyond = loop.mapped.free_beyond;
  }

  -- The other file is as it was, and still apart from the first.
  pub stored-other :
      (new : ℕ) (u : Sys)
      → new ≡ max n (b + k)
      → Stored file_layout inum new t.file_list resized u
      → IsFree u.disk rest
      → is_free u.disk 0 ≡ false
      → ((p : ℕ) → 1024 < p → u.disk p ≡ t.disk p)
      → IsFile u m n' f' rest
        × ((j : ℕ) → j < n' → u.disk (blknum f' j) ≡ s.disk (blknum f' j))
        × Apart u inum new t.file_list m n' f'
  stored-other new u eq st isfree reserved beyond =
      let own_slots = sized-slots buf f inum n b k v free rest s t file loop in
      let fact : ((p : ℕ)
          → has p (list_slots file_layout s m) ≡ true
          → (slot_load p u ≡ slot_load p s) × (is_free u.disk p ≡ false)) =
        λ p h.
          let (small, used) = Owned-mem s (list_slots file_layout s m) p other.list.own h in
          let ne = ne_of_mem p 0 (list_slots file_layout s m) h other.apart in
          stored-kept buf f inum n b k v free rest s t file loop new u st p small used ne
            (apart.slots p h) in
      let kept : ((p : ℕ)
          → has p (list_slots file_layout s m) ≡ true
          → slot_load p u ≡ slot_load p s) =
        λ p h. (fact p h).0 in
      let slots = list_slots-kept file_layout s u m kept in
      let node = node_kept file_layout s u m kept in
      (
        record {
          list = IsList-kept file_layout s u m kept (λ p h. (fact p h).1) other.list;
          holds = ListHolds-kept file_layout s u m kept n' f' other.holds;
          apart = ap (has 0) slots ∙ other.apart;
          reserved = reserved;
          file = ap (λ (c : Bytes). get_u8 c isdir_at) node ∙ other.file;
          isfree = isfree;
          mapped = other-Mapped;
          cover = subst (λ (c : Bytes). get_u32 c fsize_at ≤ n' * 512) (sym node) other.cover;
          bound = other.bound;
        },
        λ j lt. beyond (blknum f' j) (other.mapped.beyond j lt) ∙ block_same j lt,
        record {
          slots = λ p h.
              let h' : has p (list_slots file_layout s m) ≡ true = sym (ap (has p) slots) ∙ h in
              let (_, used, small) = resized-other p h' in
              st.avoids p small used (ap (has p) own_slots ∙ apart.slots p h');
          blocks = λ i j li lj e. elim (dec_lt i n) [
            | yes old ↦ apart.blocks i j old lj (sym (same i old) ∙ (sym (loop.same i old) ∙ e))
            | no ge ↦ false≢true (
                sym (other.mapped.taken j lj)
                ∙ (ap (λ (x : ℕ). has x free) (sym e)
                    ∙ loop.fresh i (omega arith) (omega (arith, eq))))
          ];
        },
      )
