-- ===== src/Sfs/Drop.antt =====
-- The part of sfs_unlink that gives the blocks and the inode of a file back.
use os_fuse.Base.{
  ℕ, ◌+◌, ◌-◌, ◌-◌, ◌<◌, ◌≤◌, ◌≡◌, ◌≢◌, ◌^◌, ◌∙◌, arith, true, false, pos, List, [], ◌∷◌, has, ◌∉◌,
  length,
}
use mathlib.Core.Path.{subst}
use os_fuse.Memory.{Bytes}
use os_fuse.State.{Sys}
use os_fuse.FreeBlock.Chain.{IsFree}
use os_fuse.Bitmap.{free_inode_push}
use os_fuse.Bitmap.Laws.{is_free, is_free-free_inode_push}
use os_fuse.Inode.{slot_load}
use os_fuse.Listing.{file_layout, fnode_listing, fnode_listing_set}
use os_fuse.Listing.Frame.{Stays-free_inode_push, errno-free_inode_push, slot_limit}
use os_fuse.Listing.Store.{list_slots}
use os_fuse.Listing.Carry.{IsFree-Stays}
use os_fuse.Stream.{fstream_free}
use os_fuse.Stream.File.{IsFile}
use os_fuse.Stream.FreeLoop.{freed}
use os_fuse.Stream.Shortened.{Shortened, fnode_listing_set-Shortened}
use os_fuse.Stream.Free.{fstream_free-Shortened}

module _ (inum n : ℕ) (f : Bytes) (free : List ℕ) (s : Sys) (file : IsFile s inum n f free)
    (clear : s.errno ≡ pos 0) (room : length free + n < 2 ^ 31) (le : 2 ≤ inum) where
  abbrev stored : Sys
  stored = fnode_listing_set inum 0 (fstream_free inum 0 s)

  abbrev pub dropped : Sys
  dropped = free_inode_push inum stored

  Shortened-stored :
      Shortened inum 0 f (freed f n 0 free) s stored (fnode_listing inum s).1.file_list
  Shortened-stored =
      let all : n - 0 ≡ n = omega arith in
      let h : Bytes = (fnode_listing inum s).1.file_list in
      let short =
        fstream_free-Shortened inum n 0 f free s file (omega arith) clear (omega (arith, room)) in
      subst (λ (k : ℕ). Shortened inum 0 f (freed f k 0 free) s stored h) all
        (fnode_listing_set-Shortened inum 0 f h (freed f (n - 0) 0 free) s (fstream_free inum 0 s)
          short)

  -- The blocks are free, and so is the inode.
  pub dropped-free :
      (dropped.errno ≡ pos 0)
      × IsFree dropped.disk (freed f n 0 free)
      × (is_free dropped.disk inum ≡ true)
      × ((x : ℕ) → has x (freed f n 0 free) ≡ true → 1024 < x)
  dropped-free =
      let short = Shortened-stored in
      (
        errno-free_inode_push stored inum ∙ short.errno,
        IsFree-Stays (inum ∷ []) (freed f n 0 free) stored dropped
            (Stays-free_inode_push stored inum) short.reserved (ground arith)
            short.mapped.free_beyond short.isfree,
        is_free-free_inode_push stored inum inum ∙ ground arith,
        short.mapped.free_beyond,
      )

  -- The superblock's slot stays reserved.
  pub dropped-reserved : is_free dropped.disk 0 ≡ false
  dropped-reserved =
      is_free-free_inode_push stored inum 0
      ∙ (let used = Shortened-stored.reserved in ground (arith, used))

  -- Slots in use outside the list of the file stay.
  pub dropped-kept :
      (q : ℕ)
      → q < slot_limit
      → is_free s.disk q ≡ false
      → q ≢ 0
      → q ∉ list_slots file_layout s inum
      → (slot_load q dropped ≡ slot_load q s) × (is_free dropped.disk q ≡ false)
  dropped-kept q lt used ne out =
      let keeps = Shortened-stored.keeps in
      let (same, used') =
        (Stays-free_inode_push stored inum).slots q lt (keeps.used q lt used out).0
          (ground (arith, out)) in
      (same ∙ keeps.slots q lt used ne out, used')
