-- ===== src/Sfs/Contents.antt =====
-- sfs_write and sfs_read through a whole path.
use os_fuse.Base.{
  ℕ, ◌+◌, ◌<◌, ◌≤◌, ◌≡◌, ◌%◌, refl, ap, ◌∙◌, sym, arith, ℤ, pos, is_neg, to_ushort, if◌then◌else◌,
  List, ◌∷◌, length, Bool,
}
use mathlib.Core.Path.{subst}
use os_fuse.Memory.{Bytes}
use os_fuse.CString.{path_max}
use os_fuse.State.{Sys, enoent, block_read}
use os_fuse.Bitmap.Count.{free_inodes}
use os_fuse.Inode.{slot_load, fcontent_max_size}
use os_fuse.Listing.{file_layout}
use os_fuse.Listing.Store.{list_slots}
use os_fuse.Listing.Enough.{slots_needed}
use os_fuse.Stream.{fstream_read, fstream_write}
use os_fuse.Stream.File.{IsFile, IsFile-disk, file_size}
use os_fuse.Stream.Contents.{blocks_after, fstream_write-kept, fstream_read-later}
use os_fuse.Resolve.{path_to_inum}
use os_fuse.Resolve.Quiet.{path_to_inum-found}
use os_fuse.Resolve.Names.{AllNames, Spells}
use os_fuse.Resolve.Trimmed.{path_text}
use os_fuse.Resolve.Along.{Along, Keeps, Along-kept, path_to_inum-Along}
use os_fuse.Sfs.{sfs_read, sfs_write, probe_pops}

-- sfs_write and sfs_read from the results of path_to_inum on.
write_from : (buf : Bytes) (size offset : ℕ) → ℤ × ℤ × Sys → ℤ × Sys
write_from buf size offset (a, p, t) =
    let (retstat, t') = fstream_write (to_ushort a) buf size offset t in
    if is_neg a then (enoent, t) else (retstat, if is_neg retstat then probe_pops t' else t')

read_from : (buf : Bytes) (size offset : ℕ) → ℤ × ℤ × Sys → ℤ × Bytes × Sys
read_from buf size offset (a, p, t) =
    let (count, filled, t') = fstream_read (to_ushort a) buf size offset t in
    if is_neg a then (enoent, buf, t) else (pos count, filled, t')

sfs_write-from :
    (path buf : Bytes) (size offset : ℕ) (s : Sys)
    → sfs_write path buf size offset s ≡ write_from buf size offset (path_to_inum path s)
unfolding sfs_write write_from
sfs_write-from path buf size offset s = refl

sfs_read-from :
    (path buf : Bytes) (size offset : ℕ) (s : Sys)
    → sfs_read path buf size offset s ≡ read_from buf size offset (path_to_inum path s)
unfolding sfs_read read_from
sfs_read-from path buf size offset s = refl

write_from-found :
    (inum size offset : ℕ) (buf : Bytes) (p : ℤ) (t : Sys)
    → inum < 65536
    → (fstream_write inum buf size offset t).0 ≡ pos size
    → write_from buf size offset (pos inum, p, t)
      ≡ (pos size, (fstream_write inum buf size offset t).1)
unfolding write_from
write_from-found inum size offset buf p t lt done =
    let short : inum % 65536 ≡ inum = omega arith in rw (short, done) refl

read_from-found :
    (inum size offset : ℕ) (buf : Bytes) (p : ℤ) (t : Sys)
    → inum < 65536
    → let r = fstream_read inum buf size offset t in
      read_from buf size offset (pos inum, p, t) ≡ (pos r.0, r.1, r.2)
unfolding read_from
read_from-found inum size offset buf p t lt =
    let short : inum % 65536 ≡ inum = omega arith in rw short refl

-- Both on a path that is found; the lookups change the array of entries only.
sfs_write-found :
    (path buf : Bytes) (inum size offset : ℕ) (s : Sys)
    → inum < 65536
    → (path_to_inum path s).0 ≡ pos inum
    → let w =
        fstream_write inum buf size offset
          (record s { dir_list = (path_to_inum path s).2.dir_list }) in
      w.0 ≡ pos size → sfs_write path buf size offset s ≡ (pos size, w.1)
sfs_write-found path buf inum size offset s small number wrote =
    sfs_write-from path buf size offset s
    ∙ (ap (write_from buf size offset) (path_to_inum-found path inum s number)
        ∙ write_from-found inum size offset buf _ _ small wrote)

sfs_read-found :
    (path buf : Bytes) (inum size offset : ℕ) (s : Sys)
    → inum < 65536
    → (path_to_inum path s).0 ≡ pos inum
    → let r =
        fstream_read inum buf size offset
          (record s { dir_list = (path_to_inum path s).2.dir_list }) in
      sfs_read path buf size offset s ≡ (pos r.0, r.1, r.2)
sfs_read-found path buf inum size offset s small number =
    sfs_read-from path buf size offset s
    ∙ (ap (read_from buf size offset) (path_to_inum-found path inum s number)
        ∙ read_from-found inum size offset buf _ _ small)

-- Let a path that is the text of at least one name, each with a slash in front, with or without a
-- slash at the end and shorter than PATH_MAX, lead from the root through directories to a file of
-- `n` blocks, the directories without slot 0 and without a slot of the file, and let no error be
-- recorded. Let at least one byte be written, from a place in the file or at its end on, within
-- the largest file size, and let there be enough free blocks for the blocks that the file gains
-- and enough free inodes for the slots that its longer list needs. Then sfs_write returns `size`,
-- and sfs_read of the same path and range afterwards finds the file again, returns `size` and puts
-- the bytes written into the buffer, whatever that held.
pub sfs_read-sfs_write :
    (path : Bytes) (name : List ℕ) (names : List (List ℕ)) (slashed : Bool) (inum n size offset : ℕ)
    (buf other f : Bytes) (free : List ℕ) (s : Sys)
    → AllNames (name ∷ names)
    → length (path_text (name ∷ names) slashed) < path_max
    → Spells path 0 (path_text (name ∷ names) slashed)
    → Along s (list_slots file_layout s inum) inum (name ∷ names) 2
    → IsFile s inum n f free
    → s.errno ≡ pos 0
    → 0 < size
    → offset ≤ file_size s inum
    → offset + size ≤ fcontent_max_size
    → blocks_after n size offset ≤ n + length free
    → slots_needed file_layout (blocks_after n size offset)
      ≤ slots_needed file_layout n + free_inodes s.disk
    → let (result, u) = sfs_write path buf size offset s in
      let (count, filled, _) = sfs_read path other size offset u in
      (result ≡ pos size) × (count ≡ pos size) × ((x : ℕ) → x < size → filled x ≡ buf x)
unfolding slot_load block_read
sfs_read-sfs_write path name names slashed inum n size offset buf other f free s all short spells
      along file clear some_bytes inside fits blocks slots =
    let xs : List ℕ = list_slots file_layout s inum in
    let small : inum < 65536 = omega (arith, file.list.own.1) in
    let number = path_to_inum-Along path name names slashed inum xs s all short spells along in
    let s₁ : Sys = record s { dir_list = (path_to_inum path s).2.dir_list } in
    let file₁ : IsFile s₁ inum n f free = IsFile-disk s s₁ inum n f free refl file in
    let u : Sys = (fstream_write inum buf size offset s₁).1 in
    let keeps : Keeps xs s u = λ q low used ne out.
      fstream_write-kept inum n size offset buf f free s₁ file₁ clear some_bytes inside fits blocks
        slots q low used ne out in
    let number' =
      path_to_inum-Along path name names slashed inum xs u all short spells
        (Along-kept s u xs inum (name ∷ names) 2 keeps along) in
    let u₁ : Sys = record u { dir_list = (path_to_inum path u).2.dir_list } in
    let (wrote, count, filled) =
      fstream_read-later inum n size offset buf other f free s₁ u₁ file₁ clear some_bytes inside
        fits blocks slots refl in
    let read = sfs_read-found path other inum size offset u small number' in
    subst
      (λ (w : ℤ × Sys).
        (w.0 ≡ pos size)
        × ((sfs_read path other size offset w.1).0 ≡ pos size)
        × ((x : ℕ) → x < size → (sfs_read path other size offset w.1).1 x ≡ buf x))
      (sym (sfs_write-found path buf inum size offset s small number wrote))
      (
        refl,
        ap (λ (t : ℤ × Bytes × Sys). t.0) read ∙ ap pos count,
        λ x lt. ap (λ (t : ℤ × Bytes × Sys). t.1 x) read ∙ filled x lt,
      )
