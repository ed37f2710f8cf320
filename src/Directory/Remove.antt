-- ===== src/Directory/Remove.antt =====
-- dnode_remove: the last entry of the directory takes the place of the one that is removed.
use os_fuse.Base.{
  ℕ, zero, suc, ◌+◌, ◌-◌, ◌*◌, ◌%◌, ◌<◌, ◌≤◌, ◌≡◌, ◌≢◌, refl, ap, ◌∙◌, sym, arith, Bool, true,
  false, leb-false, pos, ℤ, to_ushort, List, [], ◌∷◌,
}
use mathlib.Core.Path.{subst}
use os_fuse.Memory.{Bytes, at, memcpy}
use os_fuse.Memory.Copy.{memcpy-in, memcpy-before, memcpy-behind}
use os_fuse.CString.{equal_strings}
use os_fuse.CString.Compare.{equal_strings-cong_left}
use os_fuse.State.{Sys, block_read, block_write}
use os_fuse.Inode.{slot_load, slot_dump, inode_load, inode_dump, dentry_max_size}
use os_fuse.Listing.{dir_layout, dnode_listing, dnode_listing_set, store_listing}
use os_fuse.Listing.Frame.{Stays, Stays-trans, Stays-slot_dump}
use os_fuse.Listing.Store.{list_slots}
use os_fuse.Listing.Stored.{store_listing-ListHolds}
use os_fuse.Listing.Shrink.{errno-store_listing}
use os_fuse.Listing.Frees.{Frees, Frees-slot_dump}
use os_fuse.Listing.StoreFrees.{store_listing-Frees}
use os_fuse.Listing.Array.{dir_list-store_listing}
use os_fuse.Directory.{di_ent_size, bump_nlink, remove_loop, dnode_remove}
use os_fuse.Directory.Append.{IsDir, IsDir-dirs, dnode_listing-IsDir, bump_nlink-IsDir}

-- Entry `j` of the array has the name that is compared by dnode_remove.
abbrev pub is_named : (filename d : Bytes) (j : ℕ) → Bool
is_named filename d j = equal_strings 13 0 (at d (j * di_ent_size)) filename

remove_loop-miss :
    (p : ℤ) (filename : Bytes) (size k i : ℕ) (s : Sys)
    → is_named filename s.dir_list i ≡ false
    → remove_loop p filename size (suc k) i s ≡ remove_loop p filename size k (i + 1) s
unfolding remove_loop
remove_loop-miss p filename size k i s miss = rw miss refl

remove_loop-skip :
    (p : ℤ) (filename : Bytes) (size k m i : ℕ) (s : Sys)
    → ((j : ℕ) → i ≤ j → j < i + k → is_named filename s.dir_list j ≡ false)
    → remove_loop p filename size (k + m) i s ≡ remove_loop p filename size m (i + k) s
remove_loop-skip p filename size zero m i s miss =
    let count : zero + m ≡ m = omega arith in
    let place : i ≡ i + zero = omega arith in
    ap (λ (z : ℕ). remove_loop p filename size z i s) count
    ∙ ap (λ (z : ℕ). remove_loop p filename size m z s) place
remove_loop-skip p filename size (suc k) m i s miss =
    let count : suc k + m ≡ suc (k + m) = omega arith in
    let place : i + 1 + k ≡ i + suc k = omega arith in
    let here = miss i (omega arith) (omega arith) in
    ap (λ (z : ℕ). remove_loop p filename size z i s) count
    ∙ (remove_loop-miss p filename size (k + m) i s here
        ∙ (remove_loop-skip p filename size k m (i + 1) s
              (λ j low high. miss j (omega arith) (omega arith))
            ∙ ap (λ (z : ℕ). remove_loop p filename size m z s) place))

-- The array with the last of `size` entries at place `i`, and the state with the shorter list.
abbrev pub moved : (size i : ℕ) → Bytes → Bytes
moved size i d = memcpy d (i * di_ent_size) (at d ((size - 1) * di_ent_size)) di_ent_size

abbrev shorter : (p : ℤ) (size i : ℕ) → Sys → Sys
shorter p size i s =
    bump_nlink p 65535
      (dnode_listing_set (to_ushort p) (size - 1) (record s { dir_list = moved size i s.dir_list }))

remove_loop-hit :
    (p : ℤ) (filename : Bytes) (size k i : ℕ) (s : Sys)
    → is_named filename s.dir_list i ≡ true
    → remove_loop p filename size (suc k) i s
      ≡ remove_loop p filename size k (i + 1) (shorter p size i s)
unfolding remove_loop
remove_loop-hit p filename size k i s hit = rw hit refl

remove_loop-zero :
    (p : ℤ) (filename : Bytes) (size i : ℕ) (s : Sys) → remove_loop p filename size zero i s ≡ s
unfolding remove_loop
remove_loop-zero p filename size i s = refl

dir_list-bump_nlink :
    (inum change : ℕ) (s : Sys) → (bump_nlink (pos inum) change s).dir_list ≡ s.dir_list
unfolding bump_nlink inode_load inode_dump slot_dump block_write
dir_list-bump_nlink inum change s = refl

Stays-bump_nlink :
    (inum change : ℕ) (s : Sys) → inum < 4096 → Stays (inum ∷ []) s (bump_nlink (pos inum) change s)
unfolding bump_nlink inode_load inode_dump
Stays-bump_nlink inum change s lt = Stays-slot_dump inum _ s lt

Stays-dirs :
    (T : List ℕ) (s t : Sys) (g : Bytes) → Stays T (record s { dir_list = g }) t → Stays T s t
unfolding slot_load block_read
Stays-dirs T s t g h = record { slots = h.slots; beyond = h.beyond }

list_slots-dirs :
    (s : Sys) (inum : ℕ) (g : Bytes)
    → list_slots dir_layout (record s { dir_list = g }) inum ≡ list_slots dir_layout s inum
unfolding slot_load block_read
list_slots-dirs s inum g = refl

-- `s` becomes `t`: entry `i` is gone, and the last of the `n` entries is in its place. Slots of
-- other lists and the blocks behind the bitmap are as before, and no inode is taken.
pub record Removed (inum n i : ℕ) (d : Bytes) (s t : Sys) (d' : Bytes) : Type 0 where
  pub dir : IsDir t inum (n - 1) d'
  pub errno : t.errno ≡ s.errno
  pub stays : Stays (list_slots dir_layout s inum) s t
  pub frees : Frees s t
  pub place : (x : ℕ) → x < 16 → d' (i * 16 + x) ≡ d ((n - 1) * 16 + x)
  pub before : (x : ℕ) → x < i * 16 → d' x ≡ d x
  pub behind : (x : ℕ) → (i + 1) * 16 ≤ x → x < n * 16 → d' x ≡ d x

module _ (inum n i : ℕ) (d filename : Bytes) (s : Sys) (dir : IsDir s inum n d)
    (clear : s.errno ≡ pos 0) (lt : i < n) (hit : is_named filename d i ≡ true)
    (only : (j : ℕ) → j < n → j ≢ i → is_named filename d j ≡ false) where
  abbrev g : Bytes
  g = (dnode_listing inum s).1.dir_list

  abbrev listed : Sys
  listed = record s { dir_list = g }

  -- The array without entry `i`.
  abbrev pub without : Bytes
  without = moved n i g

  abbrev ready : Sys
  ready = record s { dir_list = without }

  abbrev stored : Sys
  stored = store_listing dir_layout inum without (n - 1) ready

  abbrev done : Sys
  done = bump_nlink (pos inum) 65535 stored

  agree : (x : ℕ) → x < n * 16 → g x ≡ d x
  agree = (dnode_listing-IsDir s inum n d dir).1

  dnode_remove-from :
      dnode_remove (pos inum) filename s ≡ remove_loop (pos inum) filename n n 0 listed
  unfolding dnode_remove
  dnode_remove-from =
      let short : inum % 65536 ≡ inum = omega (arith, dir.list.own.1) in
      let pair = (dnode_listing-IsDir s inum n d dir).0 in
      rw short (ap (λ (r : ℕ × Sys). remove_loop (pos inum) filename r.0 r.0 0 r.1) pair)

  shorter-done : shorter (pos inum) n i listed ≡ done
  unfolding dnode_listing_set
  shorter-done =
      let short : inum % 65536 ≡ inum = omega (arith, dir.list.own.1) in
      rw (short, leb-false dentry_max_size (n - 1) (omega (arith, dir.bound))) refl

  done-array : done.dir_list ≡ without
  done-array =
      dir_list-bump_nlink inum 65535 stored
      ∙ dir_list-store_listing dir_layout inum without (n - 1) ready

  Removed-done : Removed inum n i d s done without
  unfolding bump_nlink inode_load inode_dump
  Removed-done =
      let here = IsDir-dirs s inum n d without dir in
      let err =
        errno-store_listing dir_layout inum without (n - 1) ready
          (let size = here.holds.size in omega (arith, size)) in
      let st =
        store_listing-ListHolds dir_layout inum without (n - 1) ready (omega (arith, dir.bound))
          here.list (err ∙ clear) in
      let (bumped, same) =
        bump_nlink-IsDir inum 65535 (n - 1) without stored
          (record { list = st.list; holds = st.holds; bound = omega (arith, dir.bound) }) in
      let stays : Stays (list_slots dir_layout s inum) s stored =
        Stays-dirs (list_slots dir_layout s inum) s stored without (
          subst (λ (T : List ℕ). Stays T ready stored) (list_slots-dirs s inum without) st.stays) in
      record {
        dir = bumped;
        errno = same ∙ err;
        stays =
            Stays-trans (list_slots dir_layout s inum) (list_slots dir_layout s inum) (inum ∷ []) s
              stored done (λ m out. (out, ground arith)) stays
              (Stays-bump_nlink inum 65535 stored dir.list.own.1);
        frees = λ m h. Frees-slot_dump inum _ stored dir.list.own.1 m (
            store_listing-Frees dir_layout inum without (n - 1) ready here.list
              (let size = here.holds.size in omega (arith, size)) clear m h);
        place = λ x small.
            memcpy-in g (at g ((n - 1) * 16)) (i * 16) 16 x small
            ∙ agree ((n - 1) * 16 + x) (omega arith);
        before = λ x small.
            memcpy-before g (at g ((n - 1) * 16)) (i * 16) 16 x small ∙ agree x (omega arith);
        behind = λ x le small.
            memcpy-behind g (at g ((n - 1) * 16)) (i * 16) 16 x (omega arith) ∙ agree x small;
      }

  entry_same : (j : ℕ) → j < n → is_named filename g j ≡ is_named filename d j
  entry_same j below =
      equal_strings-cong_left 13 0 (at d (j * 16)) (at g (j * 16)) filename
        (λ x low high. agree (j * 16 + x) (omega arith))

  entry_behind : (j : ℕ) → i < j → j < n → is_named filename done.dir_list j ≡ is_named filename d j
  entry_behind j above below =
      equal_strings-cong_left 13 0 (at d (j * 16)) (at done.dir_list (j * 16)) filename
        (λ x low high.
          ap (λ (c : Bytes). c (j * 16 + x)) done-array
          ∙ Removed-done.behind (j * 16 + x) (omega arith) (omega arith))

  -- Let inode `inum` be a directory of `n` entries, no error recorded, and let `i` be the only
  -- entry with the given name. Then dnode_remove leaves a directory of `n - 1` entries, the last
  -- in the place of entry `i`, records no error, takes no inode, and changes no slot in use
  -- outside the list of the directory and no block behind the bitmap.
  pub dnode_remove-Removed :
      let t = dnode_remove (pos inum) filename s in Removed inum n i d s t without
  dnode_remove-Removed =
      let k : ℕ = n - i - 1 in
      let p : ℤ = pos inum in
      let rounds : n ≡ i + suc k = omega arith in
      let start : zero + i ≡ i = omega arith in
      let all : k ≡ k + zero = omega arith in
      let step : dnode_remove p filename s ≡ done =
        dnode_remove-from
        ∙ (ap (λ (z : ℕ). remove_loop p filename n z 0 listed) rounds
            ∙ (remove_loop-skip p filename n i (suc k) 0 listed (λ j low high.
                  entry_same j (omega arith)
                  ∙ only j (omega arith) (λ e. absurd (omega (arith, e))))
                ∙ (ap (λ (z : ℕ). remove_loop p filename n (suc k) z listed) start
                    ∙ (remove_loop-hit p filename n k i listed (entry_same i lt ∙ hit)
                        ∙ (ap (remove_loop p filename n k (i + 1)) shorter-done
                            ∙ (ap (λ (z : ℕ). remove_loop p filename n z (i + 1) done) all
                                ∙ (remove_loop-skip p filename n k zero (i + 1) done (λ j low high.
                                      entry_behind j (omega arith) (omega arith)
                                      ∙ only j (omega arith) (λ e. absurd (omega (arith, e))))
                                    ∙ remove_loop-zero p filename n (i + 1 + k) done))))))) in
      subst (λ (t : Sys). Removed inum n i d s t without) (sym step) Removed-done
