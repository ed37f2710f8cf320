-- ===== src/Listing/Read.antt =====
-- dnode_listing and fnode_listing: reading a list gives back the array that it holds.
use os_fuse.Base.{
  ℕ, zero, suc, ◌+◌, ◌*◌, ◌-◌, ◌<◌, ◌≤◌, ◌≡◌, refl, sym, ap, ◌∙◌, arith, true, false, Bool-cases,
  inl, inr, leb, leb-true, leb-false, if◌then◌else◌,
}
use mathlib.Core.Path.{subst}
use mathlib.Core.Bool.{false≢true}
use native.Mathlib.Nat.{mul-le-mul_right}
use native.Mathlib.Decide.{dec_lt, dec_le}
use os_fuse.Memory.{Bytes, get_u16, memcpy, at}
use os_fuse.State.{Sys}
use os_fuse.Inode.{slot_load, indexes_at, pages_at, direct_at}
use os_fuse.Listing.{
  Layout, Cursor, read_pages, read_indexes, listing, pages_per_index, pages_per_inode,
}
use os_fuse.Listing.Pages.{PagesHold}
use os_fuse.Listing.Indexes.{IndexesHold}
use os_fuse.Listing.Store.{ListHolds}

-- Copying behind `n` bytes that agree with `g`.
agree-memcpy :
    (g buf page : Bytes) (n : ℕ)
    → ((x : ℕ) → x < n → buf x ≡ g x)
    → ((y : ℕ) → y < 128 → page y ≡ g (n + y))
    → (x : ℕ) → x < n + 128
    → memcpy buf n page 128 x ≡ g x
unfolding memcpy
agree-memcpy g buf page n h k x lt = elim (dec_lt x n) [
  | yes l ↦ ground (arith, h x l)
  | no ge ↦ ground (arith, k (x - n) (omega arith))
]

start-direct :
    (buf node : Bytes) (x : ℕ)
    → x < 96
    → memcpy buf 0 (at node direct_at) 96 x ≡ node (direct_at + x)
unfolding memcpy
start-direct buf node x lt = ground arith

module _ (L : Layout) (end : ℕ) (s : Sys) (g : Bytes)
    (whole : L.per_page * L.entry_size ≡ 128) where
  -- The array agrees with `g` before `ptr`, and the loop returns behind the end.
  abbrev Read : (next : ℕ) → Cursor → Type 0
  Read next (done, ptr, buf) =
      ((x : ℕ) → x < ptr * L.entry_size → buf x ≡ g x)
      × (done ≡ true → end ≤ ptr)
      × (done ≡ false → (ptr < end) × (ptr ≡ next))

  step : (ptr : ℕ) → (ptr + L.per_page) * L.entry_size ≡ ptr * L.entry_size + 128
  step ptr = omega (arith, whole)

  read_pages-Read :
      (ids : Bytes) (base k i ptr : ℕ) (buf : Bytes)
      → ptr < end
      → ((x : ℕ) → x < ptr * L.entry_size → buf x ≡ g x)
      → PagesHold L s g ids base end k i ptr
      → Read (ptr + k * L.per_page) (read_pages L ids base end s k i ptr buf)
  unfolding read_pages
  read_pages-Read ids base zero i ptr buf lt agree hold =
      (agree, λ e. absurd (false≢true e), λ _. (lt, omega arith))
  read_pages-Read ids base (suc k) i ptr buf lt agree hold =
      let page : Bytes = slot_load (get_u16 ids (base + 2 * i)) s in
      let agree' : ((x : ℕ)
          → x < (ptr + L.per_page) * L.entry_size
          → memcpy buf (ptr * L.entry_size) page 128 x ≡ g x) =
        λ x l.
          agree-memcpy g buf page (ptr * L.entry_size) agree (hold.0 lt) x
            (omega (arith, step ptr)) in
      elim (dec_le end (ptr + L.per_page)) [
        | yes le ↦
            rw (leb-true end (ptr + L.per_page) le)
              (agree', λ _. le, λ e. absurd (false≢true (sym e)))
        | no gt ↦ rw (leb-false end (ptr + L.per_page) (omega arith)) (
            let rest =
              read_pages-Read ids base k (i + 1) (ptr + L.per_page)
                (memcpy buf (ptr * L.entry_size) page 128) (omega arith) agree' hold.1 in
            (rest.0, rest.1, λ e. ((rest.2 e).0, (rest.2 e).1 ∙ omega arith)))
      ]

  read_indexes-Read :
      (node : Bytes) (k i ptr : ℕ) (buf : Bytes)
      → ptr < end
      → ((x : ℕ) → x < ptr * L.entry_size → buf x ≡ g x)
      → IndexesHold L s g node end k i ptr
      → Read (ptr + k * (pages_per_index * L.per_page)) (read_indexes L node end s k i ptr buf)
  unfolding read_indexes
  read_indexes-Read node zero i ptr buf lt agree hold =
      (agree, λ e. absurd (false≢true e), λ _. (lt, omega arith))
  read_indexes-Read node (suc k) i ptr buf lt agree hold =
      let ids : Bytes = slot_load (get_u16 node (indexes_at + 2 * i)) s in
      let c : Cursor = read_pages L ids 0 end s pages_per_index 0 ptr buf in
      let here : Read (ptr + pages_per_index * L.per_page) c =
        read_pages-Read ids 0 pages_per_index 0 ptr buf lt agree (hold.0 lt) in
      let next : ℕ = ptr + pages_per_index * L.per_page in
      elim (Bool-cases c.0) [
        | inl done ↦ rw done (here.0, λ _. here.1 done, λ e. absurd (false≢true (sym e)))
        | inr more ↦
            (let (lt', at') = here.2 more in
              let hold' : IndexesHold L s g node end k (i + 1) c.1 =
                subst (λ (p : ℕ). IndexesHold L s g node end k (i + 1) p) (sym at') hold.1 in
              let rest = read_indexes-Read node k (i + 1) c.1 c.2 lt' here.0 hold' in
              rw more (
                rest.0,
                rest.1,
                λ e. (
                  (rest.2 e).0,
                  (rest.2 e).1
                      ∙ (ap (λ (p : ℕ). p + k * (pages_per_index * L.per_page)) at' ∙ omega arith),
                ),
              ))
      ]

  -- The body of `listing`, for the size that the inode records.
  abbrev body : (node buf : Bytes) (size : ℕ) → ℕ × Bytes
  unfolding read_pages read_indexes
  body node buf size =
      let front = memcpy buf 0 (at node direct_at) 96 in
      let (done, ptr, paged) = read_pages L node pages_at size s pages_per_inode 0 L.direct front in
      let (_, _, indexed) = read_indexes L node size s pages_per_inode 0 ptr paged in
      if leb size L.direct then (size, front) else (size, if done then paged else indexed)

  abbrev Agrees : ℕ × Bytes → Type 0
  Agrees (n, b) = (n ≡ end) × ((x : ℕ) → x < end * L.entry_size → b x ≡ g x)

  -- The part of an array of fewer entries.
  agree-le :
      (ptr : ℕ) (b : Bytes)
      → end ≤ ptr
      → ((x : ℕ) → x < ptr * L.entry_size → b x ≡ g x)
      → (x : ℕ) → x < end * L.entry_size
      → b x ≡ g x
  agree-le ptr b le agree x lt = agree x (omega (arith, mul-le-mul_right L.entry_size le))

  pub listing-Agrees :
      (inum : ℕ) (buf : Bytes)
      → L.direct * L.entry_size ≡ 96
      → end
        ≤ L.direct + pages_per_inode * L.per_page + pages_per_inode * (pages_per_index * L.per_page)
      → ListHolds L s inum end g
      → Agrees (listing L inum buf s)
  unfolding listing
  listing-Agrees inum buf front fits holds =
      let node : Bytes = slot_load inum s in
      let start : Bytes = memcpy buf 0 (at node direct_at) 96 in
      let agree : ((x : ℕ) → x < L.direct * L.entry_size → start x ≡ g x) = λ x lt.
        start-direct buf node x (omega (arith, front)) ∙ holds.direct x (omega (arith, front)) in
      let c : Cursor = read_pages L node pages_at end s pages_per_inode 0 L.direct start in
      let d : Cursor = read_indexes L node end s pages_per_inode 0 c.1 c.2 in
      let all : Agrees (body node buf end) = elim (dec_le end L.direct) [
        | yes le ↦ rw (leb-true end L.direct le) (refl, agree-le L.direct start le agree)
        | no gt ↦ rw (leb-false end L.direct (omega arith)) (
            let here =
              read_pages-Read node pages_at pages_per_inode 0 L.direct start (omega arith) agree
                holds.pages in
            elim (Bool-cases c.0) [
              | inl done ↦ rw done (refl, agree-le c.1 c.2 (here.1 done) here.0)
              | inr more ↦
                  (let (lt', at') = here.2 more in
                    let hold' : IndexesHold L s g node end pages_per_inode 0 c.1 =
                      subst (λ (p : ℕ). IndexesHold L s g node end pages_per_inode 0 p) (sym at')
                        holds.indexes in
                    let rest = read_indexes-Read node pages_per_inode 0 c.1 c.2 lt' here.0 hold' in
                    rw more (
                      refl,
                      elim (Bool-cases d.0) [
                        | inl done ↦ agree-le d.1 d.2 (rest.1 done) rest.0
                        | inr over ↦
                            absurd (omega (arith, (rest.2 over).0, (rest.2 over).1, at', fits))
                      ],
                    ))
            ])
      ] in
      subst (λ (n : ℕ). Agrees (body node buf n)) (sym holds.size) all
