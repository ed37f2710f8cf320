-- ===== src/Listing/Loop.antt =====
-- The loop over the index slots, round by round.
use os_fuse.Base.{
  ℕ, zero, suc, ◌+◌, ◌*◌, ◌≤◌, ◌≡◌, refl, sym, ap, ◌∙◌, arith, true, false, ◌&&◌, leb, ltb-true,
  ltb-false, leb-true, leb-false, Bool-cases, pos, List, [], ◌++◌, has, ◌∉◌, inl, inr,
  not-mem-append_left, not-mem-append_right,
}
use mathlib.Core.Path.{subst}
use mathlib.Core.Bool.{false≢true}
use native.Mathlib.Decide.{dec_lt}
use os_fuse.Memory.{Bytes, get_u16}
use os_fuse.State.{Sys}
use os_fuse.Inode.{indexes_at}
use os_fuse.Listing.{Layout, Edit, set_index, set_indexes, pages_per_index}
use os_fuse.Listing.Frame.{
  Stays, Owned, Owned-Stays, Owned-append_left, Owned-append_right, Owned-append_apart, Owned-mem,
  Stays-trans, Stays-refl,
}
use os_fuse.Listing.Fill.{SameOutside}
use os_fuse.Listing.Index.{slots_of, IndexFilled, created-Result, extended-Result, set_index-errno}
use os_fuse.Listing.Release.{set_index-release}
use os_fuse.Listing.Indexes.{indexes_of, indexes_of-nil, indexes_of-same, indexes_of-cong}
use os_fuse.Listing.IndexRounds.{
  IndexesFilled, IndexesFilled-none, IndexesFilled-nil, IndexesFilled-cons,
}

pub not-mem-of_right :
    (s : Sys) (xs ys : List ℕ) → Owned s (xs ++ ys) → (m : ℕ) → has m ys ≡ true → m ∉ xs
not-mem-of_right s xs ys own m h = elim (Bool-cases (has m xs)) [
  | inl hit ↦ absurd (false≢true (sym (Owned-append_apart s xs ys own m hit) ∙ h))
  | inr miss ↦ miss
]

module _ (L : Layout) (buf : Bytes) (new old : ℕ) where
  next : ℕ → ℕ
  next ptr = ptr + pages_per_index * L.per_page

  pub set_indexes-zero : (i ptr : ℕ) (e : Edit) → set_indexes L buf new old zero i ptr e ≡ e
  unfolding set_indexes
  set_indexes-zero i ptr e = refl

  pub set_indexes-idle :
      (k i ptr : ℕ) (e : Edit) → new ≤ ptr → old ≤ ptr → set_indexes L buf new old k i ptr e ≡ e
  unfolding set_indexes
  set_indexes-idle zero i ptr e ge behind = refl
  set_indexes-idle (suc k) i ptr (node, s) ge behind =
      rw (leb-true new ptr ge, leb-true old ptr behind, ltb-false ptr old behind)
        (set_indexes-idle k (i + 1) ptr (node, s) ge behind)

  pub set_indexes-step :
      (k i ptr : ℕ) (e : Edit)
      → (leb new ptr && leb old ptr) ≡ false
      → set_indexes L buf new old (suc k) i ptr e
        ≡ set_indexes L buf new old k
            (i + 1)
            (ptr + pages_per_index * L.per_page)
            (set_index L buf new old i ptr e)
  unfolding set_indexes
  set_indexes-step k i ptr e some' = rw some'

  pub set_indexes-errno :
      (k i ptr : ℕ) (e : Edit)
      → (set_indexes L buf new old k i ptr e).1.errno ≡ pos 0
      → e.1.errno ≡ pos 0
  set_indexes-errno zero i ptr e h =
      ap (λ (x : Edit). x.1.errno) (sym (set_indexes-zero i ptr e)) ∙ h
  set_indexes-errno (suc k) i ptr e h = elim (Bool-cases (leb new ptr && leb old ptr)) [
    | inl both ↦
        (let idle = set_indexes-idle (suc k) i ptr e (ground arith) (ground arith) in
          ap (λ (x : Edit). x.1.errno) (sym idle) ∙ h)
    | inr some' ↦
        (let rest =
            set_indexes-errno k (i + 1) (ptr + pages_per_index * L.per_page)
              (set_index L buf new old i ptr e)
              (ap (λ (x : Edit). x.1.errno) (sym (set_indexes-step k i ptr e some')) ∙ h) in
          elim (dec_lt ptr new) [
            | yes lt ↦ set_index-errno L buf new old i ptr e.0 e.1 lt rest
            | no ge ↦
                sym (set_index-release L buf new old i ptr e.0 e.1 (omega arith) (ground arith)).2
                ∙ rest
          ])
  ]

  -- The later slots after a round that touched the slots `T₀` alone.
  module _ (k i ptr : ℕ) (node node₁ : Bytes) (s s₁ : Sys) (T₀ : List ℕ) where
    later : Sys → Bytes → List ℕ
    later t b = indexes_of L t b old k (i + 1) (ptr + pages_per_index * L.per_page)

    pub later-same :
        Owned s (T₀ ++ indexes_of L s node old k (i + 1) (ptr + pages_per_index * L.per_page))
        → Stays T₀ s s₁
        → SameOutside (indexes_at + 2 * i) (indexes_at + 2 * i + 2) node node₁
        → (indexes_of L s₁ node₁ old k (i + 1) (ptr + pages_per_index * L.per_page)
            ≡ indexes_of L s node old k (i + 1) (ptr + pages_per_index * L.per_page))
          × Owned s₁ (indexes_of L s node old k (i + 1) (ptr + pages_per_index * L.per_page))
    later-same own stays same =
        let rest : List ℕ =
          indexes_of L s node old k (i + 1) (ptr + pages_per_index * L.per_page) in
        let own' = Owned-append_right s T₀ rest own in
        let out = not-mem-of_right s T₀ rest own in
        (
          indexes_of-cong L s₁ node node₁ old k (i + 1) _ (λ x a b. same x (omega arith))
              ∙ indexes_of-same L s s₁ node old k (i + 1) _ (λ m h.
                (let (small, used) = Owned-mem s rest m own' h in
                  (stays.slots m small used (out m h)).0)),
          Owned-Stays T₀ rest s s₁ out stays own',
        )

  set_indexes-release :
      (k i ptr : ℕ) (node : Bytes) (s : Sys)
      → new ≤ ptr
      → Owned s (indexes_of L s node old k i ptr)
      → let (node', t) = set_indexes L buf new old k i ptr (node, s) in
        (node' ≡ node) × Stays (indexes_of L s node old k i ptr) s t
  set_indexes-release zero i ptr node s ge own =
      rw (set_indexes-zero i ptr (node, s)) (refl, Stays-refl [] s)
  set_indexes-release (suc k) i ptr node s ge own = elim (dec_lt ptr old) [
    | no behind ↦
        rw (set_indexes-idle (suc k) i ptr (node, s) ge (omega arith)) (refl, Stays-refl _ s)
    | yes before ↦
        (let slots : List ℕ =
            slots_of L s pages_per_index (get_u16 node (indexes_at + 2 * i)) old ptr in
          let rest : List ℕ =
            indexes_of L s node old k (i + 1) (ptr + pages_per_index * L.per_page) in
          let all : indexes_of L s node old (suc k) i ptr ≡ slots ++ rest =
            rw (ltb-true ptr old before) in
          let one : Edit = set_index L buf new old i ptr (node, s) in
          let (same, stays, err) = set_index-release L buf new old i ptr node s ge before in
          let (eq, own₁) =
            later-same k i ptr node one.0 s one.1 slots (subst (Owned s) all own) stays
              (λ x o. ap (λ (b : Bytes). b x) same) in
          let (same', stays') =
            set_indexes-release k (i + 1) (ptr + pages_per_index * L.per_page) one.0 one.1
              (omega arith) (subst (Owned one.1) (sym eq) own₁) in
          let t₂ : Sys =
            (set_indexes L buf new old k (i + 1) (ptr + pages_per_index * L.per_page) one).1 in
          let stays'' : Stays rest one.1 t₂ = subst (λ (T : List ℕ). Stays T one.1 t₂) eq stays' in
          rw (set_indexes-step k i ptr (node, s) (rw (leb-false old ptr before) (ground arith))) (
            same' ∙ same,
            subst (λ (T : List ℕ). Stays T s t₂) (sym all)
                (Stays-trans (slots ++ rest) slots rest s one.1 t₂
                  (λ m o. (not-mem-append_left m slots rest o, not-mem-append_right m slots rest o))
                  stays stays''),
          ))
  ]

  pub set_indexes-IndexesFilled :
      (k i ptr : ℕ) (node : Bytes) (s : Sys)
      → Owned s (indexes_of L s node old k i ptr)
      → (set_indexes L buf new old k i ptr (node, s)).1.errno ≡ pos 0
      → let (node', t) = set_indexes L buf new old k i ptr (node, s) in
        IndexesFilled L buf new k i ptr (indexes_of L s node old k i ptr) node s node' t
  set_indexes-IndexesFilled zero i ptr node s own e =
      rw (set_indexes-zero i ptr (node, s)) (IndexesFilled-none L buf new i ptr node s)
  set_indexes-IndexesFilled (suc k) i ptr node s own e = elim (dec_lt ptr new) [
    | no ge ↦
        (let (same, stays) = set_indexes-release (suc k) i ptr node s (omega arith) own in
          rw same (IndexesFilled-nil L buf new (suc k) i ptr _ node s _ (omega arith) stays))
    | yes lt ↦
        (let step = set_indexes-step k i ptr (node, s) (rw (leb-false new ptr lt)) in
          let one : Edit = set_index L buf new old i ptr (node, s) in
          let after : ℕ = ptr + pages_per_index * L.per_page in
          let e₁ : (set_indexes L buf new old k (i + 1) after one).1.errno ≡ pos 0 =
            ap (λ (x : Edit). x.1.errno) (sym step) ∙ e in
          let e₀ : one.1.errno ≡ pos 0 = set_indexes-errno k (i + 1) after one e₁ in
          rw step (elim (dec_lt ptr old) [
            | yes before ↦
                (let slots : List ℕ =
                    slots_of L s pages_per_index (get_u16 node (indexes_at + 2 * i)) old ptr in
                  let rest : List ℕ = indexes_of L s node old k (i + 1) after in
                  let all : indexes_of L s node old (suc k) i ptr ≡ slots ++ rest =
                    rw (ltb-true ptr old before) in
                  let own' : Owned s (slots ++ rest) = subst (Owned s) all own in
                  let (filled, same) =
                    extended-Result L buf new old i ptr node s lt before
                      (Owned-append_left s slots rest own') e₀ in
                  let q₁ : ℕ = get_u16 one.0 (indexes_at + 2 * i) in
                  let filled' : IndexFilled L buf pages_per_index new ptr slots s q₁ one.1 =
                    subst (λ (T : List ℕ). IndexFilled L buf pages_per_index new ptr T s q₁ one.1)
                      (rw (ltb-true ptr old before)) filled in
                  let (eq, own₁) =
                    later-same k i ptr node one.0 s one.1 slots own' filled'.stays same in
                  let IH =
                    set_indexes-IndexesFilled k (i + 1) after one.0 one.1
                      (subst (Owned one.1) (sym eq) own₁) e₁ in
                  let end : Edit = set_indexes L buf new old k (i + 1) after one in
                  let IH' : IndexesFilled L buf new k (i + 1) after rest one.0 one.1 end.0 end.1 =
                    subst
                      (λ (T : List ℕ).
                        IndexesFilled L buf new k (i + 1) after T one.0 one.1 end.0 end.1)
                      eq IH in
                  let apart : ((m : ℕ)
                      → has m (slots_of L one.1 pages_per_index q₁ new ptr) ≡ true
                      → m ∉ rest) =
                    λ m h. elim (Bool-cases (has m rest)) [
                      | inr miss ↦ miss
                      | inl hit ↦
                          (let (small, used) =
                              Owned-mem s rest m (Owned-append_right s slots rest own') hit in
                            let away =
                              filled'.avoids m small used
                                (not-mem-of_right s slots rest own' m hit) in
                            absurd (false≢true (sym away ∙ h)))
                    ] in
                  subst (λ (T : List ℕ). IndexesFilled L buf new (suc k) i ptr T node s end.0 end.1)
                    (sym all)
                    (IndexesFilled-cons L buf new k i ptr (slots ++ rest) slots rest node one.0
                      end.0 s one.1 end.1 lt
                      (λ m o.
                        (not-mem-append_left m slots rest o, not-mem-append_right m slots rest o))
                      apart filled' same IH'))
            | no behind ↦
                (let (filled, same) =
                    created-Result L buf new old i ptr node s lt (omega arith) e₀ in
                  let q₁ : ℕ = get_u16 one.0 (indexes_at + 2 * i) in
                  let filled' : IndexFilled L buf pages_per_index new ptr [] s q₁ one.1 =
                    subst (λ (T : List ℕ). IndexFilled L buf pages_per_index new ptr T s q₁ one.1)
                      (rw (ltb-false ptr old (omega arith))) filled in
                  let end : Edit = set_indexes L buf new old k (i + 1) after one in
                  let none₁ = indexes_of-nil L one.1 one.0 old k (i + 1) after (omega arith) in
                  let IH =
                    set_indexes-IndexesFilled k (i + 1) after one.0 one.1
                      (subst (Owned one.1) (sym none₁) tt) e₁ in
                  let IH' : IndexesFilled L buf new k (i + 1) after [] one.0 one.1 end.0 end.1 =
                    subst
                      (λ (T : List ℕ).
                        IndexesFilled L buf new k (i + 1) after T one.0 one.1 end.0 end.1)
                      none₁ IH in
                  subst (λ (T : List ℕ). IndexesFilled L buf new (suc k) i ptr T node s end.0 end.1)
                    (sym (indexes_of-nil L s node old (suc k) i ptr (omega arith)))
                    (IndexesFilled-cons L buf new k i ptr [] [] [] node one.0 end.0 s one.1 end.1 lt
                      (λ m o. (refl, refl)) (λ m h. refl) filled' same IH'))
          ]))
  ]
