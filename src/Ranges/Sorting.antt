-- ===== src/Ranges/Sorting.antt =====
-- The order of the requested ranges: what sorting keeps.
use kdsoap.Prelude.{ℕ, ◌≤◌, List, [], ◌∷◌, arith, inl, inr, Bool-cases, All, Any, ◌≡◌, true, false}
use kdsoap.Ranges.{Range, pair_le, insert_range, sort}

-- First bytes do not fall along the list.
abbrev pub Ascending : List Range → Type 0
Ascending [] = Unit
Ascending (r ∷ rs) = All (λ s. r.0 ≤ s.0) rs × Ascending rs

le_of_pair_le : (r s : Range) → pair_le r s ≡ true → r.0 ≤ s.0
unfolding pair_le
le_of_pair_le (a, b) (c, d) h = ground arith

ge_of_pair_le : (r s : Range) → pair_le r s ≡ false → s.0 ≤ r.0
unfolding pair_le
ge_of_pair_le (a, b) (c, d) h = ground arith

All-le_trans : (m n : ℕ) (rs : List Range) → m ≤ n → All (λ s. n ≤ s.0) rs → All (λ s. m ≤ s.0) rs
All-le_trans m n [] h k = tt
All-le_trans m n (r ∷ rs) h (k, ks) = (omega arith, All-le_trans m n rs h ks)

module _ (P : Range → Type 0) where
  All-insert_range : (r : Range) (rs : List Range) → P r → All P rs → All P (insert_range r rs)
  unfolding insert_range
  All-insert_range r [] p h = (p, tt)
  All-insert_range r (s ∷ rs) p (q, h) = elim (Bool-cases (pair_le r s)) [
    | inl e ↦ rw e (p, (q, h))
    | inr e ↦ rw e (q, All-insert_range r rs p h)
  ]

  pub All-sort : (rs : List Range) → All P rs → All P (sort rs)
  unfolding sort
  All-sort [] h = tt
  All-sort (r ∷ rs) (p, h) = All-insert_range r (sort rs) p (All-sort rs h)

  Any-insert_range : (r : Range) (rs : List Range) → Any P (r ∷ rs) → Any P (insert_range r rs)
  unfolding insert_range
  Any-insert_range r [] h = h
  Any-insert_range r (s ∷ rs) h = elim (Bool-cases (pair_le r s)) [
    | inl e ↦ rw e h
    | inr e ↦ rw e (elim h [
      | inl p ↦ inr (Any-insert_range r rs (inl p))
      | inr (inl q) ↦ inl q
      | inr (inr k) ↦ inr (Any-insert_range r rs (inr k))
    ])
  ]

  pub Any-sort : (rs : List Range) → Any P rs → Any P (sort rs)
  unfolding sort
  Any-sort [] h = h
  Any-sort (r ∷ rs) (inl p) = Any-insert_range r (sort rs) (inl p)
  Any-sort (r ∷ rs) (inr h) = Any-insert_range r (sort rs) (inr (Any-sort rs h))

insert_range-Ascending :
    (r : Range) (rs : List Range) → Ascending rs → Ascending (insert_range r rs)
unfolding insert_range
insert_range-Ascending r [] h = (tt, tt)
insert_range-Ascending r (s ∷ rs) (k, h) = elim (Bool-cases (pair_le r s)) [
  | inl e ↦ rw e ((le_of_pair_le r s e, All-le_trans r.0 s.0 rs (le_of_pair_le r s e) k), (k, h))
  | inr e ↦ rw e (
    All-insert_range (λ t. s.0 ≤ t.0) r rs (ge_of_pair_le r s e) k,
    insert_range-Ascending r rs h,
  )
]

pub sort-Ascending : (rs : List Range) → Ascending (sort rs)
unfolding sort
sort-Ascending [] = tt
sort-Ascending (r ∷ rs) = insert_range-Ascending r (sort rs) (sort-Ascending rs)
