-- ===== src/Ranges/Coalescing.antt =====
-- What coalescing keeps of the ranges, and what it establishes.
use kdsoap.Prelude.{
  ℕ, ◌+◌, ◌≤◌, ◌<◌, max, List, [], ◌∷◌, arith, inl, inr, Bool-cases, All, Any, ◌≡◌, false, refl,
  true, ◌^◌, pos, leb_ℤ, to_int32, to_int32-eq, to_int32-le, lt→ltb, length, suc, subst,
}
use kdsoap.Ranges.{
  Range, coalesce_from, coalesce, sort, sort_and_coalesce, insert_range, multi_part_overhead,
}
use kdsoap.Ranges.Sorting.{Ascending, All-sort, Any-sort, sort-Ascending}

-- More than the overhead of a part lies between neighbours.
abbrev pub Separated : List Range → Type 0
Separated [] = Unit
Separated (r ∷ []) = Unit
Separated (r ∷ s ∷ rs) = (r.1 + 1 + multi_part_overhead < s.0) × Separated (s ∷ rs)

abbrev StartsAt : ℕ → List Range → Type 0
StartsAt n [] = ⊥
StartsAt n (r ∷ rs) = r.0 ≡ n

abbrev pub Contains : Range → Range → Type 0
Contains q r = (r.0 ≤ q.0) × (q.1 ≤ r.1)

-- The sum is at least what it comes to in 32 bits, and is that where it fits.
le_of_reached : (a b : ℕ) → leb_ℤ (pos a) (to_int32 b) ≡ true → a ≤ b
le_of_reached a b h = ground (arith, to_int32-le b)

lt_of_not_reached : (a b : ℕ) → b < 2 ^ 31 → leb_ℤ (pos a) (to_int32 b) ≡ false → b < a
lt_of_not_reached a b small h = ground (arith, to_int32-eq b small)

coalesce_from-StartsAt : (c : Range) (rs : List Range) → StartsAt c.0 (coalesce_from c rs)
unfolding coalesce_from
coalesce_from-StartsAt c [] = refl
coalesce_from-StartsAt (f, s) ((g, t) ∷ rs) =
    elim (Bool-cases (leb_ℤ (pos g) (to_int32 (s + 1 + multi_part_overhead)))) [
      | inl e ↦ rw e (coalesce_from-StartsAt (f, max s t) rs)
      | inr e ↦ rw e refl
    ]

Separated-cons :
    (c : Range) (n : ℕ) (rs : List Range)
    → c.1 + 1 + multi_part_overhead < n
    → StartsAt n rs
    → Separated rs
    → Separated (c ∷ rs)
Separated-cons c n [] h k l = tt
Separated-cons c n (r ∷ rs) h k l = (omega arith, l)

-- The sum that is compared fits in 32 bits.
abbrev pub EndsFit : List Range → Type 0
EndsFit rs = All (λ r. r.1 + 1 + multi_part_overhead < 2 ^ 31) rs

coalesce_from-Separated :
    (c : Range) (rs : List Range) → EndsFit (c ∷ rs) → Separated (coalesce_from c rs)
unfolding coalesce_from
coalesce_from-Separated c [] fit = tt
coalesce_from-Separated (f, s) ((g, t) ∷ rs) (p, (q, fit)) =
    elim (Bool-cases (leb_ℤ (pos g) (to_int32 (s + 1 + multi_part_overhead)))) [
      | inl e ↦ rw e (coalesce_from-Separated (f, max s t) rs (omega arith, fit))
      | inr e ↦ rw e (
          Separated-cons (f, s) g (coalesce_from (g, t) rs)
            (lt_of_not_reached g (s + 1 + multi_part_overhead) p e)
            (coalesce_from-StartsAt (g, t) rs) (coalesce_from-Separated (g, t) rs (q, fit)))
    ]

-- A property that merging two neighbours keeps holds of every coalesced range.
module _ (P : Range → Type 0)
    (merge : (c r : Range)
      → P c
      → P r
      → c.0 ≤ r.0
      → r.0 ≤ c.1 + 1 + multi_part_overhead
      → P (c.0, max c.1 r.1)) where
  coalesce_from-All :
      (c : Range) (rs : List Range)
      → P c
      → All P rs
      → Ascending (c ∷ rs)
      → All P (coalesce_from c rs)
  unfolding coalesce_from
  coalesce_from-All c [] p h a = (p, tt)
  coalesce_from-All (f, s) ((g, t) ∷ rs) p (q, h) ((k, ks), (l, a)) =
      elim (Bool-cases (leb_ℤ (pos g) (to_int32 (s + 1 + multi_part_overhead)))) [
        | inl e ↦ rw e (
            coalesce_from-All (f, max s t) rs
              (merge (f, s) (g, t) p q k (le_of_reached g (s + 1 + multi_part_overhead) e)) h
              (ks, a))
        | inr e ↦ rw e (p, coalesce_from-All (g, t) rs q h (l, a))
      ]

coalesce_from-Contains :
    (q c : Range) (rs : List Range)
    → Any (Contains q) (c ∷ rs)
    → Ascending (c ∷ rs)
    → Any (Contains q) (coalesce_from c rs)
unfolding coalesce_from
coalesce_from-Contains q c [] h a = h
coalesce_from-Contains q (f, s) ((g, t) ∷ rs) h ((k, ks), (l, a)) =
    elim (Bool-cases (leb_ℤ (pos g) (to_int32 (s + 1 + multi_part_overhead)))) [
      | inl e ↦ rw e (coalesce_from-Contains q (f, max s t) rs (joined h) (ks, a))
      | inr e ↦
          rw e
            (elim h [ inl p ↦ inl p | inr r ↦ inr (coalesce_from-Contains q (g, t) rs r (l, a)) ])
    ]
  where
    joined : Any (Contains q) ((f, s) ∷ (g, t) ∷ rs) → Any (Contains q) ((f, max s t) ∷ rs)
    joined (inl p) = inl (omega arith)
    joined (inr (inl p)) = inl (omega arith)
    joined (inr (inr r)) = inr r

sort_and_coalesce_many :
    (r s : Range) (rs : List Range) → sort_and_coalesce (r ∷ s ∷ rs) ≡ coalesce (sort (r ∷ s ∷ rs))
unfolding sort_and_coalesce
sort_and_coalesce_many r s rs = rw (lt→ltb 1 (length (r ∷ s ∷ rs)) (omega arith))

coalesce-Separated : (rs : List Range) → EndsFit rs → Separated (coalesce rs)
unfolding coalesce
coalesce-Separated [] fit = tt
coalesce-Separated (r ∷ rs) fit = coalesce_from-Separated r rs fit

coalesce-Contains :
    (q : Range) (rs : List Range)
    → Any (Contains q) rs
    → Ascending rs
    → Any (Contains q) (coalesce rs)
unfolding coalesce
coalesce-Contains q [] h a = h
coalesce-Contains q (r ∷ rs) h a = coalesce_from-Contains q r rs h a

pub sort_and_coalesce-Separated : (rs : List Range) → EndsFit rs → Separated (sort_and_coalesce rs)
unfolding sort_and_coalesce
sort_and_coalesce-Separated [] fit = tt
sort_and_coalesce-Separated (r ∷ []) fit = tt
sort_and_coalesce-Separated (r ∷ s ∷ rs) fit = rw (sort_and_coalesce_many r s rs) (
    coalesce-Separated (sort (r ∷ s ∷ rs))
      (All-sort (λ q. q.1 + 1 + multi_part_overhead < 2 ^ 31) (r ∷ s ∷ rs) fit))

-- What was contained in a range is contained in one of the coalesced ranges.
pub sort_and_coalesce-Contains :
    (q : Range) (rs : List Range) → Any (Contains q) rs → Any (Contains q) (sort_and_coalesce rs)
unfolding sort_and_coalesce
sort_and_coalesce-Contains q [] h = h
sort_and_coalesce-Contains q (r ∷ []) h = h
sort_and_coalesce-Contains q (r ∷ s ∷ rs) h = rw (sort_and_coalesce_many r s rs) (
    coalesce-Contains q (sort (r ∷ s ∷ rs)) (Any-sort (Contains q) (r ∷ s ∷ rs) h)
      (sort-Ascending (r ∷ s ∷ rs)))

module _ (P : Range → Type 0)
    (merge : (c r : Range)
      → P c
      → P r
      → c.0 ≤ r.0
      → r.0 ≤ c.1 + 1 + multi_part_overhead
      → P (c.0, max c.1 r.1)) where
  coalesce-All : (rs : List Range) → All P rs → Ascending rs → All P (coalesce rs)
  unfolding coalesce
  coalesce-All [] h a = tt
  coalesce-All (r ∷ rs) (p, h) a = coalesce_from-All P merge r rs p h a

  pub sort_and_coalesce-All : (rs : List Range) → All P rs → All P (sort_and_coalesce rs)
  unfolding sort_and_coalesce
  sort_and_coalesce-All [] h = tt
  sort_and_coalesce-All (r ∷ []) h = h
  sort_and_coalesce-All (r ∷ s ∷ rs) h =
      rw (sort_and_coalesce_many r s rs)
        (coalesce-All (sort (r ∷ s ∷ rs)) (All-sort P (r ∷ s ∷ rs) h) (sort-Ascending (r ∷ s ∷ rs)))

coalesce_from-length : (c : Range) (rs : List Range) → length (coalesce_from c rs) ≤ suc (length rs)
unfolding coalesce_from
coalesce_from-length c [] = omega arith
coalesce_from-length (f, s) ((g, t) ∷ rs) =
    elim (Bool-cases (leb_ℤ (pos g) (to_int32 (s + 1 + multi_part_overhead)))) [
      | inl e ↦ rw e (omega (arith, coalesce_from-length (f, max s t) rs))
      | inr e ↦ rw e (omega (arith, coalesce_from-length (g, t) rs))
    ]

insert_range-length : (r : Range) (rs : List Range) → length (insert_range r rs) ≡ suc (length rs)
unfolding insert_range
insert_range-length r [] = refl
insert_range-length r (s ∷ rs) = ground (arith, insert_range-length r rs)

sort-length : (rs : List Range) → length (sort rs) ≡ length rs
unfolding sort
sort-length [] = refl
sort-length (r ∷ rs) = omega (arith, insert_range-length r (sort rs), sort-length rs)

coalesce-length : (rs : List Range) → length (coalesce rs) ≤ length rs
unfolding coalesce
coalesce-length [] = omega arith
coalesce-length (r ∷ rs) = coalesce_from-length r rs

pub sort_and_coalesce-length : (rs : List Range) → length (sort_and_coalesce rs) ≤ length rs
unfolding sort_and_coalesce
sort_and_coalesce-length [] = omega arith
sort_and_coalesce-length (r ∷ []) = omega arith
sort_and_coalesce-length (r ∷ s ∷ rs) =
    rw (sort_and_coalesce_many r s rs)
      (omega (arith, coalesce-length (sort (r ∷ s ∷ rs)), sort-length (r ∷ s ∷ rs)))

-- Nothing is lost altogether: a range gives a range.
pub sort_and_coalesce-eq-nil : (rs : List Range) → sort_and_coalesce rs ≡ [] → rs ≡ []
unfolding sort_and_coalesce
sort_and_coalesce-eq-nil [] e = refl
sort_and_coalesce-eq-nil (r ∷ rs) e =
    absurd (subst (Any (Contains r)) e (sort_and_coalesce-Contains r (r ∷ rs) (inl (omega arith))))
