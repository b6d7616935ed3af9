-- ===== src/Ranges/Deciding.antt =====
-- The last part of determineFileRanges, which decides about the answer, and the size of a file for
-- which the sums of coalescing fit.
use kdsoap.Prelude.{
  ℕ, ◌+◌, ◌-◌, ◌^◌, ◌≤◌, ◌<◌, max, List, [], ◌∷◌, arith, ◌⊎◌, ◌≡◌, ◌≢◌, ◌↔◌, refl, ℤ, pos, ◌<ℤ◌,
  ◌≤ℤ◌, ◌-ℤ◌, false,
}
use kdsoap.Ranges.{
  Range, invalid_range, valid_ranges, sort_and_coalesce, decide_ranges, is_whole_file,
  multi_part_overhead,
}
use kdsoap.Ranges.Specs.{InFile}

pub InFile-merge :
    (file_size : ℤ) (c r : Range)
    → InFile file_size c
    → InFile file_size r
    → c.0 ≤ r.0
    → r.0 ≤ c.1 + 1 + multi_part_overhead
    → InFile file_size (c.0, max c.1 r.1)
InFile-merge file_size c r p q h k = omega arith

-- The ends of the ranges of the file leave room for the overhead of a part in 32 bits.
abbrev pub IsSmall : ℤ → Type 0
IsSmall file_size = file_size ≤ℤ pos (2 ^ 31 - 1 - multi_part_overhead)

pub EndsFit-InFile :
    (file_size : ℤ)
    → IsSmall file_size
    → (r : Range) → InFile file_size r
    → r.1 + 1 + multi_part_overhead < 2 ^ 31
EndsFit-InFile file_size small r h = omega arith

pub decide-eq-valid :
    (file_size : ℤ) (n : ℕ) (rs out : List Range)
    → decide_ranges file_size n rs ≡ valid_ranges out
    → (rs ≡ out) × (rs ≢ []) × (n ≤ 5) × (is_whole_file file_size rs ≡ false)
unfolding decide_ranges
decide-eq-valid file_size n [] out e = cc
decide-eq-valid file_size n (r ∷ rs) out e = (ground arith, (λ h. cc), ground arith, ground arith)

pub decide-eq-invalid :
    (file_size : ℤ) (n : ℕ) (rs : List Range)
    → (decide_ranges file_size n rs ≡ invalid_range) ↔ ((rs ≡ []) ⊎ (5 < n))
unfolding decide_ranges
decide-eq-invalid file_size n [] = ground arith
decide-eq-invalid file_size n (r ∷ rs) = ground arith

pub sort_and_coalesce_nil : sort_and_coalesce [] ≡ []
unfolding sort_and_coalesce
sort_and_coalesce_nil = refl

pub one_ne_nil : (n : ℕ) → (0, n) ∷ [] ≡ sort_and_coalesce [] → ⊥
unfolding sort_and_coalesce
one_ne_nil n e = cc

pub le_last :
    (file_size : ℤ) (x last : ℕ) → pos x <ℤ file_size → pos last ≡ file_size -ℤ pos 1 → x ≤ last
le_last file_size x last h e = ground arith
