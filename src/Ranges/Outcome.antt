-- ===== src/Ranges/Outcome.antt =====
-- What determineFileRanges answers, against the list of the satisfiable ranges of the header.
use Prim.Native.Nat.{zero-le}
use native.Mathlib.Decide.{dec_le}
use kdsoap.Prelude.{
  ℕ, ◌+◌, ◌≤◌, ◌<◌, max, Text, List, [], ◌∷◌, arith, ◌⊎◌, inl, inr, All, All-imp, All-lookup, Any,
  Any-imp, ◌≡◌, ◌≢◌, ◌↔◌, refl, sym, ◌∙◌, ap, subst, ℤ, pos, ◌<ℤ◌, ◌-ℤ◌, length, Option-cases,
  codes, split, drop, trimmed,
}
use kdsoap.Headers.{Headers, find}
use kdsoap.Platform.{Qt}
use kdsoap.Ranges.{
  Range, invalid_range, full_file, valid_ranges, collect, ranges_of_specs, sort_and_coalesce,
  decide_ranges, is_whole_file, determine_file_ranges, ranges_of_header, multi_part_overhead,
}
use kdsoap.Ranges.Coalescing.{
  Separated, Contains, sort_and_coalesce-Separated, sort_and_coalesce-Contains,
  sort_and_coalesce-All, sort_and_coalesce-length, sort_and_coalesce-eq-nil,
}
use kdsoap.Ranges.Specs.{
  InFile, satisfiable, IsMalformed, collect_malformed, collect_well_formed, IsMalformed-cases,
  satisfiable-InFile, satisfiable-length,
}
use kdsoap.Ranges.Deciding.{
  InFile-merge, IsSmall, EndsFit-InFile, decide-eq-valid, decide-eq-invalid, sort_and_coalesce_nil,
  one_ne_nil, le_last,
}

module _ (qt : Qt) (file_size : ℤ) where
  -- What the loop over the specs collects.
  collected :
      (specs : List Text)
      → collect qt file_size specs [] ≢ []
      → (collect qt file_size specs [] ≡ satisfiable qt file_size specs)
        × All (λ spec. ¬ IsMalformed qt file_size spec) specs
  collected specs h = elim (IsMalformed-cases qt file_size specs) [
    | inl bad ↦ absurd (h (collect_malformed qt file_size specs [] bad))
    | inr good ↦ (collect_well_formed qt file_size specs [] good, good)
  ]

  -- When the answer is a list of ranges, it is what coalescing makes of the satisfiable ranges.
  valid-eq :
      (specs : List Text) (out : List Range)
      → ranges_of_specs qt file_size specs ≡ valid_ranges out
      → (out ≡ sort_and_coalesce (satisfiable qt file_size specs)) × (length specs ≤ 5) × (out ≢ [])
  unfolding ranges_of_specs
  valid-eq specs out e =
      let (same, some_left, few, _) = decide-eq-valid file_size (length specs) _ out e in
      (
        sym same
            ∙ ap sort_and_coalesce
                (collected specs
                  (λ n. some_left (ap sort_and_coalesce n ∙ sort_and_coalesce_nil))).0,
        few,
        (λ n. some_left (same ∙ n)),
      )

  -- The ranges sent lie in the file, ascend with more than the overhead of a part between them where
  -- the file is small enough, and are between one and five.
  ranges_of_specs-parts :
      (specs : List Text) (out : List Range)
      → ranges_of_specs qt file_size specs ≡ valid_ranges out
      → All (InFile file_size) out
        × (IsSmall file_size → Separated out)
        × (out ≢ [])
        × (length out ≤ 5)
  ranges_of_specs-parts specs out e =
      let (same, few, some_left) = valid-eq specs out e in
      let rs = satisfiable qt file_size specs in
      (
        subst (All (InFile file_size)) (sym same) (
            sort_and_coalesce-All (InFile file_size) (InFile-merge file_size) rs
              (satisfiable-InFile qt file_size specs)),
        λ small. subst Separated (sym same) (
            sort_and_coalesce-Separated rs (
              All-imp (InFile file_size) _ (EndsFit-InFile file_size small) rs
                (satisfiable-InFile qt file_size specs))),
        some_left,
        omega (
          arith,
          ap length same,
          sort_and_coalesce-length rs,
          satisfiable-length qt file_size specs,
        ),
      )

  -- When specs are answered with ranges, each satisfiable range that was asked for lies within one
  -- range of the answer.
  pub ranges_of_specs-covers :
      (specs : List Text) (out : List Range)
      → ranges_of_specs qt file_size specs ≡ valid_ranges out
      → (q : Range) → Any (λ r. r ≡ q) (satisfiable qt file_size specs)
      → Any (Contains q) out
  ranges_of_specs-covers specs out e q h =
      let (same, _, _) = valid-eq specs out e in
      subst (Any (Contains q)) (sym same) (
        sort_and_coalesce-Contains q (satisfiable qt file_size specs)
          (Any-imp (λ r. r ≡ q) (Contains q) (λ r p. rw p (omega arith)) _ h))

  abbrev pub Requested : List Text → ℕ → Type 0
  Requested specs x = Any (λ q. (q.0 ≤ x) × (x ≤ q.1)) (satisfiable qt file_size specs)

  -- Asked for, or behind a requested byte by no more than the overhead of a part.
  abbrev pub Near : List Text → ℕ → Type 0
  Near specs x =
      Any (λ q. (q.0 ≤ x) × (x ≤ q.1 + multi_part_overhead)) (satisfiable qt file_size specs)

  abbrev Justified : List Text → Range → Type 0
  Justified specs r = Requested specs r.1 × ((x : ℕ) → r.0 ≤ x → x ≤ r.1 → Near specs x)

  Near-Requested :
      (specs : List Text) (x y : ℕ)
      → Requested specs x
      → x ≤ y
      → y ≤ x + multi_part_overhead
      → Near specs y
  Near-Requested specs x y h k l =
      Any-imp (λ q. (q.0 ≤ x) × (x ≤ q.1)) (λ q. (q.0 ≤ y) × (y ≤ q.1 + multi_part_overhead))
        (λ q p. omega arith) _ h

  Justified-merge :
      (specs : List Text) (c r : Range)
      → Justified specs c
      → Justified specs r
      → c.0 ≤ r.0
      → r.0 ≤ c.1 + 1 + multi_part_overhead
      → Justified specs (c.0, max c.1 r.1)
  Justified-merge specs (f, s) (g, t) (h, k) (l, m) a b = (last, near)
    where
      last : Requested specs (max s t)
      last = elim (dec_le s t) [
        | yes p ↦ let e : max s t ≡ t = omega arith in rw e l
        | no p ↦ let e : max s t ≡ s = omega arith in rw e h
      ]

      near : (x : ℕ) → f ≤ x → x ≤ max s t → Near specs x
      near x p q = elim (dec_le x s) [
        | yes u ↦ k x p u
        | no u ↦ elim (dec_le g x) [
          | yes v ↦ m x v (omega arith)
          | no v ↦ Near-Requested specs s x h (omega arith) (omega arith)
        ]
      ]

  All-Justified :
      (specs : List Text) (rs : List Range)
      → ((q : Range) → Any (λ r. r ≡ q) rs → Any (λ r. r ≡ q) (satisfiable qt file_size specs))
      → All (InFile file_size) rs
      → All (Justified specs) rs
  All-Justified specs [] f h = tt
  All-Justified specs (q ∷ rs) f (p, h) = (
    (
      Any-imp (λ r. r ≡ q) (λ r. (r.0 ≤ q.1) × (q.1 ≤ r.1)) (λ r e. rw e (omega arith)) _
          (f q (inl refl)),
      λ x a b.
          Any-imp (λ r. r ≡ q) (λ r. (r.0 ≤ x) × (x ≤ r.1 + multi_part_overhead))
            (λ r e. rw e (omega arith)) _ (f q (inl refl)),
    ),
    All-Justified specs rs (λ r m. f r (inr m)) h,
  )

  -- When specs are answered with ranges, each byte of a range of the answer was asked for, or
  -- follows a byte that was asked for by no more than the overhead of a part.
  pub ranges_of_specs-Near :
      (specs : List Text) (out : List Range)
      → ranges_of_specs qt file_size specs ≡ valid_ranges out
      → (r : Range) → Any (λ q. q ≡ r) out
      → (x : ℕ) → r.0 ≤ x
      → x ≤ r.1
      → Near specs x
  ranges_of_specs-Near specs out e r m =
      let (same, _, _) = valid-eq specs out e in
      let rs = satisfiable qt file_size specs in
      let all_justified = subst (All (Justified specs)) (sym same) (
        sort_and_coalesce-All (Justified specs) (Justified-merge specs) rs
          (All-Justified specs rs (λ q k. k) (satisfiable-InFile qt file_size specs))) in
      (All-lookup (Justified specs) out r all_justified m).1

  -- Specs are answered 416 exactly when one of them is malformed, nothing that they ask for is in
  -- the file, or there are more than five of them.
  pub ranges_of_specs-eq-invalid_iff :
      (specs : List Text)
      → (ranges_of_specs qt file_size specs ≡ invalid_range) ↔ (
          Any (IsMalformed qt file_size) specs
          ⊎ (satisfiable qt file_size specs ≡ [])
          ⊎ (5 < length specs))
  unfolding ranges_of_specs
  ranges_of_specs-eq-invalid_iff specs = (to, from)
    where
      rs : List Range
      rs = collect qt file_size specs []

      invalid : (rs ≡ []) ⊎ (5 < length specs) → ranges_of_specs qt file_size specs ≡ invalid_range
      invalid (inl e) =
          (decide-eq-invalid file_size (length specs) (sort_and_coalesce rs)).1
            (inl (ap sort_and_coalesce e ∙ sort_and_coalesce_nil))
      invalid (inr h) =
          (decide-eq-invalid file_size (length specs) (sort_and_coalesce rs)).1 (inr h)

      to :
          ranges_of_specs qt file_size specs ≡ invalid_range
          → Any (IsMalformed qt file_size) specs
            ⊎ (satisfiable qt file_size specs ≡ [])
            ⊎ (5 < length specs)
      to e = elim (IsMalformed-cases qt file_size specs) [
        | inl bad ↦ inl bad
        | inr good ↦
            elim ((decide-eq-invalid file_size (length specs) (sort_and_coalesce rs)).0 e) [
              | inl n ↦ inr (
                  inl (
                    sym (collect_well_formed qt file_size specs [] good)
                    ∙ sort_and_coalesce-eq-nil rs n))
              | inr h ↦ inr (inr h)
            ]
      ]

      from :
          Any (IsMalformed qt file_size) specs
            ⊎ (satisfiable qt file_size specs ≡ [])
            ⊎ (5 < length specs)
          → ranges_of_specs qt file_size specs ≡ invalid_range
      from (inl bad) = invalid (inl (collect_malformed qt file_size specs [] bad))
      from (inr (inl none_left)) = elim (IsMalformed-cases qt file_size specs) [
        | inl bad ↦ invalid (inl (collect_malformed qt file_size specs [] bad))
        | inr good ↦ invalid (inl (collect_well_formed qt file_size specs [] good ∙ none_left))
      ]
      from (inr (inr h)) = invalid (inr h)

  decide-eq-full :
      (n : ℕ) (rs : List Range)
      → decide_ranges file_size n rs ≡ full_file
      → (last : ℕ) × (rs ≡ (0, last) ∷ []) × (pos last ≡ file_size -ℤ pos 1)
  unfolding decide_ranges is_whole_file
  decide-eq-full n [] e = cc
  decide-eq-full n ((a, b) ∷ []) e = (b, ground arith, ground arith)
  decide-eq-full n (r ∷ s ∷ rs) e = ground arith

  -- When specs are answered with the whole file, each byte of the file was asked for, or follows a
  -- byte that was asked for by no more than the overhead of a part.
  pub ranges_of_specs-full :
      (specs : List Text)
      → ranges_of_specs qt file_size specs ≡ full_file
      → (x : ℕ) → pos x <ℤ file_size
      → Near specs x
  unfolding ranges_of_specs
  ranges_of_specs-full specs e x h =
      let rs = satisfiable qt file_size specs in
      let (last, one, whole) = decide-eq-full (length specs) _ e in
      let (same, _) = collected specs (λ n. one_ne_nil last (sym one ∙ ap sort_and_coalesce n)) in
      let justified = subst (All (Justified specs)) (ap sort_and_coalesce (sym same) ∙ one) (
        sort_and_coalesce-All (Justified specs) (Justified-merge specs) rs
          (All-Justified specs rs (λ q m. m) (satisfiable-InFile qt file_size specs))) in
      justified.0.1 x zero-le (le_last file_size x last h whole)

  -- A list of ranges comes from the specs of a Range header.
  determine-eq-valid :
      (headers : Headers) (out : List Range)
      → determine_file_ranges qt headers file_size ≡ valid_ranges out
      → (specs : List Text) × (ranges_of_specs qt file_size specs ≡ valid_ranges out)
  unfolding determine_file_ranges ranges_of_header
  determine-eq-valid headers out e = elim (Option-cases (find (codes "range") headers)) [
    | inl n ↦ ground arith
    | inr (h, n) ↦ (split (drop 6 (trimmed h)) b',', ground arith)
  ]

  pub determine-parts :
      (headers : Headers) (out : List Range)
      → determine_file_ranges qt headers file_size ≡ valid_ranges out
      → All (InFile file_size) out
        × (IsSmall file_size → Separated out)
        × (out ≢ [])
        × (length out ≤ 5)
  determine-parts headers out e =
      let (specs, p) = determine-eq-valid headers out e in ranges_of_specs-parts specs out p

  -- When a Range header is answered with ranges and the file holds less than 2^31 - 86 bytes, each
  -- range lies in the file and is not empty, they ascend with more than the overhead of a part
  -- between them, and they are between one and five.
  pub determine_file_ranges-InFile :
      (headers : Headers) (out : List Range)
      → IsSmall file_size
      → determine_file_ranges qt headers file_size ≡ valid_ranges out
      → All (InFile file_size) out × Separated out × (out ≢ []) × (length out ≤ 5)
  determine_file_ranges-InFile headers out small e =
      let (inside, apart, some_left, few) = determine-parts headers out e in
      (inside, apart small, some_left, few)
