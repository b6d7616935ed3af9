-- ===== src/Ranges/Specs.antt =====
-- What the specs of a Range header ask for, apart from the loop that reads them.
use kdsoap.Prelude.{
  ◌≤◌, Text, List, [], ◌∷◌, ◌++◌, append-nil, append_assoc, arith, ◌⊎◌, inl, inr, All, Any, ◌≡◌,
  refl, sym, ◌∙◌, ℤ, pos, ◌<ℤ◌, ◌≤ℤ◌, length, Bool-cases, ltb_ℤ, false, ◌&&◌, Bool, split, trimmed,
}
use kdsoap.Platform.{Qt}
use kdsoap.Ranges.{
  Range, Spec, malformed, skipped, requested, normalize, clip, read_bound, check_bounds,
  parse_parts, parse_spec, collect,
}

-- A non-empty range of bytes that the file has.
abbrev pub InFile : ℤ → Range → Type 0
InFile file_size r = (r.0 ≤ r.1) × (pos r.1 <ℤ file_size)

-- A kept range has the first byte that was asked for, and ends there or at the end of the file.
clip-InFile :
    (file_size start end : ℤ) (r : Range)
    → pos 0 ≤ℤ start
    → clip file_size (start, end) ≡ requested r
    → InFile file_size r
unfolding clip
clip-InFile file_size start end r h e = ground arith

normalize_nonneg :
    (file_size start end : ℤ)
    → (ltb_ℤ start (pos 0) && ltb_ℤ end (pos 0)) ≡ false
    → pos 0 ≤ℤ (normalize file_size start end).0
unfolding normalize
normalize_nonneg file_size start end h = ground arith

module _ (qt : Qt) (file_size : ℤ) where
  check_bounds-InFile :
      (s t : Text) (a b : ℤ × Bool) (r : Range)
      → check_bounds qt file_size s t a b ≡ requested r
      → InFile file_size r
  unfolding check_bounds
  check_bounds-InFile s t (start, ok_start) (end, ok_end) r e =
      elim (Bool-cases (ltb_ℤ start (pos 0) && ltb_ℤ end (pos 0))) [
        | inl bad ↦ ground arith
        | inr good ↦
            clip-InFile file_size (normalize file_size start end).0
              (normalize file_size start end).1 r (normalize_nonneg file_size start end good)
              (ground arith)
      ]

  parse_parts-InFile :
      (parts : List Text) (r : Range)
      → parse_parts qt file_size parts ≡ requested r
      → InFile file_size r
  unfolding parse_parts
  parse_parts-InFile (s ∷ t ∷ []) r e =
      check_bounds-InFile s t (read_bound qt s) (read_bound qt t) r e
  parse_parts-InFile [] r e = cc
  parse_parts-InFile _ r e = cc

  pub parse_spec-InFile :
      (spec : Text) (r : Range) → parse_spec qt file_size spec ≡ requested r → InFile file_size r
  unfolding parse_spec
  parse_spec-InFile spec r e = parse_parts-InFile (split (trimmed spec) b'-') r e

  Spec-cases : (s : Spec) → (s ≡ malformed) ⊎ (s ≡ skipped) ⊎ ((r : Range) × (s ≡ requested r))
  Spec-cases malformed = inl refl
  Spec-cases skipped = inr (inl refl)
  Spec-cases (requested r) = inr (inr (r, refl))

  -- The ranges that the specs ask for, the ones past the end of the file left out.
  unfoldable pub satisfiable : List Text → List Range
  satisfiable [] = []
  satisfiable (spec ∷ specs) = elim (parse_spec qt file_size spec) [
    | requested r ↦ r ∷ satisfiable specs
    | _ ↦ satisfiable specs
  ]

  abbrev pub IsMalformed : Text → Type 0
  IsMalformed spec = parse_spec qt file_size spec ≡ malformed

  -- One malformed spec and nothing is kept.
  pub collect_malformed :
      (specs : List Text) (acc : List Range)
      → Any IsMalformed specs
      → collect qt file_size specs acc ≡ []
  unfolding collect
  collect_malformed [] acc h = absurd h
  collect_malformed (spec ∷ specs) acc (inl e) = rw (e, collect)
  collect_malformed (spec ∷ specs) acc (inr h) = elim (Spec-cases (parse_spec qt file_size spec)) [
    | inl e ↦ rw (e, collect)
    | inr (inl e) ↦ rw (e, collect) (collect_malformed specs acc h)
    | inr (inr (r, e)) ↦ rw (e, collect) (collect_malformed specs (acc ++ r ∷ []) h)
  ]

  -- Otherwise all that can be satisfied is kept, in the order of the header.
  pub collect_well_formed :
      (specs : List Text) (acc : List Range)
      → All (λ spec. ¬ IsMalformed spec) specs
      → collect qt file_size specs acc ≡ acc ++ satisfiable specs
  unfolding collect satisfiable
  collect_well_formed [] acc h = sym (append-nil acc)
  collect_well_formed (spec ∷ specs) acc (k, h) = elim (Spec-cases (parse_spec qt file_size spec)) [
    | inl e ↦ absurd (k e)
    | inr (inl e) ↦ rw (e, collect, satisfiable) (collect_well_formed specs acc h)
    | inr (inr (r, e)) ↦
        rw (e, collect, satisfiable)
          (collect_well_formed specs (acc ++ r ∷ []) h ∙ append_assoc acc (r ∷ []) _)
  ]

  pub IsMalformed-cases :
      (specs : List Text) → Any IsMalformed specs ⊎ All (λ spec. ¬ IsMalformed spec) specs
  IsMalformed-cases [] = inr tt
  IsMalformed-cases (spec ∷ specs) = elim (Spec-cases (parse_spec qt file_size spec)) [
    | inl e ↦ inl (inl e)
    | inr k ↦ elim (IsMalformed-cases specs) [
      | inl h ↦ inl (inr h)
      | inr h ↦ inr ((λ e. ground arith), h)
    ]
  ]

  pub satisfiable-InFile : (specs : List Text) → All (InFile file_size) (satisfiable specs)
  unfolding satisfiable
  satisfiable-InFile [] = tt
  satisfiable-InFile (spec ∷ specs) = elim (Spec-cases (parse_spec qt file_size spec)) [
    | inl e ↦ rw (e, satisfiable) (satisfiable-InFile specs)
    | inr (inl e) ↦ rw (e, satisfiable) (satisfiable-InFile specs)
    | inr (inr (r, e)) ↦ rw (e, satisfiable) (parse_spec-InFile spec r e, satisfiable-InFile specs)
  ]

  pub satisfiable-length : (specs : List Text) → length (satisfiable specs) ≤ length specs
  unfolding satisfiable
  satisfiable-length [] = omega arith
  satisfiable-length (spec ∷ specs) = ground (arith, satisfiable-length specs)
