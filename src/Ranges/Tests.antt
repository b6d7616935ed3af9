-- ===== src/Ranges/Tests.antt =====
-- The ranges of a file download at concrete headers.
use kdsoap.Prelude.{
  Text, List, [], ◌∷◌, arith, ◌⊎◌, inl, inr, All, Any, ◌≡◌, ◌≢◌, ◌↔◌, refl, ◌≤◌, ◌<◌, pos, length,
  codes, split, trimmed, starts_with, eq_text, to_int32,
}
use kdsoap.Headers.{Headers, find}
use kdsoap.Examples.{qt}
use kdsoap.Ranges.{
  Range, invalid_range, full_file, valid_ranges, ranges_of_specs, determine_file_ranges, parse_spec,
}
use kdsoap.Ranges.Coalescing.{Separated, Contains}
use kdsoap.Ranges.Specs.{InFile, satisfiable, IsMalformed}
use kdsoap.Ranges.Outcome.{
  Near, ranges_of_specs-covers, ranges_of_specs-Near, ranges_of_specs-eq-invalid_iff,
  ranges_of_specs-full, determine_file_ranges-InFile,
}

-- The first ten bytes, all from the 200th on, and the last five of 1000.
abbrev three_specs : List Text
three_specs = codes "0-9" ∷ codes "200-" ∷ codes "-5" ∷ []

abbrev three_ranges : List Range
three_ranges = (0, 9) ∷ (200, 999) ∷ []

ranges_of_three : ranges_of_specs qt (pos 1000) three_specs ≡ valid_ranges three_ranges
unfolding ranges_of_specs parse_spec split trimmed to_int32
ranges_of_three = refl

ranges_of_specs-covers_example : Any (Contains (995, 999)) three_ranges
unfolding satisfiable parse_spec split trimmed
ranges_of_specs-covers_example =
    ranges_of_specs-covers qt (pos 1000) three_specs three_ranges ranges_of_three (995, 999)
      (inr (inr (inl refl)))

ranges_of_specs-Near_example : Near qt (pos 1000) three_specs 300
ranges_of_specs-Near_example =
    ranges_of_specs-Near qt (pos 1000) three_specs three_ranges ranges_of_three (200, 999)
      (inr (inl refl)) 300 (omega arith) (omega arith)

abbrev bad_specs : List Text
bad_specs = codes "0-9" ∷ codes "5" ∷ []

ranges_of_specs-eq-invalid_iff_example :
    (ranges_of_specs qt (pos 1000) bad_specs ≡ invalid_range) ↔ (
      Any (IsMalformed qt (pos 1000)) bad_specs
      ⊎ (satisfiable qt (pos 1000) bad_specs ≡ [])
      ⊎ (5 < length bad_specs))
ranges_of_specs-eq-invalid_iff_example = ranges_of_specs-eq-invalid_iff qt (pos 1000) bad_specs

-- The halves of the file are coalesced to the whole of it.
abbrev halves : List Text
halves = codes "500-999" ∷ codes "0-499" ∷ []

ranges_of_halves : ranges_of_specs qt (pos 1000) halves ≡ full_file
unfolding ranges_of_specs parse_spec split trimmed to_int32
ranges_of_halves = refl

ranges_of_specs-full_example : Near qt (pos 1000) halves 700
ranges_of_specs-full_example =
    ranges_of_specs-full qt (pos 1000) halves ranges_of_halves 700 (omega arith)

abbrev range_headers : Headers
range_headers = (codes "range", codes " bytes=0-9,200-,-5") ∷ []

determine_three : determine_file_ranges qt range_headers (pos 1000) ≡ valid_ranges three_ranges
unfolding determine_file_ranges parse_spec split trimmed find starts_with eq_text to_int32
determine_three = refl

determine_file_ranges-InFile_example :
    All (InFile (pos 1000)) three_ranges
    × Separated three_ranges
    × (three_ranges ≢ [])
    × (length three_ranges ≤ 5)
determine_file_ranges-InFile_example =
    determine_file_ranges-InFile qt (pos 1000) range_headers three_ranges (omega arith)
      determine_three
