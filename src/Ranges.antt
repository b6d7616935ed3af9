-- ===== src/Ranges.antt =====
-- The ranges of a file download: KDSoapServerSocket::determineFileRanges of
-- src/KDSoapServer/KDSoapServerSocket.cpp. The sum that decides about coalescing wraps to 32 bits. The
-- other sums are without bounds: they stay in 32 bits for a file size that is not negative, and for a
-- negative one no range starts below it, whatever they come to.
pub mod Sorting
pub mod Coalescing
pub mod Specs
pub mod Deciding
pub mod Outcome
mod Tests
use kdsoap.Prelude.{
  ℕ, suc, ◌+◌, max, Text, List, [], ◌∷◌, ◌++◌, Option, none, some, Bool, true, false, not, ◌&&◌,
  ◌||◌, ltb, leb, ◌==◌, if◌then◌else◌, ℤ, pos, negsuc, pos_part, ◌-ℤ◌, ltb_ℤ, leb_ℤ, eq_ℤ, to_int32,
  length, is_empty, all, drop, codes, starts_with, split, trimmed, is_digit,
}
use kdsoap.Headers.{Headers, find}
use kdsoap.Platform.{Qt}

-- QPair<int, int>, first and last byte.
abbrev pub Range : Type 0
Range = ℕ × ℕ

-- KDSoapServerSocket::FileRange
pub data FileRange : Type 0 where
  invalid_range full_file : FileRange
  valid_ranges : List Range → FileRange

-- What one byte-range-spec comes to: `break` with the ranges cleared, `continue`, or a range.
pub data Spec : Type 0 where
  malformed skipped : Spec
  requested : Range → Spec

abbrev pub multi_part_overhead : ℕ
multi_part_overhead = 86

-- std::isdigit(c) || c == '-' || c == ',' || c == ' ' || c == '\t'
pub range_char : ℕ → Bool
range_char c = is_digit c || c == b'-' || c == b',' || c == 32 || c == 9

-- qMax and qMin
abbrev max_ℤ : ℤ → ℤ → ℤ
max_ℤ a b = if ltb_ℤ a b then b else a

abbrev min_ℤ : ℤ → ℤ → ℤ
min_ℤ a b = if ltb_ℤ a b then a else b

-- The suffix and the open-ended form.
pub normalize : ℤ → ℤ → ℤ → ℤ × ℤ
normalize file_size start end =
    if ltb_ℤ start (pos 0) && leb_ℤ (pos 0) end
    then (max_ℤ (pos 0) (file_size -ℤ end), file_size -ℤ pos 1)
    else if leb_ℤ (pos 0) start && ltb_ℤ end (pos 0)
    then (start, file_size -ℤ pos 1)
    else (start, end)

-- The start of a range that gets here is at least 0 (`normalize_nonneg`), and so are both ends of
-- one that is kept: `pos_part` loses nothing.
pub clip : ℤ → ℤ × ℤ → Spec
clip file_size (start, end) =
    if ltb_ℤ end start || leb_ℤ file_size start
    then skipped
    else requested (pos_part start, pos_part (min_ℤ end (file_size -ℤ pos 1)))

-- std::pair's operator<, negated and swapped.
pub pair_le : Range → Range → Bool
pair_le (a, b) (c, d) = ltb a c || ((a == c) && leb b d)

insert_range : Range → List Range → List Range
insert_range r [] = r ∷ []
insert_range r (s ∷ rs) = if pair_le r s then r ∷ s ∷ rs else s ∷ insert_range r rs

-- std::sort; the order is total, so the sorted list does not depend on the algorithm.
pub sort : List Range → List Range
unfolding insert_range pair_le
sort [] = []
sort (r ∷ rs) = insert_range r (sort rs)

-- The loop over `i`, at `current` and the ranges behind it.
pub coalesce_from : Range → List Range → List Range
coalesce_from current [] = current ∷ []
coalesce_from (first, second) ((next_first, next_second) ∷ rest) =
    let joined = coalesce_from (first, max second next_second) rest in
    let apart = (first, second) ∷ coalesce_from (next_first, next_second) rest in
    if leb_ℤ (pos next_first) (to_int32 (second + 1 + multi_part_overhead)) then joined else apart

pub coalesce : List Range → List Range
unfolding coalesce_from
coalesce [] = []
coalesce (r ∷ rs) = coalesce_from r rs

pub sort_and_coalesce : List Range → List Range
unfolding sort coalesce
sort_and_coalesce rs = if ltb 1 (length rs) then coalesce (sort rs) else rs

-- One range that is the whole file.
pub is_whole_file : ℤ → List Range → Bool
is_whole_file file_size ((first, second) ∷ []) =
    (first == 0) && eq_ℤ (pos second) (file_size -ℤ pos 1)
is_whole_file file_size _ = false

pub decide_ranges : ℤ → ℕ → List Range → FileRange
unfolding is_whole_file
decide_ranges file_size spec_count rs =
    if is_empty rs || ltb 5 spec_count
    then invalid_range
    else if is_whole_file file_size rs
    then full_file
    else valid_ranges rs

module _ (qt : Qt) where
  open qt use {to_int}

  -- `start` or `end`, with its ok flag.
  read_bound : Text → ℤ × Bool
  read_bound [] = (negsuc 0, true)
  read_bound (c ∷ s) = elim (to_int (c ∷ s)) [ none ↦ (pos 0, false) | some v ↦ (v, true) ]

  check_bounds : ℤ → Text → Text → ℤ × Bool → ℤ × Bool → Spec
  unfolding normalize clip
  check_bounds file_size start_str end_str (start, ok_start) (end, ok_end) =
      if (not ok_start && not (is_empty start_str))
        || (not ok_end && not (is_empty end_str))
        || (ltb_ℤ start (pos 0) && ltb_ℤ end (pos 0))
      then malformed
      else clip file_size (normalize file_size start end)

  parse_parts : ℤ → List Text → Spec
  unfolding read_bound check_bounds
  parse_parts file_size (start_str ∷ end_str ∷ []) =
      check_bounds file_size start_str end_str (read_bound start_str) (read_bound end_str)
  parse_parts file_size _ = malformed

  -- The body of the loop over the specs.
  unfoldable pub parse_spec : ℤ → Text → Spec
  unfolding parse_parts
  parse_spec file_size spec = parse_parts file_size (split (trimmed spec) b'-')

  -- The loop over the specs; `requestedRanges` is `acc`.
  pub collect : ℤ → List Text → List Range → List Range
  collect file_size [] acc = acc
  collect file_size (spec ∷ specs) acc = elim (parse_spec file_size spec) [
    | malformed ↦ []
    | skipped ↦ collect file_size specs acc
    | requested r ↦ collect file_size specs (acc ++ r ∷ [])
  ]

  -- From `rangeSpecs` on.
  pub ranges_of_specs : ℤ → List Text → FileRange
  unfolding collect sort_and_coalesce decide_ranges
  ranges_of_specs file_size specs =
      decide_ranges file_size (length specs) (sort_and_coalesce (collect file_size specs []))

  pub ranges_of_header : ℤ → Text → FileRange
  unfolding range_char ranges_of_specs
  ranges_of_header file_size header =
      if not (starts_with header (codes "bytes="))
      then full_file
      else if not (all range_char (drop 6 header))
      then full_file
      else ranges_of_specs file_size (split (drop 6 header) b',')

  unfoldable pub determine_file_ranges : Headers → ℤ → FileRange
  unfolding ranges_of_header
  determine_file_ranges headers file_size = elim (find (codes "range") headers) [
    | none ↦ full_file
    | some header ↦ ranges_of_header file_size (trimmed header)
  ]
