-- ===== src/Download/Multipart.antt =====
-- The length that a partial answer announces is the length of its body.
use kdsoap.Prelude.{
  ℕ, ◌+◌, ◌-◌, ◌^◌, ◌≤◌, ◌<◌, Text, List, [], ◌∷◌, ◌++◌, arith, ◌≡◌, refl, sym, ◌∙◌, ap, length,
  drop, length-append, length-take, length-drop, All, codes, pos, to_int32, to_int32-eq,
}
use kdsoap.Http.{crlf}
use kdsoap.Platform.{Qt}
use kdsoap.Ranges.{Range}
use kdsoap.Download.{
  Device, write_range, content_range, part_headers, parts_length, multipart_length, write_parts,
  write_file_ranges, delimiter, separator_length, header_template_start, header_template_end,
}
use kdsoap.Download.Copying.{IsSound, write_range-eq}

-- A range of bytes of the device.
abbrev pub InDevice : Device → Range → Type 0
InDevice d r = (r.0 ≤ r.1) × (r.1 < length d.content)

write_range-length :
    (d : Device) (r : Range) → IsSound d → InDevice d r → length (write_range d r) ≡ r.1 + 1 - r.0
write_range-length d (first, last) s h =
    ap length (write_range-eq d first last s)
    ∙ length-take (last + 1 - first) (drop first d.content)
    ∙ omega (arith, length-drop first d.content)

module _ (qt : Qt) where
  open qt use {number}

  part_headers-length :
      (size : ℕ) (content_type : Text) (r : Range)
      → length (part_headers qt size content_type r)
        ≡ 2
          + length (header_template_start qt content_type)
          + (length (number (pos r.0)) + 1 + length (number (pos r.1)))
          + length (header_template_end qt size)
  unfolding part_headers content_range header_template_start header_template_end
  part_headers-length size content_type (first, last) = simp length-append (omega arith)

  write_parts_step :
      (d : Device) (content_type boundary headers : Text) (r : Range) (rs : List Range)
      → length (write_parts qt d content_type boundary headers (r ∷ rs))
        ≡ length headers
          + length (part_headers qt (length d.content) content_type r)
          + length (write_range d r)
          + length (write_parts qt d content_type boundary (crlf ++ delimiter boundary) rs)
  unfolding write_parts
  write_parts_step d content_type boundary headers r rs =
      length-append (headers ++ part_headers qt (length d.content) content_type r) _
      ∙ omega (
        arith,
        length-append headers (part_headers qt (length d.content) content_type r),
        length-append (write_range d r)
            (write_parts qt d content_type boundary (crlf ++ delimiter boundary) rs),
      )

  parts_length_step :
      (size : ℕ) (content_type boundary : Text) (r : Range) (rs : List Range)
      → parts_length qt size content_type boundary (r ∷ rs)
        ≡ length (header_template_start qt content_type)
          + (length (number (pos r.0)) + 1 + length (number (pos r.1)))
          + length (header_template_end qt size)
          + (r.1 + 1 - r.0)
          + separator_length boundary rs
          + parts_length qt size content_type boundary rs
  unfolding parts_length
  parts_length_step size content_type boundary r rs = refl

  last_part :
      (size : ℕ) (d : Device) (content_type boundary : Text)
      → (parts_length qt size content_type boundary [] ≡ 0)
        × (length (write_parts qt d content_type boundary (crlf ++ delimiter boundary) [])
            ≡ 2 + (2 + length boundary) + 4)
  unfolding parts_length write_parts
  last_part size d content_type boundary = (refl, simp length-append (omega arith))

  write_parts-length :
      (d : Device) (content_type boundary headers : Text) (r : Range) (rs : List Range)
      → IsSound d
      → All (InDevice d) (r ∷ rs)
      → length (write_parts qt d content_type boundary headers (r ∷ rs))
        ≡ length headers
          + 2
          + parts_length qt (length d.content) content_type boundary (r ∷ rs)
          + (2 + (2 + length boundary) + 4)
  unfolding separator_length
  write_parts-length d content_type boundary headers r [] s (h, _) = omega (
    arith,
    write_parts_step d content_type boundary headers r [],
    parts_length_step (length d.content) content_type boundary r [],
    last_part (length d.content) d content_type boundary,
    part_headers-length (length d.content) content_type r,
    write_range-length d r s h,
  )
  write_parts-length d content_type boundary headers r (q ∷ rs) s (h, k) = omega (
    arith,
    write_parts_step d content_type boundary headers r (q ∷ rs),
    parts_length_step (length d.content) content_type boundary r (q ∷ rs),
    part_headers-length (length d.content) content_type r,
    write_range-length d r s h,
    write_parts-length d content_type boundary (crlf ++ delimiter boundary) q rs s k,
  )

  -- Content-Length is the length of the body, for a multipart answer, in 32 bits.
  multipart_body-length :
      (d : Device) (content_type additional uuid : Text) (r q : Range) (rs : List Range)
      → IsSound d
      → All (InDevice d) (r ∷ q ∷ rs)
      → length (write_file_ranges qt d (r ∷ q ∷ rs) content_type additional uuid).1
        ≡ 2
          + length (codes "NextPart_" ++ uuid)
          + 2
          + parts_length qt (length d.content) content_type (codes "NextPart_" ++ uuid) (r ∷ q ∷ rs)
          + (2 + (2 + length (codes "NextPart_" ++ uuid)) + 4)
  unfolding write_file_ranges
  multipart_body-length d content_type additional uuid r q rs s h =
      let boundary = codes "NextPart_" ++ uuid in
      omega (arith, write_parts-length d content_type boundary (delimiter boundary) r (q ∷ rs) s h)

  pub multipart_length-eq :
      (d : Device) (content_type additional uuid : Text) (r q : Range) (rs : List Range)
      → IsSound d
      → All (InDevice d) (r ∷ q ∷ rs)
      → let body = (write_file_ranges qt d (r ∷ q ∷ rs) content_type additional uuid).1 in
        length body < 2 ^ 31
        → multipart_length qt
            (length d.content)
            content_type
            (codes "NextPart_" ++ uuid)
            (r ∷ q ∷ rs)
          ≡ pos (length body)
  unfolding multipart_length
  multipart_length-eq d content_type additional uuid r q rs s h small =
      let same = multipart_body-length d content_type additional uuid r q rs s h in
      ap to_int32 (sym same) ∙ to_int32-eq _ small

  -- The same for a single range.
  pub single_length-eq :
      (d : Device) (content_type additional uuid : Text) (r : Range)
      → IsSound d
      → InDevice d r
      → length (write_file_ranges qt d (r ∷ []) content_type additional uuid).1 ≡ r.1 + 1 - r.0
  unfolding write_file_ranges
  single_length-eq d content_type additional uuid r s h = write_range-length d r s h
