-- ===== src/Download/Answer.antt =====
-- The whole answer to a file request: its Content-Length against its body.
use kdsoap.Prelude.{
  ℕ, ◌+◌, ◌-◌, ◌^◌, ◌<◌, Text, List, [], ◌∷◌, ◌++◌, append_assoc, Option, none, some, Bool-cases,
  arith, inl, inr, ◌≡◌, ◌≢◌, refl, sym, subst, Bool, false, length, if◌then◌else◌, All, All-imp,
  codes, ℤ, pos, ◌<ℤ◌, to_int32, to_int32-eq,
}
use kdsoap.Headers.{Headers}
use kdsoap.Http.{
  status_line, crlf, HttpResponseHeaderItem, additional_http_headers, http_response_headers,
}
use kdsoap.Platform.{Qt}
use kdsoap.Ranges.{Range, FileRange, invalid_range, full_file, valid_ranges, determine_file_ranges}
use kdsoap.Ranges.Specs.{InFile}
use kdsoap.Ranges.Outcome.{determine-parts}
use kdsoap.Download.{
  Device, content_range, single_headers, multipart_headers, multipart_length, write_file_ranges,
  send_file, handle_file_download, forbidden,
}
use kdsoap.Download.Copying.{IsSound, copy_all_lem}
use kdsoap.Download.Multipart.{InDevice, multipart_length-eq, single_length-eq}

-- The headers hold a Content-Length line with this value.
abbrev pub Announces : Text → Text → Type 0
Announces headers v =
    (before : Text) × (after : Text) × (headers
      ≡ before ++ (codes "Content-Length: " ++ (v ++ (crlf ++ after))))

All-InDevice :
    (d : Device) (rs : List Range)
    → length d.content < 2 ^ 31
    → All (InFile (to_int32 (length d.content))) rs
    → All (InDevice d) rs
All-InDevice d rs small h =
    All-imp (InFile (to_int32 (length d.content))) (InDevice d)
      (λ r p. (p.0, below r (rw (to_int32-eq (length d.content) small) at (p.1)))) rs h
  where
    below : (r : Range) → pos r.1 <ℤ pos (length d.content) → r.1 < length d.content
    below r q = omega arith

module _ (qt : Qt) where
  open qt use {number}

  http_response_headers-Announces :
      (fault : Bool) (content_type : Text) (n : ℤ) (items : List HttpResponseHeaderItem)
      → Announces (http_response_headers qt fault content_type n items) (number n)
  unfolding http_response_headers
  http_response_headers-Announces fault content_type n items = (
    status_line fault n ++ (codes "Content-Type: " ++ (content_type ++ crlf)),
    additional_http_headers items ++ crlf,
    simp append_assoc,
  )

  single_headers-Announces :
      (size : ℕ) (r : Range) (content_type additional : Text)
      → Announces (single_headers qt size r content_type additional) (number (pos (r.1 + 1 - r.0)))
  unfolding single_headers
  single_headers-Announces size r content_type additional = (
    codes "HTTP/1.1 206 Partial Content"
        ++ (crlf
            ++ (codes "Accept-Ranges: bytes"
                ++ (crlf ++ (codes "Content-Type: " ++ (content_type ++ crlf))))),
    content_range qt size r ++ (crlf ++ (additional ++ crlf)),
    simp append_assoc,
  )

  multipart_headers-Announces :
      (size : ℕ) (rs : List Range) (content_type boundary additional : Text)
      → Announces
          (multipart_headers qt size rs content_type boundary additional)
          (number (multipart_length qt size content_type boundary rs))
  unfolding multipart_headers
  multipart_headers-Announces size rs content_type boundary additional = (
    codes "HTTP/1.1 206 Partial Content"
        ++ (crlf
            ++ (codes "Accept-Ranges: bytes"
                ++ (crlf
                    ++ (codes "Content-Type: multipart/byteranges; boundary="
                        ++ (boundary ++ crlf))))),
    additional ++ crlf,
    simp append_assoc,
  )

  write_file_ranges-Announces :
      (d : Device) (rs : List Range) (content_type additional uuid : Text)
      → IsSound d
      → rs ≢ []
      → All (InDevice d) rs
      → let (head, body) = write_file_ranges qt d rs content_type additional uuid in
        length body < 2 ^ 31 → Announces head (number (pos (length body)))
  unfolding write_file_ranges
  write_file_ranges-Announces d [] content_type additional uuid s n h fits = absurd (n refl)
  write_file_ranges-Announces d (r ∷ []) content_type additional uuid s n (h, _) fits =
      rw (single_length-eq qt d content_type additional uuid r s h)
        (single_headers-Announces (length d.content) r content_type additional)
  write_file_ranges-Announces d (r ∷ q ∷ rs) content_type additional uuid s n h fits =
      rw (← multipart_length-eq qt d content_type additional uuid r q rs s h fits) (
        multipart_headers-Announces (length d.content) (r ∷ q ∷ rs) content_type
          (codes "NextPart_" ++ uuid) additional)

  send_file-Announces :
      (range : FileRange) (d : Device) (content_type uuid : Text)
      (items : List HttpResponseHeaderItem)
      → number (pos 0) ≡ codes "0"
      → IsSound d
      → length d.content < 2 ^ 31
      → ((rs : List Range)
          → range ≡ valid_ranges rs
          → All (InFile (to_int32 (length d.content))) rs × (rs ≢ []))
      → let (head, body) = send_file qt range d content_type items uuid in
        length body < 2 ^ 31 → Announces head (number (pos (length body)))
  unfolding send_file
  send_file-Announces invalid_range d content_type uuid items z s small ok fits =
      rw z (codes "HTTP/1.1 416 Range Not Satisfiable" ++ crlf, crlf, refl)
  send_file-Announces full_file d content_type uuid items z s small ok fits =
      rw (copy_all_lem d s, ← to_int32-eq (length d.content) small)
        (http_response_headers-Announces false content_type (to_int32 (length d.content)) items)
  send_file-Announces (valid_ranges rs) d content_type uuid items z s small ok fits =
      let (inside, some_left) = ok rs refl in
      write_file_ranges-Announces d rs content_type (additional_http_headers items) uuid s some_left
        (All-InDevice d rs small inside) fits

  -- For every request and every outcome of a file download (404, 403, 416, 206 with one or several
  -- parts, 200), the headers announce in Content-Length the exact length of the body, where the
  -- device reads at least a byte before its end and holds less than 2^31 bytes, the body has less
  -- than 2^31 bytes, and zero is printed as "0".
  pub handle_file_download-Announces :
      (headers : Headers) (d : Option Device) (content_type uuid : Text)
      (items : List HttpResponseHeaderItem)
      → number (pos 0) ≡ codes "0"
      → ((f : Device) → d ≡ some f → IsSound f × (length f.content < 2 ^ 31))
      → length (handle_file_download qt headers d content_type items uuid).1 < 2 ^ 31
      → let (head, body) = handle_file_download qt headers d content_type items uuid in
        Announces head (number (pos (length body)))
  unfolding handle_file_download
  handle_file_download-Announces headers none content_type uuid items z ok fits =
      rw z (codes "HTTP/1.1 404 Not Found" ++ crlf, crlf, refl)
  handle_file_download-Announces headers (some d) content_type uuid items z ok fits =
      elim (Bool-cases d.can_open) [
        | inl e ↦
            let (s, small) = ok d refl in
            subst (λ b. Own (if b then sent else (forbidden, []))) (sym e)
              (send_file-Announces (determine_file_ranges qt headers (to_int32 (length d.content)))
                d content_type uuid items z s small
                (λ rs p.
                  let (inside, _, some_left, _) =
                    determine-parts qt (to_int32 (length d.content)) headers rs p in
                  (inside, some_left))
                (subst (λ b. length (if b then sent else (forbidden, [])).1 < 2 ^ 31) e fits))
        | inr e ↦
            subst (λ b. Own (if b then sent else (forbidden, []))) (sym e)
              (rw z (codes "HTTP/1.1 403 Forbidden" ++ crlf, crlf, refl))
      ]
    where
      sent : Text × Text
      sent =
          send_file qt (determine_file_ranges qt headers (to_int32 (length d.content))) d
            content_type items uuid

      Own : Text × Text → Type 0
      Own a = Announces a.0 (number (pos (length a.1)))
