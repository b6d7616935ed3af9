-- ===== src/Download.antt =====
-- The answer to a file download: KDSoapServerSocket::writeFileRanges and handleFileDownload of
-- src/KDSoapServer/KDSoapServerSocket.cpp. The result is the text that is written to the socket:
-- every write() is taken to accept all of its bytes, as a buffered QAbstractSocket does.
pub mod Copying
pub mod Multipart
pub mod Answer
mod Tests
use kdsoap.Prelude.{
  ℕ, zero, suc, ◌+◌, ◌-◌, Text, List, [], ◌∷◌, ◌++◌, Option, none, some, Bool, true, false, ◌||◌,
  leb, ◌==◌, if◌then◌else◌, ℤ, pos, to_int32, length, take, drop, codes, min,
}
use kdsoap.Headers.{Headers}
use kdsoap.Http.{
  crlf, end_of_headers, HttpResponseHeaderItem, additional_http_headers, http_response_headers,
}
use kdsoap.Platform.{Qt}
use kdsoap.Ranges.{Range, FileRange, invalid_range, full_file, valid_ranges, determine_file_ranges}

-- The QIODevice that the server object hands out. `read_size p m` is how many bytes read() returns
-- at the position p when asked for m: at least 1 before the end of a sound file, and at most m.
pub record Device : Type 0 where
  pub content : Text
  pub can_open : Bool
  pub read_size : ℕ → ℕ → ℕ

abbrev pub block_size : ℕ
block_size = 4096

-- device->read(block, m) at the position p
pub read : Device → ℕ → ℕ → Text
read d p m = take (min (d.read_size p m) m) (drop p d.content)

-- The loop of `writeRange`, at the position p with `left` bytes to go. Every round reads a byte at
-- least, or ends the loop, so `left` rounds are enough.
pub copy : ℕ → Device → ℕ → ℕ → Text
unfolding read
copy zero d p left = []
copy (suc fuel) d p left =
    let block = read d p (min left block_size) in
    let rest = block ++ copy fuel d (p + length block) (left - length block) in
    if leb (length d.content) p || left == 0 || length block == 0 then [] else rest

pub write_range : Device → Range → Text
unfolding copy
write_range d (first, last) = copy (last + 1 - first) d first (last + 1 - first)

-- The loop of handleFileDownload over the whole file.
pub copy_all : ℕ → Device → ℕ → Text
unfolding read
copy_all zero d p = []
copy_all (suc fuel) d p =
    let block = read d p block_size in
    let rest = block ++ copy_all fuel d (p + length block) in
    if leb (length d.content) p || length block == 0 then [] else rest

-- "--" and the boundary.
abbrev pub delimiter : Text → Text
delimiter boundary = codes "--" ++ boundary

-- What the loop over the ranges adds to `length` for the boundary behind a part: nothing for the
-- last one.
pub separator_length : Text → List Range → ℕ
separator_length boundary [] = 0
separator_length boundary (_ ∷ _) = 2 + (2 + length boundary) + 2

abbrev pub not_found : Text
not_found =
    codes "HTTP/1.1 404 Not Found" ++ (crlf ++ (codes "Content-Length: 0" ++ end_of_headers))

abbrev pub forbidden : Text
forbidden =
    codes "HTTP/1.1 403 Forbidden" ++ (crlf ++ (codes "Content-Length: 0" ++ end_of_headers))

abbrev pub not_satisfiable : Text
not_satisfiable =
    codes "HTTP/1.1 416 Range Not Satisfiable"
    ++ (crlf ++ (codes "Content-Length: 0" ++ end_of_headers))

module _ (qt : Qt) where
  open qt use {number}

  -- bytes <first>-<last>/<size>
  pub content_range : ℕ → Range → Text
  content_range size (first, last) =
      codes "Content-Range: bytes "
      ++ (number (pos first)
          ++ (codes "-" ++ (number (pos last) ++ (codes "/" ++ number (pos size)))))

  single_headers : ℕ → Range → Text → Text → Text
  unfolding content_range
  single_headers size (first, last) content_type additional =
      codes "HTTP/1.1 206 Partial Content"
      ++ (crlf
          ++ (codes "Accept-Ranges: bytes"
              ++ (crlf
                  ++ (codes "Content-Type: "
                      ++ (content_type
                          ++ (crlf
                              ++ (codes "Content-Length: "
                                  ++ (number (pos (last + 1 - first))
                                      ++ (crlf
                                          ++ (content_range size (first, last)
                                              ++ (crlf ++ (additional ++ crlf))))))))))))

  header_template_start : Text → Text
  header_template_start content_type =
      codes "Content-Type: " ++ (content_type ++ (crlf ++ codes "Content-Range: bytes "))

  header_template_end : ℕ → Text
  header_template_end size = codes "/" ++ (number (pos size) ++ (crlf ++ crlf))

  -- What the loop over the ranges adds to `length`. The 32 bits of an int are the last ones of
  -- the sum, whether it is cut to them after each addition or at the end.
  pub parts_length : ℕ → Text → Text → List Range → ℕ
  unfolding header_template_start header_template_end separator_length
  parts_length size content_type boundary [] = 0
  parts_length size content_type boundary ((first, last) ∷ rs) =
      length (header_template_start content_type)
      + (length (number (pos first)) + 1 + length (number (pos last)))
      + length (header_template_end size)
      + (last + 1 - first)
      + separator_length boundary rs
      + parts_length size content_type boundary rs

  -- The value of Content-Length, `length` of the source: an int.
  pub multipart_length : ℕ → Text → Text → List Range → ℤ
  unfolding parts_length
  multipart_length size content_type boundary rs = to_int32 (
      (2 + length boundary + 2)
      + parts_length size content_type boundary rs
      + (2 + (2 + length boundary) + 4))

  multipart_headers : ℕ → List Range → Text → Text → Text → Text
  unfolding multipart_length
  multipart_headers size rs content_type boundary additional =
      codes "HTTP/1.1 206 Partial Content"
      ++ (crlf
          ++ (codes "Accept-Ranges: bytes"
              ++ (crlf
                  ++ (codes "Content-Type: multipart/byteranges; boundary="
                      ++ (boundary
                          ++ (crlf
                              ++ (codes "Content-Length: "
                                  ++ (number (multipart_length size content_type boundary rs)
                                      ++ (crlf ++ (additional ++ crlf))))))))))

  part_headers : ℕ → Text → Range → Text
  unfolding content_range
  part_headers size content_type r =
      crlf
      ++ (codes "Content-Type: "
          ++ (content_type ++ (crlf ++ (content_range size r ++ (crlf ++ crlf)))))

  -- The loop that writes the parts; `headers` is what is not written yet.
  pub write_parts : Device → Text → Text → Text → List Range → Text
  unfolding part_headers write_range
  write_parts d content_type boundary headers [] = headers ++ (codes "--" ++ crlf)
  write_parts d content_type boundary headers (r ∷ rs) =
      (headers ++ part_headers (length d.content) content_type r)
      ++ (write_range d r ++ write_parts d content_type boundary (crlf ++ delimiter boundary) rs)

  -- Headers and body of a partial answer. `uuid` is QUuid::createUuid().
  pub write_file_ranges : Device → List Range → Text → Text → Text → Text × Text
  unfolding single_headers multipart_headers write_parts
  write_file_ranges d (r ∷ []) content_type additional uuid =
      (single_headers (length d.content) r content_type additional, write_range d r)
  write_file_ranges d rs content_type additional uuid =
      let boundary = codes "NextPart_" ++ uuid in
      (
        multipart_headers (length d.content) rs content_type boundary additional,
        write_parts d content_type boundary (delimiter boundary) rs,
      )

  send_file : FileRange → Device → Text → List HttpResponseHeaderItem → Text → Text × Text
  unfolding write_file_ranges copy_all to_int32
  send_file invalid_range d content_type items uuid = (not_satisfiable, [])
  send_file (valid_ranges rs) d content_type items uuid =
      write_file_ranges d rs content_type (additional_http_headers items) uuid
  send_file full_file d content_type items uuid = (
    http_response_headers qt false content_type (to_int32 (length d.content)) items,
    copy_all (length d.content) d 0,
  )

  -- Headers and body of the answer to a file request; `device` and `contentType` are the result of
  -- processFileRequest.
  pub handle_file_download :
      Headers → Option Device → Text → List HttpResponseHeaderItem → Text → Text × Text
  unfolding send_file
  handle_file_download headers none content_type items uuid = (not_found, [])
  handle_file_download headers (some d) content_type items uuid =
      if d.can_open
      then send_file (determine_file_ranges qt headers (to_int32 (length d.content))) d content_type
          items uuid
      else (forbidden, [])
