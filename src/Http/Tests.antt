-- ===== src/Http/Tests.antt =====
-- The HTTP text at concrete requests.
use kdsoap.Prelude.{
  Text, List, [], ◌∷◌, ◌++◌, some, none, ◌≡◌, refl, ◌<◌, length, codes, index_of, starts_with,
}
use kdsoap.Headers.{Headers, find}
use kdsoap.Http.{end_of_headers, crlf, split_headers_and_data, insert_lines}
use kdsoap.Http.Splitting.{split_headers_and_data-append, split_headers_and_data-parts}
use kdsoap.Http.Parsing.{last_value, find-insert_lines}

abbrev header : Text
header = codes "POST / HTTP/1.1" ++ (crlf ++ codes "Content-Length: 4")

abbrev request : Text
request = header ++ (end_of_headers ++ codes "ab")

split_request : split_headers_and_data request ≡ some (header, codes "ab")
unfolding split_headers_and_data index_of starts_with
split_request = refl

split_headers_and_data-append_example :
    split_headers_and_data (request ++ codes "cd") ≡ some (header, codes "abcd")
split_headers_and_data-append_example =
    split_headers_and_data-append request (codes "cd") header (codes "ab") split_request

split_headers_and_data-parts_example :
    (request ≡ header ++ (end_of_headers ++ codes "ab")) × (0 < length header)
split_headers_and_data-parts_example =
    split_headers_and_data-parts request header (codes "ab") split_request

-- The pseudo-header of the path, and a request that has a header of that name.
abbrev first_headers : Headers
first_headers = (codes "_path", codes "/safe") ∷ []

abbrev header_lines : List Text
header_lines = (codes "Host: a" ++ crlf) ∷ (codes "_Path: /a/../../b" ++ crlf) ∷ []

find-insert_lines_example :
    find (codes "_path") (insert_lines first_headers header_lines)
    ≡ elim (last_value (codes "_path") header_lines) [
      | none ↦ find (codes "_path") first_headers
      | some v ↦ some v
    ]
find-insert_lines_example = find-insert_lines (codes "_path") header_lines first_headers
