-- ===== src/Http.antt =====
-- The HTTP text of a request and a response: parseHeaders, splitHeadersAndData, stripQuotes,
-- additionalHttpHeaders, httpResponseHeaders and isPathSecure of
-- src/KDSoapServer/KDSoapServerSocket.cpp.
pub mod Splitting
pub mod Parsing
mod Tests
use kdsoap.Prelude.{
  ℕ, suc, ◌+◌, ◌-◌, Text, List, [], ◌∷◌, ◌++◌, Option, none, some, Bool, true, false, not, ◌&&◌,
  ltb, ◌==◌, if◌then◌else◌, ℤ, pos, length, take, drop, codes, starts_with, ends_with, split,
  trimmed, to_lower, index_of, index_of_char, is_empty, eq_ℤ,
}
use kdsoap.Headers.{Headers, insert}
use kdsoap.Platform.{Qt}

abbrev pub crlf : Text
crlf = 13 ∷ 10 ∷ []

abbrev pub end_of_headers : Text
end_of_headers = 13 ∷ 10 ∷ 13 ∷ 10 ∷ []

-- What readLine() returns until the end, each line with its '\n'.
pub lines_from : Text → Text → List Text
lines_from cur [] = if is_empty cur then [] else cur ∷ []
lines_from cur (c ∷ s) =
    let next = (cur ++ c ∷ []) ∷ lines_from [] s in
    let longer = lines_from (cur ++ c ∷ []) s in if c == 10 then next else longer

pub lines : Text → List Text
unfolding lines_from
lines s = lines_from [] s

-- while (cleanedPath.startsWith("//")) cleanedPath = cleanedPath.mid(1);
pub strip_slashes : Text → Text
strip_slashes [] = []
strip_slashes (c ∷ s) =
    let shorter = strip_slashes s in if starts_with (c ∷ s) (codes "//") then shorter else c ∷ s

-- Up to the query, and from its '?' on.
pub path_part : Text → Text
path_part arg = elim (index_of_char arg b'?') [ none ↦ arg | some i ↦ take i arg ]

pub query_part : Text → Text
query_part arg = elim (index_of_char arg b'?') [ none ↦ [] | some i ↦ drop i arg ]

-- line.left(pos).toLower(); QByteArray::left(-1) is empty.
pub header_name : Text → Text
header_name line = elim (index_of_char line b':') [ none ↦ [] | some i ↦ to_lower (take i line) ]

-- line.mid(pos + 1).trimmed()
pub header_value : Text → Text
header_value line = elim (index_of_char line b':') [
  | none ↦ trimmed line
  | some i ↦ trimmed (drop (suc i) line)
]

-- The loop over the lines behind the first.
pub insert_lines : Headers → List Text → Headers
unfolding header_name header_value
insert_lines m [] = m
insert_lines m (line ∷ rest) = insert_lines (insert (header_name line) (header_value line) m) rest

pub is_path_secure : Text → Bool
is_path_secure path = starts_with path (codes "/") && not (starts_with path (codes "/.."))

unfoldable pub split_headers_and_data : Text → Option (Text × Text)
split_headers_and_data request = elim (index_of request end_of_headers) [
  | none ↦ none
  | some sep ↦ if ltb 0 sep then some (take sep request, drop (sep + 4) request) else none
]

pub strip_quotes : Text → Text
strip_quotes bar =
    if starts_with bar (codes "\"") && ends_with bar (codes "\"")
    then take (length bar - 2) (drop 1 bar)
    else bar

-- HttpResponseHeaderItem
pub record HttpResponseHeaderItem : Type 0 where
  pub name : Text
  pub value : Text

pub additional_http_headers : List HttpResponseHeaderItem → Text
additional_http_headers [] = []
additional_http_headers (item ∷ items) =
    item.name ++ (codes ": " ++ (item.value ++ (crlf ++ additional_http_headers items)))

pub status_line : Bool → ℤ → Text
status_line fault response_data_size =
    if fault
    then codes "HTTP/1.1 500 Internal Server Error" ++ crlf
    else if eq_ℤ response_data_size (pos 0)
    then codes "HTTP/1.1 204 No Content" ++ crlf
    else codes "HTTP/1.1 200 OK" ++ crlf

module _ (qt : Qt) where
  open qt use {number, clean_path}

  unfoldable pub http_response_headers : Bool → Text → ℤ → List HttpResponseHeaderItem → Text
  unfolding status_line additional_http_headers
  http_response_headers fault content_type response_data_size items =
      status_line fault response_data_size
      ++ (codes "Content-Type: "
          ++ (content_type
              ++ (crlf
                  ++ (codes "Content-Length: "
                      ++ (number response_data_size
                          ++ (crlf ++ (additional_http_headers items ++ crlf)))))))

  pub cleaned_path : Text → Text
  unfolding path_part strip_slashes
  cleaned_path arg = strip_slashes (clean_path (path_part arg))

  -- The entries of the first line; none if it is malformed.
  pub first_line_headers : List Text → Option Headers
  unfolding cleaned_path query_part
  first_line_headers (request_type ∷ arg ∷ http_version ∷ _) = some (
      insert (codes "_httpVersion") http_version (
        insert (codes "_query") (query_part arg) (
          insert (codes "_path") (cleaned_path arg)
            (insert (codes "_requestType") request_type []))))
  first_line_headers _ = none

  parse_lines : List Text → Headers
  unfolding first_line_headers insert_lines
  parse_lines [] = []
  parse_lines (first ∷ rest) = elim (first_line_headers (split first 32)) [
    | none ↦ []
    | some m ↦ insert_lines m rest
  ]

  unfoldable pub parse_headers : Text → Headers
  unfolding parse_lines lines
  parse_headers header_data = parse_lines (lines header_data)
