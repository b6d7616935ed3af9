-- ===== src/Socket/Tests.antt =====
-- The assembly of concrete requests.
use kdsoap.Prelude.{
  Text, List, [], ◌∷◌, ◌++◌, some, none, true, false, ◌≡◌, ◌≢◌, refl, sym, ◌∙◌, subst, arith, pos,
  codes, concat, is_empty, index_of, starts_with, split, trimmed, eq_text, wrap_int32, to_lower,
  index_of_char,
}
use kdsoap.Headers.{Headers, insert, find, value}
use kdsoap.Http.{crlf, end_of_headers, split_headers_and_data, parse_headers}
use kdsoap.Examples.{qt}
use kdsoap.Socket.{
  Socket, Progress, waiting, append_trace, request_handled, slot_ready_read, scan, scan_diverged,
  next_eol, is_chunked, chunk_step,
}
use kdsoap.Socket.Sizes.{sizes_fit, sizes_fit-HasPlainSizes}
use kdsoap.Socket.Fuel.{scan-ne-diverged}
use kdsoap.Socket.Negative.{scan-eq-diverged}
use kdsoap.Socket.Independence.{HasRequestLine, slot_ready_read-append}

abbrev chunks : Text
chunks = codes "5" ++ (crlf ++ (codes "hello" ++ (crlf ++ (codes "0" ++ end_of_headers))))

chunks_fit : sizes_fit qt chunks ≡ true
unfolding sizes_fit starts_with
chunks_fit = refl

scan-ne-diverged_example : scan qt 16 chunks (pos 0) ≢ scan_diverged
scan-ne-diverged_example =
    scan-ne-diverged qt 16 chunks 0 (sizes_fit-HasPlainSizes qt chunks chunks_fit) (omega arith)

abbrev negative_chunk : Text
negative_chunk = codes "-6" ++ (crlf ++ (codes "hello" ++ (crlf ++ (codes "0" ++ end_of_headers))))

scan-eq-diverged_example : scan qt 1000 negative_chunk (pos 0) ≡ scan_diverged
unfolding next_eol index_of starts_with
scan-eq-diverged_example = scan-eq-diverged qt negative_chunk 0 1000 (omega arith) refl refl

-- A new connection, and a server that notes the requests it gets.
abbrev connection : Socket
connection = record {
  delayed_response = false;
  socket_enabled = true;
  received_data = false;
  use_raw_xml = false;
  bytes_received = 0;
  chunk_start = pos 0;
  http_headers = [];
  request_buffer = [];
  decoded_request_buffer = [];
  trace = [];
}

abbrev note : Socket → Headers → Text → Socket
note s headers body = append_trace s (request_handled headers body ∷ [])

abbrev first_blocks : List Text
first_blocks =
    (codes "POST / HTTP/1.1" ++ (crlf ++ (codes "Transfer-Encoding: chunked" ++ end_of_headers)))
    ∷ (codes "5" ++ (crlf ++ codes "he"))
    ∷ []

abbrev second_blocks : List Text
second_blocks = (codes "llo" ++ (crlf ++ (codes "0" ++ end_of_headers))) ∷ []

abbrev waiting_socket : Progress → Socket
waiting_socket (waiting s) = s
waiting_socket _ = connection

abbrev after_first : Socket
after_first =
    waiting_socket (
      slot_ready_read qt none note 100 connection
        (record { blocks = first_blocks; failed = false }))

first_waits :
    slot_ready_read qt none note 100 connection (record { blocks = first_blocks; failed = false })
    ≡ waiting after_first
unfolding slot_ready_read split_headers_and_data parse_headers index_of starts_with is_chunked
    eq_text value find split insert index_of_char to_lower trimmed scan chunk_step wrap_int32
first_waits = refl

abbrev chunked_header : Text
chunked_header = codes "POST / HTTP/1.1" ++ (crlf ++ codes "Transfer-Encoding: chunked")

chunked_header_line : is_empty (parse_headers qt chunked_header) ≡ false
unfolding parse_headers split insert eq_text index_of_char to_lower
chunked_header_line = refl

same_header :
    (a b header body : Text)
    → split_headers_and_data (concat first_blocks) ≡ some (a, b)
    → split_headers_and_data (concat first_blocks) ≡ some (header, body)
    → a ≡ header
same_header a b header body p q = cc (sym p ∙ q)

first_header :
    split_headers_and_data (concat first_blocks)
    ≡ some (chunked_header, codes "5" ++ (crlf ++ codes "he"))
unfolding split_headers_and_data index_of starts_with
first_header = refl

first_line : HasRequestLine qt note (concat first_blocks)
first_line header body h =
    subst (λ t. is_empty (parse_headers qt t) ≡ false)
      (same_header chunked_header _ header body first_header h) chunked_header_line

request_fits : sizes_fit qt (concat (first_blocks ++ second_blocks)) ≡ true
unfolding sizes_fit starts_with
request_fits = refl

slot_ready_read-append_example :
    slot_ready_read qt none note 100 after_first (record { blocks = second_blocks; failed = false })
    ≡ slot_ready_read qt none note 100 connection
        (record { blocks = first_blocks ++ second_blocks; failed = false })
slot_ready_read-append_example =
    slot_ready_read-append qt note 100 connection after_first first_blocks second_blocks refl refl
      first_line (sizes_fit-HasPlainSizes qt _ request_fits) (omega arith) first_waits
