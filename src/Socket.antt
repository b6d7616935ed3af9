-- ===== src/Socket.antt =====
-- The assembly of HTTP requests from what arrives on a connection:
-- KDSoapServerSocket::slotReadyRead and setSocketEnabled of
-- src/KDSoapServer/KDSoapServerSocket.cpp. Calls that leave the socket are entries of its trace.
pub mod Chunks
pub mod Scans
pub mod Fuel
pub mod Fragments
pub mod Independence
pub mod Sizes
pub mod Negative
mod Tests
use kdsoap.Prelude.{
  ℕ, zero, suc, ◌+◌, ◌-◌, Text, List, [], ◌∷◌, ◌++◌, Option, none, some, Bool, true, false, not,
  same_bool, ◌&&◌, ltb, leb, ◌==◌, if◌then◌else◌, ℤ, pos, negsuc, ◌+ℤ◌, ltb_ℤ, leb_ℤ, eq_ℤ,
  wrap_int32, length, is_empty, take, drop, concat, codes, map, index_of, eq_text,
}
use kdsoap.Headers.{Headers, value}
use kdsoap.Http.{crlf, end_of_headers, split_headers_and_data, parse_headers}
use kdsoap.Platform.{Qt}

-- What the socket does to the rest of the program.
pub data Event : Type 0 where
  connection_counted : Event
  server_socket_set : Headers → Event
  raw_new_request : Text → Headers → Event
  raw_process_xml : Text → Event
  raw_end_request : Event
  request_handled : Headers → Text → Event
  written : Text → Event

pub record Socket : Type 0 where
  pub delayed_response : Bool
  pub socket_enabled : Bool
  pub received_data : Bool
  pub use_raw_xml : Bool
  pub bytes_received : ℕ
  pub chunk_start : ℤ
  pub http_headers : Headers
  pub request_buffer : Text
  pub decoded_request_buffer : Text
  pub trace : List Event

-- What the read() loop gets: blocks, then 0, or -1 for an error.
pub record Delivery : Type 0 where
  pub blocks : List Text
  pub failed : Bool

-- Where slotReadyRead returns: early, for lack of data or on a read error; behind the answer 400; at
-- its end, with a request done; or never.
pub data Progress : Type 0 where
  waiting rejected finished : Socket → Progress
  diverged : Progress

-- One round of the loop over the chunks.
pub data ChunkStep : Type 0 where
  incomplete bad_size : ChunkStep
  last_chunk : Text → ChunkStep
  next_chunk : Text → ℤ → ChunkStep

-- The loop over the chunks: the chunks found, and why it ended. `over` has the buffer and
-- m_chunkStart behind the loop.
pub data Scan : Type 0 where
  scan_wait scan_bad : List Text → ℤ → Scan
  scan_over : List Text → Text → ℤ → Scan
  scan_diverged : Scan

-- buf.indexOf("\r\n", from)
pub next_eol : Text → ℕ → Option ℕ
next_eol buf from = elim (index_of (drop from buf) crlf) [ none ↦ none | some i ↦ some (from + i) ]

-- QByteArray::mid(pos, len): a negative length is the whole rest.
unfoldable pub mid : Text → ℕ → ℤ → Text
mid s p (pos n) = take n (drop p s)
mid s p (negsuc n) = drop p s

-- The sum nextEOL + 2 + chunkSize + 2 is one of ints; the buffer is taken to have less than 2^31
-- bytes, so that nextEOL is one.
pub chunk_of_size : Text → ℕ → ℤ → ChunkStep
unfolding mid
chunk_of_size buf eol size =
    if eq_ℤ size (pos 0)
    then last_chunk (drop eol buf)
    else let next = wrap_int32 (pos (eol + 2 + 2) +ℤ size) in
      if leb_ℤ (pos (length buf)) next then incomplete else next_chunk (mid buf (eol + 2) size) next

pub prepend : Text → Scan → Scan
prepend c (scan_wait cs start) = scan_wait (c ∷ cs) start
prepend c (scan_bad cs start) = scan_bad (c ∷ cs) start
prepend c (scan_over cs buf start) = scan_over (c ∷ cs) buf start
prepend c scan_diverged = scan_diverged

pub is_chunked : Headers → Bool
is_chunked headers = eq_text (value headers (codes "transfer-encoding")) (codes "chunked")

abbrev pub bad_request : Text
bad_request =
    codes "HTTP/1.1 400 Bad Request" ++ (crlf ++ (codes "Content-Length: 0" ++ end_of_headers))

abbrev pub append_trace : Socket → List Event → Socket
append_trace s es = record s { trace = s.trace ++ es }

-- The chunks go to the raw interface or to the buffer.
pub deliver : Socket → List Text → Socket
deliver s cs =
    if s.use_raw_xml
    then append_trace s (map raw_process_xml cs)
    else record s { decoded_request_buffer = s.decoded_request_buffer ++ concat cs }

-- The last three lines of slotReadyRead.
pub reset : Socket → Socket
reset s = record s { request_buffer = []; http_headers = []; received_data = false }

-- The read() loop.
pub read_all : Socket → List Text → Socket
read_all s blocks = record s {
  request_buffer = s.request_buffer ++ concat blocks;
  bytes_received = s.bytes_received + length (concat blocks);
}

pub count_connection : Socket → Socket
count_connection s =
    if s.received_data
    then s
    else record s { received_data = true; trace = s.trace ++ connection_counted ∷ [] }

module _ (qt : Qt) where
  open qt use {to_int, to_int_hex}

  pub chunk_step : Text → ℕ → ChunkStep
  unfolding next_eol chunk_of_size
  chunk_step buf start = elim (next_eol buf start) [
    | none ↦ incomplete
    | some eol ↦ elim (to_int_hex (take (eol - start) (drop start buf))) [
      | none ↦ bad_size
      | some size ↦ chunk_of_size buf eol size
    ]
  ]

  -- while (m_chunkStart >= 0), for some rounds at most.
  pub scan : ℕ → Text → ℤ → Scan
  unfolding prepend
  scan zero buf start = scan_diverged
  scan (suc fuel) buf (negsuc k) = scan_over [] buf (negsuc k)
  scan (suc fuel) buf (pos start) = elim (chunk_step buf start) [
    | incomplete ↦ scan_wait [] (pos start)
    | bad_size ↦ scan_bad [] (pos start)
    | last_chunk rest ↦ scan_over [] rest (negsuc 0)
    | next_chunk c next ↦ prepend c (scan fuel buf next)
  ]

  -- toInt() of a header value, 0 if it is no number.
  pub content_length : Headers → ℤ
  content_length headers = elim (to_int (value headers (codes "content-length"))) [
    | none ↦ pos 0
    | some n ↦ n
  ]

  -- `raw` is newRequest of the KDSoapServerRawXMLInterface, if the server object has it; `handle`
  -- is handleRequest.
  module _ (raw : Option (Text → Headers → Bool)) (handle : Socket → Headers → Text → Socket) where
    start_request : Socket → Headers → Text → Socket
    start_request s headers body =
        let t : Socket = record s {
          http_headers = headers;
          request_buffer = body;
          bytes_received = length body;
          use_raw_xml = false;
        } in
        elim raw [
          | none ↦ t
          | some new_request ↦
              let kind = value headers (codes "_requestType") in
              record t {
                trace = t.trace ++ server_socket_set headers ∷ raw_new_request kind headers ∷ [];
                use_raw_xml = new_request kind headers;
              }
        ]

    -- What starts a request, once its headers are there; none while they are not.
    pub take_headers : Socket → Option Socket
    unfolding start_request
    take_headers s =
        if is_empty s.http_headers
        then elim (split_headers_and_data s.request_buffer) [
          | none ↦ none
          | some (header, body) ↦ some (start_request s (parse_headers qt header) body)
        ]
        else some s

    -- The request is complete.
    complete : Socket → Text → Socket
    complete s body =
        if s.use_raw_xml
        then append_trace s (raw_end_request ∷ [])
        else handle s s.http_headers body

    flush_raw : Socket → Socket
    flush_raw s =
        if s.use_raw_xml
        then record s {
          trace = s.trace ++ raw_process_xml s.request_buffer ∷ [];
          request_buffer = [];
        }
        else s

    pub process_sized : Socket → Progress
    unfolding flush_raw complete reset content_length
    process_sized s =
        let t = flush_raw s in
        if ltb_ℤ (pos t.bytes_received) (content_length t.http_headers)
        then waiting t
        else finished (reset (complete t t.request_buffer))

    after_chunks : Socket → Progress
    unfolding complete reset
    after_chunks s = elim (index_of s.request_buffer end_of_headers) [
      | none ↦ waiting s
      | some _ ↦
          let t = complete s s.decoded_request_buffer in
          finished (reset (record t { decoded_request_buffer = []; chunk_start = pos 0 }))
    ]

    after_scan : Socket → Scan → Progress
    unfolding after_chunks deliver
    after_scan s (scan_wait cs start) = waiting (record (deliver s cs) { chunk_start = start })
    after_scan s (scan_bad cs start) =
        rejected
          (append_trace (record (deliver s cs) { chunk_start = start }) (written bad_request ∷ []))
    after_scan s (scan_over cs buf start) =
        after_chunks (record (deliver s cs) { chunk_start = start; request_buffer = buf })
    after_scan s scan_diverged = diverged

    pub process_chunked : ℕ → Socket → Progress
    unfolding after_scan
    process_chunked fuel s = after_scan s (scan fuel s.request_buffer s.chunk_start)

    pub process_body : ℕ → Socket → Progress
    unfolding process_sized process_chunked
    process_body fuel s =
        if is_chunked s.http_headers then process_chunked fuel s else process_sized s

    -- Behind the read() loop.
    pub process : ℕ → Socket → Progress
    unfolding process_body take_headers
    process fuel s = elim (take_headers s) [ none ↦ waiting s | some t ↦ process_body fuel t ]

    pub slot_ready_read : ℕ → Socket → Delivery → Progress
    unfolding process count_connection read_all
    slot_ready_read fuel s d =
        if not s.socket_enabled
        then waiting s
        else let t = read_all (count_connection s) d.blocks in
          if d.failed then waiting t else process fuel t

    pub set_socket_enabled : ℕ → Socket → Bool → Delivery → Progress
    unfolding slot_ready_read
    set_socket_enabled fuel s enabled d =
        if same_bool s.socket_enabled enabled
        then waiting s
        else let t : Socket = record s { socket_enabled = enabled } in
          if enabled then slot_ready_read fuel t d else waiting t
