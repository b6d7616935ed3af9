-- ===== src/Socket/Independence.antt =====
-- A request does not depend on how the network cuts it up: slotReadyRead of
-- src/KDSoapServer/KDSoapServerSocket.cpp on two deliveries and on the one with both.
use kdsoap.Prelude.{
  ℕ, ◌<◌, Text, List, [], ◌∷◌, ◌++◌, append_assoc, append-nil, none, some, Option-cases, Bool-cases,
  true, false, arith, inl, inr, ◌≡◌, refl, sym, ◌∙◌, ap, subst, pos, length, length-append,
  is_empty, concat, if◌then◌else◌, ltb_ℤ,
}
use kdsoap.Headers.{Headers}
use kdsoap.Http.{end_of_headers, split_headers_and_data, parse_headers}
use kdsoap.Http.Splitting.{split_headers_and_data-append, split_headers_and_data-parts}
use kdsoap.Platform.{Qt}
use kdsoap.Socket.{
  connection_counted, Socket, waiting, finished, read_all, count_connection, take_headers,
  start_request, process_sized, process_chunked, process_body, process, slot_ready_read, flush_raw,
  reset, complete, is_chunked, content_length,
}
use kdsoap.Socket.Chunks.{HasPlainSizes, HasPlainSizes-part}
use kdsoap.Socket.Fragments.{
  concat-append, Keeps, process_chunked_more, read_all-append, waiting-injective,
}

count_connection_again : (s : Socket) → s.received_data ≡ true → count_connection s ≡ s
unfolding count_connection
count_connection_again s e = simp e

count_connection_first :
    (s : Socket)
    → s.received_data ≡ false
    → count_connection s
      ≡ record s { received_data = true; trace = s.trace ++ connection_counted ∷ [] }
unfolding count_connection
count_connection_first s e = simp e

-- What counting the connection changes.
abbrev Counted : Socket → Socket → Type 0
Counted s t =
    (t.received_data ≡ true)
    × (t.socket_enabled ≡ s.socket_enabled)
    × (t.use_raw_xml ≡ s.use_raw_xml)
    × (t.request_buffer ≡ s.request_buffer)

count_connection-Counted : (s : Socket) → Counted s (count_connection s)
unfolding count_connection
count_connection-Counted s = elim (Bool-cases s.received_data) [
  | inl e ↦ subst (Counted s) (sym (count_connection_again s e)) (e, refl, refl, refl)
  | inr e ↦ subst (Counted s) (sym (count_connection_first s e)) (refl, refl, refl, refl)
]

shorter :
    (buffer header body more : Text) (n : ℕ)
    → buffer ≡ header ++ (end_of_headers ++ body)
    → length (buffer ++ more) < n
    → length (body ++ more) < n
shorter buffer header body more n e h = omega (
  arith,
  ap length e,
  length-append buffer more,
  length-append body more,
  length-append header (end_of_headers ++ body),
)

-- The sizes in the body of a request are among those in the request.
plain_body :
    (qt : Qt) (buffer header body more : Text)
    → buffer ≡ header ++ (end_of_headers ++ body)
    → HasPlainSizes qt (buffer ++ more)
    → HasPlainSizes qt (body ++ more)
plain_body qt buffer header body more e sizes =
    HasPlainSizes-part qt (header ++ end_of_headers) (body ++ more) []
      (subst (HasPlainSizes qt) (ap (λ b. b ++ more) e ∙ simp (append_assoc, append-nil)) sizes)

module _ (qt : Qt) (handle : Socket → Headers → Text → Socket) where
  flush_parsed : (s : Socket) → s.use_raw_xml ≡ false → flush_raw qt none handle s ≡ s
  unfolding flush_raw
  flush_parsed s h = simp h

  process_sized_parsed :
      (s : Socket)
      → s.use_raw_xml ≡ false
      → process_sized qt none handle s ≡ (
          if ltb_ℤ (pos s.bytes_received) (content_length qt s.http_headers)
          then waiting s
          else finished (reset (complete qt none handle s s.request_buffer)))
  unfolding process_sized
  process_sized_parsed s parsed =
      ap
        (λ t.
          if ltb_ℤ (pos t.bytes_received) (content_length qt t.http_headers)
          then waiting t
          else finished (reset (complete qt none handle t t.request_buffer)))
        (flush_parsed s parsed)

  process_sized-eq-waiting :
      (s s1 : Socket) → s.use_raw_xml ≡ false → process_sized qt none handle s ≡ waiting s1 → s ≡ s1
  process_sized-eq-waiting s s1 parsed h =
      let w = sym (process_sized_parsed s parsed) ∙ h in
      elim (Bool-cases (ltb_ℤ (pos s.bytes_received) (content_length qt s.http_headers))) [
        | inl e ↦ waiting-injective s s1 (rw e at w)
        | inr e ↦ absurd (cc (rw e at w))
      ]

  process_body_chunked :
      (fuel : ℕ) (s : Socket)
      → is_chunked s.http_headers ≡ true
      → process_body qt none handle fuel s ≡ process_chunked qt none handle fuel s
  unfolding process_body
  process_body_chunked fuel s e = rw e

  process_body_sized :
      (fuel : ℕ) (s : Socket)
      → is_chunked s.http_headers ≡ false
      → process_body qt none handle fuel s ≡ process_sized qt none handle s
  unfolding process_body
  process_body_sized fuel s e = rw e

  -- The headers that are complete in the buffer are not empty: the request line has its three words.
  abbrev pub HasRequestLine : Text → Type 0
  HasRequestLine buffer =
      (header body : Text)
      → split_headers_and_data buffer ≡ some (header, body)
      → is_empty (parse_headers qt header) ≡ false

  -- The state in which the body of a request begins.
  abbrev started : Socket → Text → Text → Socket
  started s header body = record s {
    http_headers = parse_headers qt header;
    request_buffer = body;
    bytes_received = length body;
    use_raw_xml = false;
  }

  process_ready :
      (fuel : ℕ) (s : Socket)
      → is_empty s.http_headers ≡ false
      → process qt none handle fuel s ≡ process_body qt none handle fuel s
  unfolding process take_headers
  process_ready fuel s e = rw (e, process, take_headers)

  process_unsplit :
      (fuel : ℕ) (s : Socket)
      → is_empty s.http_headers ≡ true
      → split_headers_and_data s.request_buffer ≡ none
      → process qt none handle fuel s ≡ waiting s
  unfolding process take_headers
  process_unsplit fuel s e p = rw (e, p, process, take_headers)

  process_split :
      (fuel : ℕ) (s : Socket) (header body : Text)
      → is_empty s.http_headers ≡ true
      → split_headers_and_data s.request_buffer ≡ some (header, body)
      → process qt none handle fuel s ≡ process_body qt none handle fuel (started s header body)
  unfolding process take_headers start_request
  process_split fuel s header body e p = rw (e, p, process, take_headers)

  started_more :
      (s : Socket) (header body : Text) (t : List Text)
      → started (read_all s t) header (body ++ concat t) ≡ read_all (started s header body) t
  unfolding read_all
  started_more s header body t = λ i. record s {
    http_headers = parse_headers qt header;
    request_buffer = body ++ concat t;
    bytes_received = length-append body (concat t) i;
    use_raw_xml = false;
  }

  slot_enabled :
      (fuel : ℕ) (s : Socket) (blocks : List Text)
      → s.socket_enabled ≡ true
      → slot_ready_read qt none handle fuel s (record { blocks = blocks; failed = false })
        ≡ process qt none handle fuel (read_all (count_connection s) blocks)
  unfolding slot_ready_read
  slot_enabled fuel s blocks e = rw e

  module _ (fuel : ℕ) where
    process_body_more :
        (u s1 : Socket) (t : List Text)
        → u.use_raw_xml ≡ false
        → HasPlainSizes qt (u.request_buffer ++ concat t)
        → length (u.request_buffer ++ concat t) < fuel
        → process_body qt none handle fuel u ≡ waiting s1
        → Keeps u s1
          × (process_body qt none handle fuel (read_all s1 t)
              ≡ process_body qt none handle fuel (read_all u t))
    unfolding read_all
    process_body_more u s1 t parsed sizes enough h = elim (Bool-cases (is_chunked u.http_headers)) [
      | inl e ↦
          let w = sym (process_body_chunked fuel u e) ∙ h in
          let (kept, same) = process_chunked_more qt handle fuel u s1 t parsed sizes enough w in
          (
            kept,
            process_body_chunked fuel (read_all s1 t) (ap is_chunked kept.0 ∙ e)
                ∙ same
                ∙ sym (process_body_chunked fuel (read_all u t) e),
          )
      | inr e ↦
          let w = sym (process_body_sized fuel u e) ∙ h in
          let same = process_sized-eq-waiting u s1 parsed w in
          (
            subst (Keeps u) same (refl, refl, refl, refl),
            ap (λ s. process_body qt none handle fuel (read_all s t)) (sym same),
          )
    ]

    process_more :
        (u s1 : Socket) (t : List Text)
        → u.use_raw_xml ≡ false
        → HasRequestLine u.request_buffer
        → HasPlainSizes qt (u.request_buffer ++ concat t)
        → length (u.request_buffer ++ concat t) < fuel
        → process qt none handle fuel u ≡ waiting s1
        → (s1.received_data ≡ u.received_data)
          × (s1.socket_enabled ≡ u.socket_enabled)
          × (process qt none handle fuel (read_all s1 t)
              ≡ process qt none handle fuel (read_all u t))
    unfolding read_all
    process_more u s1 t parsed wf sizes enough h = elim (Bool-cases (is_empty u.http_headers)) [
      | inr e ↦
          let w = sym (process_ready fuel u e) ∙ h in
          let ((headers, received, enabled, _), same) =
            process_body_more u s1 t parsed sizes enough w in
          (
            received,
            enabled,
            process_ready fuel (read_all s1 t) (ap is_empty headers ∙ e)
                ∙ same
                ∙ sym (process_ready fuel (read_all u t) e),
          )
      | inl e ↦ elim (Option-cases (split_headers_and_data u.request_buffer)) [
        | inl p ↦
            let same = waiting-injective u s1 (sym (process_unsplit fuel u e p) ∙ h) in
            (
              ap (λ s. s.received_data) (sym same),
              ap (λ s. s.socket_enabled) (sym same),
              ap (λ s. process qt none handle fuel (read_all s t)) (sym same),
            )
        | inr ((header, body), p) ↦
            let v = started u header body in
            let w = sym (process_split fuel u header body e p) ∙ h in
            let filled = wf header body p in
            let (whole, _) = split_headers_and_data-parts u.request_buffer header body p in
            let body_sizes = plain_body qt u.request_buffer header body (concat t) whole sizes in
            let room : length (body ++ concat t) < fuel =
              shorter u.request_buffer header body (concat t) fuel whole enough in
            let ((headers, received, enabled, _), same) =
              process_body_more v s1 t refl body_sizes room w in
            (
              received,
              enabled,
              process_ready fuel (read_all s1 t) (ap is_empty headers ∙ filled)
                  ∙ same
                  ∙ sym (
                      process_split fuel (read_all u t) header (body ++ concat t) e
                        (split_headers_and_data-append u.request_buffer (concat t) header body p)
                      ∙ ap (process_body qt none handle fuel) (started_more u header body t)),
            )
      ]
    ]

    -- A request that is read in two deliveries has the result of the one delivery with the blocks
    -- of both, sized or chunked, where the first leaves it incomplete, no raw XML interface is
    -- there, no read fails, a request line that has come has its three words, no text before the
    -- end of a line in the request is read as a chunk size that is negative or does not fit in 32
    -- bits with the length of the request, and the fuel exceeds the number of bytes.
    pub slot_ready_read-append :
        (s s1 : Socket) (first second : List Text)
        → s.use_raw_xml ≡ false
        → s.socket_enabled ≡ true
        → HasRequestLine (s.request_buffer ++ concat first)
        → HasPlainSizes qt (s.request_buffer ++ concat (first ++ second))
        → length (s.request_buffer ++ concat (first ++ second)) < fuel
        → slot_ready_read qt none handle fuel s (record { blocks = first; failed = false })
          ≡ waiting s1
        → slot_ready_read qt none handle fuel s1 (record { blocks = second; failed = false })
          ≡ slot_ready_read qt none handle fuel s
              (record { blocks = first ++ second; failed = false })
    unfolding read_all
    slot_ready_read-append s s1 first second parsed enabled line sizes enough h =
        let c = count_connection s in
        let (marked, same_enabled, same_raw, same_buffer) = count_connection-Counted s in
        let u = read_all c first in
        let w = sym (slot_enabled fuel s first enabled) ∙ h in
        let buffers : u.request_buffer ≡ s.request_buffer ++ concat first =
          ap (λ b. b ++ concat first) same_buffer in
        let joined : u.request_buffer ++ concat second
            ≡ s.request_buffer ++ concat (first ++ second) =
          ap (λ b. (b ++ concat first) ++ concat second) same_buffer
          ∙ append_assoc s.request_buffer (concat first) (concat second)
          ∙ ap (λ b. s.request_buffer ++ b) (sym (concat-append first second)) in
        let (received, still, same) =
          process_more u s1 second (same_raw ∙ parsed) (subst HasRequestLine (sym buffers) line)
            (subst (HasPlainSizes qt) (sym joined) sizes)
            (subst (λ b. length b < fuel) (sym joined) enough) w in
        slot_enabled fuel s1 second (still ∙ same_enabled ∙ enabled)
        ∙ ap (λ x. process qt none handle fuel (read_all x second))
            (count_connection_again s1 (received ∙ marked))
        ∙ same
        ∙ ap (process qt none handle fuel) (read_all-append c first second)
        ∙ sym (slot_enabled fuel s (first ++ second) enabled)
