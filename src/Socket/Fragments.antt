-- ===== src/Socket/Fragments.antt =====
-- A request does not depend on how the network cuts it up.
use kdsoap.Prelude.{
  ℕ, ◌+◌, ◌<◌, Text, List, [], map, map-append, ◌∷◌, ◌++◌, append_assoc, append-nil, none,
  Option-cases, Bool-cases, true, false, arith, inl, inr, ◌≡◌, refl, sym, ◌∙◌, ap, subst, ℤ, length,
  length-append, concat, index_of,
}
use kdsoap.Headers.{Headers}
use kdsoap.Http.{end_of_headers}
use kdsoap.Platform.{Qt}
use kdsoap.Socket.{
  Socket, Progress, waiting, rejected, diverged, Scan, scan_wait, scan_bad, scan_over,
  scan_diverged, prepend, deliver, scan, read_all, after_chunks, after_scan, process_chunked,
  raw_process_xml, append_trace, bad_request, written,
}
use kdsoap.Socket.Chunks.{HasPlainSizes}
use kdsoap.Socket.Scans.{prepends}
use kdsoap.Socket.Fuel.{scan-append_wait_at, scan-append_over_at}

pub concat-append : (a b : List Text) → concat (a ++ b) ≡ concat a ++ concat b
concat-append [] b = refl
concat-append (x ∷ a) b =
    ap (λ t. x ++ t) (concat-append a b) ∙ sym (append_assoc x (concat a) (concat b))

pub read_all-append :
    (s : Socket) (a b : List Text) → read_all (read_all s a) b ≡ read_all s (a ++ b)
unfolding read_all
read_all-append s a b = λ i. record s {
  request_buffer =
      (append_assoc s.request_buffer (concat a) (concat b)
          ∙ ap (λ t. s.request_buffer ++ t) (sym (concat-append a b)))
        i;
  bytes_received = sum i;
}
  where
    sum :
        s.bytes_received + length (concat a) + length (concat b)
        ≡ s.bytes_received + length (concat (a ++ b))
    sum = rw (concat-append a b) (omega (arith, length-append (concat a) (concat b)))

deliver_parsed :
    (s : Socket) (cs : List Text)
    → s.use_raw_xml ≡ false
    → deliver s cs ≡ record s { decoded_request_buffer = s.decoded_request_buffer ++ concat cs }
unfolding deliver
deliver_parsed s cs h = simp h

deliver_raw :
    (s : Socket) (cs : List Text)
    → s.use_raw_xml ≡ true
    → deliver s cs ≡ append_trace s (map raw_process_xml cs)
unfolding deliver
deliver_raw s cs h = simp h

deliver-append : (s : Socket) (a b : List Text) → deliver s (a ++ b) ≡ deliver (deliver s a) b
deliver-append s a b = elim (Bool-cases s.use_raw_xml) [
  | inl e ↦
      deliver_raw s (a ++ b) e
      ∙ ap (λ es. record s { trace = es })
          (ap (λ es. s.trace ++ es) (map-append raw_process_xml a b)
            ∙ sym (append_assoc s.trace (map raw_process_xml a) (map raw_process_xml b)))
      ∙ sym (ap (λ t. deliver t b) (deliver_raw s a e) ∙ deliver_raw _ b e)
  | inr e ↦
      deliver_parsed s (a ++ b) e
      ∙ ap (λ d. record s { decoded_request_buffer = d })
          (ap (λ d. s.decoded_request_buffer ++ d) (concat-append a b)
            ∙ sym (append_assoc s.decoded_request_buffer (concat a) (concat b)))
      ∙ sym (ap (λ t. deliver t b) (deliver_parsed s a e) ∙ deliver_parsed _ b e)
]

pub waiting-injective : (s s1 : Socket) → waiting s ≡ waiting s1 → s ≡ s1
waiting-injective s s1 h = cc h

abbrev pub Keeps : Socket → Socket → Type 0
Keeps s t =
    (t.http_headers ≡ s.http_headers)
    × (t.received_data ≡ s.received_data)
    × (t.socket_enabled ≡ s.socket_enabled)
    × (t.use_raw_xml ≡ s.use_raw_xml)

joined :
    (s : Socket) (c : Text) (cs : List Text)
    → (s.decoded_request_buffer ++ c) ++ concat cs ≡ s.decoded_request_buffer ++ (c ++ concat cs)
joined s c cs = append_assoc s.decoded_request_buffer c (concat cs)

module _ (qt : Qt) (handle : Socket → Headers → Text → Socket) where
  -- after_scan for a request that is parsed here.
  after_parsed : Socket → Scan → Progress
  after_parsed s (scan_wait cs start) = waiting (record s {
    decoded_request_buffer = s.decoded_request_buffer ++ concat cs;
    chunk_start = start;
  })
  after_parsed s (scan_bad cs start) = rejected (record s {
    decoded_request_buffer = s.decoded_request_buffer ++ concat cs;
    chunk_start = start;
    trace = s.trace ++ written bad_request ∷ [];
  })
  after_parsed s (scan_over cs buf start) = after_chunks qt none handle (record s {
    decoded_request_buffer = s.decoded_request_buffer ++ concat cs;
    chunk_start = start;
    request_buffer = buf;
  })
  after_parsed s scan_diverged = diverged

  after_scan_parsed :
      (s : Socket) (r : Scan)
      → s.use_raw_xml ≡ false
      → after_scan qt none handle s r ≡ after_parsed s r
  unfolding after_scan after_parsed
  after_scan_parsed s (scan_wait cs start) h =
      ap (λ t. waiting (record t { chunk_start = start })) (deliver_parsed s cs h)
  after_scan_parsed s (scan_bad cs start) h =
      ap
        (λ t. rejected (append_trace (record t { chunk_start = start }) (written bad_request ∷ [])))
        (deliver_parsed s cs h)
  after_scan_parsed s (scan_over cs buf start) h =
      ap (λ t. after_chunks qt none handle (record t { chunk_start = start; request_buffer = buf }))
        (deliver_parsed s cs h)
  after_scan_parsed s scan_diverged h = refl

  -- Where the chunks begin is not looked at any more.
  after_parsed_start :
      (s : Socket) (start : ℤ) (r : Scan)
      → after_parsed (record s { chunk_start = start }) r ≡ after_parsed s r
  unfolding after_parsed
  after_parsed_start s start (scan_wait cs stop) = refl
  after_parsed_start s start (scan_bad cs stop) = refl
  after_parsed_start s start (scan_over cs buf stop) = refl
  after_parsed_start s start scan_diverged = refl

  after_parsed-prepend :
      (s : Socket) (c : Text) (r : Scan)
      → after_parsed (record s { decoded_request_buffer = s.decoded_request_buffer ++ c }) r
        ≡ after_parsed s (prepend c r)
  unfolding after_parsed prepend
  after_parsed-prepend s c (scan_wait cs stop) =
      λ i. waiting (record s { decoded_request_buffer = joined s c cs i; chunk_start = stop })
  after_parsed-prepend s c (scan_bad cs stop) = λ i. rejected (record s {
    decoded_request_buffer = joined s c cs i;
    chunk_start = stop;
    trace = s.trace ++ written bad_request ∷ [];
  })
  after_parsed-prepend s c (scan_over cs buf stop) = λ i. after_chunks qt none handle (record s {
    decoded_request_buffer = joined s c cs i;
    chunk_start = stop;
    request_buffer = buf;
  })
  after_parsed-prepend s c scan_diverged = refl

  -- Chunks taken earlier may as well be taken now.
  after_parsed-prepends :
      (s : Socket) (cs : List Text) (r : Scan)
      → after_parsed (record s { decoded_request_buffer = s.decoded_request_buffer ++ concat cs }) r
        ≡ after_parsed s (prepends cs r)
  after_parsed-prepends s [] r =
      ap (λ d. after_parsed (record s { decoded_request_buffer = d }) r)
        (append-nil s.decoded_request_buffer)
  after_parsed-prepends s (c ∷ cs) r =
      ap (λ d. after_parsed (record s { decoded_request_buffer = d }) r) (sym (joined s c cs))
      ∙ after_parsed-prepends (record s { decoded_request_buffer = s.decoded_request_buffer ++ c })
          cs r
      ∙ after_parsed-prepend s c (prepends cs r)

  after_chunks-eq-waiting : (s s1 : Socket) → after_chunks qt none handle s ≡ waiting s1 → s1 ≡ s
  unfolding after_chunks
  after_chunks-eq-waiting s s1 h = elim (Option-cases (index_of s.request_buffer end_of_headers)) [
    | inl e ↦ sym (waiting-injective s s1 (rw (e, after_chunks) at h))
    | inr (i, e) ↦ absurd (cc (rw (e, after_chunks) at h))
  ]

  process_chunked_parsed :
      (fuel : ℕ) (u : Socket)
      → u.use_raw_xml ≡ false
      → process_chunked qt none handle fuel u
        ≡ after_parsed u (scan qt fuel u.request_buffer u.chunk_start)
  unfolding process_chunked
  process_chunked_parsed fuel u h = after_scan_parsed u _ h

  -- What stays while a request waits.
  after_parsed-Keeps :
      (u : Socket) (r : Scan) (s1 : Socket) → after_parsed u r ≡ waiting s1 → Keeps u s1
  unfolding after_parsed
  after_parsed-Keeps u (scan_wait cs stop) s1 h =
      subst (Keeps u) (waiting-injective _ s1 h) (refl, refl, refl, refl)
  after_parsed-Keeps u (scan_bad cs stop) s1 h = absurd (cc h)
  after_parsed-Keeps u (scan_over cs buf stop) s1 h =
      subst (Keeps u) (sym (after_chunks-eq-waiting _ s1 h)) (refl, refl, refl, refl)
  after_parsed-Keeps u scan_diverged s1 h = absurd (cc h)

  -- What a request that waits in its chunks does with more data.
  module _ (fuel : ℕ) where
    after_parsed_more :
        (u : Socket) (r : Scan) (s1 : Socket) (t : List Text)
        → HasPlainSizes qt (u.request_buffer ++ concat t)
        → length (u.request_buffer ++ concat t) < fuel
        → scan qt fuel u.request_buffer u.chunk_start ≡ r
        → after_parsed u r ≡ waiting s1
        → after_parsed (read_all s1 t) (scan qt fuel (s1.request_buffer ++ concat t) s1.chunk_start)
          ≡ after_parsed (read_all u t) (scan qt fuel (u.request_buffer ++ concat t) u.chunk_start)
    unfolding after_parsed read_all
    after_parsed_more u (scan_wait cs stop) s1 t sizes enough e h =
        let goes_on =
          scan-append_wait_at qt fuel fuel u.request_buffer (concat t) u.chunk_start cs stop sizes
            enough e in
        subst
          (λ s.
            after_parsed (read_all s t) (scan qt fuel (s.request_buffer ++ concat t) s.chunk_start)
            ≡ after_parsed (read_all u t)
                (scan qt fuel (u.request_buffer ++ concat t) u.chunk_start))
          (waiting-injective _ s1 h)
          (after_parsed_start
              (record (read_all u t) {
                decoded_request_buffer = u.decoded_request_buffer ++ concat cs;
              })
              stop _
            ∙ after_parsed-prepends (read_all u t) cs _
            ∙ sym (ap (after_parsed (read_all u t)) goes_on))
    after_parsed_more u (scan_bad cs stop) s1 t sizes enough e h = absurd (cc h)
    after_parsed_more u (scan_over cs buf stop) s1 t sizes enough e h =
        let (again, goes_on) =
          scan-append_over_at qt fuel fuel u.request_buffer (concat t) u.chunk_start cs buf stop
            sizes enough e in
        subst
          (λ s.
            after_parsed (read_all s t) (scan qt fuel (s.request_buffer ++ concat t) s.chunk_start)
            ≡ after_parsed (read_all u t)
                (scan qt fuel (u.request_buffer ++ concat t) u.chunk_start))
          (sym (after_chunks-eq-waiting _ s1 h))
          (ap
              (after_parsed (
                read_all
                  (record u {
                    decoded_request_buffer = u.decoded_request_buffer ++ concat cs;
                    chunk_start = stop;
                    request_buffer = buf;
                  })
                  t))
              again
            ∙ ap
                (λ d. after_chunks qt none handle (record (read_all u t) {
                  decoded_request_buffer = d;
                  chunk_start = stop;
                  request_buffer = buf ++ concat t;
                }))
                (append-nil (u.decoded_request_buffer ++ concat cs))
            ∙ sym (ap (after_parsed (read_all u t)) goes_on))
    after_parsed_more u scan_diverged s1 t sizes enough e h = absurd (cc h)

    pub process_chunked_more :
        (u s1 : Socket) (t : List Text)
        → u.use_raw_xml ≡ false
        → HasPlainSizes qt (u.request_buffer ++ concat t)
        → length (u.request_buffer ++ concat t) < fuel
        → process_chunked qt none handle fuel u ≡ waiting s1
        → Keeps u s1
          × (process_chunked qt none handle fuel (read_all s1 t)
              ≡ process_chunked qt none handle fuel (read_all u t))
    unfolding read_all
    process_chunked_more u s1 t parsed sizes enough h =
        let w = sym (process_chunked_parsed fuel u parsed) ∙ h in
        let kept = after_parsed-Keeps u _ s1 w in
        let (_, _, _, raw_same) = kept in
        (
          kept,
          process_chunked_parsed fuel (read_all s1 t) (raw_same ∙ parsed)
              ∙ after_parsed_more u _ s1 t sizes enough refl w
              ∙ sym (process_chunked_parsed fuel (read_all u t) parsed),
        )
