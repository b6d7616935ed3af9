-- ===== src/Socket/Chunks.antt =====
-- One round of the loop over the chunks: what it finds stays where it is when more data comes.
use kdsoap.Prelude.{
  ℕ, ◌+◌, ◌-◌, ◌≤◌, ◌<◌, Text, [], ◌++◌, append_assoc, some, Option-cases, arith, inl, inr, ◌≡◌,
  subst, ℤ, pos, negsuc, length, length-append, length-drop, take, drop, take-append_le,
  drop-append_le, take-append-drop, drop-drop, starts_with-eq_append, wrap_int32-eq, ◌^◌, sym, ap,
  ◌∙◌, index_of, index_of-found, index_of-append,
}
use kdsoap.Http.{crlf}
use kdsoap.Platform.{Qt}
use kdsoap.Socket.{ChunkStep, last_chunk, next_chunk, next_eol, mid, chunk_of_size, chunk_step}

-- No text that stands before the end of a line in the data is read as a negative size, as
-- QByteArray::toInt reads it where it has a minus sign, or as one that does not fit in 32 bits with
-- the length of the data.
abbrev pub HasPlainSizes : Qt → Text → Type 0
HasPlainSizes qt buf =
    (before line after : Text) (n : ℤ)
    → buf ≡ before ++ (line ++ (crlf ++ after))
    → qt.to_int_hex line ≡ some n
    → (k : ℕ) × (n ≡ pos k) × (k + length buf + 2 < 2 ^ 31)

-- The same of a part of the data.
pub HasPlainSizes-part :
    (qt : Qt) (a b c : Text) → HasPlainSizes qt (a ++ (b ++ c)) → HasPlainSizes qt b
HasPlainSizes-part qt a b c sizes before line after n e parsed =
    let (k, same, fits) =
      sizes (a ++ before) line (after ++ c) n
        (ap (λ t. a ++ (t ++ c)) e
          ∙ ap (λ t. a ++ t) (simp append_assoc)
          ∙ sym (append_assoc a before (line ++ (crlf ++ (after ++ c)))))
        parsed in
    (k, same, omega (arith, length-append a (b ++ c), length-append b c))

pub HasPlainSizes-prefix : (qt : Qt) (b c : Text) → HasPlainSizes qt (b ++ c) → HasPlainSizes qt b
HasPlainSizes-prefix qt b c sizes = HasPlainSizes-part qt [] b c sizes

pub next_eol-found :
    (buf : Text) (start eol : ℕ)
    → next_eol buf start ≡ some eol
    → (start ≤ eol) × (eol + 2 ≤ length buf) × (start ≤ length buf)
unfolding next_eol
next_eol-found buf start eol h = elim (Option-cases (index_of (drop start buf) crlf)) [
  | inl e ↦ ground arith
  | inr (i, e) ↦
      let (_, inside) = index_of-found crlf (drop start buf) i e in
      let at : start + i ≡ eol = ground arith in
      let room : i + 2 ≤ length buf - start =
        subst (λ n. i + 2 ≤ n) (length-drop start buf) inside in
      (omega arith, omega arith, omega arith)
]

next_eol-starts :
    (buf : Text) (start eol : ℕ)
    → next_eol buf start ≡ some eol
    → (start ≤ eol) × (drop (eol - start) (drop start buf) ≡ crlf ++ drop (eol + 2) buf)
unfolding next_eol
next_eol-starts buf start eol h = elim (Option-cases (index_of (drop start buf) crlf)) [
  | inl e ↦ ground arith
  | inr (i, e) ↦
      let (there, _) = index_of-found crlf (drop start buf) i e in
      let rest = starts_with-eq_append (drop i (drop start buf)) crlf there in
      let at : eol ≡ start + i = ground arith in
      let back : start + i - start ≡ i = omega arith in
      let far : start + i + 2 ≡ start + (i + 2) = omega arith in
      (
        omega arith,
        rw (at, back, far)
            (rest
              ∙ ap (λ t. crlf ++ t) (drop-drop i 2 (drop start buf) ∙ drop-drop start (i + 2) buf)),
      )
]

next_eol-append :
    (buf t : Text) (start eol : ℕ)
    → next_eol buf start ≡ some eol
    → next_eol (buf ++ t) start ≡ some eol
unfolding next_eol
next_eol-append buf t start eol h = elim (Option-cases (index_of (drop start buf) crlf)) [
  | inl e ↦ ground arith
  | inr (i, e) ↦
      let (_, _, inside) = next_eol-found buf start eol h in
      let found = index_of-append crlf (drop start buf) t i e in
      rw (drop-append_le start buf t inside, found, next_eol) (rw (e, next_eol) at h)
]

mid-append :
    (buf t : Text) (p n : ℕ) → p + n ≤ length buf → mid (buf ++ t) p (pos n) ≡ mid buf p (pos n)
unfolding mid
mid-append buf t p n h =
    rw (drop-append_le p buf t (omega arith))
      (take-append_le n (drop p buf) t (omega (arith, length-drop p buf)))

abbrev IsPlain : Text → ℤ → Type 0
IsPlain buf size = (k : ℕ) × (size ≡ pos k) × (k + length buf + 2 < 2 ^ 31)

chunk_of_size-next :
    (buf t : Text) (eol : ℕ) (size : ℤ) (c : Text) (next : ℤ)
    → eol + 2 ≤ length buf
    → IsPlain buf size
    → chunk_of_size buf eol size ≡ next_chunk c next
    → chunk_of_size (buf ++ t) eol size ≡ next_chunk c next
unfolding chunk_of_size
chunk_of_size-next buf t eol (pos n) c next room (k, e, fits) h =
    let same = wrap_int32-eq (eol + 2 + 2 + n) (ground arith) in
    ground (arith, length-append buf t, mid-append buf t (eol + 2) n)
chunk_of_size-next buf t eol (negsuc n) c next room (k, e, fits) h = absurd (cc e)

chunk_of_size-last :
    (buf t : Text) (eol : ℕ) (size : ℤ) (rest : Text)
    → eol ≤ length buf
    → chunk_of_size buf eol size ≡ last_chunk rest
    → chunk_of_size (buf ++ t) eol size ≡ last_chunk (rest ++ t)
unfolding chunk_of_size
chunk_of_size-last buf t eol size rest p h = ground (arith, drop-append_le eol buf t p)

-- Where the next chunk begins.
chunk_of_size-advance :
    (buf : Text) (eol : ℕ) (size : ℤ) (c : Text) (next : ℤ)
    → eol + 2 ≤ length buf
    → IsPlain buf size
    → chunk_of_size buf eol size ≡ next_chunk c next
    → (n : ℕ) × (next ≡ pos n) × (eol < n) × (n < length buf)
unfolding chunk_of_size
chunk_of_size-advance buf eol (pos n) c next room (k, e, fits) h =
    let same = wrap_int32-eq (eol + 2 + 2 + n) (ground arith) in
    (eol + 2 + 2 + n, ground arith, ground arith, ground arith)
chunk_of_size-advance buf eol (negsuc n) c next room (k, e, fits) h = absurd (cc e)

module _ (qt : Qt) where
  open qt use {to_int_hex}

  -- What a round has found when it gets to a chunk.
  record Found (buf : Text) (start : ℕ) (r : ChunkStep) : Type 0 where
    eol : ℕ
    size : ℤ
    line_end : next_eol buf start ≡ some eol
    parsed : to_int_hex (take (eol - start) (drop start buf)) ≡ some size
    result : chunk_of_size buf eol size ≡ r

  Found-next :
      (buf : Text) (start : ℕ) (c : Text) (next : ℤ)
      → chunk_step qt buf start ≡ next_chunk c next
      → Found buf start (next_chunk c next)
  unfolding chunk_step
  Found-next buf start c next h = elim (Option-cases (next_eol buf start)) [
    | inl e ↦ ground arith
    | inr (eol, e) ↦ elim (Option-cases (to_int_hex (take (eol - start) (drop start buf)))) [
      | inl f ↦ ground arith
      | inr (size, f) ↦ record {
        eol = eol;
        size = size;
        line_end = e;
        parsed = f;
        result = ground arith;
      }
    ]
  ]

  Found-last :
      (buf : Text) (start : ℕ) (rest : Text)
      → chunk_step qt buf start ≡ last_chunk rest
      → Found buf start (last_chunk rest)
  unfolding chunk_step
  Found-last buf start rest h = elim (Option-cases (next_eol buf start)) [
    | inl e ↦ ground arith
    | inr (eol, e) ↦ elim (Option-cases (to_int_hex (take (eol - start) (drop start buf)))) [
      | inl f ↦ ground arith
      | inr (size, f) ↦ record {
        eol = eol;
        size = size;
        line_end = e;
        parsed = f;
        result = ground arith;
      }
    ]
  ]

  -- A round from its parts.
  pub chunk_step-found :
      (buf : Text) (start : ℕ) (r : ChunkStep) (eol : ℕ) (size : ℤ)
      → next_eol buf start ≡ some eol
      → to_int_hex (take (eol - start) (drop start buf)) ≡ some size
      → chunk_of_size buf eol size ≡ r
      → chunk_step qt buf start ≡ r
  unfolding chunk_step
  chunk_step-found buf start r eol size e f g = rw (e, chunk_step) (rw f g)

  -- The size line is the same when more data follows.
  size_line-append :
      (buf t : Text) (start eol : ℕ)
      → next_eol buf start ≡ some eol
      → take (eol - start) (drop start (buf ++ t)) ≡ take (eol - start) (drop start buf)
  size_line-append buf t start eol e =
      let (order, room, inside) = next_eol-found buf start eol e in
      rw (drop-append_le start buf t inside)
        (take-append_le (eol - start) (drop start buf) t (omega (arith, length-drop start buf)))

  -- The size line stands before the end of a line.
  size_line :
      (buf : Text) (start eol : ℕ)
      → next_eol buf start ≡ some eol
      → buf
        ≡ take start buf ++ (take (eol - start) (drop start buf) ++ (crlf ++ drop (eol + 2) buf))
  size_line buf start eol e =
      let (order, there) = next_eol-starts buf start eol e in
      sym (take-append-drop start buf)
      ∙ ap (λ t. take start buf ++ t)
          (sym (take-append-drop (eol - start) (drop start buf))
            ∙ ap (λ t. take (eol - start) (drop start buf) ++ t) there)

  module _ (buf : Text) (sizes : HasPlainSizes qt buf) where
    plain : {start : ℕ} {r : ChunkStep} (f : Found buf start r) → IsPlain buf f.size
    plain {start} f =
        sizes (take start buf) (take (f.eol - start) (drop start buf)) (drop (f.eol + 2) buf) f.size
          (size_line buf start f.eol f.line_end) f.parsed

    pub chunk_step-next :
        (t : Text) (start : ℕ) (c : Text) (next : ℤ)
        → chunk_step qt buf start ≡ next_chunk c next
        → chunk_step qt (buf ++ t) start ≡ next_chunk c next
    chunk_step-next t start c next h =
        let f = Found-next buf start c next h in
        let (_, room, _) = next_eol-found buf start f.eol f.line_end in
        chunk_step-found (buf ++ t) start (next_chunk c next) f.eol f.size
          (next_eol-append buf t start f.eol f.line_end)
          (rw (size_line-append buf t start f.eol f.line_end) f.parsed)
          (chunk_of_size-next buf t f.eol f.size c next room (plain f) f.result)

    pub chunk_step-last :
        (t : Text) (start : ℕ) (rest : Text)
        → chunk_step qt buf start ≡ last_chunk rest
        → chunk_step qt (buf ++ t) start ≡ last_chunk (rest ++ t)
    chunk_step-last t start rest h =
        let f = Found-last buf start rest h in
        let (_, room, _) = next_eol-found buf start f.eol f.line_end in
        chunk_step-found (buf ++ t) start (last_chunk (rest ++ t)) f.eol f.size
          (next_eol-append buf t start f.eol f.line_end)
          (rw (size_line-append buf t start f.eol f.line_end) f.parsed)
          (chunk_of_size-last buf t f.eol f.size rest (omega arith) f.result)

    -- A chunk is passed by going forward, inside the buffer.
    pub chunk_step-advance :
        (start : ℕ) (c : Text) (next : ℤ)
        → chunk_step qt buf start ≡ next_chunk c next
        → (n : ℕ) × (next ≡ pos n) × (start < n) × (n < length buf)
    chunk_step-advance start c next h =
        let f = Found-next buf start c next h in
        let (order, room, _) = next_eol-found buf start f.eol f.line_end in
        let (n, same, forward, inside) =
          chunk_of_size-advance buf f.eol f.size c next room (plain f) f.result in
        (n, same, omega arith, inside)
