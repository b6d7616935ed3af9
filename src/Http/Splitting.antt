-- ===== src/Http/Splitting.antt =====
-- Where the headers of a request end: splitHeadersAndData of
-- src/KDSoapServer/KDSoapServerSocket.cpp.
use kdsoap.Prelude.{
  ℕ, ◌+◌, ◌≤◌, ◌<◌, Text, ◌++◌, some, Option-cases, Bool-cases, true, arith, inl, inr, ◌≡◌, refl,
  sym, ◌∙◌, ap, length, take, drop, ltb, ltb→lt, take-append_le, drop-append_le, take-append-drop,
  drop-drop, index_of, index_of-append, index_of-found, subst, length-take, starts_with-eq_append,
}
use kdsoap.Http.{end_of_headers, split_headers_and_data}

-- The place of the separator.
record Split (request header body : Text) : Type 0 where
  pub sep : ℕ
  pub at : index_of request end_of_headers ≡ some sep
  pub positive : ltb 0 sep ≡ true
  pub before : take sep request ≡ header
  pub behind : drop (sep + 4) request ≡ body

Split-cases :
    (request header body : Text)
    → split_headers_and_data request ≡ some (header, body)
    → Split request header body
unfolding split_headers_and_data
Split-cases request header body h = elim (Option-cases (index_of request end_of_headers)) [
  | inl e ↦ ground arith
  | inr (sep, e) ↦ elim (Bool-cases (ltb 0 sep)) [
    | inl p ↦ record {
      sep = sep;
      at = e;
      positive = p;
      before = ground arith;
      behind = ground arith;
    }
    | inr p ↦ ground arith
  ]
]

split_at :
    (request : Text) (sep : ℕ)
    → index_of request end_of_headers ≡ some sep
    → ltb 0 sep ≡ true
    → split_headers_and_data request ≡ some (take sep request, drop (sep + 4) request)
unfolding split_headers_and_data
split_at request sep e p = rw (e, split_headers_and_data) (rw p refl)

-- Headers that are complete in a buffer stay the same when more bytes follow, and those bytes are
-- appended to the data.
pub split_headers_and_data-append :
    (request more header body : Text)
    → split_headers_and_data request ≡ some (header, body)
    → split_headers_and_data (request ++ more) ≡ some (header, body ++ more)
split_headers_and_data-append request more header body h =
    let s = Split-cases request header body h in
    let (_, inside) = index_of-found end_of_headers request s.sep s.at in
    let room : s.sep + 4 ≤ length request = omega (arith, inside) in
    split_at (request ++ more) s.sep (index_of-append end_of_headers request more s.sep s.at)
      s.positive
    ∙ rw
        (
          take-append_le s.sep request more (omega arith),
          drop-append_le (s.sep + 4) request more room,
        )
        (λ i. some (s.before i, s.behind i ++ more))

-- A buffer that is split is its headers, the blank line and its data joined again, and the headers
-- are not empty.
pub split_headers_and_data-parts :
    (request header body : Text)
    → split_headers_and_data request ≡ some (header, body)
    → (request ≡ header ++ (end_of_headers ++ body)) × (0 < length header)
split_headers_and_data-parts request header body h =
    let s = Split-cases request header body h in
    let (there, inside) = index_of-found end_of_headers request s.sep s.at in
    let rest = starts_with-eq_append (drop s.sep request) end_of_headers there in
    let whole = sym (take-append-drop s.sep request) ∙ ap (λ t. take s.sep request ++ t) rest in
    (
      whole ∙ (λ i. s.before i ++ (end_of_headers ++ (drop-drop s.sep 4 request ∙ s.behind) i)),
      subst (λ t. 0 < length t) s.before
          (omega (arith, length-take s.sep request, ltb→lt 0 s.sep s.positive)),
    )
