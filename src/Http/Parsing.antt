-- ===== src/Http/Parsing.antt =====
-- What the parsed headers of a request hold: parseHeaders of
-- src/KDSoapServer/KDSoapServerSocket.cpp.
use kdsoap.Prelude.{
  Text, List, [], ◌∷◌, Option, Option-cases, none, some, Bool-cases, if◌then◌else◌, arith, inl, inr,
  ◌≡◌, refl, ◌∙◌, ap, eq_text, eq_text_iff,
}
use kdsoap.Headers.{Headers, insert, find}
use kdsoap.Http.{header_name, header_value, insert_lines}

-- The value on the last line of that name.
abbrev pub last_value : Text → List Text → Option Text
last_value k [] = none
last_value k (line ∷ rest) = elim (last_value k rest) [
  | none ↦ if eq_text (header_name line) k then some (header_value line) else none
  | some v ↦ some v
]

find-insert :
    (k j v : Text) (m : Headers)
    → find k (insert j v m) ≡ (if eq_text j k then some v else find k m)
unfolding find insert
find-insert k j v [] = refl
find-insert k j v ((i, w) ∷ m) =
    ground (arith, eq_text_iff i j, eq_text_iff i k, eq_text_iff j k, find-insert k j v m)

insert_lines_step :
    (m : Headers) (line : Text) (rest : List Text)
    → insert_lines m (line ∷ rest)
      ≡ insert_lines (insert (header_name line) (header_value line) m) rest
unfolding insert_lines header_name header_value
insert_lines_step m line rest = refl

-- After the loop over the header lines a header has the value of the last line of its name, also
-- where it is a pseudo-header of the request line, and its former value where no line has its
-- name.
pub find-insert_lines :
    (k : Text) (lines : List Text) (m : Headers)
    → find k (insert_lines m lines)
      ≡ elim (last_value k lines) [ none ↦ find k m | some v ↦ some v ]
unfolding insert_lines
find-insert_lines k [] m = refl
find-insert_lines k (line ∷ rest) m =
    let kept : Headers = insert (header_name line) (header_value line) m in
    let before =
      ap (find k) (insert_lines_step m line rest)
      ∙ find-insert_lines k rest kept
      ∙ ap (λ o. elim (last_value k rest) [ none ↦ o | some v ↦ some v ])
          (find-insert k (header_name line) (header_value line) m) in
    elim (Option-cases (last_value k rest)) [
      | inl e ↦ elim (Bool-cases (eq_text (header_name line) k)) [
        | inl f ↦ before ∙ rw (e, f)
        | inr f ↦ before ∙ rw (e, f)
      ]
      | inr (v, e) ↦ before ∙ rw e
    ]
