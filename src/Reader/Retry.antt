-- ===== src/Reader/Retry.antt =====
-- The attempts of xmlToMessage of src/KDSoapClient/KDSoapMessageReader.cpp: what
-- handleNotWellFormedError gives back is shorter, so that they come to an end.
use kdsoap.Prelude.{
  ℕ, zero, suc, ◌-◌, ◌≤◌, ◌<◌, Text, [], ◌∷◌, ◌++◌, Option, Option-cases, none, some, Bool,
  Bool-cases, true, false, ◌||◌, ◌==◌, ==_iff, if◌then◌else◌, is_empty, length, length-append, take,
  drop, take-append-drop, starts_with, index_of_char, ◌≡◌, refl, ap, ap₂, sym, ◌∙◌, inl, inr, arith,
  append_assoc, append-nil, subst,
}
use mathlib.Core.List.{reverse, reverse-append, reverse-reverse}
use kdsoap.Request.{SoapVersion}
use kdsoap.Platform.{Qt}
use kdsoap.Value.{Variants}
use kdsoap.Reader.Envelope.{
  Stream, Failure, XmlError, no_error, is_not_well_formed, give_up, Pass, failure_of, cleaned_up,
  char_ref_back, replace_from, is_invalid_char_ref, without_char_ref, conclude,
  handle_not_well_formed_error, xml_to_message, read_document,
}

-- Whether an ampersand or a tag opens among the bytes.
has_opening : Text → Bool
has_opening [] = false
has_opening (c ∷ s) = (c == b'&') || (c == b'<') || has_opening s

reverse-cons : (c : ℕ) (s : Text) → reverse (c ∷ s) ≡ reverse s ++ c ∷ []
reverse-cons c s = reverse-append (c ∷ []) s

-- What is found backwards stands behind an ampersand.
char_ref_back-some :
    (before found char_ref : Text)
    → has_opening before ≡ true
    → char_ref_back before found ≡ some char_ref
    → (s : Text) × (reverse before ++ found ≡ s ++ (b'&' ∷ char_ref))
unfolding char_ref_back has_opening
char_ref_back-some [] found char_ref h e = absurd (ground (arith, h))
char_ref_back-some (c ∷ before) found char_ref h e = elim (Bool-cases (c == b'&')) [
  | inl k ↦
      let same : found ≡ char_ref = ground (arith, e, k) in
      let amp : c ≡ b'&' = (==_iff c b'&').0 k in
      (
        reverse before,
        ap (λ t. t ++ found) (reverse-cons c before)
            ∙ append_assoc (reverse before) (c ∷ []) found
            ∙ ap₂ (λ d t. reverse before ++ (d ∷ t)) amp same,
      )
  | inr k ↦ elim (Bool-cases (c == b'<')) [
    | inl k' ↦ absurd (ground (arith, e, k, k'))
    | inr k' ↦
        let (s, p) =
          char_ref_back-some before (c ∷ found) char_ref (ground (arith, h, k, k'))
            (ground (arith, e, k, k')) in
        (
          s,
          ap (λ t. t ++ found) (reverse-cons c before)
              ∙ append_assoc (reverse before) (c ∷ []) found
              ∙ p,
        )
  ]
]

replace_from-length :
    (b : Text) (k : ℕ) (s : Text) → 1 ≤ length b → length (replace_from b k s) ≤ length s - k
unfolding replace_from
replace_from-length b zero [] h = omega arith
replace_from-length b (suc k) [] h = omega arith
replace_from-length b (suc k) (c ∷ s) h = omega (arith, replace_from-length b k s h)
replace_from-length b zero (c ∷ s) h =
    ground (arith, replace_from-length b (length b - 1) s h, replace_from-length b 0 s h)

starts_with-append : (b s : Text) → starts_with (b ++ s) b ≡ true
unfolding starts_with
starts_with-append [] [] = refl
starts_with-append [] (c ∷ s) = refl
starts_with-append (c ∷ b) s = ground (arith, ==_iff c c, starts_with-append b s)

replace_from-lt :
    (b before after : Text)
    → 2 ≤ length b
    → length (replace_from b 0 (before ++ (b ++ after))) < length (before ++ (b ++ after))
unfolding replace_from
replace_from-lt [] before after h = absurd (omega arith)
replace_from-lt (c ∷ b) [] after h = ground (
  arith,
  starts_with-append (c ∷ b) after,
  replace_from-length (c ∷ b) (length b) (b ++ after),
  length-append b after,
)
replace_from-lt (c ∷ b) (d ∷ before) after h = ground (
  arith,
  replace_from-lt (c ∷ b) before after h,
  replace_from-length (c ∷ b) (length b) (before ++ (c ∷ (b ++ after))),
  length-append before (c ∷ (b ++ after)),
)

abbrev IsShorter : Text → Text → Type 0
IsShorter s t = is_empty t ≡ false → length t < length s

is_invalid_char_ref-nil : (qt : Qt) → is_invalid_char_ref qt [] ≡ false
unfolding is_invalid_char_ref index_of_char
is_invalid_char_ref-nil qt = refl

without_char_ref-lt :
    (qt : Qt) (s before char_ref after : Text)
    → s ≡ before ++ ((b'&' ∷ char_ref) ++ after)
    → is_empty (without_char_ref qt s (some char_ref)) ≡ false
    → length (without_char_ref qt s (some char_ref)) < length s
unfolding without_char_ref
without_char_ref-lt qt s before [] after p some_left =
    absurd (ground (arith, some_left, is_invalid_char_ref-nil qt))
without_char_ref-lt qt s before (c ∷ char_ref) after p some_left =
    elim (Bool-cases (is_invalid_char_ref qt (c ∷ char_ref))) [
      | inl k ↦ rw k (
          subst (λ t. length (replace_from (b'&' ∷ c ∷ char_ref) 0 t) < length t) (sym p)
            (replace_from-lt (b'&' ∷ c ∷ char_ref) before after (omega arith)))
      | inr k ↦ absurd (ground (arith, some_left, k))
    ]

-- What is given back to be read again is shorter than what was read, where a tag or an ampersand
-- stands before the error.
handle_not_well_formed_error-lt :
    (qt : Qt) (s : Text) (offset : ℕ)
    → has_opening (reverse (take offset s)) ≡ true
    → is_empty (handle_not_well_formed_error qt s offset) ≡ false
    → length (handle_not_well_formed_error qt s offset) < length s
unfolding handle_not_well_formed_error
handle_not_well_formed_error-lt qt s offset h =
    elim (Option-cases (char_ref_back (reverse (take offset s)) [])) [
      | inl e ↦
          subst (IsShorter s) (ap (without_char_ref qt s) (sym e))
            (λ k. absurd (unfold without_char_ref in ground (arith, k)))
      | inr (char_ref, e) ↦ subst (IsShorter s) (ap (without_char_ref qt s) (sym e)) (
          let (before, p) = char_ref_back-some (reverse (take offset s)) [] char_ref h e in
          without_char_ref-lt qt s before char_ref (drop offset s) (
            sym (take-append-drop offset s)
            ∙ ap (λ t. t ++ drop offset s)
                (sym (reverse-reverse (take offset s))
                  ∙ sym (append-nil (reverse (reverse (take offset s))))
                  ∙ p)
            ∙ append_assoc before (b'&' ∷ char_ref) (drop offset s)))
    ]

has_opening-tag : (s : Text) → has_opening (s ++ b'<' ∷ []) ≡ true
unfolding has_opening
has_opening-tag [] = refl
has_opening-tag (c ∷ s) = ground (arith, has_opening-tag s)

handle_at_start : (qt : Qt) (s : Text) → is_empty (handle_not_well_formed_error qt s 0) ≡ true
unfolding handle_not_well_formed_error char_ref_back without_char_ref
handle_at_start qt s = rw (is_invalid_char_ref-nil qt) refl

-- What is given back for data that begins with a tag begins with a tag.
tag_first :
    (qt : Qt) (s : Text) (found : Option Text)
    → is_empty (without_char_ref qt (b'<' ∷ s) found) ≡ false
    → (t : Text) × (without_char_ref qt (b'<' ∷ s) found ≡ b'<' ∷ t)
unfolding without_char_ref replace_from starts_with
tag_first qt s none h = absurd (ground (arith, h))
tag_first qt s (some char_ref) h = elim (Bool-cases (is_invalid_char_ref qt char_ref)) [
  | inl k ↦ (replace_from (b'&' ∷ char_ref) 0 s, rw k refl)
  | inr k ↦ absurd (ground (arith, h, k))
]

handle_tag :
    (qt : Qt) (s : Text) (offset : ℕ)
    → is_empty (handle_not_well_formed_error qt (b'<' ∷ s) offset) ≡ false
    → (t : Text) × (handle_not_well_formed_error qt (b'<' ∷ s) offset ≡ b'<' ∷ t)
      × (length t < length s)
unfolding handle_not_well_formed_error
handle_tag qt s zero h = absurd (cc (handle_at_start qt (b'<' ∷ s)))
handle_tag qt s (suc offset) h =
    let (t, e) = tag_first qt s (char_ref_back (reverse (take (suc offset) (b'<' ∷ s))) []) h in
    let less : length (handle_not_well_formed_error qt (b'<' ∷ s) (suc offset)) < suc (length s) =
      handle_not_well_formed_error-lt qt (b'<' ∷ s) (suc offset)
        (ap has_opening (reverse-cons b'<' (take offset s))
          ∙ has_opening-tag (reverse (take offset s)))
        h in
    (t, e, omega (arith, less, ap length e))

module _ {V : Type 0} (q : Variants V) (qt : Qt) (scan : Text → Stream) where
  cleaned_tag :
      (s : Text) (f : Failure)
      → is_empty (cleaned_up q qt scan (b'<' ∷ s) f) ≡ false
      → (t : Text) × (cleaned_up q qt scan (b'<' ∷ s) f ≡ b'<' ∷ t) × (length t < length s)
  unfolding cleaned_up
  cleaned_tag s f h = elim (Bool-cases (is_not_well_formed f.kind)) [
    | inl k ↦
        let (t, e, less) = handle_tag qt s f.offset (
          subst
            (λ b.
              is_empty (if b then handle_not_well_formed_error qt (b'<' ∷ s) f.offset else [])
              ≡ false)
            k h) in
        (t, rw k e, less)
    | inr k ↦ absurd (ground (arith, h, k))
  ]

  -- What is done about an error has a result, if each attempt at shorter data has one.
  after_failure :
      (fuel : ℕ) (version : SoapVersion) (s : Text) (f : Failure) (done : Pass V)
      → length s < suc fuel
      → ((t : Text)
          → length t < fuel
          → (r : Pass V × XmlError) × (xml_to_message q qt scan fuel version (b'<' ∷ t) done
              ≡ some r))
      → (r : Pass V × XmlError) × ((if is_empty (cleaned_up q qt scan (b'<' ∷ s) f)
            then some (give_up q qt scan version f done)
            else xml_to_message q qt scan fuel version (cleaned_up q qt scan (b'<' ∷ s) f) done)
          ≡ some r)
  after_failure fuel version s f done h again =
      elim (Bool-cases (is_empty (cleaned_up q qt scan (b'<' ∷ s) f))) [
        | inl k ↦ (give_up q qt scan version f done, rw k refl)
        | inr k ↦
            let (t, e, less) = cleaned_tag s f k in
            let (r, p) = again t (omega arith) in
            (r, rw k (ap (λ u. xml_to_message q qt scan fuel version u done) e ∙ p))
      ]

  -- Data that begins with a tag is read with a result, a message or the fault of a parse error,
  -- within as many attempts as it has bytes and one more, whatever the errors are that the reader
  -- has and wherever it has them: each further attempt is at shorter data.
  pub xml_to_message-some :
      (fuel : ℕ) (version : SoapVersion) (s : Text) (pass : Pass V)
      → length s < fuel
      → (r : Pass V × XmlError) × (xml_to_message q qt scan fuel version (b'<' ∷ s) pass ≡ some r)
  unfolding xml_to_message
  xml_to_message-some zero version s pass h = absurd (omega arith)
  xml_to_message-some (suc fuel) version s pass h =
      let data_ : Text = b'<' ∷ s in
      let done =
        read_document q (scan data_).tokens (record pass { raised = none; broken = false }) in
      let handle : Failure → Option (Pass V × XmlError) = λ f.
        if is_empty (cleaned_up q qt scan data_ f)
        then some (give_up q qt scan version f done)
        else xml_to_message q qt scan fuel version (cleaned_up q qt scan data_ f) done in
      elim (Option-cases (failure_of q qt scan (scan data_) done)) [
        | inl e ↦ ((done, no_error), ap (λ o. conclude q qt scan o done handle) e)
        | inr (f, e) ↦
            let (r, p) =
              after_failure fuel version s f done h
                (λ t less. xml_to_message-some fuel version t done less) in
            (r, ap (λ o. conclude q qt scan o done handle) e ∙ p)
      ]
