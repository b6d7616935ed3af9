-- ===== src/Reader/Envelope.antt =====
-- A document that is read: xmlToMessage of src/KDSoapClient/KDSoapMessageReader.cpp, one pass over
-- its tokens, and the second attempt after a character that XML forbids was taken out.
use kdsoap.Prelude.{
  ℕ, ℤ, pos, negsuc, zero, suc, ◌+◌, ◌-◌, Text, List, [], ◌∷◌, ◌++◌, Option, none, some, Bool, true,
  false, not, ◌&&◌, ◌||◌, ◌==◌, leb, if◌then◌else◌, codes, eq_text, is_empty, index_of_char, take,
  length, starts_with, ◌-ℤ◌,
}
use mathlib.Core.List.{reverse}
use kdsoap.QName.{Declaration}
use kdsoap.Request.{SoapVersion}
use kdsoap.Namespaces.{soap_envelope, soap_envelope200305}
use kdsoap.Xml.{Token, invalid, start, finish, characters, other, uri}
use kdsoap.Value.{Variants, fields}
use kdsoap.Addressing.{
  Addressing, new_addressing, is_ws_addressing_namespace, read_message_addressing_property,
}
use kdsoap.Message.{
  Message, new_message, assign_value, set_fault_flag, set_message_addressing_properties,
  create_fault_message,
}
use kdsoap.Platform.{Qt}
use kdsoap.Socket.{mid}
use kdsoap.Reader.{Parsed, parse_element}

-- QXmlStreamReader::Error
pub data ErrorKind : Type 0 where
  unexpected_element custom not_well_formed premature_end : ErrorKind

-- What the reader says of its error, texts as they are printed.
pub record Failure : Type 0 where
  pub kind : ErrorKind
  pub code : Text
  pub line : Text
  pub column : Text
  pub message : Text
  pub offset : ℕ

-- What the reader makes of some data: the tokens up to the error or the end, the error that it then
-- has, and the error after raiseError with a text.
pub record Stream : Type 0 where
  pub tokens : List Token
  pub at_end : Failure
  pub raise : Text → Failure

-- KDSoapMessageReader::XmlError
pub data XmlError : Type 0 where
  no_error parse_error premature_end_of_document_error : XmlError

-- readNextStartElement(): the token that it stops at, and those to come.
pub record Found : Type 0 where
  pub current : Token
  pub rest : List Token

unfoldable pub next_start : List Token → Found
next_start [] = record { current = invalid; rest = [] }
next_start (invalid ∷ ts) = record { current = invalid; rest = ts }
next_start (start e ∷ ts) = record { current = start e; rest = ts }
next_start (finish e ∷ ts) = record { current = finish e; rest = ts }
next_start (characters t ∷ ts) = next_start ts
next_start (other ∷ ts) = next_start ts

-- reader.name() and reader.namespaceUri()
abbrev pub token_name : Token → Text
token_name (start e) = e.name
token_name (finish e) = e.name
token_name _ = []

abbrev pub token_uri : Token → Text
token_uri (start e) = uri e.space
token_uri (finish e) = uri e.space
token_uri _ = []

abbrev pub is_invalid : Token → Bool
is_invalid invalid = true
is_invalid _ = false

unfoldable pub is_envelope_namespace : Text → Bool
is_envelope_namespace ns = eq_text ns soap_envelope || eq_text ns soap_envelope200305

-- An element of SOAP with that name.
unfoldable pub is_soap_element : Text → Token → Bool
unfolding is_envelope_namespace
is_soap_element name t = eq_text (token_name t) name && is_envelope_namespace (token_uri t)

-- What the caller has after a pass: the message, its namespace and the headers, the text of an error
-- that was raised, and whether the reader ran into an error of its own.
pub record Pass (V : Type 0) : Type 0 where
  pub message : Message V
  pub message_namespace : Text
  pub headers : List (Message V)
  pub raised : Option Text
  pub broken : Bool

-- The headers, and the token behind them.
pub record Headers (V : Type 0) : Type 0 where
  pub properties : Addressing V
  pub others : List (Message V)
  pub found : Found

module _ {V : Type 0} (q : Variants V) where
  abbrev enough : List Token → ℕ
  enough ts = suc (length ts)

  -- What is made of the element of the message, once it is read.
  unfoldable pub take_message : Parsed V → Pass V → Pass V
  unfolding is_envelope_namespace
  take_message p pass =
      let message = assign_value pass.message p.value in
      record pass {
        message =
            if eq_text (fields p.value).name (codes "Fault")
              && is_envelope_namespace (token_uri p.last)
            then set_fault_flag true message
            else message;
        message_namespace = (fields p.value).name_namespace;
        broken = is_invalid p.last;
      }

  pub read_in_body : List Declaration → Found → Pass V → Pass V
  unfolding take_message
  read_in_body env found pass = elim found.current [
    | start e ↦ take_message (parse_element q (enough found.rest) env e found.rest) pass
    | invalid ↦ record pass { broken = true }
    | _ ↦ pass
  ]

  pub read_body : List Declaration → Found → Pass V → Pass V
  unfolding is_soap_element read_in_body next_start
  read_body env found pass =
      if is_soap_element (codes "Body") found.current
      then read_in_body env (next_start found.rest) pass
      else record pass {
        raised = some (codes "Invalid SOAP Message, Body expected");
        broken = is_invalid found.current;
      }

  -- The loop over the headers. Every round takes a token at least.
  pub read_headers : ℕ → List Declaration → List Token → Addressing V → List (Message V) → Headers V
  unfolding next_start
  read_headers zero env ts a ms = record { properties = a; others = ms; found = next_start [] }
  read_headers (suc fuel) env ts a ms = elim (next_start ts).current [
    | start e ↦
        let p = parse_element q (enough ts) env e (next_start ts).rest in
        if is_ws_addressing_namespace (uri e.space)
        then read_headers fuel env p.rest (read_message_addressing_property q a p.value) ms
        else read_headers fuel env p.rest a (ms ++ record (new_message q) { value = p.value } ∷ [])
    | _ ↦ record { properties = a; others = ms; found = next_start ts }
  ]

  pub read_after_headers : List Declaration → Headers V → Pass V → Pass V
  unfolding read_body next_start
  read_after_headers env h pass = read_body env (next_start h.found.rest) (record pass {
    message = set_message_addressing_properties h.properties pass.message;
    headers = h.others;
  })

  -- The envelope is open, and the reader stands at what comes first in it.
  pub read_in_envelope : List Declaration → Found → Pass V → Pass V
  unfolding is_soap_element read_body read_after_headers read_headers
  read_in_envelope env found pass = elim found.current [
    | start e ↦
        if is_soap_element (codes "Header") (start e)
        then read_after_headers env
            (read_headers (enough found.rest) env found.rest new_addressing pass.headers) pass
        else read_body env found pass
    | t ↦ record pass {
      raised = some (codes "Invalid SOAP Message, empty Envelope");
      broken = is_invalid t;
    }
  ]

  -- One pass over the tokens.
  unfoldable pub read_document : List Token → Pass V → Pass V
  unfolding read_in_envelope next_start is_soap_element
  read_document ts pass = elim (next_start ts).current [
    | start e ↦
        if is_soap_element (codes "Envelope") (start e)
        then read_in_envelope e.declarations (next_start (next_start ts).rest) pass
        else record pass { raised = some (codes "Invalid SOAP Message, Envelope expected") }
    | t ↦ record pass { broken = is_invalid t }
  ]

-- The bytes before the offset, last first, up to the ampersand; `none` at a tag.
unfoldable pub char_ref_back : Text → Text → Option Text
char_ref_back [] found = some found
char_ref_back (c ∷ before) found =
    let longer = char_ref_back before (c ∷ found) in
    if c == b'&' then some found else if c == b'<' then none else longer

-- data.replace(before, "?"), with the number of bytes of a match that are left to skip.
unfoldable pub replace_from : Text → ℕ → Text → Text
replace_from before skip [] = []
replace_from before (suc skip) (c ∷ s) = replace_from before skip s
replace_from before zero (c ∷ s) =
    let matched = replace_from before (length before - 1) s in
    let kept = replace_from before 0 s in
    if starts_with (c ∷ s) before then b'?' ∷ matched else c ∷ kept

-- A control character, or a space, by its number; a negative int is a large uint.
is_forbidden : ℤ → Bool
is_forbidden (negsuc n) = false
is_forbidden (pos n) = not (n == 9) && (not (n == 10) && (not (n == 13) && leb n 32))

unfoldable pub is_invalid_char_ref : Qt → Text → Bool
unfolding is_forbidden
is_invalid_char_ref qt char_ref = elim (index_of_char char_ref b'x') [
  | none ↦ false
  | some symbol ↦ elim (index_of_char char_ref b';') [
    | none ↦ false
    | some end_ ↦ elim (qt.to_int_hex (mid char_ref (symbol + 1) (pos end_ -ℤ pos (symbol + 1)))) [
      | none ↦ false
      | some n ↦ is_forbidden n
    ]
  ]
]

-- What is read again where that character reference was found.
unfoldable pub without_char_ref : Qt → Text → Option Text → Text
unfolding is_invalid_char_ref replace_from
without_char_ref qt s none = []
without_char_ref qt s (some char_ref) =
    if is_invalid_char_ref qt char_ref then replace_from (b'&' ∷ char_ref) 0 s else []

unfoldable pub handle_not_well_formed_error : Qt → Text → ℕ → Text
unfolding char_ref_back without_char_ref
handle_not_well_formed_error qt s offset =
    without_char_ref qt s (char_ref_back (reverse (take offset s)) [])

abbrev pub is_not_well_formed : ErrorKind → Bool
is_not_well_formed not_well_formed = true
is_not_well_formed _ = false

abbrev xml_error_of : ErrorKind → XmlError
xml_error_of premature_end = premature_end_of_document_error
xml_error_of _ = parse_error

module _ {V : Type 0} (q : Variants V) (qt : Qt) (scan : Text → Stream) where
  -- The error that the reader has after a pass.
  unfoldable pub failure_of : Stream → Pass V → Option Failure
  failure_of s pass = elim pass.raised [
    | some t ↦ some (s.raise t)
    | none ↦ if pass.broken then some s.at_end else none
  ]

  pub fault_text : Failure → Text
  fault_text f =
      codes "XML error: [" ++ (f.line ++ (codes ":" ++ (f.column ++ (codes "] " ++ f.message))))

  pub give_up : SoapVersion → Failure → Pass V → Pass V × XmlError
  unfolding fault_text
  give_up version f pass = (
    record pass { message = create_fault_message q f.code (fault_text f) version },
    xml_error_of f.kind,
  )

  -- The bytes that are read again, none where the error is another one.
  unfoldable pub cleaned_up : Text → Failure → Text
  unfolding handle_not_well_formed_error
  cleaned_up s f =
      if is_not_well_formed f.kind then handle_not_well_formed_error qt s f.offset else []

  -- The end of a pass: success, or what is done about its error.
  unfoldable pub conclude :
      Option Failure → Pass V → (Failure → Option (Pass V × XmlError)) → Option (Pass V × XmlError)
  conclude none done handle = some (done, no_error)
  conclude (some f) done handle = handle f

  -- xmlToMessage with the number of attempts that it may make; `none` where these are used up.
  unfoldable pub xml_to_message : ℕ → SoapVersion → Text → Pass V → Option (Pass V × XmlError)
  unfolding read_document failure_of cleaned_up give_up conclude
  xml_to_message zero version s pass = none
  xml_to_message (suc fuel) version s pass =
      let done = read_document q (scan s).tokens (record pass { raised = none; broken = false }) in
      conclude (failure_of (scan s) done) done (λ f.
        if is_empty (cleaned_up s f)
        then some (give_up version f done)
        else xml_to_message fuel version (cleaned_up s f) done)
