-- ===== src/Writer.antt =====
-- How a message is written: src/KDSoapClient/KDSoapMessageWriter.cpp.
pub mod Trees
use kdsoap.Prelude.{
  Text, List, [], ◌∷◌, ◌++◌, Option, none, some, Bool, true, false, not, ◌&&◌, ◌||◌, if◌then◌else◌,
  codes, eq_text, is_empty, map,
}
use kdsoap.Request.{SoapVersion}
use kdsoap.Namespaces.{
  Prefixes, envelope_of, standard_prefixes, standard_declarations, AddressingNamespace,
  addressing200508,
}
use kdsoap.Xml.{Call, start_document, end_document, start_element, end_element, write_namespace}
use kdsoap.Value.{Variants, Value, fields}
use kdsoap.Value.Writing.{write_children, write_element_contents}
use kdsoap.Addressing.{Addressing, write_message_addressing_properties}
use kdsoap.Security.{
  Authentication, Surroundings, has_ws_username_token_header, write_ws_username_token_header,
}
use kdsoap.Message.{Message, namespace_uri}

-- KDSoapMessageWriter, with the headers that the client keeps and those of the call.
pub record Writer (V : Type 0) : Type 0 where
  pub version : SoapVersion
  pub default_namespace : Text
  pub headers : List (Message V)
  pub persistent_headers : List (Message V)
  pub authentication : Authentication
  pub surroundings : Surroundings

module _ {V : Type 0} where
  abbrev pub has_addressing : Message V → Bool
  has_addressing m = elim m.addressing [ none ↦ false | some a ↦ true ]

  abbrev pub addressing_namespace_of : Message V → AddressingNamespace
  addressing_namespace_of m = elim m.addressing [
    | none ↦ addressing200508
    | some a ↦ a.addressing_namespace
  ]

  unfoldable pub message_namespace : Writer V → Message V → Text
  message_namespace w m =
      if not (is_empty (namespace_uri m)) && not (eq_text w.default_namespace (namespace_uri m))
      then namespace_uri m
      else w.default_namespace

  unfoldable pub element_name : Text → Message V → Text
  element_name method m = if is_empty method then (fields m.value).name else method

  abbrev pub no_messages : List (Message V) → Bool
  no_messages [] = true
  no_messages (m ∷ ms) = false

  -- Whether there is a Header element.
  unfoldable pub has_header : Writer V → Message V → Bool
  has_header w m =
      not (no_messages w.headers)
      || (not (no_messages w.persistent_headers)
          || (has_addressing m || has_ws_username_token_header w.authentication))

  -- The namespace of the element of the message.
  unfoldable pub element_namespace : Writer V → Message V → Text
  unfolding message_namespace
  element_namespace w m = if m.is_fault then envelope_of w.version else message_namespace w m

  -- The prefixes when the message is written, n1 included.
  unfoldable pub prefixes_of : Writer V → Message V → Prefixes
  unfolding message_namespace
  prefixes_of w m =
      (message_namespace w m, codes "n1")
      ∷ standard_prefixes w.version (has_addressing m) (addressing_namespace_of m)

module _ {V : Type 0} (q : Variants V) where
  headers_calls : Prefixes → Text → List (Message V) → List Call
  headers_calls prefixes ns [] = []
  headers_calls prefixes ns (m ∷ ms) =
      write_children q prefixes m.use_of ns true m.value ++ headers_calls prefixes ns ms

  addressing_calls : Option (Addressing V) → List Call
  addressing_calls none = []
  addressing_calls (some a) = write_message_addressing_properties q a

  security_calls : Writer V → List Call
  security_calls w =
      if has_ws_username_token_header w.authentication
      then write_ws_username_token_header w.authentication w.surroundings
      else []

  header_calls : Writer V → Message V → List Call
  unfolding headers_calls addressing_calls security_calls has_header
  header_calls w m =
      if has_header w m
      then write_namespace (codes "n1", message_namespace w m)
        ∷ start_element (some (envelope_of w.version)) (codes "Header")
        ∷ (headers_calls (prefixes_of w m) (message_namespace w m) w.persistent_headers
            ++ (headers_calls (prefixes_of w m) (message_namespace w m) w.headers
                ++ (addressing_calls m.addressing ++ (security_calls w ++ end_element ∷ []))))
      else []

  body_calls : Writer V → Text → Message V → List Call
  unfolding element_name element_namespace
  body_calls w method m =
      if is_empty (element_name method m)
      then []
      else start_element (some (element_namespace w m)) (element_name method m)
        ∷ (write_element_contents q (prefixes_of w m) m.use_of (message_namespace w m) m.value
            ++ end_element ∷ [])

  unfoldable pub message_to_xml : Writer V → Text → Message V → List Call
  unfolding header_calls body_calls
  message_to_xml w method m =
      start_document
      ∷ (map write_namespace
            (standard_declarations w.version (has_addressing m) (addressing_namespace_of m))
          ++ start_element (some (envelope_of w.version)) (codes "Envelope")
            ∷ (header_calls w m
                ++ start_element (some (envelope_of w.version)) (codes "Body")
                  ∷ (body_calls w method m ++ end_element ∷ end_element ∷ end_document ∷ [])))
