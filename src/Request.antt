-- ===== src/Request.antt =====
-- What becomes of a complete request: handleRequest, handleWsdlDownload and makeCall of
-- src/KDSoapServer/KDSoapServerSocket.cpp. A QString is the list of its bytes in UTF-8.
pub mod Guards
mod Tests
use kdsoap.Prelude.{
  ℕ, suc, ◌+◌, Text, List, [], ◌∷◌, ◌++◌, Option, none, some, Bool, true, false, not, ◌&&◌,
  if◌then◌else◌, pos, length, drop, codes, eq_text, starts_with, split, trimmed, index_of_char,
}
use kdsoap.Headers.{Headers, value}
use kdsoap.Http.{
  is_path_secure, strip_quotes, HttpResponseHeaderItem, http_response_headers, crlf, end_of_headers,
}
use kdsoap.Auth.{c_string}
use kdsoap.Platform.{Qt}

pub data SoapVersion : Type 0 where
  soap1_1 soap1_2 : SoapVersion

abbrev pub unauthorized : Text
unauthorized =
    codes "HTTP/1.1 401 Authorization Required"
    ++ (crlf
        ++ (codes "WWW-Authenticate: Basic realm=\"example\""
            ++ (crlf ++ (codes "Content-Length: 0" ++ end_of_headers))))

abbrev pub method_not_allowed : Text
method_not_allowed =
    codes "HTTP/1.1 405 Method Not Allowed"
    ++ (crlf
        ++ (codes "Allow: GET POST" ++ (crlf ++ (codes "Content-Length: 0" ++ end_of_headers))))

-- part.mid(part.indexOf('=') + 1)
behind_equals : Text → Text
behind_equals part = elim (index_of_char part b'=') [ none ↦ part | some i ↦ drop (suc i) part ]

-- The loop over the parts of the Content-Type, with the action found so far.
pub action_of_parts : Text → List Text → Text
unfolding behind_equals
action_of_parts action [] = action
action_of_parts action (part ∷ parts) =
    let found = action_of_parts (strip_quotes (behind_equals part)) parts in
    let other = action_of_parts action parts in
    if starts_with (trimmed part) (codes "action=") then found else other

pub soap_version_and_action : Headers → SoapVersion × Text
unfolding action_of_parts
soap_version_and_action headers =
    let content_type = value headers (codes "content-type") in
    if starts_with content_type (codes "text/xml")
    then (soap1_1, strip_quotes (value headers (codes "soapaction")))
    else if starts_with content_type (codes "application/soap+xml")
    then (soap1_2, action_of_parts [] (split content_type b';'))
    else (soap1_1, [])

-- What the server object and the server say; `M` is KDSoapMessage. An interface that the server
-- object does not implement is `none`.
pub record Site (M : Type 0) : Type 0 where
  pub handle_http_auth : Option (Text → Text → Bool)
  pub process_custom_verb_request : Option (Text → Text → Headers → Option Text)
  pub implements_object_interface : Bool
  pub additional_items : List HttpResponseHeaderItem
  pub wsdl_path_in_url : Text
  -- The contents of the WSDL file, if it can be opened.
  pub wsdl_file : Option Text
  pub server_path : Text
  -- xmlToMessage; `none` is PrematureEndOfDocumentError.
  pub xml_to_message : Text → Option M
  pub is_fault : M → Bool

-- How handleRequest ends. `not_implemented` is the reply to a server object without
-- KDSoapServerObjectInterface: sendReply(nullptr, ...).
pub data Outcome (M : Type 0) : Type 0 where
  denied refused not_allowed not_implemented incomplete : Outcome M
  custom_answer : Text → Outcome M
  wsdl_sent : Text → Outcome M
  file_requested : Text → Outcome M
  request_was_fault : M → SoapVersion → Outcome M
  request_processed : M → Text → SoapVersion → Outcome M
  request_processed_with_path : M → Text → Text → SoapVersion → Outcome M

module _ (qt : Qt) {M : Type 0} (site : Site M) where
  -- `path` is with the query.
  pub make_call : M → Text → SoapVersion × Text → Outcome M
  make_call request path (version, action) =
      if site.is_fault request
      then request_was_fault request version
      else if eq_text path site.server_path
      then request_processed request action version
      else request_processed_with_path request action path version

  handle_post : Headers → Text → Text → Outcome M
  unfolding make_call soap_version_and_action
  handle_post headers path received_data = elim (site.xml_to_message received_data) [
    | none ↦ incomplete
    | some request ↦ make_call request path (soap_version_and_action headers)
  ]

  -- handleWsdlDownload, and the download of a file where it is not done.
  wsdl_or_file : Option Text → Text → Outcome M
  wsdl_or_file none path = file_requested path
  wsdl_or_file (some text) path = wsdl_sent (
      http_response_headers qt false (codes "application/xml") (pos (length text))
        site.additional_items
      ++ text)

  handle_get : Text → Outcome M
  unfolding wsdl_or_file
  handle_get path =
      if eq_text path site.wsdl_path_in_url
      then wsdl_or_file site.wsdl_file path
      else file_requested path

  handle_other : Headers → Text → Text → Outcome M
  handle_other headers request_type received_data = elim site.process_custom_verb_request [
    | none ↦ not_allowed
    | some process ↦ elim (process request_type received_data headers) [
      | none ↦ not_allowed
      | some answer ↦ custom_answer answer
    ]
  ]

  pub is_authorized : Headers → Text → Bool
  is_authorized headers path = elim site.handle_http_auth [
    | none ↦ true
    | some auth ↦ auth (value headers (codes "authorization")) path
  ]

  -- Behind the checks.
  pub serve : Headers → Text → Text → Text → Outcome M
  unfolding handle_post handle_get handle_other
  serve headers request_type path received_data =
      if not (eq_text request_type (codes "GET")) && not (eq_text request_type (codes "POST"))
      then handle_other headers request_type received_data
      else if not site.implements_object_interface
      then not_implemented
      else if eq_text request_type (codes "GET")
      then handle_get path
      else handle_post headers path received_data

  pub request_path : Headers → Text
  unfolding c_string
  request_path headers = c_string (value headers (codes "_path"))

  pub path_and_query : Headers → Text
  unfolding request_path c_string
  path_and_query headers = request_path headers ++ c_string (value headers (codes "_query"))

  pub handle_request : Headers → Text → Outcome M
  unfolding serve is_authorized path_and_query
  handle_request headers received_data =
      if not (is_path_secure (request_path headers))
      then denied
      else if not (is_authorized headers (path_and_query headers))
      then refused
      else serve headers (value headers (codes "_requestType")) (path_and_query headers)
          received_data
