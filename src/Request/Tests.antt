-- ===== src/Request/Tests.antt =====
-- A request to a server with authentication.
use kdsoap.Prelude.{Text, [], ◌∷◌, none, some, true, false, ◌≡◌, ◌↔◌, codes, eq_text}
use kdsoap.Headers.{Headers}
use kdsoap.Http.{is_path_secure}
use kdsoap.Examples.{qt}
use kdsoap.Request.{
  Site, denied, refused, request_path, is_authorized, path_and_query, handle_request,
}
use kdsoap.Request.Guards.{handle_request-refusals}

abbrev site : Site Text
site = record {
  handle_http_auth = some (λ auth path. eq_text auth (codes "Basic bWU6cHc="));
  process_custom_verb_request = none;
  implements_object_interface = true;
  additional_items = [];
  wsdl_path_in_url = codes "/service.wsdl";
  wsdl_file = none;
  server_path = codes "/";
  xml_to_message = λ t. some t;
  is_fault = λ m. false;
}

abbrev request_headers : Headers
request_headers =
    (codes "_requestType", codes "POST") ∷ (codes "_path", codes "/") ∷ (codes "_query", []) ∷ []

handle_request-refusals_example :
    ((handle_request qt site request_headers (codes "<x/>") ≡ denied)
      ↔ (is_path_secure (request_path qt site request_headers) ≡ false))
    × ((handle_request qt site request_headers (codes "<x/>") ≡ refused) ↔ (
        (is_path_secure (request_path qt site request_headers) ≡ true)
        × (is_authorized qt site request_headers (path_and_query qt site request_headers) ≡ false)))
handle_request-refusals_example = handle_request-refusals qt site request_headers (codes "<x/>")
