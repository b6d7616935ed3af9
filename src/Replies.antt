-- ===== src/Replies.antt =====
-- What a server object answers and how the reply is made: src/KDSoapServer/
-- KDSoapServerObjectInterface.cpp, and makeCall and sendReply of KDSoapServerSocket.cpp.
pub mod Faults
pub mod Delayed
mod Tests
use kdsoap.Prelude.{
  Text, List, [], ◌∷◌, ◌++◌, Option, none, some, Bool, true, false, not, ◌||◌, if◌then◌else◌, codes,
  eq_text, is_empty,
}
use kdsoap.Request.{SoapVersion, soap1_1}
use kdsoap.Xml.{Call}
use kdsoap.Value.{Variants, Value, Values, empty, append, fields, null_value, is_nil, is_null_value}
use kdsoap.Value.Writing.{Use}
use kdsoap.Security.{new_authentication, Surroundings}
use kdsoap.Message.{
  Message, new_message, create_fault_message, set_fault_flag, add_value_argument, add_list_argument,
}
use kdsoap.Writer.{Writer, message_to_xml}

-- KDSoapServerObjectInterface::Private, but for the socket and its HTTP headers.
pub record ServerObject (V : Type 0) : Type 0 where
  pub request_headers : List (Message V)
  pub response_headers : List (Message V)
  pub fault_code : Text
  pub fault_string : Text
  pub fault_actor : Text
  pub detail : Text
  pub detail_value : Value V
  pub response_namespace : Text
  pub soap_action : Text
  pub request_version : SoapVersion

-- What becomes of a response and of the server object in processRequest or processRequestWithPath:
-- the request, the SOAP action and, for the latter, the path are given.
abbrev pub Processing : Type 0 → Type 0
Processing V = ServerObject V → Message V → Message V → ServerObject V × Message V

module _ {V : Type 0} (q : Variants V) where
  abbrev pub new_server_object : ServerObject V
  new_server_object = record {
    request_headers = [];
    response_headers = [];
    fault_code = [];
    fault_string = [];
    fault_actor = [];
    detail = [];
    detail_value = null_value q;
    response_namespace = [];
    soap_action = [];
    request_version = soap1_1;
  }

  -- processRequest and processRequestWithPath where a server object does not override them.
  pub process_request : Processing V
  process_request o request response = (
    o,
    create_fault_message q (codes "Server.MethodNotFound")
        ((fields request.value).name ++ codes " not found") o.request_version,
  )

  pub process_request_with_path : Text → Processing V
  process_request_with_path path o request response = (
    o,
    create_fault_message q (codes "Client.Data")
        (codes "Method " ++ ((fields request.value).name ++ (codes " not found in path " ++ path)))
        o.request_version,
  )

  unfoldable pub store_fault_attributes : ServerObject V → Message V → Message V
  store_fault_attributes o m =
      let named = add_value_argument q (codes "faultactor") (q.of_text o.fault_actor) [] [] (
        add_value_argument q (codes "faultstring") (q.of_text o.fault_string) [] []
          (add_value_argument q (codes "faultcode") (q.of_text o.fault_code) [] [] m)) in
      if is_nil q o.detail_value || is_null_value q o.detail_value
      then add_value_argument q (codes "detail") (q.of_text o.detail) [] [] named
      else add_list_argument q (codes "detail") (append empty o.detail_value) [] [] named

module _ {V : Type 0} where
  -- setFault with a text and with a value for the detail.
  unfoldable pub set_fault : Text → Text → Text → Text → ServerObject V → ServerObject V
  set_fault code string actor detail o = record o {
    fault_code = code;
    fault_string = string;
    fault_actor = actor;
    detail = detail;
  }

  pub set_fault_value : Text → Text → Text → Value V → ServerObject V → ServerObject V
  set_fault_value code string actor detail o = record o {
    fault_code = code;
    fault_string = string;
    fault_actor = actor;
    detail_value = detail;
  }

  pub has_fault : ServerObject V → Bool
  has_fault o = not (is_empty o.fault_code)

  -- What prepares for a new request.
  unfoldable pub set_request_headers : List (Message V) → Text → ServerObject V → ServerObject V
  set_request_headers headers action o = record o {
    request_headers = headers;
    soap_action = action;
    fault_code = [];
    response_headers = [];
  }

  pub set_request_version : SoapVersion → ServerObject V → ServerObject V
  set_request_version version o = record o { request_version = version }

  pub done_processing_request_with_path : ServerObject V → ServerObject V → ServerObject V
  done_processing_request_with_path other o = record o {
    fault_code = other.fault_code;
    fault_string = other.fault_string;
    fault_actor = other.fault_actor;
    detail = other.detail;
    detail_value = other.detail_value;
    response_headers = other.response_headers;
    response_namespace = other.response_namespace;
  }

  pub copy_from : ServerObject V → ServerObject V → ServerObject V
  copy_from other o = record o {
    request_headers = other.request_headers;
    soap_action = other.soap_action;
    request_version = other.request_version;
  }

module _ {V : Type 0} (q : Variants V) where
  after_processing : ServerObject V × Message V → ServerObject V × Message V
  unfolding has_fault store_fault_attributes
  after_processing (o, response) =
      if has_fault o
      then (o, store_fault_attributes q o (set_fault_flag true response))
      else (o, response)

  -- makeCall: the path of the request and that of the server decide which of the two is called.
  pub answer_call :
      Processing V
      → (Text → Processing V)
      → Text
      → List (Message V)
      → Text
      → Text
      → SoapVersion
      → Message V
      → Message V
      → ServerObject V
      → ServerObject V × Message V
  unfolding after_processing set_request_headers set_request_version
  answer_call process process_with_path server_path headers action path version request response o =
      if request.is_fault
      then (o, create_fault_message q (codes "Client.Data") (codes "Request was a fault") version)
      else let ready = set_request_version version (set_request_headers headers action o) in
        after_processing (
          if eq_text path server_path
          then process ready request response
          else process_with_path path ready request response)

  -- The name of the element of a reply.
  unfoldable pub response_name : Text → Message V → Text
  response_name method reply =
      let name = if reply.is_fault then codes "Fault" else (fields reply.value).name in
      if is_empty name then method else name

  -- The body of a reply as sendReply has it written, and whether it is a fault: nothing is written
  -- of a reply that is nil. The method and the namespace are those of the request.
  unfoldable pub send_reply :
      Surroundings → Text → Text → ServerObject V → Message V → List Call × Bool
  unfolding response_name
  send_reply surroundings method message_ns o reply = (
    if is_nil q reply.value
        then []
        else message_to_xml q
            (record {
              version = o.request_version;
              default_namespace =
                  if is_empty o.response_namespace then message_ns else o.response_namespace;
              headers = o.response_headers;
              persistent_headers = [];
              authentication = new_authentication;
              surroundings = surroundings;
            })
            (response_name method reply) reply,
    reply.is_fault,
  )
