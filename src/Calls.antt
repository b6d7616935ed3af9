-- ===== src/Calls.antt =====
-- What a client makes of a reply: parseReply and returnValue of
-- src/KDSoapClient/KDSoapPendingCall.cpp, and src/KDSoapClient/KDSoapFaultException.cpp.
pub mod Reply
pub mod Faults
mod Tests
use kdsoap.Prelude.{
  ℕ, Text, List, [], ◌∷◌, Option, none, some, Bool, true, false, not, ◌&&◌, ◌||◌, if◌then◌else◌,
  codes, eq_text, is_empty,
}
use kdsoap.Request.{SoapVersion}
use kdsoap.Value.{Variants, Value, Values, empty, more, fields, child_values, null_value}
use kdsoap.Message.{Message, create_fault_message}

pub record FaultException (V : Type 0) : Type 0 where
  pub exception_code : Text
  pub exception_string : Text
  pub exception_actor : Text
  pub exception_detail : Value V

-- The state of a call whose reply is awaited.
pub record PendingCall (V : Type 0) : Type 0 where
  pub parsed : Bool
  pub reply_message : Message V
  pub reply_headers : List (Message V)

-- A QNetworkReply: whether it is finished and open, its bytes, and its error with its number and
-- text, if it has one.
pub record NetworkReply : Type 0 where
  pub is_finished : Bool
  pub is_open : Bool
  pub bytes : Text
  pub network_error : Option (Text × Text)
  pub was_canceled : Bool
  pub timed_out : Bool

module _ {V : Type 0} (q : Variants V) where
  abbrev pub new_exception : FaultException V
  new_exception = record {
    exception_code = [];
    exception_string = [];
    exception_actor = [];
    exception_detail = null_value q;
  }

  -- One round of the loop of deserialize.
  unfoldable pub read_argument : FaultException V → Text → Text → FaultException V
  read_argument x name content =
      if eq_text name (codes "faultcode")
      then record x { exception_code = content }
      else if eq_text name (codes "faultstring")
      then record x { exception_string = content }
      else if eq_text name (codes "faultactor")
      then record x { exception_actor = content }
      else x

  unfoldable pub read_arguments : FaultException V → Values V → FaultException V
  read_arguments x empty = x
  read_arguments x (more v vs) =
      read_arguments (read_argument x (fields v).name (q.to_text (fields v).variant)) vs

  unfoldable pub deserialize : FaultException V → Value V → FaultException V
  unfolding read_arguments
  deserialize x main_value = read_arguments x (child_values main_value)

  find_detail : Values V → Value V
  find_detail empty = null_value q
  find_detail (more v vs) = if eq_text (fields v).name (codes "detail") then v else find_detail vs

  pub fault_details : Value V → Value V
  unfolding find_detail
  fault_details fault_value = find_detail (child_values fault_value)

  first_value : Values V → V
  first_value empty = q.null_variant
  first_value (more v vs) = (fields v).variant

  pub return_value : PendingCall V → V
  unfolding first_value
  return_value c = first_value (child_values c.reply_message.value)

  -- The fault that stands for an error of the network; `timeout` is the number of TimeoutError.
  network_fault : Text → SoapVersion → NetworkReply → Text × Text → Message V
  network_fault timeout version r (code, string) =
      if r.was_canceled && r.timed_out
      then create_fault_message q timeout (codes "Operation timed out") version
      else create_fault_message q code string version

  after_reading : Text → SoapVersion → NetworkReply → PendingCall V → PendingCall V
  unfolding network_fault
  after_reading timeout version r c = elim r.network_error [
    | none ↦ c
    | some e ↦
        if c.reply_message.is_fault
        then c
        else record c { reply_headers = []; reply_message = network_fault timeout version r e }
  ]

  -- parseReply; `read` is xmlToMessage, of some bytes, on the message and the headers so far.
  pub parse_reply :
      (Text → Message V → List (Message V) → Message V × List (Message V))
      → Text
      → SoapVersion
      → NetworkReply
      → PendingCall V
      → PendingCall V
  unfolding after_reading
  parse_reply read timeout version r c =
      if c.parsed || not r.is_finished
      then c
      else let (message, headers) =
          if r.is_open && not (is_empty r.bytes)
          then read r.bytes c.reply_message c.reply_headers
          else (c.reply_message, c.reply_headers) in
        after_reading timeout version r
          (record { parsed = true; reply_message = message; reply_headers = headers })
