-- ===== src/Message.antt =====
-- Messages, faults and headers: src/KDSoapClient/KDSoapMessage.cpp.
pub mod Faults
use kdsoap.Prelude.{
  Text, List, [], ◌∷◌, ◌++◌, Option, none, some, Bool, true, false, not, ◌&&◌, ◌||◌, if◌then◌else◌,
  codes, eq_text, is_empty, ends_with,
}
use kdsoap.Request.{SoapVersion, soap1_1, soap1_2}
use kdsoap.Namespaces.{soap_envelope, soap_envelope200305}
use kdsoap.Value.{
  Variants, Fields, Value, Values, node, empty, more, append, fields, child_values, new_value,
  new_parent, null_value, child, is_null_value, add_argument, set_name, set_qualified,
  set_namespace_uri,
}
use kdsoap.Value.Writing.{Use, literal_use}
use kdsoap.Addressing.{Addressing}

-- The value of the message and KDSoapMessageData; the addressing properties are `none` where
-- hasMessageAddressingProperties is false.
pub record Message (V : Type 0) : Type 0 where
  pub value : Value V
  pub use_of : Use
  pub is_fault : Bool
  pub addressing : Option (Addressing V)

module _ {V : Type 0} where
  abbrev pub namespace_uri : Message V → Text
  namespace_uri m = (fields m.value).name_namespace

  abbrev append_argument : Value V → Value V → Value V
  append_argument (node f ats vs) v =
      node f ats (append vs (if f.qualified then set_qualified true v else v))

  -- *this = value, of a message: operator= of KDSoapValue leaves the rest.
  unfoldable pub assign_value : Message V → Value V → Message V
  assign_value m v = record m { value = v }

  unfoldable pub set_fault_flag : Bool → Message V → Message V
  set_fault_flag fault m = record m { is_fault = fault }

  pub set_message_addressing_properties : Addressing V → Message V → Message V
  set_message_addressing_properties a m = record m { addressing = some a }

module _ {V : Type 0} (q : Variants V) where
  abbrev pub new_message : Message V
  new_message = record {
    value = null_value q;
    use_of = literal_use;
    is_fault = false;
    addressing = none;
  }

  -- addArgument with a value and with a list of values.
  unfoldable pub add_value_argument : Text → V → Text → Text → Message V → Message V
  unfolding set_qualified
  add_value_argument name variant type_namespace type_name m = record m {
    value = append_argument m.value (new_value q name variant type_namespace type_name);
  }

  unfoldable pub add_list_argument : Text → Values V → Text → Text → Message V → Message V
  unfolding set_qualified
  add_list_argument name vs type_namespace type_name m = record m {
    value = append_argument m.value (new_parent q name vs type_namespace type_name);
  }

  -- The new message that createFaultMessage fills.
  unfoldable pub empty_fault : Text → Message V
  unfolding set_name set_namespace_uri
  empty_fault ns = record new_message {
    value = set_namespace_uri ns (set_name (codes "Fault") (null_value q));
    is_fault = true;
  }

  unfoldable pub create_fault_message : Text → Text → SoapVersion → Message V
  unfolding empty_fault add_value_argument add_list_argument add_argument
  create_fault_message fault_code fault_text soap1_2 =
      add_list_argument (codes "Reason")
        (add_argument q empty (codes "Text") (q.of_text fault_text) [] []) [] []
        (add_list_argument (codes "Code")
          (add_argument q empty (codes "Value") (q.of_text fault_code) [] []) [] []
          (empty_fault soap_envelope200305))
  create_fault_message fault_code fault_text soap1_1 =
      add_value_argument (codes "faultstring") (q.of_text fault_text) [] [] (
        add_value_argument (codes "faultcode") (q.of_text fault_code) [] []
          (empty_fault soap_envelope))

  unfoldable pub child_text : Values V → Text → Text
  child_text vs name = q.to_text (fields (child q vs name)).variant

  -- The text of the fault codes with one more, the subcode of the last one.
  abbrev add_code : Text → Values V → Text
  add_code found vs =
      (if is_empty found then [] else found ++ codes " ") ++ child_text vs (codes "Value")

  -- The loop over the nested codes; a value with a name is not null.
  mutual
    unfolding child_text

    pub code_texts : Text → Value V → Text
    code_texts found (node f ats vs) = subcode_texts (add_code found vs) vs

    subcode_texts : Text → Values V → Text
    subcode_texts found empty = found
    subcode_texts found (more (node f ats ks) vs) =
        let inner = subcode_texts (add_code found ks) ks in
        let later = subcode_texts found vs in
        if eq_text f.name (codes "Subcode") then inner else later

  abbrev reason : Values V → Text
  reason vs = child_text (child_values (child q vs (codes "Reason"))) (codes "Text")

  fault12_text : Values V → Text
  unfolding code_texts child_text
  fault12_text vs =
      codes "Fault "
      ++ ((if is_null_value q (child q vs (codes "Code"))
            then []
            else code_texts [] (child q vs (codes "Code")))
          ++ (codes ": " ++ reason vs))

  unfoldable pub actor_text : Values V → Text
  unfolding child_text
  actor_text vs =
      if is_empty (child_text vs (codes "faultactor"))
      then []
      else codes " (" ++ (child_text vs (codes "faultactor") ++ codes ")")

  unfoldable pub fault11_text : Values V → Text
  unfolding child_text actor_text
  fault11_text vs =
      codes "Fault code "
      ++ (child_text vs (codes "faultcode")
          ++ (codes ": " ++ (child_text vs (codes "faultstring") ++ actor_text vs)))

  unfoldable pub add_detail : Text → Text → Text
  add_detail ret detail =
      if is_empty detail
      then ret
      else (if ends_with ret (codes ".") then ret else ret ++ codes ".")
        ++ (codes " Error detail: " ++ detail)

  unfoldable pub fault_as_string : Message V → Text
  unfolding fault12_text fault11_text add_detail child_text
  fault_as_string m =
      if eq_text (namespace_uri m) (codes "http://www.w3.org/2003/05/soap-envelope")
      then fault12_text (child_values m.value)
      else add_detail (fault11_text (child_values m.value))
          (child_text (child_values m.value) (codes "detail"))

  -- KDSoapHeaders::header
  pub header : List (Message V) → Text → Message V
  header [] name = new_message
  header (m ∷ ms) name = if eq_text (fields m.value).name name then m else header ms name

  pub header_in : List (Message V) → Text → Text → Message V
  header_in [] name ns = new_message
  header_in (m ∷ ms) name ns =
      if eq_text (fields m.value).name name && (is_empty ns || eq_text (namespace_uri m) ns)
      then m
      else header_in ms name ns
