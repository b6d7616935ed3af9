-- ===== src/Replies/Faults.antt =====
-- The fault of a reply: setFault, setRequestHeaders and storeFaultAttributes of
-- src/KDSoapServer/KDSoapServerObjectInterface.cpp, read by KDSoapMessage::faultAsString.
use kdsoap.Prelude.{
  Text, List, [], ◌++◌, Bool-cases, true, false, if◌then◌else◌, codes, eq_text, is_empty, ◌≡◌, refl,
  inl, inr,
}
use kdsoap.Value.{Variants, Value, empty, more, fields, child_values, child, is_nil, is_null_value}
use kdsoap.Message.{
  Message, new_message, set_fault_flag, add_value_argument, add_list_argument, add_detail,
}
use kdsoap.Replies.{ServerObject, set_fault, set_request_headers, store_fault_attributes}

module _ {V : Type 0} (q : Variants V) where
  pub detail_in : Message V → Value V
  detail_in m = child q (child_values m.value) (codes "detail")

  -- The detail of an earlier fault that was a value outlives the preparation for a new request: a
  -- fault that is set with a text for its detail is answered with the earlier value in its place,
  -- whatever the text, in a new response.
  pub detail_in-store_fault_attributes :
      (o : ServerObject V) (hs : List (Message V)) (action code string actor detail : Text)
      → is_nil q o.detail_value ≡ false
      → child_values (
          detail_in (
            store_fault_attributes q
              (set_fault code string actor detail (set_request_headers hs action o))
              (set_fault_flag true (new_message q))))
        ≡ more o.detail_value empty
  unfolding detail_in store_fault_attributes set_fault set_request_headers add_value_argument
      add_list_argument set_fault_flag is_null_value child eq_text
  detail_in-store_fault_attributes o hs action code string actor detail h =
      elim (Bool-cases (is_empty (fields o.detail_value).name)) [
        | inl e ↦ rw (h, e) refl
        | inr e ↦ rw (h, e) refl
      ]

  -- The text of a fault that a server object set with texts.
  unfoldable pub fault_text_of : Text → Text → Text → Text → Text
  unfolding add_detail
  fault_text_of code string actor detail =
      add_detail q
        (codes "Fault code "
          ++ (code
              ++ (codes ": "
                  ++ (string
                      ++ (if is_empty actor then [] else codes " (" ++ (actor ++ codes ")"))))))
        detail
