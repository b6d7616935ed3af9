-- ===== src/Message/Faults.antt =====
-- The text of a fault: createFaultMessage and faultAsString of src/KDSoapClient/KDSoapMessage.cpp.
use kdsoap.Prelude.{Text, ◌++◌, codes, eq_text, ◌≡◌, append-nil}
use kdsoap.Request.{SoapVersion, soap1_1, soap1_2}
use kdsoap.Namespaces.{soap_envelope, soap_envelope200305}
use kdsoap.Value.{Variants, IsTextual, child, is_null_value, is_nil}
use kdsoap.Message.{
  create_fault_message, fault_as_string, add_value_argument, add_list_argument, child_text,
  code_texts, fault11_text, fault12_text, actor_text, add_detail, empty_fault,
}

-- How the text of a fault begins.
pub fault_words : SoapVersion → Text
fault_words soap1_1 = codes "Fault code "
fault_words soap1_2 = codes "Fault "

module _ {V : Type 0} (q : Variants V) where
  -- A fault that was created prints its code and its text, in either version of SOAP.
  pub fault_as_string-create_fault_message :
      (version : SoapVersion) (code reason : Text)
      → IsTextual q
      → fault_as_string q (create_fault_message q code reason version)
        ≡ fault_words version ++ (code ++ (codes ": " ++ reason))
  unfolding fault_words fault_as_string fault11_text fault12_text actor_text add_detail empty_fault
      create_fault_message add_value_argument add_list_argument child child_text eq_text
      soap_envelope soap_envelope200305 code_texts is_null_value is_nil
  fault_as_string-create_fault_message soap1_1 code reason t =
      simp (t.text_back, t.null_text, append-nil)
  fault_as_string-create_fault_message soap1_2 code reason t = simp (t.text_back)
