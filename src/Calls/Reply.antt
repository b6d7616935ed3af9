-- ===== src/Calls/Reply.antt =====
-- The reply to a fault with texts, and that its document is well-formed: sendReply of
-- src/KDSoapServer/KDSoapServerSocket.cpp and KDSoapMessageWriter on it.
use kdsoap.Prelude.{
  Text, List, [], some, Bool-cases, true, false, ◌||◌, if◌then◌else◌, codes, is_empty, ◌≡◌, refl,
  ap, ◌∙◌, inl, inr, eq_text,
}
use kdsoap.Request.{SoapVersion, soap1_1, soap1_2}
use kdsoap.Namespaces.{Prefixes, envelope_of, soap_envelope, soap_envelope200305}
use kdsoap.Xml.WellFormed.{is_plain_text, is_name, is_namespace, is_well_formed, are_well_formed}
use kdsoap.Value.{Variants, IsTextual, Values, node, empty, more, new_fields, is_nil}
use kdsoap.Value.Writing.{
  literal_use, variant_to_text_value, leading_attributes, value_attributes, written_namespace,
}
use kdsoap.Value.Trees.{text_nodes, value_tree}
use kdsoap.Security.{Surroundings, new_authentication}
use kdsoap.Message.{Message, new_message, set_fault_flag}
use kdsoap.Writer.{
  Writer, has_header, element_name, element_namespace, message_namespace, prefixes_of,
}
use kdsoap.Writer.Trees.{message_tree, message_tree_simple}
use kdsoap.Replies.{ServerObject}
use kdsoap.RoundTrip.Sent.{and_true}

module _ {V : Type 0} (q : Variants V) where
  -- The text that is written of a text.
  pub text_of-of_text : (t : Text) → IsTextual q → variant_to_text_value q (q.of_text t) [] [] ≡ t
  unfolding variant_to_text_value
  text_of-of_text t textual = rw (textual.text_type t) (textual.text_back t)

  abbrev argument : Text → Text → Values V → Values V
  argument name t vs = more (node (new_fields q name (q.of_text t) [] []) empty empty) vs

  abbrev fault_values : Text → Text → Text → Text → Values V
  fault_values code string actor detail = argument (codes "faultcode") code (
      argument (codes "faultstring") string
        (argument (codes "faultactor") actor (argument (codes "detail") detail empty)))

  -- The reply to a fault with texts.
  abbrev pub fault_of : Text → Text → Text → Text → Message V
  fault_of code string actor detail = record (set_fault_flag true (new_message q)) {
    value =
        node (new_fields q [] q.null_variant [] []) empty (fault_values code string actor detail);
  }

  -- The writer of the reply to a request.
  abbrev pub reply_writer :
      Surroundings → Text → ServerObject V → List (Message V) → Text → Writer V
  reply_writer surroundings message_ns o hs action = record {
    version = o.request_version;
    default_namespace = if is_empty o.response_namespace then message_ns else o.response_namespace;
    headers = [];
    persistent_headers = [];
    authentication = new_authentication;
    surroundings = surroundings;
  }

  -- The texts that a fault may have.
  abbrev pub ArePlain : Text → Text → Text → Text → Type 0
  ArePlain code string actor detail =
      (is_plain_text code ≡ true)
      × (is_plain_text string ≡ true)
      × (is_plain_text actor ≡ true)
      × (is_plain_text detail ≡ true)

  text_formed :
      (name t : Text)
      → IsTextual q
      → is_plain_text t ≡ true
      → are_well_formed (text_nodes q (new_fields q name (q.of_text t) [] [])) ≡ true
  unfolding text_nodes is_well_formed
  text_formed name t textual h =
      elim (Bool-cases
        (q.is_null (q.of_text t) || is_empty (variant_to_text_value q (q.of_text t) [] []))) [
          | inl e ↦ rw e refl
          | inr e ↦ rw e (and_true (ap is_plain_text (text_of-of_text t textual) ∙ h) refl)
        ]

  no_attributes :
      (prefixes : Prefixes) (name : Text) (v : V) (ats vs : Values V)
      → leading_attributes q prefixes literal_use (node (new_fields q name v [] []) ats vs) ≡ []
  unfolding leading_attributes
  no_attributes prefixes name v ats vs =
      elim (Bool-cases (is_nil q (node (new_fields q name v [] []) ats vs))) [
        | inl e ↦ rw e refl
        | inr e ↦ rw e refl
      ]

  argument_formed :
      (prefixes : Prefixes) (mns name t : Text)
      → IsTextual q
      → is_name name ≡ true
      → is_plain_text t ≡ true
      → is_well_formed (
          value_tree q prefixes literal_use mns
            (written_namespace q (new_fields q name (q.of_text t) [] []) mns false)
            name
            (node (new_fields q name (q.of_text t) [] []) empty empty))
        ≡ true
  unfolding is_well_formed value_tree value_attributes written_namespace eq_text
  argument_formed prefixes mns name t textual n h =
      rw (no_attributes prefixes name (q.of_text t) empty empty)
        (and_true (and_true n refl) (text_formed name t textual h))

  null_formed :
      IsTextual q → are_well_formed (text_nodes q (new_fields q [] q.null_variant [] [])) ≡ true
  unfolding text_nodes is_well_formed
  null_formed textual = rw textual.null_is_null refl

  fault_formed :
      (prefixes : Prefixes) (mns ns code string actor detail : Text)
      → IsTextual q
      → is_namespace ns ≡ true
      → ArePlain code string actor detail
      → is_well_formed (
          value_tree q prefixes literal_use mns
            (some ns)
            (codes "Fault")
            (fault_of code string actor detail).value)
        ≡ true
  unfolding is_well_formed value_tree value_attributes is_name
  fault_formed prefixes mns ns code string actor detail textual h (c, s, a, d) =
      rw (no_attributes prefixes [] q.null_variant empty (fault_values code string actor detail)) (
        and_true (and_true h refl) (
          and_true (argument_formed prefixes mns (codes "faultcode") code textual refl c) (
            and_true (argument_formed prefixes mns (codes "faultstring") string textual refl s) (
              and_true (argument_formed prefixes mns (codes "faultactor") actor textual refl a) (
                and_true (argument_formed prefixes mns (codes "detail") detail textual refl d)
                  (null_formed textual))))))

  envelope_formed : (version : SoapVersion) → is_namespace (envelope_of version) ≡ true
  unfolding is_namespace envelope_of soap_envelope soap_envelope200305 eq_text
  envelope_formed soap1_1 = refl
  envelope_formed soap1_2 = refl

  pub is_well_formed-fault_of :
      (w : Writer V) (code string actor detail : Text)
      → IsTextual q
      → has_header w (fault_of code string actor detail) ≡ false
      → ArePlain code string actor detail
      → is_well_formed (message_tree q w (codes "Fault") (fault_of code string actor detail)) ≡ true
  unfolding is_well_formed element_name element_namespace set_fault_flag is_name
  is_well_formed-fault_of w code string actor detail textual plain h =
      let m = fault_of code string actor detail in
      let envelope = envelope_formed w.version in
      ap is_well_formed (message_tree_simple q w (codes "Fault") m plain refl)
      ∙ and_true (and_true envelope refl) (
          and_true
            (and_true (and_true envelope refl) (
              and_true
                (fault_formed (prefixes_of w m) (message_namespace w m) (envelope_of w.version) code
                  string actor detail textual envelope h)
                refl))
            refl)
