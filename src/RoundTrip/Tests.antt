-- ===== src/RoundTrip/Tests.antt =====
-- A message written and read: a greeting with a name as its child.
use kdsoap.Prelude.{Text, [], Option, none, some, false, codes, ◌≡◌, refl}
use kdsoap.Request.{soap1_1}
use kdsoap.Value.{Value, new_value, new_parent, Values, empty, more}
use kdsoap.Value.Samples.{texts}
use kdsoap.Value.Writing.{literal_use}
use kdsoap.Value.Contents.{Content, item, no_items, items, content_of, sent_as}
use kdsoap.Security.{new_authentication, Surroundings}
use kdsoap.Message.{Message}
use kdsoap.Namespaces.{standard_declarations}
use kdsoap.Writer.{
  Writer, element_name, message_to_xml, message_namespace, element_namespace, has_addressing,
  addressing_namespace_of,
}
use kdsoap.Writer.Trees.{message_tree, message_to_xml-document}
use kdsoap.Xml.{document}

abbrev greeting : Message (Option Text)
greeting = record {
  value =
      new_parent texts (codes "greet")
        (more (new_value texts (codes "name") (some (codes "Ada")) [] []) empty) [] [];
  use_of = literal_use;
  is_fault = false;
  addressing = none;
}

abbrev writer : Writer (Option Text)
writer = record {
  version = soap1_1;
  default_namespace = codes "urn:hello";
  headers = [];
  persistent_headers = [];
  authentication = new_authentication;
  surroundings = record { random_nonce = []; current_time = []; to_base64 = λ t. t; sha1 = λ t. t };
}

-- What the greeting says.
sent_as-greeting :
    sent_as texts
      (message_namespace writer greeting)
      (element_name [] greeting)
      (element_namespace writer greeting)
      greeting.value
    ≡ item
        (codes "greet")
        (codes "urn:hello")
        []
        []
        (items (item (codes "name") [] (codes "Ada") [] no_items) no_items)
unfolding sent_as message_namespace element_name element_namespace
    kdsoap.Value.Contents.sent_attributes kdsoap.Value.Writing.written_namespace
    kdsoap.Value.Writing.variant_to_text_value
sent_as-greeting = refl

message_to_xml-document_example :
    message_to_xml texts writer [] greeting
    ≡ document
        (standard_declarations writer.version
          (has_addressing greeting)
          (addressing_namespace_of greeting))
        (message_tree texts writer [] greeting)
message_to_xml-document_example = message_to_xml-document texts writer [] greeting tt tt
