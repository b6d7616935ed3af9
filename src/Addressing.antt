-- ===== src/Addressing.antt =====
-- The addressing properties of a message and their elements in its header:
-- src/KDSoapClient/KDSoapMessageAddressingProperties.cpp and KDSoapEndpointReference.cpp.
pub mod Elements
use kdsoap.Prelude.{
  Text, List, [], ◌∷◌, ◌++◌, none, some, Bool, true, false, not, ◌&&◌, ◌||◌, if◌then◌else◌, codes,
  eq_text, is_empty,
}
use kdsoap.Namespaces.{
  AddressingNamespace, addressing200303, addressing200403, addressing200408, addressing200508,
  addressing_namespace_to_string, soap_message_addressing, soap_message_addressing200303,
  soap_message_addressing200403, soap_message_addressing200408,
}
use kdsoap.Xml.{Call, start_element, end_element, write_attribute, write_characters}
use kdsoap.Value.{
  Variants, Fields, Value, Values, node, empty, more, append, fields, attributes, child_values,
  none_in, child, is_null_value,
}

-- KDSoapAddressingPredefinedAddress
pub data PredefinedAddress : Type 0 where
  none_address anonymous reply unspecified : PredefinedAddress

pub record Relationship : Type 0 where
  pub relationship_uri : Text
  pub relationship_type : Text

pub record EndpointReference (V : Type 0) : Type 0 where
  pub address : Text
  pub endpoint_metadata : Values V
  pub endpoint_parameters : Values V

pub record Addressing (V : Type 0) : Type 0 where
  pub destination : Text
  pub action : Text
  pub source_endpoint : EndpointReference V
  pub reply_endpoint : EndpointReference V
  pub fault_endpoint : EndpointReference V
  pub message_id : Text
  pub relationships : List Relationship
  pub reference_parameters : Values V
  pub metadata : Values V
  pub addressing_namespace : AddressingNamespace

-- Whether the namespace is one of 2004/08 and earlier.
is_early : AddressingNamespace → Bool
is_early addressing200508 = false
is_early _ = true

address_suffix : PredefinedAddress → Text
address_suffix none_address = codes "/none"
address_suffix anonymous = codes "/anonymous"
address_suffix reply = codes "/reply"
address_suffix unspecified = codes "/unspecified"

early_address : PredefinedAddress → Text → Text
early_address anonymous prefix = prefix ++ codes "/role/anonymous"
early_address unspecified prefix = prefix ++ codes "/id/unspecified"
early_address none_address prefix = []
early_address reply prefix = []

pub predefined_address_to_string : PredefinedAddress → AddressingNamespace → Text
unfolding is_early address_suffix early_address
predefined_address_to_string address ns =
    if is_early ns
    then early_address address (addressing_namespace_to_string ns)
    else addressing_namespace_to_string ns ++ address_suffix address

pub is_ws_addressing_namespace : Text → Bool
is_ws_addressing_namespace ns =
    eq_text ns soap_message_addressing
    || (eq_text ns soap_message_addressing200303
        || (eq_text ns soap_message_addressing200403 || eq_text ns soap_message_addressing200408))

-- An element that holds a text alone.
abbrev text_element : Text → Text → Text → List Call
text_element ns name content =
    start_element (some ns) name ∷ write_characters content ∷ end_element ∷ []

text_calls : Text → Text → Text → List Call
text_calls ns name content = if is_empty content then [] else text_element ns name content

module _ {V : Type 0} where
  abbrev pub new_endpoint : Text → EndpointReference V
  new_endpoint address = record {
    address = address;
    endpoint_metadata = empty;
    endpoint_parameters = empty;
  }

  abbrev pub new_addressing : Addressing V
  new_addressing = record {
    destination = [];
    action = [];
    source_endpoint = new_endpoint [];
    reply_endpoint = new_endpoint [];
    fault_endpoint = new_endpoint [];
    message_id = [];
    relationships = [];
    reference_parameters = empty;
    metadata = empty;
    addressing_namespace = addressing200508;
  }

  -- KDSoapEndpointReference::setAddress
  abbrev pub set_address : EndpointReference V → Text → EndpointReference V
  set_address e address = record e { address = address }

  endpoint_calls : Text → Text → EndpointReference V → List Call
  endpoint_calls ns name e =
      if is_empty e.address
      then []
      else start_element (some ns) name
        ∷ (text_element ns (codes "Address") e.address ++ end_element ∷ [])

relationship_calls : Text → List Relationship → List Call
relationship_calls ns [] = []
relationship_calls ns (r ∷ rs) =
    (if is_empty r.relationship_uri
      then []
      else start_element (some ns) (codes "RelatesTo")
        ∷ ((if is_empty r.relationship_type
              then []
              else write_attribute (record {
                space = none;
                name = codes "RelationshipType";
                content = r.relationship_type;
              })
                ∷ [])
            ++ write_characters r.relationship_uri ∷ end_element ∷ []))
    ++ relationship_calls ns rs

module _ {V : Type 0} (q : Variants V) where
  pub add_reference_parameter : Value V → Addressing V → Addressing V
  add_reference_parameter v a =
      if is_null_value q v
      then a
      else record a { reference_parameters = append a.reference_parameters v }

  pub add_metadata : Value V → Addressing V → Addressing V
  add_metadata v a = if is_null_value q v then a else record a { metadata = append a.metadata v }

  -- writeKDSoapValueVariant
  variant_calls : Fields V → List Call
  variant_calls f =
      if q.can_be_text f.variant then write_characters (q.to_text f.variant) ∷ [] else []

  -- writeKDSoapValueListHierarchy
  pub write_hierarchy : Text → Values V → List Call
  unfolding variant_calls
  write_hierarchy ns empty = []
  write_hierarchy ns (more (node f ats empty) rest) =
      start_element (some ns) f.name ∷ (variant_calls f ++ end_element ∷ write_hierarchy ns rest)
  write_hierarchy ns (more (node f ats (more v vs)) rest) =
      start_element (some ns) f.name
      ∷ (write_hierarchy ns (more v vs) ++ end_element ∷ write_hierarchy ns rest)

  hierarchy_calls : Text → Text → Values V → List Call
  unfolding write_hierarchy
  hierarchy_calls ns name vs =
      if none_in vs
      then []
      else start_element (some ns) name ∷ (write_hierarchy ns vs ++ end_element ∷ [])

  pub write_message_addressing_properties : Addressing V → List Call
  unfolding endpoint_calls text_calls relationship_calls hierarchy_calls is_early
  write_message_addressing_properties a =
      let ns = addressing_namespace_to_string a.addressing_namespace in
      if not (is_early a.addressing_namespace)
        && eq_text a.destination (predefined_address_to_string none_address a.addressing_namespace)
      then []
      else text_calls ns (codes "To") a.destination
        ++ (endpoint_calls ns (codes "From") a.source_endpoint
            ++ (endpoint_calls ns (codes "ReplyTo") a.reply_endpoint
                ++ (endpoint_calls ns (codes "FaultTo") a.fault_endpoint
                    ++ (text_calls ns (codes "Action") a.action
                        ++ (text_calls ns (codes "MessageID") a.message_id
                            ++ (relationship_calls ns a.relationships
                                ++ (hierarchy_calls ns (codes "ReferenceParameters")
                                      a.reference_parameters
                                    ++ hierarchy_calls ns (codes "Metadata") a.metadata)))))))

  -- The loop over the attributes of a RelatesTo: the last RelationshipType counts.
  relationship_type_of : Text → Values V → Text
  relationship_type_of found empty = found
  relationship_type_of found (more v ats) =
      relationship_type_of
        (if eq_text (fields v).name (codes "RelationshipType")
          then q.to_text (fields v).variant
          else found)
        ats

  address_in : Value V → Text
  address_in v = q.to_text (fields (child q (child_values v) (codes "Address"))).variant

  pub read_message_addressing_property : Addressing V → Value V → Addressing V
  unfolding relationship_type_of address_in
  read_message_addressing_property a v =
      let content = q.to_text (fields v).variant in
      let name = (fields v).name in
      if eq_text name (codes "Action")
      then record a { action = content }
      else if eq_text name (codes "MessageID")
      then record a { message_id = content }
      else if eq_text name (codes "To")
      then record a { destination = content }
      else if eq_text name (codes "From")
      then record a { source_endpoint = set_address a.source_endpoint (address_in v) }
      else if eq_text name (codes "ReplyTo")
      then record a { reply_endpoint = set_address a.reply_endpoint (address_in v) }
      else if eq_text name (codes "RelatesTo")
      then record a {
        relationships =
            a.relationships
            ++ record {
              relationship_uri = content;
              relationship_type =
                  relationship_type_of
                    (addressing_namespace_to_string a.addressing_namespace ++ codes "/reply")
                    (attributes v);
            }
              ∷ [];
      }
      else if eq_text name (codes "FaultTo")
      then record a { fault_endpoint = set_address a.fault_endpoint (address_in v) }
      else if eq_text name (codes "ReferenceParameters")
      then record a { reference_parameters = child_values v }
      else if eq_text name (codes "Metadata")
      then record a { metadata = child_values v }
      else a
