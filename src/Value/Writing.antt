-- ===== src/Value/Writing.antt =====
-- What a value writes: variantToTextValue, variantToXMLType, writeElement, writeElementContents,
-- writeChildren and toXml of src/KDSoapClient/KDSoapValue.cpp.
use kdsoap.Prelude.{
  ℕ, Text, List, [], ◌∷◌, ◌++◌, none, some, Option, Bool, true, false, not, ◌&&◌, ◌||◌,
  if◌then◌else◌, codes, eq_text, is_empty, map,
}
use kdsoap.Namespaces.{
  Prefixes, resolve, xml_schema1999, xml_schema2001, xml_schema_instance2001, soap_encoding,
  standard_prefixes, standard_declarations, addressing200508,
}
use kdsoap.Request.{soap1_1}
use kdsoap.Xml.{
  Attribute, Call, start_document, end_document, start_element, end_element, write_namespace,
  write_attribute, write_characters,
}
use kdsoap.Value.{
  UserType, char_type, string_type, url_type, byte_array_type, int_type, long_long_type,
  unsigned_int_type, unsigned_long_long_type, bool_type, float_type, double_type, time_type,
  date_type, date_time_type, unknown_type, kd_date_time_type, other_type, Variants, Fields, Value,
  Values, node, empty, more, is_nil, count,
}

-- KDSoapValue::Use
pub data Use : Type 0 where
  literal_use encoded_use : Use

abbrev pub is_encoded : Use → Bool
is_encoded literal_use = false
is_encoded encoded_use = true

module _ {V : Type 0} (q : Variants V) where
  text_of_type : UserType → V → Text → Text → Text
  text_of_type char_type v ns name = q.to_text v
  text_of_type string_type v ns name = q.to_text v
  text_of_type url_type v ns name = q.url_text v
  text_of_type byte_array_type v ns name =
      if (eq_text ns xml_schema1999 || eq_text ns xml_schema2001)
        && eq_text name (codes "hexBinary")
      then q.to_hex (q.byte_array v)
      else q.to_base64 (q.byte_array v)
  text_of_type int_type v ns name = q.signed_text v
  text_of_type long_long_type v ns name = q.signed_text v
  text_of_type unsigned_int_type v ns name = q.signed_text v
  text_of_type unsigned_long_long_type v ns name = q.unsigned_text v
  text_of_type bool_type v ns name = q.to_text v
  text_of_type float_type v ns name = q.to_text v
  text_of_type double_type v ns name = q.to_text v
  text_of_type time_type v ns name =
      if q.has_milliseconds v then q.time_with_milliseconds v else q.iso_time v
  text_of_type date_type v ns name = q.iso_date v
  text_of_type date_time_type v ns name = q.date_time_text v
  text_of_type unknown_type v ns name = []
  text_of_type kd_date_time_type v ns name = q.date_time_text v
  text_of_type other_type v ns name = q.to_text v

  unfoldable pub variant_to_text_value : V → Text → Text → Text
  unfolding text_of_type
  variant_to_text_value v ns name = text_of_type (q.user_type v) v ns name

  xml_type_of : UserType → Text
  xml_type_of char_type = codes "xsd:string"
  xml_type_of string_type = codes "xsd:string"
  xml_type_of url_type = codes "xsd:string"
  xml_type_of byte_array_type = codes "xsd:base64Binary"
  xml_type_of int_type = codes "xsd:int"
  xml_type_of long_long_type = codes "xsd:int"
  xml_type_of unsigned_int_type = codes "xsd:int"
  xml_type_of unsigned_long_long_type = codes "xsd:unsignedInt"
  xml_type_of bool_type = codes "xsd:boolean"
  xml_type_of float_type = codes "xsd:float"
  xml_type_of double_type = codes "xsd:double"
  xml_type_of time_type = codes "xsd:time"
  xml_type_of date_type = codes "xsd:date"
  xml_type_of date_time_type = codes "xsd:dateTime"
  xml_type_of unknown_type = []
  xml_type_of kd_date_time_type = codes "xsd:dateTime"
  xml_type_of other_type = []

  pub variant_to_xml_type : V → Text
  unfolding xml_type_of
  variant_to_xml_type v = xml_type_of (q.user_type v)

  -- Whether the start tag has a namespace.
  pub is_forced : Fields V → Text → Bool → Bool
  is_forced f message_namespace force =
      f.qualified
      || (force
          || (not (is_empty f.name_namespace) && not (eq_text f.name_namespace message_namespace)))

  -- The namespace of a start tag; `none` where it is written without one.
  unfoldable pub written_namespace : Fields V → Text → Bool → Option Text
  unfolding is_forced
  written_namespace f message_namespace force =
      if is_forced f message_namespace force
      then some (if is_empty f.name_namespace then message_namespace else f.name_namespace)
      else none

  -- The attributes of use=encoded.
  type_text : Prefixes → Fields V → Text
  type_text prefixes f =
      if not (is_empty f.type_name)
      then resolve prefixes f.type_namespace f.type_name
      else if q.is_null f.variant
      then []
      else variant_to_xml_type f.variant

  abbrev instance_attribute : Text → Text → Attribute
  instance_attribute name content = record {
    space = some xml_schema_instance2001;
    name = name;
    content = content;
  }

  encoding_attributes : Prefixes → Fields V → ℕ → List Attribute
  unfolding type_text
  encoding_attributes prefixes f n =
      (if is_empty (type_text prefixes f)
        then []
        else instance_attribute (codes "type") (type_text prefixes f) ∷ [])
      ++ (if is_empty f.array_type
          then []
          else record {
            space = some soap_encoding;
            name = codes "arrayType";
            content =
                resolve prefixes f.array_type_namespace f.array_type
                ++ (b'[' ∷ (q.number n ++ b']' ∷ []));
          }
            ∷ [])

  -- The attributes that are among the child values.
  unfoldable pub value_attributes : Bool → Values V → List Attribute
  value_attributes force empty = []
  value_attributes force (more (node f ats vs) rest) =
      record {
        space = if f.qualified || force then some f.name_namespace else none;
        name = f.name;
        content = variant_to_text_value f.variant f.type_namespace f.type_name;
      }
      ∷ value_attributes force rest

  -- The attributes that writeElementContents writes before those among the child values.
  unfoldable pub leading_attributes : Prefixes → Use → Value V → List Attribute
  unfolding encoding_attributes
  leading_attributes prefixes literal_use (node f ats vs) =
      if is_nil q (node f ats vs) && f.nillable
      then instance_attribute (codes "nil") (codes "true") ∷ []
      else []
  leading_attributes prefixes encoded_use (node f ats vs) =
      (if is_nil q (node f ats vs) && f.nillable
        then instance_attribute (codes "nil") (codes "true") ∷ []
        else [])
      ++ encoding_attributes prefixes f (count vs)

  unfoldable pub text_calls : Fields V → List Call
  text_calls f =
      if q.is_null f.variant
        || is_empty (variant_to_text_value f.variant f.type_namespace f.type_name)
      then []
      else write_characters (variant_to_text_value f.variant f.type_namespace f.type_name) ∷ []

  abbrev pub namespace_calls : Fields V → List Call
  namespace_calls f = map write_namespace f.local_declarations

  -- writeElement; writeElementContents and writeChildren pass the calls of the child values on.
  unfoldable mutual
    pub write_element : Prefixes → Use → Text → Bool → Value V → List Call
    write_element prefixes use_ message_namespace force (node f ats vs) =
        start_element (written_namespace f message_namespace force) f.name
        ∷ (namespace_calls f
            ++ (map write_attribute (leading_attributes prefixes use_ (node f ats vs))
                ++ (map write_attribute (value_attributes false ats)
                    ++ (write_elements prefixes use_ message_namespace false vs
                        ++ (text_calls f ++ end_element ∷ [])))))

    pub write_elements : Prefixes → Use → Text → Bool → Values V → List Call
    write_elements prefixes use_ message_namespace force empty = []
    write_elements prefixes use_ message_namespace force (more v vs) =
        write_element prefixes use_ message_namespace force v
        ++ write_elements prefixes use_ message_namespace force vs

  unfoldable pub write_children : Prefixes → Use → Text → Bool → Value V → List Call
  unfolding write_elements value_attributes
  write_children prefixes use_ message_namespace force (node f ats vs) =
      map write_attribute (value_attributes force ats)
      ++ write_elements prefixes use_ message_namespace force vs

  unfoldable pub write_element_contents : Prefixes → Use → Text → Value V → List Call
  unfolding write_children leading_attributes text_calls
  write_element_contents prefixes use_ message_namespace (node f ats vs) =
      namespace_calls f
      ++ (map write_attribute (leading_attributes prefixes use_ (node f ats vs))
          ++ (write_children prefixes use_ message_namespace false (node f ats vs) ++ text_calls f))

  pub to_xml : Use → Text → Value V → List Call
  unfolding write_element
  to_xml use_ message_namespace v =
      start_document
      ∷ (map write_namespace (standard_declarations soap1_1 false addressing200508)
          ++ (write_element (standard_prefixes soap1_1 false addressing200508) use_
                message_namespace false v
              ++ end_document ∷ []))
