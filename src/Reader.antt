-- ===== src/Reader.antt =====
-- How a message is read: parseElement of src/KDSoapClient/KDSoapMessageReader.cpp on the tokens of
-- QXmlStreamReader.
pub mod Elements
pub mod Reading
pub mod Envelope
pub mod Retry
mod Tests
use kdsoap.Prelude.{
  ℕ, zero, suc, Text, List, [], ◌∷◌, ◌++◌, Option, none, some, Bool, ◌||◌, if◌then◌else◌, codes,
  eq_text, is_empty, index_of_char, take, drop, map,
}
use kdsoap.QName.{Declaration}
use kdsoap.Namespaces.{
  xml_schema_instance1999, xml_schema_instance2001, soap_encoding, soap_encoding200305,
  soap_envelope, soap_envelope200305,
}
use kdsoap.Xml.{Attribute, Element, Token, invalid, start, finish, characters, other, uri}
use kdsoap.Value.{
  UserType, string_type, byte_array_type, int_type, unsigned_long_long_type, bool_type, float_type,
  double_type, time_type, date_type, kd_date_time_type, Variants, Fields, Value, Values, node,
  empty, more, append, new_fields, new_value, set_type,
}

-- The first declaration of the prefix counts.
pub namespace_for_prefix : List Declaration → Text → Text
namespace_for_prefix [] prefix = []
namespace_for_prefix ((p, ns) ∷ decls) prefix =
    if eq_text p prefix then ns else namespace_for_prefix decls prefix

-- The table of xmlTypeToMetaType, in its order, with the test behind it.
abbrev meta_types : List (Text × UserType)
meta_types =
    (codes "string", string_type)
    ∷ (codes "base64Binary", byte_array_type)
    ∷ (codes "int", int_type)
    ∷ (codes "unsignedInt", unsigned_long_long_type)
    ∷ (codes "boolean", bool_type)
    ∷ (codes "float", float_type)
    ∷ (codes "double", double_type)
    ∷ (codes "time", time_type)
    ∷ (codes "date", date_type)
    ∷ (codes "dateTime", kd_date_time_type)
    ∷ []

find_type : List (Text × UserType) → Text → Option UserType
find_type [] name = none
find_type ((n, t) ∷ types) name = if eq_text name n then some t else find_type types name

-- `none` is the -1 of the source.
pub xml_type_to_meta_type : Text → Option UserType
unfolding find_type
xml_type_to_meta_type name = find_type meta_types name

-- type.left(pos), which is all of the type where it has no colon.
type_prefix : Text → Text
type_prefix type_ = elim (index_of_char type_ b':') [ none ↦ type_ | some i ↦ take i type_ ]

-- type.mid(pos + 1)
type_local : Text → Text
type_local type_ = elim (index_of_char type_ b':') [ none ↦ type_ | some i ↦ drop (suc i) type_ ]

unfoldable pub is_instance_namespace : Text → Bool
is_instance_namespace ns = eq_text ns xml_schema_instance1999 || eq_text ns xml_schema_instance2001

unfoldable pub is_soap_namespace : Text → Bool
is_soap_namespace ns =
    eq_text ns soap_encoding
    || (eq_text ns soap_encoding200305
        || (eq_text ns soap_envelope || eq_text ns soap_envelope200305))

-- A value whose element is being read: the type to convert to, once there is one, the last text,
-- and the declarations in scope.
pub record Parsing (V : Type 0) : Type 0 where
  pub value : Value V
  pub meta_type : Option (Option UserType)
  pub last_text : Text
  pub scope : List Declaration

-- What parseElement leaves behind: the value, the token that ended it, and the tokens to come.
pub record Parsed (V : Type 0) : Type 0 where
  pub value : Value V
  pub last : Token
  pub rest : List Token

module _ {V : Type 0} (q : Variants V) where
  abbrev pub append_attribute : Value V → Value V → Value V
  append_attribute (node f ats vs) a = node f (append ats a) vs

  abbrev pub append_child : Value V → Value V → Value V
  append_child (node f ats vs) v = node f ats (append vs v)

  -- One round of the loop over the attributes.
  pub read_attribute : Parsing V → Attribute → Parsing V
  unfolding is_instance_namespace is_soap_namespace type_prefix type_local
  read_attribute p a =
      if is_instance_namespace (uri a.space)
      then if eq_text a.name (codes "type")
        then record p {
          value =
              set_type (namespace_for_prefix p.scope (type_prefix a.content)) (type_local a.content)
                p.value;
          meta_type = some (xml_type_to_meta_type (type_local a.content));
        }
        else p
      else if is_soap_namespace (uri a.space)
      then p
      else record p {
        value = append_attribute p.value (new_value q a.name (q.of_text a.content) [] []);
      }

  pub read_attributes : Parsing V → List Attribute → Parsing V
  read_attributes p [] = p
  read_attributes p (a ∷ ats) = read_attributes (read_attribute p a) ats

  pub opened : List Declaration → Element → Parsing V
  unfolding read_attributes
  opened env e =
      read_attributes
        (record {
          value =
              node
                (record (new_fields q e.name q.null_variant [] []) {
                  name_namespace = uri e.space;
                  local_declarations = e.declarations;
                  environment_declarations = env ++ e.declarations;
                })
                empty empty;
          meta_type = none;
          last_text = [];
          scope = env ++ e.declarations;
        })
        e.attributes

  -- The value of a text, converted where a type is known and the conversion succeeds.
  pub text_variant : Text → Option (Option UserType) → V
  text_variant t none = q.of_text t
  text_variant t (some type_) = elim (q.convert (q.of_text t) type_) [
    | none ↦ q.of_text t
    | some v ↦ v
  ]

  abbrev pub with_variant : Value V → V → Value V
  with_variant (node f ats vs) v = node (record f { variant = v }) ats vs

  pub close : Parsing V → Value V
  unfolding text_variant
  close p =
      if is_empty p.last_text
      then p.value
      else with_variant p.value (text_variant p.last_text p.meta_type)

  abbrev parsed : Parsing V → Token → List Token → Parsed V
  parsed p last rest = record { value = close p; last = last; rest = rest }

  -- The loop over the tokens of an element, and the end of parseElement. Every round takes a token
  -- at least, so that fuel beyond their number is never used up.
  pub parse_content : ℕ → Parsing V → List Token → Parsed V
  unfolding close opened
  parse_content zero p ts = parsed p invalid ts
  parse_content (suc fuel) p [] = parsed p invalid []
  parse_content (suc fuel) p (invalid ∷ ts) = parsed p invalid ts
  parse_content (suc fuel) p (finish e ∷ ts) = parsed p (finish e) ts
  parse_content (suc fuel) p (characters t ∷ ts) =
      parse_content fuel (record p { last_text = t }) ts
  parse_content (suc fuel) p (other ∷ ts) = parse_content fuel p ts
  parse_content (suc fuel) p (start e ∷ ts) =
      let sub = parse_content fuel (opened p.scope e) ts in
      parse_content fuel (record p { value = append_child p.value sub.value }) sub.rest

  -- parseElement, after the start tag was read.
  unfoldable pub parse_element : ℕ → List Declaration → Element → List Token → Parsed V
  unfolding parse_content opened
  parse_element fuel env e ts = parse_content fuel (opened env e) ts
