-- ===== src/Namespaces.antt =====
-- The namespaces that the library names, and the prefixes that a document declares for them:
-- src/KDSoapClient/KDSoapNamespaceManager.cpp and KDSoapNamespacePrefixes.cpp.
use kdsoap.Prelude.{Text, List, [], ◌∷◌, ◌++◌, Bool, if◌then◌else◌, codes, eq_text, map}
use kdsoap.QName.{Declaration}
use kdsoap.Request.{SoapVersion, soap1_1, soap1_2}

unfoldable pub xml_schema1999 : Text
xml_schema1999 = codes "http://www.w3.org/1999/XMLSchema"

unfoldable pub xml_schema2001 : Text
xml_schema2001 = codes "http://www.w3.org/2001/XMLSchema"

unfoldable pub xml_schema_instance1999 : Text
xml_schema_instance1999 = codes "http://www.w3.org/1999/XMLSchema-instance"

unfoldable pub xml_schema_instance2001 : Text
xml_schema_instance2001 = codes "http://www.w3.org/2001/XMLSchema-instance"

unfoldable pub soap_envelope : Text
soap_envelope = codes "http://schemas.xmlsoap.org/soap/envelope/"

unfoldable pub soap_envelope200305 : Text
soap_envelope200305 = codes "http://www.w3.org/2003/05/soap-envelope"

unfoldable pub soap_encoding : Text
soap_encoding = codes "http://schemas.xmlsoap.org/soap/encoding/"

unfoldable pub soap_encoding200305 : Text
soap_encoding200305 = codes "http://www.w3.org/2003/05/soap-encoding"

unfoldable pub soap_message_addressing : Text
soap_message_addressing = codes "http://www.w3.org/2005/08/addressing"

unfoldable pub soap_security_extention : Text
soap_security_extention =
    codes "http://docs.oasis-open.org/wss/2004/01/oasis-200401-wss-wssecurity-secext-1.0.xsd"

unfoldable pub soap_security_utility : Text
soap_security_utility =
    codes "http://docs.oasis-open.org/wss/2004/01/oasis-200401-wss-wssecurity-utility-1.0.xsd"

unfoldable pub soap_message_addressing200303 : Text
soap_message_addressing200303 = codes "http://schemas.xmlsoap.org/ws/2003/03/addressing"

unfoldable pub soap_message_addressing200403 : Text
soap_message_addressing200403 = codes "http://schemas.xmlsoap.org/ws/2004/03/addressing"

unfoldable pub soap_message_addressing200408 : Text
soap_message_addressing200408 = codes "http://schemas.xmlsoap.org/ws/2004/08/addressing"

-- KDSoapMessageAddressingProperties::KDSoapAddressingNamespace
pub data AddressingNamespace : Type 0 where
  addressing200303 addressing200403 addressing200408 addressing200508 : AddressingNamespace

pub addressing_namespace_to_string : AddressingNamespace → Text
addressing_namespace_to_string addressing200303 = soap_message_addressing200303
addressing_namespace_to_string addressing200403 = soap_message_addressing200403
addressing_namespace_to_string addressing200408 = soap_message_addressing200408
addressing_namespace_to_string addressing200508 = soap_message_addressing

-- KDSoapNamespacePrefixes, a QMap from namespaces to prefixes; the first entry of a namespace counts.
abbrev pub Prefixes : Type 0
Prefixes = List (Text × Text)

-- QMap::value
pub prefix_of : Prefixes → Text → Text
prefix_of [] ns = []
prefix_of ((uri, prefix) ∷ prefixes) ns = if eq_text uri ns then prefix else prefix_of prefixes ns

-- KDSoapNamespacePrefixes::resolve, which leaves the prefix empty where the namespace is unknown.
pub resolve : Prefixes → Text → Text → Text
unfolding prefix_of
resolve prefixes ns local_name = prefix_of prefixes ns ++ (b':' ∷ local_name)

unfoldable pub envelope_of : SoapVersion → Text
envelope_of soap1_1 = soap_envelope
envelope_of soap1_2 = soap_envelope200305

encoding_of : SoapVersion → Text
encoding_of soap1_1 = soap_encoding
encoding_of soap1_2 = soap_encoding200305

-- The namespaces that writeStandardNamespaces writes, with their prefixes, in its order.
pub standard_namespaces : SoapVersion → Bool → AddressingNamespace → Prefixes
unfolding envelope_of encoding_of addressing_namespace_to_string
standard_namespaces version addressing_enabled addressing =
    (envelope_of version, codes "soap")
    ∷ (encoding_of version, codes "soap-enc")
    ∷ (xml_schema2001, codes "xsd")
    ∷ (xml_schema_instance2001, codes "xsi")
    ∷ (if addressing_enabled
        then (addressing_namespace_to_string addressing, codes "wsa") ∷ []
        else [])

-- The prefixes after writeStandardNamespaces, the known variants included.
pub standard_prefixes : SoapVersion → Bool → AddressingNamespace → Prefixes
unfolding standard_namespaces
standard_prefixes version addressing_enabled addressing =
    standard_namespaces version addressing_enabled addressing
    ++ ((xml_schema1999, codes "xsd") ∷ (xml_schema_instance1999, codes "xsi") ∷ [])

-- What is written of them.
unfoldable pub standard_declarations : SoapVersion → Bool → AddressingNamespace → List Declaration
unfolding standard_namespaces
standard_declarations version addressing_enabled addressing =
    map (λ p. (p.1, p.0)) (standard_namespaces version addressing_enabled addressing)
