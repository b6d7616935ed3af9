-- ===== src/RoundTrip/Declared.antt =====
-- The namespaces that every message declares can be declared in one start tag.
use kdsoap.Prelude.{Bool, true, false, ◌≡◌, refl, eq_text}
use kdsoap.Request.{SoapVersion, soap1_1, soap1_2}
use kdsoap.Namespaces.{
  AddressingNamespace, addressing200303, addressing200403, addressing200408, addressing200508,
  standard_declarations, xml_schema2001, xml_schema_instance2001, soap_envelope,
  soap_envelope200305, soap_encoding, soap_encoding200305, soap_message_addressing,
  soap_message_addressing200303, soap_message_addressing200403, soap_message_addressing200408,
}
use kdsoap.Xml.WellFormed.{are_declarations}

pub are_declarations-standard :
    (version : SoapVersion) (addressed : Bool) (ns : AddressingNamespace)
    → are_declarations (standard_declarations version addressed ns) ≡ true
unfolding are_declarations standard_declarations eq_text xml_schema2001 xml_schema_instance2001
    soap_envelope soap_envelope200305 soap_encoding soap_encoding200305 soap_message_addressing
    soap_message_addressing200303 soap_message_addressing200403 soap_message_addressing200408
are_declarations-standard soap1_1 false ns = refl
are_declarations-standard soap1_1 true addressing200303 = refl
are_declarations-standard soap1_1 true addressing200403 = refl
are_declarations-standard soap1_1 true addressing200408 = refl
are_declarations-standard soap1_1 true addressing200508 = refl
are_declarations-standard soap1_2 false ns = refl
are_declarations-standard soap1_2 true addressing200303 = refl
are_declarations-standard soap1_2 true addressing200403 = refl
are_declarations-standard soap1_2 true addressing200408 = refl
are_declarations-standard soap1_2 true addressing200508 = refl
