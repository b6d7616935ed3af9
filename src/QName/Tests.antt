-- ===== src/QName/Tests.antt =====
-- Concrete names.
use kdsoap.Prelude.{List, [], ◌∷◌, All, ◌≡◌, ◌≢◌, refl, arith, codes}
use kdsoap.QName.{QName, Declaration, parse, qname, from_soap_value, to_soap_value, read_within}
use kdsoap.QName.Parsing.{from_soap_value-to_soap_value, qname-parse_again}

abbrev name : QName
name = record { name_space = codes "urn:a"; prefix = codes "p"; local_name = codes "n" }

not_colon_p : All (λ c. c ≢ b':') (codes "p")
not_colon_p = ((λ e. absurd (omega arith)), tt)

not_colon_n : All (λ c. c ≢ b':') (codes "n")
not_colon_n = ((λ e. absurd (omega arith)), tt)

-- The prefix is declared around it for another namespace.
abbrev surroundings : List Declaration
surroundings = (codes "p", codes "urn:other") ∷ []

from_soap_value-to_soap_value_example :
    (from_soap_value (read_within surroundings (to_soap_value name)) ≡ name)
    × (from_soap_value (to_soap_value name) ≡ record name { name_space = [] })
from_soap_value-to_soap_value_example =
    from_soap_value-to_soap_value name surroundings refl refl not_colon_p not_colon_n

qname-parse_again_example : qname (parse name (codes "n")) ≡ codes "p:n"
qname-parse_again_example = qname-parse_again name (codes "n") refl not_colon_n
