-- ===== src/QName.antt =====
-- Qualified names of XML: src/KDSoapClient/KDQName.cpp.
pub mod Parsing
mod Tests
use kdsoap.Prelude.{
  suc, Text, List, [], ◌∷◌, ◌++◌, none, some, Bool, ◌&&◌, not, if◌then◌else◌, eq_text,
  index_of_char, is_empty, take, drop,
}

pub record QName : Type 0 where
  pub name_space : Text
  pub prefix : Text
  pub local_name : Text

abbrev pub new_name : QName
new_name = record { name_space = []; prefix = []; local_name = [] }

-- A prefix and its namespace.
abbrev pub Declaration : Type 0
Declaration = Text × Text

-- KDQName::parse on a name that may have been used.
pub parse : QName → Text → QName
parse q str = elim (index_of_char str b':') [
  | none ↦ record q { local_name = str }
  | some i ↦ record q { prefix = take i str; local_name = drop (suc i) str }
]

pub qname : QName → Text
qname q = if is_empty q.prefix then q.local_name else q.prefix ++ (b':' ∷ q.local_name)

-- operator==
pub same_name : QName → QName → Bool
same_name p q = eq_text q.name_space p.name_space && eq_text q.local_name p.local_name

pub is_empty_name : QName → Bool
is_empty_name q = is_empty q.name_space && is_empty q.local_name

-- The loop over the declarations: the last one of the prefix counts.
pub declare : QName → List Declaration → QName
declare q [] = q
declare q ((prefix, uri) ∷ decls) =
    let named = declare (record q { name_space = uri }) decls in
    let other = declare q decls in if eq_text prefix q.prefix then named else other

-- What the conversions use of a KDSoapValue: its text, the namespaces that it declares
-- (m_localNamespaceDeclarations) and those in whose scope it was read
-- (m_environmentNamespaceDeclarations).
pub record NameValue : Type 0 where
  pub text : Text
  pub local_declarations : List Declaration
  pub environment_declarations : List Declaration

-- KDQName::fromSoapValue
pub from_soap_value : NameValue → QName
unfolding parse declare
from_soap_value v = declare (parse new_name v.text) v.environment_declarations

-- KDQName::toSoapValue, with the constructor of KDSoapValue and addNamespaceDeclaration.
pub to_soap_value : QName → NameValue
unfolding qname
to_soap_value q = record {
  text = qname q;
  local_declarations =
      if not (is_empty q.prefix) && not (is_empty q.name_space)
      then (q.prefix, q.name_space) ∷ []
      else [];
  environment_declarations = [];
}

-- The value as a reader has it that is within `outer`: the text and the declarations of the element,
-- with the latter behind those of its surroundings (parseElement of KDSoapMessageReader.cpp).
pub read_within : List Declaration → NameValue → NameValue
read_within outer v = record v { environment_declarations = outer ++ v.local_declarations }
