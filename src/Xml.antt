-- ===== src/Xml.antt =====
-- What the library says to QXmlStreamWriter and hears from QXmlStreamReader, for the writers and
-- readers of src/KDSoapClient: the calls made, the tokens read, and the trees of elements that
-- both stand for. A text here is the list of its code points.

pub mod WellFormed
pub mod Transport
use kdsoap.Prelude.{
  Text, List, [], ◌∷◌, ◌++◌, Option, none, some, Bool, true, false, ◌&&◌, ◌≡◌, map,
}
use kdsoap.QName.{Declaration}

-- The namespace of a name, `none` where the call that writes it gives none.
abbrev pub uri : Option Text → Text
uri none = []
uri (some ns) = ns

pub record Attribute : Type 0 where
  pub space : Option Text
  pub name : Text
  pub content : Text

-- A start tag, with the namespaces declared on it.
pub record Element : Type 0 where
  pub space : Option Text
  pub name : Text
  pub declarations : List Declaration
  pub attributes : List Attribute

-- The calls of the writer, in order.
pub data Call : Type 0 where
  start_document : Call
  end_document : Call
  start_element : Option Text → Text → Call
  end_element : Call
  write_namespace : Declaration → Call
  write_attribute : Attribute → Call
  write_characters : Text → Call

-- What readNext() comes to; `other` stands for comments, the start of the document and the like.
pub data Token : Type 0 where
  invalid : Token
  start : Element → Token
  finish : Element → Token
  characters : Text → Token
  other : Token

mutual
  pub data Node : Type 0 where
    element : Element → Nodes → Node
    text : Text → Node

  pub data Nodes : Type 0 where
    nil : Nodes
    cons : Node → Nodes → Nodes

abbrev pub join : Nodes → Nodes → Nodes
join nil ms = ms
join (cons n ns) ms = cons n (join ns ms)

-- The calls that write a tree.
unfoldable mutual
  pub calls_of : Node → List Call
  calls_of (element e ns) =
      start_element e.space e.name
      ∷ (map write_namespace e.declarations
          ++ (map write_attribute e.attributes ++ (calls_of_nodes ns ++ end_element ∷ [])))
  calls_of (text t) = write_characters t ∷ []

  pub calls_of_nodes : Nodes → List Call
  calls_of_nodes nil = []
  calls_of_nodes (cons n ns) = calls_of n ++ calls_of_nodes ns

-- The tokens in which a tree is read, before further ones.
unfoldable mutual
  pub tokens_of : Node → List Token → List Token
  tokens_of (element e ns) rest = start e ∷ tokens_of_nodes ns (finish e ∷ rest)
  tokens_of (text t) rest = characters t ∷ rest

  pub tokens_of_nodes : Nodes → List Token → List Token
  tokens_of_nodes nil rest = rest
  tokens_of_nodes (cons n ns) rest = tokens_of n (tokens_of_nodes ns rest)

abbrev pub erase_attribute : Attribute → Attribute
erase_attribute a = record a { space = some (uri a.space) }

abbrev pub erase_element : Element → Element
erase_element e = record e {
  space = some (uri e.space);
  declarations = [];
  attributes = map erase_attribute e.attributes;
}

-- A tree without the declarations, which the writer may add to, and with every namespace given.
unfoldable mutual
  pub erase : Node → Node
  erase (element e ns) = element (erase_element e) (erase_nodes ns)
  erase (text t) = text t

  pub erase_nodes : Nodes → Nodes
  erase_nodes nil = nil
  erase_nodes (cons n ns) = cons (erase n) (erase_nodes ns)

abbrev pub is_some_text : Text → Bool
is_some_text [] = false
is_some_text (c ∷ t) = true

-- No element without a name, no empty text and no two texts in a row; the flag says whether a text
-- may come.
unfoldable mutual
  pub is_printable : Node → Bool
  is_printable (element e ns) = is_some_text e.name && are_printable true ns
  is_printable (text t) = is_some_text t

  pub are_printable : Bool → Nodes → Bool
  are_printable may nil = true
  are_printable may (cons (text t) ns) = may && is_some_text t && are_printable false ns
  are_printable may (cons (element e ks) ns) = is_printable (element e ks) && are_printable true ns

-- What a document of one element is, as calls: the namespaces written before its first element,
-- and that element.
unfoldable pub document : List Declaration → Node → List Call
unfolding calls_of
document decls n = start_document ∷ (map write_namespace decls ++ (calls_of n ++ end_document ∷ []))
