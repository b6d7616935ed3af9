-- ===== src/Xml/WellFormed.antt =====
-- Which trees a document can hold so that QXmlStreamReader reads what QXmlStreamWriter was told, and
-- what Qt documents of the pair on them.
use kdsoap.Prelude.{
  ℕ, Text, List, [], ◌∷◌, Bool, true, false, not, ◌&&◌, ◌||◌, ltb, leb, ◌==◌, codes, eq_text,
  is_empty, all, ◌≡◌,
}
use kdsoap.QName.{Declaration}
use kdsoap.Xml.{
  uri, Attribute, Call, Token, other, Node, element, text, Nodes, nil, cons, tokens_of, erase,
  is_printable, document,
}

-- The characters of XML but for the control characters, of which the writer escapes none and the
-- reader refuses most.
pub is_plain_char : ℕ → Bool
is_plain_char c =
    (leb 32 c && ltb c 127)
    || (leb 160 c && ltb c 0xd800)
    || (leb 0xe000 c && ltb c 0xfffe)
    || (leb 0x10000 c && ltb c 0x110000)

-- A text may have tabs and line feeds; a carriage return would be read as a line feed.
unfoldable pub is_plain_text : Text → Bool
unfolding is_plain_char
is_plain_text t = all (λ c. c == 9 || c == 10 || is_plain_char c) t

name_start : ℕ → Bool
name_start c = (leb b'a' c && leb c b'z') || (leb b'A' c && leb c b'Z') || c == b'_'

name_char : ℕ → Bool
unfolding name_start
name_char c = name_start c || (leb b'0' c && leb c b'9') || c == b'-' || c == b'.'

-- A name of ASCII letters, digits and the like, without a prefix.
unfoldable pub is_name : Text → Bool
unfolding name_char name_start
is_name [] = false
is_name (c ∷ t) = name_start c && all name_char t

-- A namespace that may be bound to any prefix.
unfoldable pub is_namespace : Text → Bool
unfolding is_plain_char
is_namespace ns =
    all is_plain_char ns
    && (not (eq_text ns (codes "http://www.w3.org/XML/1998/namespace"))
        && not (eq_text ns (codes "http://www.w3.org/2000/xmlns/")))

-- No attribute stands twice; one named xmlns is a declaration.
same_attribute : Attribute → Attribute → Bool
same_attribute a b = eq_text (uri a.space) (uri b.space) && eq_text a.name b.name

pub are_attributes : List Attribute → Bool
unfolding same_attribute is_name is_namespace is_plain_char
are_attributes [] = true
are_attributes (a ∷ rest) =
    (is_name a.name
      && (not (eq_text a.name (codes "xmlns"))
          && (is_namespace (uri a.space) && all is_plain_char a.content)))
    && (all (λ b. not (same_attribute a b)) rest && are_attributes rest)

-- The declarations before the first element: no prefix stands twice.
unfoldable pub are_declarations : List Declaration → Bool
unfolding is_name is_namespace
are_declarations [] = true
are_declarations ((prefix, ns) ∷ rest) =
    (is_name prefix && (not (is_empty ns) && is_namespace ns))
    && (all (λ d. not (eq_text prefix d.0)) rest && are_declarations rest)

abbrev no_declarations : List Declaration → Bool
no_declarations [] = true
no_declarations (d ∷ ds) = false

-- The elements declare nothing of their own, since a declaration behind a start tag may bind anew the
-- prefix that the tag was written with.
unfoldable mutual
  unfolding are_attributes is_name is_namespace is_plain_text

  pub is_well_formed : Node → Bool
  is_well_formed (element e ns) =
      (is_name e.name
        && (is_namespace (uri e.space)
            && (no_declarations e.declarations && are_attributes e.attributes)))
      && are_well_formed ns
  is_well_formed (text t) = is_plain_text t

  pub are_well_formed : Nodes → Bool
  are_well_formed nil = true
  are_well_formed (cons n ns) = is_well_formed n && are_well_formed ns

-- What Qt documents of the pair of its writer and its reader, a well-formed document written and read:
-- for a tree without an empty text and without two texts in a row, whose names, texts, attributes and
-- namespaces are well-formed, the reader has the tokens of that tree, but for the declarations of its
-- elements, with the start and the end of the document around it.
abbrev pub IsFaithful : (List Call → List Token) → Type 0
IsFaithful deliver =
    (decls : List Declaration) (n : Node)
    → are_declarations decls ≡ true
    → is_printable n ≡ true
    → is_well_formed n ≡ true
    → (m : Node) × (deliver (document decls n) ≡ other ∷ tokens_of m (other ∷ []))
      × (erase m ≡ erase n)
