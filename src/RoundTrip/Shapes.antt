-- ===== src/RoundTrip/Shapes.antt =====
-- The shape of a message's tree, an envelope with a body and a message, and how xmlToMessage of
-- src/KDSoapClient/KDSoapMessageReader.cpp goes through it.
use kdsoap.Prelude.{
  and_left, and_right, suc, ◌+◌, ◌≤◌, Text, List, [], ◌∷◌, true, false, ◌&&◌, eq_text, codes,
  length, ◌≡◌, refl, ap, ap₂, ◌∙◌, arith,
}
use kdsoap.Request.{SoapVersion, soap1_1, soap1_2}
use kdsoap.Namespaces.{envelope_of, soap_envelope, soap_envelope200305}
use kdsoap.Xml.{
  Element, Token, start, finish, other, uri, Node, element, text, Nodes, nil, cons, tokens_of,
  tokens_of_nodes, erase, erase_nodes, erase_element,
}
use kdsoap.Value.{Variants}
use kdsoap.Reader.{opened, close, parse_element}
use kdsoap.Reader.Elements.{size, size_nodes, read_nodes, parse_content-tokens_of_nodes}
use kdsoap.Reader.Reading.{element_content, are_plain, is_untyped}
use kdsoap.Reader.Envelope.{
  Pass, read_document, take_message, is_soap_element, is_envelope_namespace, next_start,
}
use kdsoap.RoundTrip.Sent.{node_content}
use kdsoap.RoundTrip.Erased.{element_like, cons_like, nil_like, same_content, same_types}

mutual
  unfolding size tokens_of

  size-le : (n : Node) (ts : List Token) → size n + length ts ≤ length (tokens_of n ts)
  size-le (element e ns) ts = omega (arith, size_nodes-le ns (finish e ∷ ts))
  size-le (text t) ts = omega arith

  size_nodes-le :
      (ns : Nodes) (ts : List Token) → size_nodes ns + length ts ≤ length (tokens_of_nodes ns ts)
  size_nodes-le nil ts = omega arith
  size_nodes-le (cons n ns) ts =
      omega (arith, size-le n (tokens_of_nodes ns ts), size_nodes-le ns ts)

pub is_soap_element_lem :
    (name n ns : Text) (e : Element)
    → e.name ≡ n
    → uri e.space ≡ ns
    → is_soap_element name (start e) ≡ (eq_text n name && is_envelope_namespace ns)
unfolding is_soap_element
is_soap_element_lem name n ns e h k =
    ap₂ (λ n' ns'. eq_text n' name && is_envelope_namespace ns') h k

pub is_envelope_namespace-envelope_of :
    (version : SoapVersion) → is_envelope_namespace (envelope_of version) ≡ true
unfolding is_envelope_namespace envelope_of eq_text soap_envelope soap_envelope200305
is_envelope_namespace-envelope_of soap1_1 = refl
is_envelope_namespace-envelope_of soap1_2 = refl

pub body_header : eq_text (codes "Body") (codes "Header") ≡ false
unfolding eq_text
body_header = refl

-- The parts of what is known of an element's tree.
pub plain_parts :
    (x : Element) (cs : Nodes)
    → is_untyped (cons (element x cs) nil) ≡ true
    → (are_plain x.attributes ≡ true) × (is_untyped cs ≡ true)
unfolding is_untyped
plain_parts x cs h = (and_left _ _ h, and_left _ _ (and_right (are_plain x.attributes) _ h))

pub same_types' :
    (x : Element) (cs : Nodes) (y : Element) (ds : Nodes)
    → erase (element x cs) ≡ erase (element y ds)
    → is_untyped (cons (element x cs) nil) ≡ is_untyped (cons (element y ds) nil)
same_types' x cs y ds h =
    same_types (cons (element x cs) nil) (cons (element y ds) nil)
      (unfold erase in ap (λ n. cons n nil) h)

pub same_content' :
    (x : Element) (cs : Nodes) (y : Element) (ds : Nodes)
    → erase (element x cs) ≡ erase (element y ds)
    → element_content x cs ≡ node_content (element y ds)
unfolding node_content
same_content' x cs y ds h = same_content (element x cs) (element y ds) h

pub tag_part :
    (x : Element) (cs : Nodes) (y : Element) (ds : Nodes)
    → erase (element x cs) ≡ erase (element y ds)
    → erase_element x ≡ erase_element y
unfolding erase
tag_part x cs y ds h = cc

-- An envelope with a body and a message.
abbrev pub simple : Element → Element → Element → Nodes → Node
simple e b x cs = element e (cons (element b (cons (element x cs) nil)) nil)

-- A tree that is such an envelope, but for declarations.
pub record Shape (m : Node) (d a y : Element) (ds : Nodes) : Type 0 where
  pub e : Element
  pub b : Element
  pub x : Element
  pub cs : Nodes
  pub is_simple : m ≡ simple e b x cs
  pub same_envelope : erase_element e ≡ erase_element d
  pub same_body : erase_element b ≡ erase_element a
  pub same_message : erase (element x cs) ≡ erase (element y ds)

only_like :
    (ms : Nodes) (e : Element) (ns : Nodes)
    → erase_nodes ms ≡ erase_nodes (cons (element e ns) nil)
    → (d : Element) × (ks : Nodes) × (ms ≡ cons (element d ks) nil)
      × (erase_element d ≡ erase_element e)
      × (erase_nodes ks ≡ erase_nodes ns)
only_like ms e ns h =
    let c = cons_like ms (element e ns) nil h in
    let l = element_like c.first e ns c.same_first in
    (
      l.tag,
      l.content,
      c.is_cons ∙ ap₂ cons l.is_element (nil_like c.others c.same_others),
      l.same_tag,
      l.same_nodes,
    )

pub simple_like :
    (d a y : Element) (ds : Nodes) (m : Node) → erase m ≡ erase (simple d a y ds) → Shape m d a y ds
unfolding erase
simple_like d a y ds m h =
    let l = element_like m d (cons (element a (cons (element y ds) nil)) nil) h in
    let (b, ks, is_b, same_b, same_ks) =
      only_like l.content a (cons (element y ds) nil) l.same_nodes in
    let (x, cs, is_x, same_x, same_cs) = only_like ks y ds same_ks in
    record {
      e = l.tag;
      b = b;
      x = x;
      cs = cs;
      is_simple =
          l.is_element ∙ ap (element l.tag) (is_b ∙ ap (λ ns. cons (element b ns) nil) is_x);
      same_envelope = l.same_tag;
      same_body = same_b;
      same_message = ap₂ element same_x same_cs;
    }

module _ {V : Type 0} (q : Variants V) where
  pub read_document-simple :
      (e b x : Element) (cs : Nodes) (pass : Pass V)
      → is_soap_element (codes "Envelope") (start e) ≡ true
      → is_soap_element (codes "Header") (start b) ≡ false
      → is_soap_element (codes "Body") (start b) ≡ true
      → read_document q (other ∷ tokens_of (simple e b x cs) (other ∷ [])) pass
        ≡ take_message q
            (record {
              value = close q (read_nodes q (opened q e.declarations x) cs);
              last = finish x;
              rest = finish b ∷ finish e ∷ other ∷ [];
            })
            pass
  unfolding read_document next_start tokens_of parse_element
  read_document-simple e b x cs pass he hb hb' =
      let rest = finish b ∷ finish e ∷ other ∷ [] in
      rw (he, hb, hb')
        (ap (λ p. take_message q p pass)
          (parse_content-tokens_of_nodes q cs (suc (length (tokens_of_nodes cs (finish x ∷ rest))))
            (opened q e.declarations x) x rest (omega (arith, size_nodes-le cs (finish x ∷ rest)))))
