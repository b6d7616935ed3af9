-- ===== src/RoundTrip/Erased.antt =====
-- Trees that differ in declarations alone: they have the same shape, and say the same.
use kdsoap.Prelude.{[], ◌≡◌, refl, ap, sym, ◌∙◌}
use kdsoap.Xml.{
  Element, uri, Node, element, text, Nodes, nil, cons, erase, erase_nodes, erase_element,
}
use kdsoap.Value.Contents.{item}
use kdsoap.Reader.Reading.{
  is_untyped, last_text-erase_nodes, kept_texts-erase, nodes_content-erase_nodes,
  is_untyped-erase_nodes,
}
use kdsoap.RoundTrip.Sent.{node_content}

pub node_content-erase : (n : Node) → node_content (erase n) ≡ node_content n
unfolding node_content erase
node_content-erase (text t) = refl
node_content-erase (element e ns) = λ i.
    item e.name (uri e.space) (last_text-erase_nodes [] ns i) (kept_texts-erase e.attributes i)
      (nodes_content-erase_nodes ns i)

-- Two trees that are the same without their declarations say the same.
pub same_content : (m n : Node) → erase m ≡ erase n → node_content m ≡ node_content n
same_content m n h = sym (node_content-erase m) ∙ ap node_content h ∙ node_content-erase n

pub same_types : (ms ns : Nodes) → erase_nodes ms ≡ erase_nodes ns → is_untyped ms ≡ is_untyped ns
same_types ms ns h = sym (is_untyped-erase_nodes ms) ∙ ap is_untyped h ∙ is_untyped-erase_nodes ns

-- An element among trees, with what is the same without the declarations.
pub record ElementLike (m : Node) (e : Element) (ns : Nodes) : Type 0 where
  pub tag : Element
  pub content : Nodes
  pub is_element : m ≡ element tag content
  pub same_tag : erase_element tag ≡ erase_element e
  pub same_nodes : erase_nodes content ≡ erase_nodes ns

pub element_like :
    (m : Node) (e : Element) (ns : Nodes) → erase m ≡ erase (element e ns) → ElementLike m e ns
unfolding erase
element_like (text t) e ns h = absurd (cc)
element_like (element d ms) e ns h = record {
  tag = d;
  content = ms;
  is_element = refl;
  same_tag = cc;
  same_nodes = cc;
}

pub record ConsLike (ms : Nodes) (n : Node) (ns : Nodes) : Type 0 where
  pub first : Node
  pub others : Nodes
  pub is_cons : ms ≡ cons first others
  pub same_first : erase first ≡ erase n
  pub same_others : erase_nodes others ≡ erase_nodes ns

pub cons_like :
    (ms : Nodes) (n : Node) (ns : Nodes)
    → erase_nodes ms ≡ erase_nodes (cons n ns)
    → ConsLike ms n ns
unfolding erase
cons_like nil n ns h = absurd (cc)
cons_like (cons m ms) n ns h = record {
  first = m;
  others = ms;
  is_cons = refl;
  same_first = cc;
  same_others = cc;
}

pub nil_like : (ms : Nodes) → erase_nodes ms ≡ erase_nodes nil → ms ≡ nil
unfolding erase
nil_like nil h = refl
nil_like (cons m ms) h = absurd (cc)
