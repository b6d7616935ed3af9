-- ===== src/Xml/Transport.antt =====
-- A pair of writer and reader as Qt documents them, by a concrete function on calls: attributes are
-- gathered until the tag is over, and an end tag takes the element that is open.
use kdsoap.Prelude.{
  Text, List, [], ◌∷◌, ◌++◌, Option, none, some, ◌≡◌, refl, ap, ◌∙◌, map, append_assoc, append-nil,
}
use kdsoap.QName.{Declaration}
use kdsoap.Xml.{
  Attribute, Element, Call, start_document, end_document, start_element, end_element,
  write_namespace, write_attribute, write_characters, Token, start, finish, characters, other, Node,
  element, text, Nodes, nil, cons, calls_of, calls_of_nodes, tokens_of, tokens_of_nodes, document,
}
use kdsoap.Xml.WellFormed.{IsFaithful}

-- The tag that is being written, if any, the elements that are open, and the calls to come.
deliver_from : Option Element → List Element → List Call → List Token
deliver_from none stack [] = []
deliver_from none stack (start_document ∷ cs) = other ∷ deliver_from none stack cs
deliver_from none stack (end_document ∷ cs) = other ∷ deliver_from none stack cs
deliver_from none stack (start_element ns n ∷ cs) =
    deliver_from (some (record { space = ns; name = n; declarations = []; attributes = [] })) stack
      cs
deliver_from none [] (end_element ∷ cs) = deliver_from none [] cs
deliver_from none (e ∷ stack) (end_element ∷ cs) = finish e ∷ deliver_from none stack cs
deliver_from none stack (write_namespace d ∷ cs) = deliver_from none stack cs
deliver_from none stack (write_attribute a ∷ cs) = deliver_from none stack cs
deliver_from none stack (write_characters t ∷ cs) = characters t ∷ deliver_from none stack cs
deliver_from (some e) stack [] = start e ∷ []
deliver_from (some e) stack (start_document ∷ cs) = deliver_from (some e) stack cs
deliver_from (some e) stack (end_document ∷ cs) = start e ∷ other ∷ deliver_from none stack cs
deliver_from (some e) stack (start_element ns n ∷ cs) =
    start e
    ∷ deliver_from (some (record { space = ns; name = n; declarations = []; attributes = [] }))
        (e ∷ stack) cs
deliver_from (some e) stack (end_element ∷ cs) = start e ∷ finish e ∷ deliver_from none stack cs
deliver_from (some e) stack (write_namespace d ∷ cs) =
    deliver_from (some (record e { declarations = e.declarations ++ d ∷ [] })) stack cs
deliver_from (some e) stack (write_attribute a ∷ cs) =
    deliver_from (some (record e { attributes = e.attributes ++ a ∷ [] })) stack cs
deliver_from (some e) stack (write_characters t ∷ cs) =
    start e ∷ characters t ∷ deliver_from none (e ∷ stack) cs

pub deliver : List Call → List Token
deliver cs = deliver_from none [] cs

abbrev tag : Option Text → Text → List Declaration → List Attribute → Element
tag ns n ds ats = record { space = ns; name = n; declarations = ds; attributes = ats }

deliver_from-declarations :
    (stack : List Element) (ns : Option Text) (n : Text) (done ds : List Declaration)
    (cs : List Call)
    → deliver_from (some (tag ns n done [])) stack (map write_namespace ds ++ cs)
      ≡ deliver_from (some (tag ns n (done ++ ds) [])) stack cs
unfolding deliver_from
deliver_from-declarations stack ns n done [] cs = rw (append-nil done) refl
deliver_from-declarations stack ns n done (d ∷ ds) cs =
    deliver_from-declarations stack ns n (done ++ d ∷ []) ds cs
    ∙ ap (λ ds'. deliver_from (some (tag ns n ds' [])) stack cs) (append_assoc done (d ∷ []) ds)

deliver_from-attributes :
    (stack : List Element) (ns : Option Text) (n : Text) (ds : List Declaration)
    (done ats : List Attribute) (cs : List Call)
    → deliver_from (some (tag ns n ds done)) stack (map write_attribute ats ++ cs)
      ≡ deliver_from (some (tag ns n ds (done ++ ats))) stack cs
unfolding deliver_from
deliver_from-attributes stack ns n ds done [] cs = rw (append-nil done) refl
deliver_from-attributes stack ns n ds done (a ∷ ats) cs =
    deliver_from-attributes stack ns n ds (done ++ a ∷ []) ats cs
    ∙ ap (λ ats'. deliver_from (some (tag ns n ds ats')) stack cs) (append_assoc done (a ∷ []) ats)

deliver_from_start :
    (stack : List Element) (e : Element) (n : Node) (cs : List Call)
    → deliver_from (some e) stack (calls_of n ++ cs)
      ≡ start e ∷ deliver_from none (e ∷ stack) (calls_of n ++ cs)
unfolding deliver_from calls_of
deliver_from_start stack e (element f ns) cs = refl
deliver_from_start stack e (text t) cs = refl

deliver_from_tag :
    (stack : List Element) (ns : Option Text) (n : Text) (ds : List Declaration)
    (ats : List Attribute) (cs ds' : List Call)
    → deliver_from none stack
        ((start_element ns n ∷ (map write_namespace ds ++ (map write_attribute ats ++ cs))) ++ ds')
      ≡ deliver_from (some (tag ns n ds ats)) stack (cs ++ ds')
unfolding deliver_from
deliver_from_tag stack ns n ds ats cs ds' =
    ap (deliver_from (some (tag ns n [] [])) stack) (
      append_assoc (map write_namespace ds) (map write_attribute ats ++ cs) ds'
      ∙ ap (λ xs. map write_namespace ds ++ xs) (append_assoc (map write_attribute ats) cs ds'))
    ∙ deliver_from-declarations stack ns n [] ds _
    ∙ deliver_from-attributes stack ns n ds [] ats _

mutual
  unfolding deliver_from calls_of tokens_of

  deliver_from-calls_of :
      (n : Node) (stack : List Element) (cs : List Call)
      → deliver_from none stack (calls_of n ++ cs) ≡ tokens_of n (deliver_from none stack cs)
  deliver_from-calls_of (element e ns) stack cs =
      deliver_from_tag stack e.space e.name e.declarations e.attributes
        (calls_of_nodes ns ++ end_element ∷ []) cs
      ∙ ap (deliver_from (some e) stack) (append_assoc (calls_of_nodes ns) (end_element ∷ []) cs)
      ∙ deliver_from_content ns e stack cs
  deliver_from-calls_of (text t) stack cs = refl

  deliver_from_content :
      (ns : Nodes) (e : Element) (stack : List Element) (cs : List Call)
      → deliver_from (some e) stack (calls_of_nodes ns ++ end_element ∷ cs)
        ≡ start e ∷ tokens_of_nodes ns (finish e ∷ deliver_from none stack cs)
  deliver_from_content nil e stack cs = refl
  deliver_from_content (cons n ns) e stack cs =
      ap (deliver_from (some e) stack) (append_assoc (calls_of n) (calls_of_nodes ns) _)
      ∙ deliver_from_start stack e n _
      ∙ ap (λ ts. start e ∷ ts)
          (deliver_from-calls_of n (e ∷ stack) _
            ∙ ap (tokens_of n) (deliver_from-calls_of_nodes ns (e ∷ stack) _))

  deliver_from-calls_of_nodes :
      (ns : Nodes) (stack : List Element) (cs : List Call)
      → deliver_from none stack (calls_of_nodes ns ++ cs)
        ≡ tokens_of_nodes ns (deliver_from none stack cs)
  deliver_from-calls_of_nodes nil stack cs = refl
  deliver_from-calls_of_nodes (cons n ns) stack cs =
      ap (deliver_from none stack) (append_assoc (calls_of n) (calls_of_nodes ns) cs)
      ∙ deliver_from-calls_of n stack _
      ∙ ap (tokens_of n) (deliver_from-calls_of_nodes ns stack cs)

deliver_from_namespaces :
    (ds : List Declaration) (cs : List Call)
    → deliver_from none [] (map write_namespace ds ++ cs) ≡ deliver_from none [] cs
unfolding deliver_from
deliver_from_namespaces [] cs = refl
deliver_from_namespaces (d ∷ ds) cs = deliver_from_namespaces ds cs

pub deliver-IsFaithful : IsFaithful deliver
unfolding deliver document
deliver-IsFaithful ds n d h w = (
  n,
  unfold deliver_from in
      ap (λ ts. other ∷ ts)
        (deliver_from_namespaces ds _ ∙ deliver_from-calls_of n [] (end_document ∷ [])),
  refl,
)
