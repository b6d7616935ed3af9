-- ===== src/Writer/Trees.antt =====
-- The tree of elements of a message, and that a message is written as a document of that tree.
use kdsoap.Prelude.{
  Text, List, [], ◌∷◌, ◌++◌, Option, none, some, Bool-cases, true, false, if◌then◌else◌, codes,
  is_empty, map, All, ◌≡◌, refl, ap, ap₂, sym, ◌∙◌, inl, inr, append_assoc, append-nil, arith,
}
use kdsoap.QName.{Declaration}
use kdsoap.Namespaces.{Prefixes, envelope_of, standard_declarations}
use kdsoap.Xml.{
  Element, Call, start_document, end_document, start_element, end_element, write_namespace,
  write_attribute, Node, element, Nodes, nil, cons, join, calls_of, calls_of_nodes, document,
}
use kdsoap.Value.{Variants, Value, node, empty, attributes, child_values}
use kdsoap.Value.Writing.{write_children, write_elements, value_attributes}
use kdsoap.Value.Trees.{
  value_tree, value_trees, write_elements-calls_of, write_element_contents-calls_of,
}
use kdsoap.Addressing.{Addressing}
use kdsoap.Addressing.Elements.{
  addressing_nodes, write_message_addressing_properties-nodes, calls_join,
}
use kdsoap.Security.{
  has_ws_username_token_header, security_nodes, write_ws_username_token_header-nodes,
}
use kdsoap.Message.{Message}
use kdsoap.Writer.{
  Writer, has_addressing, addressing_namespace_of, message_namespace, element_name, has_header,
  element_namespace, prefixes_of, no_messages, headers_calls, addressing_calls, security_calls,
  header_calls, body_calls, message_to_xml,
}

abbrev pub soap_tag : Text → Text → List Declaration → Element
soap_tag ns name ds = record { space = some ns; name = name; declarations = ds; attributes = [] }

module _ {V : Type 0} (q : Variants V) where
  headers_nodes : Prefixes → Text → List (Message V) → Nodes
  headers_nodes prefixes ns [] = nil
  headers_nodes prefixes ns (m ∷ ms) =
      join (value_trees q prefixes m.use_of ns true (child_values m.value))
        (headers_nodes prefixes ns ms)

  addressing_part : Option (Addressing V) → Nodes
  addressing_part none = nil
  addressing_part (some a) = addressing_nodes q a

  security_part : Writer V → Nodes
  security_part w =
      if has_ws_username_token_header w.authentication
      then security_nodes w.authentication w.surroundings
      else nil

  header_content : Writer V → Message V → Nodes
  unfolding headers_nodes addressing_part security_part
  header_content w m =
      join (headers_nodes (prefixes_of w m) (message_namespace w m) w.persistent_headers) (
        join (headers_nodes (prefixes_of w m) (message_namespace w m) w.headers)
          (join (addressing_part m.addressing) (security_part w)))

  body_content : Writer V → Text → Message V → Nodes
  body_content w method m =
      if is_empty (element_name method m)
      then nil
      else cons
          (value_tree q (prefixes_of w m) m.use_of (message_namespace w m)
            (some (element_namespace w m)) (element_name method m) m.value)
          nil

  body_tree : Writer V → Text → Message V → Node
  unfolding body_content
  body_tree w method m =
      element (soap_tag (envelope_of w.version) (codes "Body") []) (body_content w method m)

  -- The envelope with its header, if there is one, and its body.
  unfoldable pub message_tree : Writer V → Text → Message V → Node
  unfolding header_content body_tree
  message_tree w method m =
      if has_header w m
      then element
          (soap_tag (envelope_of w.version) (codes "Envelope")
            ((codes "n1", message_namespace w m) ∷ []))
          (cons
            (element (soap_tag (envelope_of w.version) (codes "Header") []) (header_content w m))
            (cons (body_tree w method m) nil))
      else element (soap_tag (envelope_of w.version) (codes "Envelope") [])
          (cons (body_tree w method m) nil)

  abbrev pub HasNoAttributes : Message V → Type 0
  HasNoAttributes m = attributes m.value ≡ empty

  children_calls :
      (prefixes : Prefixes) (m : Message V) (ns : Text) (v : Value V)
      → attributes v ≡ empty
      → write_children q prefixes m.use_of ns true v
        ≡ calls_of_nodes (value_trees q prefixes m.use_of ns true (child_values v))
  unfolding write_children value_attributes
  children_calls prefixes m ns (node f ats vs) h =
      ap
        (λ as'.
          map write_attribute (value_attributes q true as')
          ++ write_elements q prefixes m.use_of ns true vs)
        h
      ∙ write_elements-calls_of q prefixes m.use_of ns true vs

  headers_calls-nodes :
      (prefixes : Prefixes) (ns : Text) (ms : List (Message V))
      → All HasNoAttributes ms
      → headers_calls q prefixes ns ms ≡ calls_of_nodes (headers_nodes prefixes ns ms)
  unfolding headers_calls headers_nodes
  headers_calls-nodes prefixes ns [] h = unfold calls_of in refl
  headers_calls-nodes prefixes ns (m ∷ ms) h =
      calls_join _ _ _ _ (children_calls prefixes m ns m.value h.0)
        (headers_calls-nodes prefixes ns ms h.1)

  addressing_calls-nodes :
      (a : Option (Addressing V)) → addressing_calls q a ≡ calls_of_nodes (addressing_part a)
  unfolding addressing_calls addressing_part
  addressing_calls-nodes none = unfold calls_of in refl
  addressing_calls-nodes (some a) = write_message_addressing_properties-nodes q a

  security_calls-nodes : (w : Writer V) → security_calls q w ≡ calls_of_nodes (security_part w)
  unfolding security_calls security_part
  security_calls-nodes w = elim (Bool-cases (has_ws_username_token_header w.authentication)) [
    | inl e ↦ rw e (write_ws_username_token_header-nodes w.authentication w.surroundings)
    | inr e ↦ rw e (unfold calls_of in refl)
  ]

  -- The calls of the content of the header, and of the end of the element.
  header_content-calls :
      (w : Writer V) (m : Message V)
      → All HasNoAttributes w.persistent_headers
      → All HasNoAttributes w.headers
      → headers_calls q (prefixes_of w m) (message_namespace w m) w.persistent_headers
          ++ (headers_calls q (prefixes_of w m) (message_namespace w m) w.headers
              ++ (addressing_calls q m.addressing ++ (security_calls q w ++ end_element ∷ [])))
        ≡ calls_of_nodes (header_content w m) ++ end_element ∷ []
  unfolding header_content
  header_content-calls w m hp hh =
      ap (λ cs. ps ++ (hs ++ cs)) (sym (append_assoc (addressing_calls q m.addressing) _ _))
      ∙ ap (λ cs. ps ++ cs) (sym (append_assoc hs _ _))
      ∙ sym (append_assoc ps _ _)
      ∙ ap (λ cs. cs ++ end_element ∷ [])
          (calls_join _ _ _ _ (headers_calls-nodes _ _ w.persistent_headers hp) (
            calls_join _ _ _ _ (headers_calls-nodes _ _ w.headers hh)
              (calls_join _ _ _ _ (addressing_calls-nodes m.addressing) (security_calls-nodes w))))
    where
      ps : List Call
      ps = headers_calls q (prefixes_of w m) (message_namespace w m) w.persistent_headers

      hs : List Call
      hs = headers_calls q (prefixes_of w m) (message_namespace w m) w.headers

  body_calls-nodes :
      (w : Writer V) (method : Text) (m : Message V)
      → body_calls q w method m ≡ calls_of_nodes (body_content w method m)
  unfolding body_calls body_content
  body_calls-nodes w method m = elim (Bool-cases (is_empty (element_name method m))) [
    | inl e ↦ rw e (unfold calls_of in refl)
    | inr e ↦ rw e (
        write_element_contents-calls_of q (prefixes_of w m) m.use_of (message_namespace w m)
          (element_namespace w m) (element_name method m) m.value
        ∙ unfold calls_of in sym (append-nil _))
  ]

  -- The tree of a message with a name, without headers.
  pub message_tree_simple :
      (w : Writer V) (method : Text) (m : Message V)
      → has_header w m ≡ false
      → is_empty (element_name method m) ≡ false
      → message_tree w method m
        ≡ element (soap_tag (envelope_of w.version) (codes "Envelope") []) (
            cons
              (element (soap_tag (envelope_of w.version) (codes "Body") []) (
                cons
                  (value_tree q
                    (prefixes_of w m)
                    m.use_of
                    (message_namespace w m)
                    (some (element_namespace w m))
                    (element_name method m)
                    m.value)
                  nil))
              nil)
  unfolding message_tree body_tree body_content
  message_tree_simple w method m h k = rw (h, k) refl

  no_messages-All : (ms : List (Message V)) → no_messages ms ≡ true → All HasNoAttributes ms
  no_messages-All [] h = tt
  no_messages-All (m ∷ ms) h = absurd (ground (arith, h))

  pub has_header-none :
      (w : Writer V) (m : Message V)
      → has_header w m ≡ false
      → All HasNoAttributes w.persistent_headers × All HasNoAttributes w.headers
  unfolding has_header
  has_header-none w m h = (
    no_messages-All w.persistent_headers (ground (arith, h)),
    no_messages-All w.headers (ground (arith, h)),
  )

  abbrev body_tags : Writer V → Text → Message V → List Call
  body_tags w method m =
      start_element (some (envelope_of w.version)) (codes "Body")
      ∷ (body_calls q w method m ++ end_element ∷ end_element ∷ end_document ∷ [])

  body_tree-calls :
      (w : Writer V) (method : Text) (m : Message V)
      → body_tags w method m
        ≡ (calls_of_nodes (cons (body_tree w method m) nil) ++ end_element ∷ [])
          ++ end_document ∷ []
  unfolding body_tree calls_of
  body_tree-calls w method m =
      ap (λ cs. start_element (some (envelope_of w.version)) (codes "Body") ∷ cs)
        (ap (λ cs. cs ++ end_element ∷ end_element ∷ end_document ∷ [])
            (body_calls-nodes w method m)
          ∙ rw
              (
                append_assoc (calls_of_nodes (body_content w method m)) (end_element ∷ []) [],
                append_assoc (calls_of_nodes (body_content w method m)) (end_element ∷ [])
                    (end_element ∷ []),
                append_assoc (calls_of_nodes (body_content w method m))
                    (end_element ∷ end_element ∷ []) (end_document ∷ []),
              )
              refl)

  regroup :
      (as' bs : List Call)
      → as' ++ ((bs ++ end_element ∷ []) ++ end_document ∷ [])
        ≡ ((as' ++ bs) ++ end_element ∷ []) ++ end_document ∷ []
  regroup as' bs = simp append_assoc

  message_tree-calls :
      (w : Writer V) (method : Text) (m : Message V)
      → All HasNoAttributes w.persistent_headers
      → All HasNoAttributes w.headers
      → start_element (some (envelope_of w.version)) (codes "Envelope")
          ∷ (header_calls q w m ++ body_tags w method m)
        ≡ calls_of (message_tree w method m) ++ end_document ∷ []
  unfolding message_tree header_calls calls_of
  message_tree-calls w method m hp hh = elim (Bool-cases (has_header w m)) [
    | inl e ↦ rw e (
        ap
          (λ cs.
            start_element (some (envelope_of w.version)) (codes "Envelope")
            ∷ write_namespace (codes "n1", message_namespace w m)
            ∷ start_element (some (envelope_of w.version)) (codes "Header")
            ∷ cs)
          (ap₂ ◌++◌ (header_content-calls w m hp hh) (body_tree-calls w method m)
            ∙ regroup (calls_of_nodes (header_content w m) ++ end_element ∷ [])
                (calls_of_nodes (cons (body_tree w method m) nil))))
    | inr e ↦ rw e (
        ap (λ cs. start_element (some (envelope_of w.version)) (codes "Envelope") ∷ cs)
          (body_tree-calls w method m))
  ]

  -- A message is written as a document of one tree, an envelope that holds a header, if there is
  -- one, and the body: every start tag is ended, attributes and declarations stand behind a start
  -- tag, whatever the headers, the addressing properties and the authentication are, where no
  -- message of the headers has attributes of its own.
  pub message_to_xml-document :
      (w : Writer V) (method : Text) (m : Message V)
      → All HasNoAttributes w.persistent_headers
      → All HasNoAttributes w.headers
      → message_to_xml q w method m
        ≡ document
            (standard_declarations w.version (has_addressing m) (addressing_namespace_of m))
            (message_tree w method m)
  unfolding message_to_xml document
  message_to_xml-document w method m hp hh =
      ap
        (λ cs.
          start_document
          ∷ (map write_namespace
                (standard_declarations w.version (has_addressing m) (addressing_namespace_of m))
              ++ cs))
        (message_tree-calls w method m hp hh)
