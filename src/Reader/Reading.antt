-- ===== src/Reader/Reading.antt =====
-- What a value says that was read from a tree of elements, in terms of that tree alone.
use kdsoap.Prelude.{
  and_left, and_right, Text, List, [], ◌∷◌, ◌++◌, none, Bool, Bool-cases, true, not, ◌&&◌, ◌||◌,
  if◌then◌else◌, eq_text, codes, ◌≡◌, refl, ap, sym, ◌∙◌, inl, inr, append_assoc, append-nil, arith,
  map,
}
use kdsoap.QName.{Declaration}
use kdsoap.Xml.{
  Attribute, Element, uri, element, text, Nodes, nil, cons, erase, erase_nodes, erase_attribute,
}
use kdsoap.Value.{
  Variants, IsTextual, Fields, Value, Values, node, empty, more, append, new_fields, new_value,
}
use kdsoap.Value.Contents.{
  Content, Contents, item, no_items, items, join_contents, attribute_texts, content_of, contents_of,
}
use kdsoap.Reader.{
  Parsing, opened, close, read_attribute, read_attributes, is_instance_namespace, is_soap_namespace,
  text_variant,
}
use kdsoap.Reader.Elements.{read_nodes}

-- The attributes that parseElement keeps.
unfoldable pub kept_texts : List Attribute → List (Text × Text)
kept_texts [] = []
kept_texts (a ∷ ats) =
    if is_instance_namespace (uri a.space) || is_soap_namespace (uri a.space)
    then kept_texts ats
    else (a.name, a.content) ∷ kept_texts ats

-- The last text among the nodes, or the one before them.
unfoldable pub last_text : Text → Nodes → Text
last_text t nil = t
last_text t (cons (text t') ns) = last_text t' ns
last_text t (cons (element e ks) ns) = last_text t ns

unfoldable pub nodes_content : Nodes → Contents
unfolding last_text kept_texts
nodes_content nil = no_items
nodes_content (cons (text t) ns) = nodes_content ns
nodes_content (cons (element e ks) ns) =
    items (item e.name (uri e.space) (last_text [] ks) (kept_texts e.attributes) (nodes_content ks))
      (nodes_content ns)

abbrev pub element_content : Element → Nodes → Content
element_content e ns =
    item e.name (uri e.space) (last_text [] ns) (kept_texts e.attributes) (nodes_content ns)

-- An xsi:type.
abbrev pub is_type_attribute : Attribute → Bool
is_type_attribute a = is_instance_namespace (uri a.space) && eq_text a.name (codes "type")

unfoldable pub are_plain : List Attribute → Bool
are_plain [] = true
are_plain (a ∷ ats) = not (is_type_attribute a) && are_plain ats

-- No element has an xsi:type.
unfoldable pub is_untyped : Nodes → Bool
unfolding are_plain
is_untyped nil = true
is_untyped (cons (text t) ns) = is_untyped ns
is_untyped (cons (element e ks) ns) = are_plain e.attributes && (is_untyped ks && is_untyped ns)

join_contents-no_items : (cs : Contents) → join_contents cs no_items ≡ cs
join_contents-no_items no_items = refl
join_contents-no_items (items c cs) = ap (λ ds. items c ds) (join_contents-no_items cs)

join_contents_assoc :
    (cs ds es : Contents)
    → join_contents (join_contents cs ds) es ≡ join_contents cs (join_contents ds es)
join_contents_assoc no_items ds es = refl
join_contents_assoc (items c cs) ds es = ap (λ ks. items c ks) (join_contents_assoc cs ds es)

module _ {V : Type 0} (q : Variants V) where
  contents_of-append :
      (vs : Values V) (v : Value V)
      → contents_of q (append vs v)
        ≡ join_contents (contents_of q vs) (items (content_of q v) no_items)
  unfolding content_of
  contents_of-append empty v = refl
  contents_of-append (more w vs) v = ap (λ cs. items (content_of q w) cs) (contents_of-append vs v)

  abbrev plain : Fields V → Values V → Values V → Text → List Declaration → Parsing V
  plain f ats vs t sc = record {
    value = node f ats vs;
    meta_type = none;
    last_text = t;
    scope = sc;
  }

  keep_values : Values V → List Attribute → Values V
  keep_values ats [] = ats
  keep_values ats (a ∷ rest) =
      keep_values
        (if is_instance_namespace (uri a.space) || is_soap_namespace (uri a.space)
          then ats
          else append ats (new_value q a.name (q.of_text a.content) [] []))
        rest

  attribute_texts-append :
      (t : IsTextual q) (ats : Values V) (name content : Text)
      → attribute_texts q (append ats (new_value q name (q.of_text content) [] []))
        ≡ attribute_texts q ats ++ (name, content) ∷ []
  unfolding attribute_texts
  attribute_texts-append t empty name content = rw (t.text_back content) refl
  attribute_texts-append t (more (node f as' vs) rest) name content =
      ap (λ xs. (f.name, q.to_text f.variant) ∷ xs) (attribute_texts-append t rest name content)

  attribute_texts-keep_values :
      (t : IsTextual q) (ats : Values V) (as' : List Attribute)
      → attribute_texts q (keep_values ats as') ≡ attribute_texts q ats ++ kept_texts as'
  unfolding keep_values kept_texts
  attribute_texts-keep_values t ats [] = sym (append-nil _)
  attribute_texts-keep_values t ats (a ∷ rest) =
      elim (Bool-cases (is_instance_namespace (uri a.space) || is_soap_namespace (uri a.space))) [
        | inl e ↦ rw e (attribute_texts-keep_values t ats rest)
        | inr e ↦ rw e (
            attribute_texts-keep_values t
              (append ats (new_value q a.name (q.of_text a.content) [] [])) rest
            ∙ ap (λ xs. xs ++ kept_texts rest) (attribute_texts-append t ats a.name a.content)
            ∙ append_assoc (attribute_texts q ats) ((a.name, a.content) ∷ []) (kept_texts rest))
      ]

  read_attribute-plain :
      (f : Fields V) (ats vs : Values V) (t : Text) (sc : List Declaration) (a : Attribute)
      → not (is_type_attribute a) ≡ true
      → read_attribute q (plain f ats vs t sc) a
        ≡ plain f
            (if is_instance_namespace (uri a.space) || is_soap_namespace (uri a.space)
              then ats
              else append ats (new_value q a.name (q.of_text a.content) [] []))
            vs
            t
            sc
  unfolding read_attribute
  read_attribute-plain f ats vs t sc a h = elim (Bool-cases (is_instance_namespace (uri a.space))) [
    | inl e ↦ elim (Bool-cases (eq_text a.name (codes "type"))) [
      | inl e' ↦ absurd (ground (arith, h, e, e'))
      | inr e' ↦ rw (e, e') refl
    ]
    | inr e ↦ elim (Bool-cases (is_soap_namespace (uri a.space))) [
      | inl e' ↦ rw (e, e') refl
      | inr e' ↦ rw (e, e') refl
    ]
  ]

  read_attributes-plain :
      (f : Fields V) (ats vs : Values V) (t : Text) (sc : List Declaration) (as' : List Attribute)
      → are_plain as' ≡ true
      → read_attributes q (plain f ats vs t sc) as' ≡ plain f (keep_values ats as') vs t sc
  unfolding read_attributes are_plain keep_values
  read_attributes-plain f ats vs t sc [] h = refl
  read_attributes-plain f ats vs t sc (a ∷ rest) h =
      ap (λ p. read_attributes q p rest)
        (read_attribute-plain f ats vs t sc a (and_left _ (are_plain rest) h))
      ∙ read_attributes-plain f
          (if is_instance_namespace (uri a.space) || is_soap_namespace (uri a.space)
            then ats
            else append ats (new_value q a.name (q.of_text a.content) [] []))
          vs t sc rest (and_right (not (is_type_attribute a)) _ h)

  content_of-close :
      (w : IsTextual q) (f : Fields V) (ats vs : Values V) (t : Text) (sc : List Declaration)
      → f.variant ≡ q.null_variant
      → content_of q (close q (plain f ats vs t sc))
        ≡ item f.name f.name_namespace t (attribute_texts q ats) (contents_of q vs)
  unfolding close content_of text_variant
  content_of-close w f ats vs [] sc h =
      ap (λ s. item f.name f.name_namespace s (attribute_texts q ats) (contents_of q vs))
        (ap q.to_text h ∙ w.null_text)
  content_of-close w f ats vs (c ∷ t) sc h =
      ap (λ s. item f.name f.name_namespace s (attribute_texts q ats) (contents_of q vs))
        (w.text_back (c ∷ t))

  abbrev opened_fields : List Declaration → Element → Fields V
  opened_fields env e = record (new_fields q e.name q.null_variant [] []) {
    name_namespace = uri e.space;
    local_declarations = e.declarations;
    environment_declarations = env ++ e.declarations;
  }

  opened-plain :
      (env : List Declaration) (e : Element)
      → are_plain e.attributes ≡ true
      → opened q env e
        ≡ plain
            (opened_fields env e)
            (keep_values empty e.attributes)
            empty
            []
            (env ++ e.declarations)
  unfolding opened
  opened-plain env e h = read_attributes-plain (opened_fields env e) empty empty [] _ e.attributes h

  content_of-read_nodes :
      (ns : Nodes) (w : IsTextual q) (f : Fields V) (ats vs : Values V) (t : Text)
      (sc : List Declaration)
      → f.variant ≡ q.null_variant
      → is_untyped ns ≡ true
      → content_of q (close q (read_nodes q (plain f ats vs t sc) ns))
        ≡ item f.name f.name_namespace
            (last_text t ns)
            (attribute_texts q ats)
            (join_contents (contents_of q vs) (nodes_content ns))
  unfolding read_nodes last_text nodes_content is_untyped contents_of attribute_texts
  content_of-read_nodes nil w f ats vs t sc h u =
      content_of-close w f ats vs t sc h
      ∙ ap (λ cs. item f.name f.name_namespace t (attribute_texts q ats) cs)
          (sym (join_contents-no_items (contents_of q vs)))
  content_of-read_nodes (cons (text t') ns) w f ats vs t sc h u =
      content_of-read_nodes ns w f ats vs t' sc h u
  content_of-read_nodes (cons (element e ks) ns) w f ats vs t sc h u =
      let plain_tag = and_left (are_plain e.attributes) _ u in
      let rest = and_right (are_plain e.attributes) _ u in
      content_of-read_nodes ns w f ats (append vs (close q (read_nodes q (opened q sc e) ks))) t sc
        h (and_right (is_untyped ks) _ rest)
      ∙ ap (λ cs. item f.name f.name_namespace (last_text t ns) (attribute_texts q ats) cs)
          (ap (λ cs. join_contents cs (nodes_content ns))
              (contents_of-append vs (close q (read_nodes q (opened q sc e) ks)))
            ∙ join_contents_assoc (contents_of q vs) _ (nodes_content ns)
            ∙ ap (λ c. join_contents (contents_of q vs) (items c (nodes_content ns)))
                (ap (λ p. content_of q (close q (read_nodes q p ks))) (opened-plain sc e plain_tag)
                  ∙ content_of-read_nodes ks w (opened_fields sc e) (keep_values empty e.attributes)
                      empty [] (sc ++ e.declarations) refl (and_left (is_untyped ks) _ rest)
                  ∙ ap (λ xs. item e.name (uri e.space) (last_text [] ks) xs (nodes_content ks))
                      (attribute_texts-keep_values w empty e.attributes)))

  -- An element that has no xsi:type on it or in it is read as a value that says what the element
  -- says: its name, its namespace, its last text, its attributes but for those of xsi and of SOAP,
  -- and its children in order.
  pub content_of-parse :
      (w : IsTextual q) (env : List Declaration) (e : Element) (ks : Nodes)
      → are_plain e.attributes ≡ true
      → is_untyped ks ≡ true
      → content_of q (close q (read_nodes q (opened q env e) ks)) ≡ element_content e ks
  unfolding attribute_texts nodes_content contents_of
  content_of-parse w env e ks plain_tag u =
      ap (λ p. content_of q (close q (read_nodes q p ks))) (opened-plain env e plain_tag)
      ∙ content_of-read_nodes ks w (opened_fields env e) (keep_values empty e.attributes) empty []
          (env ++ e.declarations) refl u
      ∙ ap (λ xs. item e.name (uri e.space) (last_text [] ks) xs (nodes_content ks))
          (attribute_texts-keep_values w empty e.attributes)

-- What a tree says does not depend on its declarations.
pub last_text-erase_nodes : (t : Text) (ns : Nodes) → last_text t (erase_nodes ns) ≡ last_text t ns
unfolding last_text erase
last_text-erase_nodes t nil = refl
last_text-erase_nodes t (cons (text t') ns) = last_text-erase_nodes t' ns
last_text-erase_nodes t (cons (element e ks) ns) = last_text-erase_nodes t ns

pub kept_texts-erase :
    (ats : List Attribute) → kept_texts (map erase_attribute ats) ≡ kept_texts ats
unfolding kept_texts
kept_texts-erase [] = refl
kept_texts-erase (a ∷ ats) = rw (kept_texts-erase ats) refl

are_plain-erase : (ats : List Attribute) → are_plain (map erase_attribute ats) ≡ are_plain ats
unfolding are_plain
are_plain-erase [] = refl
are_plain-erase (a ∷ ats) = ap (λ b. not (is_type_attribute a) && b) (are_plain-erase ats)

pub nodes_content-erase_nodes : (ns : Nodes) → nodes_content (erase_nodes ns) ≡ nodes_content ns
unfolding nodes_content erase
nodes_content-erase_nodes nil = refl
nodes_content-erase_nodes (cons (text t) ns) = nodes_content-erase_nodes ns
nodes_content-erase_nodes (cons (element e ks) ns) =
    rw
      (
        last_text-erase_nodes [] ks,
        kept_texts-erase e.attributes,
        nodes_content-erase_nodes ks,
        nodes_content-erase_nodes ns,
      )
      refl

pub is_untyped-erase_nodes : (ns : Nodes) → is_untyped (erase_nodes ns) ≡ is_untyped ns
unfolding is_untyped erase
is_untyped-erase_nodes nil = refl
is_untyped-erase_nodes (cons (text t) ns) = is_untyped-erase_nodes ns
is_untyped-erase_nodes (cons (element e ks) ns) =
    rw (are_plain-erase e.attributes, is_untyped-erase_nodes ks, is_untyped-erase_nodes ns) refl
