-- ===== src/RoundTrip/Sent.antt =====
-- The tree that a value writes for use=literal says what the value says.
use kdsoap.Prelude.{
  and_left, and_right, Text, List, [], ◌∷◌, ◌++◌, Option, Bool, Bool-cases, true, false, not, ◌&&◌,
  ◌||◌, eq_text, is_empty, ◌≡◌, refl, ap₂, sym, ◌∙◌, inl, inr, arith,
}
use kdsoap.Namespaces.{
  Prefixes, xml_schema_instance1999, xml_schema_instance2001, soap_encoding, soap_encoding200305,
  soap_envelope, soap_envelope200305,
}
use kdsoap.Xml.{Attribute, uri, Node, element, text, Nodes, join}
use kdsoap.Value.{Variants, Fields, Value, Values, node, empty, more, is_nil}
use kdsoap.Value.Writing.{
  literal_use, variant_to_text_value, written_namespace, leading_attributes, value_attributes,
}
use kdsoap.Value.Contents.{
  Content, Contents, item, no_items, items, sent_text, sent_attributes, sent_as, sent_contents,
}
use kdsoap.Value.Trees.{text_nodes, tag_of, value_tree, value_trees}
use kdsoap.Reader.{is_instance_namespace, is_soap_namespace}
use kdsoap.Reader.Reading.{kept_texts, last_text, nodes_content, are_plain, is_untyped}

unfoldable pub node_content : Node → Content
node_content (text t) = item [] [] t [] no_items
node_content (element e ns) =
    item e.name (uri e.space) (last_text [] ns) (kept_texts e.attributes) (nodes_content ns)

module _ {V : Type 0} where
  -- No attribute is qualified.
  unfoldable pub attributes_unqualified : Values V → Bool
  attributes_unqualified empty = true
  attributes_unqualified (more (node f ats vs) rest) =
      not f.qualified && attributes_unqualified rest

  -- No attribute of the value or of a value in it is qualified.
  unfoldable mutual
    pub is_unqualified : Value V → Bool
    is_unqualified (node f ats vs) = attributes_unqualified ats && are_unqualified vs

    pub are_unqualified : Values V → Bool
    are_unqualified empty = true
    are_unqualified (more v vs) = is_unqualified v && are_unqualified vs

no_namespace : (is_instance_namespace [] ≡ false) × (is_soap_namespace [] ≡ false)
unfolding is_instance_namespace is_soap_namespace eq_text xml_schema_instance1999
    xml_schema_instance2001 soap_encoding soap_encoding200305 soap_envelope soap_envelope200305
no_namespace = (refl, refl)

eq_nil : (t : Text) → is_empty t ≡ true → t ≡ []
eq_nil [] h = refl
eq_nil (c ∷ t) h = absurd (ground (arith, h))

pub and_true : {a b : Bool} → a ≡ true → b ≡ true → (a && b) ≡ true
and_true h k = ground (arith, h, k)

item_path :
    (name ns : Text) {t t' : Text} {as' bs : List (Text × Text)} {cs ds : Contents}
    → t ≡ t'
    → as' ≡ bs
    → cs ≡ ds
    → item name ns t as' cs ≡ item name ns t' bs ds
item_path name ns e f g = λ i. item name ns (e i) (f i) (g i)

instance_namespace : is_instance_namespace xml_schema_instance2001 ≡ true
unfolding is_instance_namespace eq_text xml_schema_instance1999 xml_schema_instance2001
instance_namespace = refl

module _ {V : Type 0} (q : Variants V) where
  kept_texts-value_attributes :
      (ats : Values V)
      → attributes_unqualified ats ≡ true
      → kept_texts (value_attributes q false ats) ≡ sent_attributes q ats
  unfolding kept_texts value_attributes sent_attributes attributes_unqualified
  kept_texts-value_attributes empty h = refl
  kept_texts-value_attributes (more (node f as' vs) rest) h = elim (Bool-cases f.qualified) [
    | inl e ↦ absurd (ground (arith, h, e))
    | inr e ↦ simp (
      e,
      no_namespace.0,
      no_namespace.1,
      kept_texts-value_attributes rest (and_right (not f.qualified) _ h),
    )
  ]

  kept_texts-leading_attributes :
      (prefixes : Prefixes) (v : Value V) (as' : List Attribute)
      → kept_texts (leading_attributes q prefixes literal_use v ++ as') ≡ kept_texts as'
  unfolding leading_attributes kept_texts
  kept_texts-leading_attributes prefixes (node f ats vs) as' =
      elim (Bool-cases (is_nil q (node f ats vs) && f.nillable)) [
        | inl e ↦ rw (e, instance_namespace) refl
        | inr e ↦ rw e refl
      ]

  are_plain-value_attributes :
      (ats : Values V)
      → attributes_unqualified ats ≡ true
      → are_plain (value_attributes q false ats) ≡ true
  unfolding are_plain value_attributes attributes_unqualified
  are_plain-value_attributes empty h = refl
  are_plain-value_attributes (more (node f as' vs) rest) h = elim (Bool-cases f.qualified) [
    | inl e ↦ absurd (ground (arith, h, e))
    | inr e ↦
        simp (e, no_namespace.0, are_plain-value_attributes rest (and_right (not f.qualified) _ h))
  ]

  are_plain-leading_attributes :
      (prefixes : Prefixes) (v : Value V) (as' : List Attribute)
      → are_plain (leading_attributes q prefixes literal_use v ++ as') ≡ are_plain as'
  unfolding leading_attributes are_plain eq_text
  are_plain-leading_attributes prefixes (node f ats vs) as' =
      elim (Bool-cases (is_nil q (node f ats vs) && f.nillable)) [
        | inl e ↦ rw (e, instance_namespace) refl
        | inr e ↦ rw e refl
      ]

  last_text-join :
      (t : Text) (prefixes : Prefixes) (mns : Text) (force : Bool) (vs : Values V) (ns : Nodes)
      → last_text t (join (value_trees q prefixes literal_use mns force vs) ns) ≡ last_text t ns
  unfolding last_text value_trees
  last_text-join t prefixes mns force empty ns = refl
  last_text-join t prefixes mns force (more (node f ats ks) vs) ns =
      last_text-join t prefixes mns force vs ns

  last_text-text_nodes : (f : Fields V) → last_text [] (text_nodes q f) ≡ sent_text q f
  unfolding last_text text_nodes
  last_text-text_nodes f = elim (Bool-cases (q.is_null f.variant)) [
    | inl e ↦ rw e refl
    | inr e ↦
        elim (Bool-cases
          (is_empty (variant_to_text_value q f.variant f.type_namespace f.type_name))) [
            | inl k ↦ rw (e, k) (sym (eq_nil _ k))
            | inr k ↦ rw (e, k) refl
          ]
  ]

  nodes_content-text_nodes : (f : Fields V) → nodes_content (text_nodes q f) ≡ no_items
  unfolding nodes_content text_nodes
  nodes_content-text_nodes f =
      elim (Bool-cases (
        q.is_null f.variant
        || is_empty (variant_to_text_value q f.variant f.type_namespace f.type_name))) [
          | inl e ↦ rw e refl
          | inr e ↦ rw e refl
        ]

  is_untyped-text_nodes : (f : Fields V) → is_untyped (text_nodes q f) ≡ true
  unfolding is_untyped text_nodes
  is_untyped-text_nodes f =
      elim (Bool-cases (
        q.is_null f.variant
        || is_empty (variant_to_text_value q f.variant f.type_namespace f.type_name))) [
          | inl e ↦ rw e refl
          | inr e ↦ rw e refl
        ]

  -- The attributes and the text of a value in a tree.
  kept_texts-tag_of :
      (prefixes : Prefixes) (ns : Option Text) (name : Text) (f : Fields V) (ats vs : Values V)
      → attributes_unqualified ats ≡ true
      → kept_texts (tag_of q prefixes literal_use ns name (node f ats vs)).attributes
        ≡ sent_attributes q ats
  kept_texts-tag_of prefixes ns name f ats vs h =
      kept_texts-leading_attributes prefixes (node f ats vs) (value_attributes q false ats)
      ∙ kept_texts-value_attributes ats h

  pub are_plain-tag_of :
      (prefixes : Prefixes) (ns : Option Text) (name : Text) (f : Fields V) (ats vs : Values V)
      → attributes_unqualified ats ≡ true
      → are_plain (tag_of q prefixes literal_use ns name (node f ats vs)).attributes ≡ true
  are_plain-tag_of prefixes ns name f ats vs h =
      are_plain-leading_attributes prefixes (node f ats vs) (value_attributes q false ats)
      ∙ are_plain-value_attributes ats h

  text_of_tree :
      (prefixes : Prefixes) (mns : Text) (f : Fields V) (vs : Values V)
      → last_text [] (join (value_trees q prefixes literal_use mns false vs) (text_nodes q f))
        ≡ sent_text q f
  text_of_tree prefixes mns f vs =
      last_text-join [] prefixes mns false vs (text_nodes q f) ∙ last_text-text_nodes f

  mutual
    unfolding node_content value_tree sent_as nodes_content is_unqualified

    pub node_content-value_tree :
        (prefixes : Prefixes) (mns : Text) (ns : Option Text) (name : Text) (v : Value V)
        → is_unqualified v ≡ true
        → node_content (value_tree q prefixes literal_use mns ns name v)
          ≡ sent_as q mns name (uri ns) v
    node_content-value_tree prefixes mns ns name (node f ats vs) h =
        item_path name (uri ns) (text_of_tree prefixes mns f vs)
          (kept_texts-tag_of prefixes ns name f ats vs (and_left _ (are_unqualified vs) h))
          (nodes_content-value_trees prefixes mns vs f (and_right (attributes_unqualified ats) _ h))

    nodes_content-value_trees :
        (prefixes : Prefixes) (mns : Text) (vs : Values V) (f : Fields V)
        → are_unqualified vs ≡ true
        → nodes_content (join (value_trees q prefixes literal_use mns false vs) (text_nodes q f))
          ≡ sent_contents q mns vs
    nodes_content-value_trees prefixes mns empty f h = nodes_content-text_nodes f
    nodes_content-value_trees prefixes mns (more (node g ats ks) vs) f h =
        ap₂ items
          (node_content-value_tree prefixes mns (written_namespace q g mns false) g.name
            (node g ats ks) (and_left _ (are_unqualified vs) h))
          (nodes_content-value_trees prefixes mns vs f
            (and_right (attributes_unqualified ats && are_unqualified ks) _ h))

  mutual
    unfolding value_tree is_untyped is_unqualified

    pub is_untyped-value_trees :
        (prefixes : Prefixes) (mns : Text) (vs : Values V) (f : Fields V)
        → are_unqualified vs ≡ true
        → is_untyped (join (value_trees q prefixes literal_use mns false vs) (text_nodes q f))
          ≡ true
    is_untyped-value_trees prefixes mns empty f h = is_untyped-text_nodes f
    is_untyped-value_trees prefixes mns (more (node g ats ks) vs) f h =
        and_true
          (are_plain-tag_of prefixes (written_namespace q g mns false) g.name g ats ks
            (and_left _ (are_unqualified ks) (and_left _ (are_unqualified vs) h)))
          (and_true
            (is_untyped-value_trees prefixes mns ks g
              (and_right (attributes_unqualified ats) _ (and_left _ (are_unqualified vs) h)))
            (is_untyped-value_trees prefixes mns vs f
              (and_right (attributes_unqualified ats && are_unqualified ks) _ h)))
