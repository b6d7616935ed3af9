-- ===== src/Value/Trees.antt =====
-- The tree of elements that a value writes, and that its calls of the writer are those of that
-- tree.
use kdsoap.Prelude.{
  Text, List, [], ◌∷◌, ◌++◌, Option, some, Bool, Bool-cases, false, ◌||◌, if◌then◌else◌, is_empty,
  ◌≡◌, refl, ap, ap₂, sym, ◌∙◌, inl, inr, map, map-append, append_assoc,
}
use kdsoap.Namespaces.{Prefixes}
use kdsoap.Xml.{
  Attribute, Element, Call, start_element, end_element, write_attribute, Node, element, text, Nodes,
  nil, cons, join, calls_of, calls_of_nodes,
}
use kdsoap.Value.{Variants, Fields, Value, Values, node, empty, more, fields}
use kdsoap.Value.Writing.{
  Use, written_namespace, variant_to_text_value, leading_attributes, value_attributes, text_calls,
  namespace_calls, write_element, write_elements, write_children, write_element_contents,
}

module _ {V : Type 0} (q : Variants V) where
  unfoldable pub text_nodes : Fields V → Nodes
  text_nodes f =
      if q.is_null f.variant
        || is_empty (variant_to_text_value q f.variant f.type_namespace f.type_name)
      then nil
      else cons (text (variant_to_text_value q f.variant f.type_namespace f.type_name)) nil

  -- The start tag of a value under a name and a namespace.
  abbrev pub tag_of : Prefixes → Use → Option Text → Text → Value V → Element
  tag_of prefixes use_ ns name (node f ats vs) = record {
    space = ns;
    name = name;
    declarations = f.local_declarations;
    attributes = leading_attributes q prefixes use_ (node f ats vs) ++ value_attributes q false ats;
  }

  unfoldable mutual
    pub value_tree : Prefixes → Use → Text → Option Text → Text → Value V → Node
    value_tree prefixes use_ mns ns name (node f ats vs) =
        element (tag_of prefixes use_ ns name (node f ats vs))
          (join (value_trees prefixes use_ mns false vs) (text_nodes f))

    pub value_trees : Prefixes → Use → Text → Bool → Values V → Nodes
    value_trees prefixes use_ mns force empty = nil
    value_trees prefixes use_ mns force (more (node f ats ks) vs) =
        cons (value_tree prefixes use_ mns (written_namespace q f mns force) f.name (node f ats ks))
          (value_trees prefixes use_ mns force vs)

pub calls_of_nodes-join :
    (ns ms : Nodes) → calls_of_nodes (join ns ms) ≡ calls_of_nodes ns ++ calls_of_nodes ms
unfolding calls_of
calls_of_nodes-join nil ms = refl
calls_of_nodes-join (cons n ns) ms =
    ap (λ cs. calls_of n ++ cs) (calls_of_nodes-join ns ms)
    ∙ sym (append_assoc (calls_of n) (calls_of_nodes ns) (calls_of_nodes ms))

module _ {V : Type 0} (q : Variants V) where
  calls_of_nodes-text_nodes : (f : Fields V) → calls_of_nodes (text_nodes q f) ≡ text_calls q f
  unfolding text_nodes text_calls calls_of
  calls_of_nodes-text_nodes f =
      elim (Bool-cases (
        q.is_null f.variant
        || is_empty (variant_to_text_value q f.variant f.type_namespace f.type_name))) [
          | inl e ↦ rw e refl
          | inr e ↦ rw e refl
        ]

  abbrev attribute_calls : Prefixes → Use → Value V → List Call
  attribute_calls prefixes use_ (node f ats vs) =
      map write_attribute (leading_attributes q prefixes use_ (node f ats vs))

  -- The calls within an element, the attributes of both kinds in one list.
  regroup :
      (as' bs : List Attribute) (cs : List Call)
      → map write_attribute as' ++ (map write_attribute bs ++ cs)
        ≡ map write_attribute (as' ++ bs) ++ cs
  regroup as' bs cs =
      sym (append_assoc (map write_attribute as') (map write_attribute bs) cs)
      ∙ ap (λ xs. xs ++ cs) (sym (map-append write_attribute as' bs))

  content_calls :
      (f : Fields V) (ns : Nodes) (cs : List Call)
      → cs ≡ calls_of_nodes ns
      → cs ++ (text_calls q f ++ end_element ∷ [])
        ≡ calls_of_nodes (join ns (text_nodes q f)) ++ end_element ∷ []
  content_calls f ns cs e =
      sym (append_assoc cs (text_calls q f) (end_element ∷ []))
      ∙ ap (λ xs. xs ++ end_element ∷ [])
          (ap₂ ◌++◌ e (sym (calls_of_nodes-text_nodes f))
            ∙ sym (calls_of_nodes-join ns (text_nodes q f)))

  mutual
    unfolding write_element value_tree calls_of

    pub write_element-calls_of :
        (prefixes : Prefixes) (use_ : Use) (mns : Text) (force : Bool) (v : Value V)
        → write_element q prefixes use_ mns force v
          ≡ calls_of (
              value_tree q prefixes use_ mns
                (written_namespace q (fields v) mns force)
                (fields v).name
                v)
    write_element-calls_of prefixes use_ mns force (node f ats vs) =
        ap
          (λ cs.
            start_element (written_namespace q f mns force) f.name ∷ (namespace_calls q f ++ cs))
          (regroup (leading_attributes q prefixes use_ (node f ats vs))
              (value_attributes q false ats)
              (write_elements q prefixes use_ mns false vs ++ (text_calls q f ++ end_element ∷ []))
            ∙ ap
                (λ cs.
                  map write_attribute (
                    leading_attributes q prefixes use_ (node f ats vs)
                    ++ value_attributes q false ats)
                  ++ cs)
                (content_calls f (value_trees q prefixes use_ mns false vs)
                  (write_elements q prefixes use_ mns false vs)
                  (write_elements-calls_of prefixes use_ mns false vs)))

    pub write_elements-calls_of :
        (prefixes : Prefixes) (use_ : Use) (mns : Text) (force : Bool) (vs : Values V)
        → write_elements q prefixes use_ mns force vs
          ≡ calls_of_nodes (value_trees q prefixes use_ mns force vs)
    write_elements-calls_of prefixes use_ mns force empty = refl
    write_elements-calls_of prefixes use_ mns force (more (node f ats ks) vs) =
        ap₂ ◌++◌ (write_element-calls_of prefixes use_ mns force (node f ats ks))
          (write_elements-calls_of prefixes use_ mns force vs)

  -- The contents of a message, written within a start tag of its own.
  pub write_element_contents-calls_of :
      (prefixes : Prefixes) (use_ : Use) (mns ns name : Text) (v : Value V)
      → start_element (some ns) name
          ∷ (write_element_contents q prefixes use_ mns v ++ end_element ∷ [])
        ≡ calls_of (value_tree q prefixes use_ mns (some ns) name v)
  unfolding write_element_contents write_children value_tree calls_of
  write_element_contents-calls_of prefixes use_ mns ns name (node f ats vs) =
      ap (λ cs. start_element (some ns) name ∷ cs)
        (append_assoc (namespace_calls q f)
            (attribute_calls prefixes use_ (node f ats vs)
              ++ (write_children q prefixes use_ mns false (node f ats vs) ++ text_calls q f))
            (end_element ∷ [])
          ∙ ap (λ cs. namespace_calls q f ++ cs)
              (append_assoc (attribute_calls prefixes use_ (node f ats vs))
                  (write_children q prefixes use_ mns false (node f ats vs) ++ text_calls q f)
                  (end_element ∷ [])
                ∙ ap (λ cs. attribute_calls prefixes use_ (node f ats vs) ++ cs)
                    (append_assoc
                        (map write_attribute (value_attributes q false ats)
                          ++ write_elements q prefixes use_ mns false vs)
                        (text_calls q f) (end_element ∷ [])
                      ∙ append_assoc (map write_attribute (value_attributes q false ats))
                          (write_elements q prefixes use_ mns false vs)
                          (text_calls q f ++ end_element ∷ []))
                ∙ regroup (leading_attributes q prefixes use_ (node f ats vs))
                    (value_attributes q false ats)
                    (write_elements q prefixes use_ mns false vs
                      ++ (text_calls q f ++ end_element ∷ []))
                ∙ ap
                    (λ cs.
                      map write_attribute (
                        leading_attributes q prefixes use_ (node f ats vs)
                        ++ value_attributes q false ats)
                      ++ cs)
                    (content_calls f (value_trees q prefixes use_ mns false vs)
                      (write_elements q prefixes use_ mns false vs)
                      (write_elements-calls_of prefixes use_ mns false vs))))
