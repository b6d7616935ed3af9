-- ===== src/Addressing/Elements.antt =====
-- The elements of the addressing properties, and that the calls that write the properties are those
-- of the elements.
use kdsoap.Prelude.{
  Text, List, [], ◌∷◌, ◌++◌, none, some, Bool, Bool-cases, not, ◌&&◌, if◌then◌else◌, codes, eq_text,
  is_empty, ◌≡◌, refl, ap, ap₂, sym, ◌∙◌, inl, inr, append_assoc, append-nil,
}
use kdsoap.Namespaces.{addressing_namespace_to_string}
use kdsoap.Xml.{
  Attribute, Element, Call, start_element, end_element, Node, element, text, Nodes, nil, cons, join,
  calls_of, calls_of_nodes,
}
use kdsoap.Value.{Variants, Fields, Values, node, empty, more, none_in}
use kdsoap.Value.Trees.{calls_of_nodes-join}
use kdsoap.Addressing.{
  Addressing, EndpointReference, Relationship, none_address, is_early, predefined_address_to_string,
  text_calls, endpoint_calls, relationship_calls, variant_calls, write_hierarchy, hierarchy_calls,
  write_message_addressing_properties,
}

abbrev pub tag : Text → Text → List Attribute → Element
tag ns name ats = record { space = some ns; name = name; declarations = []; attributes = ats }

abbrev pub leaf : Text → Text → Text → Node
leaf ns name content = element (tag ns name []) (cons (text content) nil)

unfoldable pub text_nodes : Text → Text → Text → Nodes
text_nodes ns name content = if is_empty content then nil else cons (leaf ns name content) nil

unfoldable pub relationship_nodes : Text → List Relationship → Nodes
relationship_nodes ns [] = nil
relationship_nodes ns (r ∷ rs) =
    join
      (if is_empty r.relationship_uri
        then nil
        else cons
            (element
              (tag ns (codes "RelatesTo") (
                if is_empty r.relationship_type
                then []
                else record {
                  space = none;
                  name = codes "RelationshipType";
                  content = r.relationship_type;
                }
                  ∷ []))
              (cons (text r.relationship_uri) nil))
            nil)
      (relationship_nodes ns rs)

module _ {V : Type 0} (q : Variants V) where
  variant_nodes : Fields V → Nodes
  variant_nodes f = if q.can_be_text f.variant then cons (text (q.to_text f.variant)) nil else nil

  unfoldable pub value_nodes : Text → Values V → Nodes
  unfolding variant_nodes
  value_nodes ns empty = nil
  value_nodes ns (more (node f ats empty) rest) =
      cons (element (tag ns f.name []) (variant_nodes f)) (value_nodes ns rest)
  value_nodes ns (more (node f ats (more v vs)) rest) =
      cons (element (tag ns f.name []) (value_nodes ns (more v vs))) (value_nodes ns rest)

  unfoldable pub hierarchy_nodes : Text → Text → Values V → Nodes
  hierarchy_nodes ns name vs =
      if none_in vs then nil else cons (element (tag ns name []) (value_nodes ns vs)) nil

module _ {V : Type 0} where
  unfoldable pub endpoint_nodes : Text → Text → EndpointReference V → Nodes
  endpoint_nodes ns name e =
      if is_empty e.address
      then nil
      else cons (element (tag ns name []) (cons (leaf ns (codes "Address") e.address) nil)) nil

  -- Whether the destination says that there is none, in which case nothing is written.
  pub has_none_destination : Addressing V → Bool
  unfolding is_early
  has_none_destination a =
      not (is_early a.addressing_namespace)
      && eq_text a.destination (predefined_address_to_string none_address a.addressing_namespace)

module _ {V : Type 0} (q : Variants V) where
  unfoldable pub property_nodes : Text → Addressing V → Nodes
  property_nodes ns a = join (text_nodes ns (codes "To") a.destination) (
      join (endpoint_nodes ns (codes "From") a.source_endpoint) (
        join (endpoint_nodes ns (codes "ReplyTo") a.reply_endpoint) (
          join (endpoint_nodes ns (codes "FaultTo") a.fault_endpoint) (
            join (text_nodes ns (codes "Action") a.action) (
              join (text_nodes ns (codes "MessageID") a.message_id) (
                join (relationship_nodes ns a.relationships) (
                  join (hierarchy_nodes q ns (codes "ReferenceParameters") a.reference_parameters)
                    (hierarchy_nodes q ns (codes "Metadata") a.metadata))))))))

  unfoldable pub addressing_nodes : Addressing V → Nodes
  addressing_nodes a =
      if has_none_destination a
      then nil
      else property_nodes (addressing_namespace_to_string a.addressing_namespace) a

-- Calls of a part and of the rest.
pub calls_join :
    (ns ms : Nodes) (cs ds : List Call)
    → cs ≡ calls_of_nodes ns
    → ds ≡ calls_of_nodes ms
    → cs ++ ds ≡ calls_of_nodes (join ns ms)
calls_join ns ms cs ds e f = ap₂ ◌++◌ e f ∙ sym (calls_of_nodes-join ns ms)

text_calls-nodes :
    (ns name content : Text)
    → text_calls ns name content ≡ calls_of_nodes (text_nodes ns name content)
unfolding text_calls text_nodes calls_of
text_calls-nodes ns name [] = refl
text_calls-nodes ns name (c ∷ t) = refl

endpoint_calls-nodes :
    {V : Type 0} (ns name : Text) (e : EndpointReference V)
    → endpoint_calls ns name e ≡ calls_of_nodes (endpoint_nodes ns name e)
unfolding endpoint_calls endpoint_nodes calls_of
endpoint_calls-nodes ns name e = elim (Bool-cases (is_empty e.address)) [
  | inl h ↦ rw h refl
  | inr h ↦ rw h refl
]

relationship_calls-nodes :
    (ns : Text) (rs : List Relationship)
    → relationship_calls ns rs ≡ calls_of_nodes (relationship_nodes ns rs)
unfolding relationship_calls relationship_nodes calls_of
relationship_calls-nodes ns [] = refl
relationship_calls-nodes ns (r ∷ rs) = elim (Bool-cases (is_empty r.relationship_uri)) [
  | inl h ↦ rw h (relationship_calls-nodes ns rs)
  | inr h ↦ elim (Bool-cases (is_empty r.relationship_type)) [
    | inl k ↦ rw (h, k) (rw (relationship_calls-nodes ns rs) refl)
    | inr k ↦ rw (h, k) (rw (relationship_calls-nodes ns rs) refl)
  ]
]

module _ {V : Type 0} (q : Variants V) where
  variant_calls-nodes : (f : Fields V) → variant_calls q f ≡ calls_of_nodes (variant_nodes q f)
  unfolding variant_calls variant_nodes calls_of
  variant_calls-nodes f = elim (Bool-cases (q.can_be_text f.variant)) [
    | inl h ↦ rw h refl
    | inr h ↦ rw h refl
  ]

  write_hierarchy-nodes :
      (ns : Text) (vs : Values V) → write_hierarchy q ns vs ≡ calls_of_nodes (value_nodes q ns vs)
  unfolding write_hierarchy value_nodes calls_of
  write_hierarchy-nodes ns empty = refl
  write_hierarchy-nodes ns (more (node f ats empty) rest) =
      ap (λ cs. start_element (some ns) f.name ∷ cs)
        (ap₂ (λ cs ds. cs ++ end_element ∷ ds) (variant_calls-nodes f)
            (write_hierarchy-nodes ns rest)
          ∙ sym (append_assoc _ (end_element ∷ []) _))
  write_hierarchy-nodes ns (more (node f ats (more v vs)) rest) =
      ap (λ cs. start_element (some ns) f.name ∷ cs)
        (ap₂ (λ cs ds. cs ++ end_element ∷ ds) (write_hierarchy-nodes ns (more v vs))
            (write_hierarchy-nodes ns rest)
          ∙ sym (append_assoc _ (end_element ∷ []) _))

  hierarchy_calls-nodes :
      (ns name : Text) (vs : Values V)
      → hierarchy_calls q ns name vs ≡ calls_of_nodes (hierarchy_nodes q ns name vs)
  unfolding hierarchy_calls hierarchy_nodes calls_of
  hierarchy_calls-nodes ns name empty = refl
  hierarchy_calls-nodes ns name (more v vs) =
      ap (λ cs. start_element (some ns) name ∷ (cs ++ end_element ∷ []))
        (write_hierarchy-nodes ns (more v vs))
      ∙ sym (append-nil _)

  property_calls :
      (ns : Text) (a : Addressing V)
      → text_calls ns (codes "To") a.destination
          ++ (endpoint_calls ns (codes "From") a.source_endpoint
              ++ (endpoint_calls ns (codes "ReplyTo") a.reply_endpoint
                  ++ (endpoint_calls ns (codes "FaultTo") a.fault_endpoint
                      ++ (text_calls ns (codes "Action") a.action
                          ++ (text_calls ns (codes "MessageID") a.message_id
                              ++ (relationship_calls ns a.relationships
                                  ++ (hierarchy_calls q ns
                                        (codes "ReferenceParameters")
                                        a.reference_parameters
                                      ++ hierarchy_calls q ns (codes "Metadata") a.metadata)))))))
        ≡ calls_of_nodes (property_nodes q ns a)
  unfolding property_nodes
  property_calls ns a = calls_join _ _ _ _ (text_calls-nodes ns (codes "To") a.destination) (
      calls_join _ _ _ _ (endpoint_calls-nodes ns (codes "From") a.source_endpoint) (
        calls_join _ _ _ _ (endpoint_calls-nodes ns (codes "ReplyTo") a.reply_endpoint) (
          calls_join _ _ _ _ (endpoint_calls-nodes ns (codes "FaultTo") a.fault_endpoint) (
            calls_join _ _ _ _ (text_calls-nodes ns (codes "Action") a.action) (
              calls_join _ _ _ _ (text_calls-nodes ns (codes "MessageID") a.message_id) (
                calls_join _ _ _ _ (relationship_calls-nodes ns a.relationships) (
                  calls_join _ _ _ _
                    (hierarchy_calls-nodes ns (codes "ReferenceParameters") a.reference_parameters)
                    (hierarchy_calls-nodes ns (codes "Metadata") a.metadata))))))))

  pub write_message_addressing_properties-nodes :
      (a : Addressing V)
      → write_message_addressing_properties q a ≡ calls_of_nodes (addressing_nodes q a)
  unfolding write_message_addressing_properties addressing_nodes has_none_destination
  write_message_addressing_properties-nodes a = elim (Bool-cases (has_none_destination a)) [
    | inl h ↦ rw h (unfold calls_of in refl)
    | inr h ↦ rw h (property_calls (addressing_namespace_to_string a.addressing_namespace) a)
  ]
