-- ===== src/RoundTrip/Printable.antt =====
-- What a message without headers writes is printable where all its values have names.
use kdsoap.Prelude.{
  and_left, and_right, Text, [], ◌∷◌, Option, some, Bool, Bool-cases, true, false, ◌&&◌, is_empty,
  ◌≡◌, refl, ap, ◌∙◌, inl, inr, arith,
}
use kdsoap.Namespaces.{Prefixes}
use kdsoap.Xml.{nil, cons, join, is_printable, are_printable, is_some_text}
use kdsoap.Value.{Variants, Fields, Value, Values, node, empty, more}
use kdsoap.Value.Writing.{Use, variant_to_text_value}
use kdsoap.Value.Trees.{text_nodes, value_tree, value_trees}
use kdsoap.Message.{Message}
use kdsoap.Writer.{
  Writer, has_header, element_name, element_namespace, message_namespace, prefixes_of,
}
use kdsoap.Writer.Trees.{message_tree, message_tree_simple}
use kdsoap.RoundTrip.Sent.{and_true}

module _ {V : Type 0} where
  -- Every value in a value has a name.
  unfoldable mutual
    pub has_named_children : Value V → Bool
    has_named_children (node f ats vs) = are_named vs

    pub are_named : Values V → Bool
    are_named empty = true
    are_named (more (node f ats ks) vs) = is_some_text f.name && (are_named ks && are_named vs)

module _ {V : Type 0} (q : Variants V) where
  some_text : (t : Text) → is_empty t ≡ false → is_some_text t ≡ true
  some_text [] h = absurd (ground (arith, h))
  some_text (c ∷ t) h = refl

  are_printable-text_nodes : (f : Fields V) → are_printable true (text_nodes q f) ≡ true
  unfolding is_printable text_nodes
  are_printable-text_nodes f = elim (Bool-cases (q.is_null f.variant)) [
    | inl e ↦ rw e refl
    | inr e ↦
        elim (Bool-cases
          (is_empty (variant_to_text_value q f.variant f.type_namespace f.type_name))) [
            | inl k ↦ rw (e, k) refl
            | inr k ↦ rw (e, k) (ap (λ b. b && true) (some_text _ k))
          ]
  ]

  are_printable-value_trees :
      (prefixes : Prefixes) (use_ : Use) (mns : Text) (vs : Values V) (f : Fields V)
      → are_named vs ≡ true
      → are_printable true (join (value_trees q prefixes use_ mns false vs) (text_nodes q f)) ≡ true
  unfolding is_printable value_tree are_named
  are_printable-value_trees prefixes use_ mns empty f h = are_printable-text_nodes f
  are_printable-value_trees prefixes use_ mns (more (node g ats ks) vs) f h =
      and_true
        (and_true (and_left _ (are_named ks && are_named vs) h) (
          are_printable-value_trees prefixes use_ mns ks g
            (and_left _ (are_named vs) (and_right (is_some_text g.name) _ h))))
        (are_printable-value_trees prefixes use_ mns vs f
          (and_right (are_named ks) _ (and_right (is_some_text g.name) _ h)))

  are_printable-value_tree :
      (prefixes : Prefixes) (use_ : Use) (mns : Text) (ns : Option Text) (name : Text) (v : Value V)
      → is_empty name ≡ false
      → has_named_children v ≡ true
      → are_printable true (cons (value_tree q prefixes use_ mns ns name v) nil) ≡ true
  unfolding is_printable value_tree has_named_children
  are_printable-value_tree prefixes use_ mns ns name (node f ats vs) h k =
      and_true (and_true (some_text name h) (are_printable-value_trees prefixes use_ mns vs f k))
        refl

  pub is_printable-message_tree :
      (w : Writer V) (method : Text) (m : Message V)
      → has_header w m ≡ false
      → is_empty (element_name method m) ≡ false
      → has_named_children m.value ≡ true
      → is_printable (message_tree q w method m) ≡ true
  unfolding is_printable
  is_printable-message_tree w method m h k n =
      ap is_printable (message_tree_simple q w method m h k)
      ∙ and_true
          (are_printable-value_tree (prefixes_of w m) m.use_of (message_namespace w m)
            (some (element_namespace w m)) (element_name method m) m.value k n)
          refl
