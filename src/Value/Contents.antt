-- ===== src/Value/Contents.antt =====
-- What a value says, without the declarations and types that go with it: names, namespaces, texts,
-- attributes and children. Once as a value holds it after it was read, once as a value writes it.
use kdsoap.Prelude.{Text, List, [], ◌∷◌, false, if◌then◌else◌}
use kdsoap.Value.{Variants, Fields, Value, Values, node, empty, more}
use kdsoap.Value.Writing.{variant_to_text_value, written_namespace}
use kdsoap.Xml.{uri}

mutual
  pub data Content : Type 0 where
    item : Text → Text → Text → List (Text × Text) → Contents → Content

  pub data Contents : Type 0 where
    no_items : Contents
    items : Content → Contents → Contents

abbrev pub join_contents : Contents → Contents → Contents
join_contents no_items ds = ds
join_contents (items c cs) ds = items c (join_contents cs ds)

module _ {V : Type 0} (q : Variants V) where
  -- The attributes of a value that was read.
  unfoldable pub attribute_texts : Values V → List (Text × Text)
  attribute_texts empty = []
  attribute_texts (more (node f ats vs) rest) = (f.name, q.to_text f.variant) ∷ attribute_texts rest

  -- A value that was read.
  unfoldable mutual
    pub content_of : Value V → Content
    content_of (node f ats vs) =
        item f.name f.name_namespace (q.to_text f.variant) (attribute_texts ats) (contents_of vs)

    pub contents_of : Values V → Contents
    contents_of empty = no_items
    contents_of (more v vs) = items (content_of v) (contents_of vs)

  -- The text that is written of a variant.
  abbrev pub sent_text : Fields V → Text
  sent_text f =
      if q.is_null f.variant
      then []
      else variant_to_text_value q f.variant f.type_namespace f.type_name

  unfoldable pub sent_attributes : Values V → List (Text × Text)
  sent_attributes empty = []
  sent_attributes (more (node f ats vs) rest) =
      (f.name, variant_to_text_value q f.variant f.type_namespace f.type_name)
      ∷ sent_attributes rest

  -- A value that is written within a message of that namespace; the fields and the name of its
  -- element are given first for a message, which is written under a name and a namespace of its own.
  unfoldable mutual
    pub sent_as : Text → Text → Text → Value V → Content
    sent_as message_namespace name ns (node f ats vs) =
        item name ns (sent_text f) (sent_attributes ats) (sent_contents message_namespace vs)

    pub sent_contents : Text → Values V → Contents
    sent_contents message_namespace empty = no_items
    sent_contents message_namespace (more (node f ats vs) rest) =
        items
          (sent_as message_namespace f.name (uri (written_namespace q f message_namespace false))
            (node f ats vs))
          (sent_contents message_namespace rest)
