-- ===== src/Value.antt =====
-- The values of a message: src/KDSoapClient/KDSoapValue.cpp. A QVariant is a parameter, with what
-- Qt says of it.
pub mod Writing
pub mod Contents
pub mod Trees
pub mod Samples
use kdsoap.Prelude.{
  ℕ, suc, Text, List, [], Option, ◌∷◌, ◌++◌, Bool, true, false, not, ◌&&◌, if◌then◌else◌, codes,
  eq_text, is_empty, index_of_char, split, ℤ, ◌≡◌,
}
use kdsoap.QName.{Declaration}

-- QMetaType::Type, as far as the source tells types apart; `kd_date_time` is a type that converts
-- to KDDateTime.
pub data UserType : Type 0 where
  char_type string_type url_type byte_array_type int_type long_long_type unsigned_int_type :
      UserType
  unsigned_long_long_type bool_type float_type double_type time_type date_type : UserType
  date_time_type unknown_type kd_date_time_type other_type : UserType

-- What the source asks of QVariant and of the types in it.
pub record Variants (V : Type 0) : Type 0 where
  pub null_variant : V
  pub of_text : Text → V
  pub is_null : V → Bool
  pub user_type : V → UserType
  pub to_text : V → Text
  pub can_be_text : V → Bool
  pub url_text : V → Text
  pub byte_array : V → Text
  pub to_hex : Text → Text
  pub to_base64 : Text → Text
  pub signed_text : V → Text
  pub unsigned_text : V → Text
  pub has_milliseconds : V → Bool
  pub time_with_milliseconds : V → Text
  pub iso_time : V → Text
  pub iso_date : V → Text
  pub date_time_text : V → Text
  pub number : ℕ → Text
  -- QVariant::convert to a type of QMetaType, `none` being the type -1.
  pub convert : V → Option UserType → Option V

-- What a QVariant that was made of a text says.
pub record IsTextual {V : Type 0} (q : Variants V) : Type 0 where
  pub null_is_null : q.is_null q.null_variant ≡ true
  pub null_text : q.to_text q.null_variant ≡ []
  pub text_back : (t : Text) → q.to_text (q.of_text t) ≡ t
  pub text_type : (t : Text) → q.user_type (q.of_text t) ≡ string_type
  pub text_is_value : (c : ℕ) (t : Text) → q.is_null (q.of_text (c ∷ t)) ≡ false

-- KDSoapValue::Private without the child values, and the type of the array that these are.
pub record Fields (V : Type 0) : Type 0 where
  pub name : Text
  pub name_namespace : Text
  pub variant : V
  pub type_namespace : Text
  pub type_name : Text
  pub qualified : Bool
  pub nillable : Bool
  pub environment_declarations : List Declaration
  pub local_declarations : List Declaration
  pub array_type_namespace : Text
  pub array_type : Text

-- The fields, the attributes and the child values.
mutual
  pub data Value (V : Type 0) : Type 0 where
    node : Fields V → Values V → Values V → Value V

  pub data Values (V : Type 0) : Type 0 where
    empty : Values V
    more : Value V → Values V → Values V

module _ {V : Type 0} where
  abbrev pub fields : Value V → Fields V
  fields (node f ats vs) = f

  abbrev pub attributes : Value V → Values V
  attributes (node f ats vs) = ats

  abbrev pub child_values : Value V → Values V
  child_values (node f ats vs) = vs

  abbrev pub none_in : Values V → Bool
  none_in empty = true
  none_in (more v vs) = false

  abbrev pub count : Values V → ℕ
  count empty = 0
  count (more v vs) = suc (count vs)

  -- QList::append
  abbrev pub append : Values V → Value V → Values V
  append empty v = more v empty
  append (more w vs) v = more w (append vs v)

module _ {V : Type 0} (q : Variants V) where
  -- The constructors, with a value and with child values.
  abbrev pub new_fields : Text → V → Text → Text → Fields V
  new_fields name variant type_namespace type_name = record {
    name = name;
    name_namespace = [];
    variant = variant;
    type_namespace = type_namespace;
    type_name = type_name;
    qualified = false;
    nillable = false;
    environment_declarations = [];
    local_declarations = [];
    array_type_namespace = [];
    array_type = [];
  }

  abbrev pub new_value : Text → V → Text → Text → Value V
  new_value name variant type_namespace type_name =
      node (new_fields name variant type_namespace type_name) empty empty

  abbrev pub new_parent : Text → Values V → Text → Text → Value V
  new_parent name children type_namespace type_name =
      node (new_fields name q.null_variant type_namespace type_name) empty children

  abbrev pub null_value : Value V
  null_value = new_value [] q.null_variant [] []

  unfoldable pub is_nil : Value V → Bool
  is_nil (node f ats vs) = q.is_null f.variant && none_in vs && none_in ats

  unfoldable pub is_null_value : Value V → Bool
  unfolding is_nil
  is_null_value v = is_empty (fields v).name && is_nil v

  -- KDSoapValueList::child
  unfoldable pub child : Values V → Text → Value V
  child empty name = null_value
  child (more v vs) name = if eq_text (fields v).name name then v else child vs name

  -- KDSoapValueList::addArgument
  unfoldable pub add_argument : Values V → Text → V → Text → Text → Values V
  add_argument vs name variant type_namespace type_name =
      append vs (new_value name variant type_namespace type_name)

  parts_of : Value V → List Text → Values V
  parts_of v [] = empty
  parts_of (node f ats vs) ([] ∷ parts) = parts_of (node f ats vs) parts
  parts_of (node f ats vs) ((c ∷ part) ∷ parts) =
      more (node (record f { variant = q.of_text (c ∷ part) }) ats vs)
        (parts_of (node f ats vs) parts)

  -- KDSoapValue::split: a value for each word of the text.
  pub split_value : Value V → Values V
  unfolding parts_of
  split_value v = parts_of v (split (q.to_text (fields v).variant) b' ')

module _ {V : Type 0} where
  unfoldable pub set_name : Text → Value V → Value V
  set_name name (node f ats vs) = node (record f { name = name }) ats vs

  pub set_value : V → Value V → Value V
  set_value variant (node f ats vs) = node (record f { variant = variant }) ats vs

  unfoldable pub set_namespace_uri : Text → Value V → Value V
  set_namespace_uri ns (node f ats vs) = node (record f { name_namespace = ns }) ats vs

  unfoldable pub set_qualified : Bool → Value V → Value V
  set_qualified qualified (node f ats vs) = node (record f { qualified = qualified }) ats vs

  pub set_nillable : Bool → Value V → Value V
  set_nillable nillable (node f ats vs) = node (record f { nillable = nillable }) ats vs

  pub set_type : Text → Text → Value V → Value V
  set_type ns name (node f ats vs) =
      node (record f { type_namespace = ns; type_name = name }) ats vs

  pub set_array_type : Text → Text → Value V → Value V
  set_array_type ns name (node f ats vs) =
      node (record f { array_type_namespace = ns; array_type = name }) ats vs

  pub add_namespace_declaration : Declaration → Value V → Value V
  add_namespace_declaration d (node f ats vs) =
      node (record f { local_declarations = f.local_declarations ++ d ∷ [] }) ats vs
