-- ===== src/Value/Samples.antt =====
-- QVariants that hold a text or nothing, for tests and witnesses.
use kdsoap.Prelude.{Text, [], ◌∷◌, Option, none, some, Bool, true, false, refl, ◌+◌}
use kdsoap.Value.{Variants, IsTextual, UserType, string_type, unknown_type}

abbrev text_in : Option Text → Text
text_in none = []
text_in (some t) = t

abbrev is_none : Option Text → Bool
is_none none = true
is_none (some t) = false

abbrev type_in : Option Text → UserType
type_in none = unknown_type
type_in (some t) = string_type

abbrev pub texts : Variants (Option Text)
texts = record {
  null_variant = none;
  of_text = λ t. some t;
  is_null = is_none;
  user_type = type_in;
  to_text = text_in;
  can_be_text = λ v. true;
  url_text = text_in;
  byte_array = text_in;
  to_hex = λ t. t;
  to_base64 = λ t. t;
  signed_text = text_in;
  unsigned_text = text_in;
  has_milliseconds = λ v. false;
  time_with_milliseconds = text_in;
  iso_time = text_in;
  iso_date = text_in;
  date_time_text = text_in;
  number = λ n. (n + 48) ∷ [];
  convert = λ v t. some v;
}

pub texts-IsTextual : IsTextual texts
texts-IsTextual = record {
  null_is_null = refl;
  null_text = refl;
  text_back = λ t. refl;
  text_type = λ t. refl;
  text_is_value = λ c t. refl;
}
