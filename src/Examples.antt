-- ===== src/Examples.antt =====
-- A concrete Platform.Qt for tests and witnesses.
use kdsoap.Prelude.{
  ℕ, zero, suc, ◌+◌, ◌-◌, ◌*◌, ◌/◌, ◌%◌, Text, [], ◌∷◌, Option, none, some, ltb, leb, ◌==◌,
  if◌then◌else◌, ◌&&◌, ℤ, pos, negsuc, is_digit,
}
use kdsoap.Platform.{Qt}

abbrev digits : ℕ → ℕ → Text → Text
digits zero n acc = acc
digits (suc fuel) n acc =
    let longer = digits fuel (n / 10) ((n % 10 + 48) ∷ acc) in
    if ltb n 10 then (n + 48) ∷ acc else longer

abbrev pub number : ℤ → Text
number (pos n) = digits 20 n []
number (negsuc n) = b'-' ∷ digits 20 (n + 1) []

abbrev digit_value : ℕ → Option ℕ
digit_value c =
    if is_digit c then some (c - 48) else if leb 97 c && leb c 102 then some (c - 87) else none

-- The number that the digits go on with, to a base.
abbrev value_from : ℕ → ℕ → Text → Option ℕ
value_from base n [] = some n
value_from base n (c ∷ s) = elim (digit_value c) [
  | none ↦ none
  | some k ↦ if ltb k base then value_from base (n * base + k) s else none
]

abbrev natural : ℕ → Text → Option ℕ
natural base [] = none
natural base (c ∷ s) = value_from base 0 (c ∷ s)

abbrev positive : Option ℕ → Option ℤ
positive none = none
positive (some n) = some (pos n)

abbrev negative : Option ℕ → Option ℤ
negative none = none
negative (some zero) = some (pos 0)
negative (some (suc n)) = some (negsuc n)

abbrev signed : ℕ → Text → Option ℤ
signed base [] = none
signed base (c ∷ s) =
    if c == b'-' then negative (natural base s) else positive (natural base (c ∷ s))

abbrev to_int : Text → Option ℤ
to_int s = signed 10 s

abbrev to_int_hex : Text → Option ℤ
to_int_hex s = signed 16 s

abbrev pub qt : Qt
qt = record { to_int = to_int; to_int_hex = to_int_hex; number = number; clean_path = λ p. p }
