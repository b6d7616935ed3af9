-- ===== src/Prelude/Strings.antt =====
-- QByteArray and QString as lists of numbers (bytes, or code units), with the queries that the
-- program makes of them.
use Prim.Native.Char.{code}
use Prim.Native.Nat.{ℕ, suc, ◌+◌, ◌-◌}
use Prim.Native.String.{String}
use mathlib.Core.Path.{◌≡◌, refl}
use mathlib.Core.Logic.{◌↔◌}
use mathlib.Core.Bool.{Bool, true, false, ◌&&◌, ◌||◌}
use mathlib.Core.List.{List, [], ◌∷◌, ◌++◌, map, reverse}
use mathlib.Core.Option.{Option, none, some}
use mathlib.Core.Option
use native.Mathlib.Omega.{arith}
use kdsoap.Prelude.Tests.{leb, ◌==◌, if◌then◌else◌}
use kdsoap.Prelude.Lists.{length, drop}

abbrev pub Text : Type 0
Text = List ℕ

-- A literal of the source.
abbrev pub codes : String → Text
codes String.[] = []
codes (String.◌∷◌ c s) = code c ∷ codes s

unfoldable pub eq_text : Text → Text → Bool
eq_text [] [] = true
eq_text (a ∷ s) (b ∷ t) = (a == b) && eq_text s t
eq_text _ _ = false

pub eq_text_iff : (s t : Text) → (eq_text s t ≡ true) ↔ (s ≡ t)
unfolding eq_text
eq_text_iff [] [] = ground arith
eq_text_iff [] (b ∷ t) = ground arith
eq_text_iff (a ∷ s) [] = ground arith
eq_text_iff (a ∷ s) (b ∷ t) = ground (arith, eq_text_iff s t)

pub eq_text_refl : (s : Text) → eq_text s s ≡ true
eq_text_refl s = (eq_text_iff s s).1 refl

-- s.startsWith(p)
unfoldable pub starts_with : Text → Text → Bool
starts_with s [] = true
starts_with [] (b ∷ p) = false
starts_with (a ∷ s) (b ∷ p) = (a == b) && starts_with s p

-- s.endsWith(p)
unfoldable pub ends_with : Text → Text → Bool
ends_with s p = leb (length p) (length s) && eq_text (drop (length s - length p) s) p

-- s.indexOf(p) for a non-empty p; `none` is the -1 of the source.
unfoldable pub index_of : Text → Text → Option ℕ
index_of [] p = if starts_with [] p then some 0 else none
index_of (a ∷ s) p = if starts_with (a ∷ s) p then some 0 else Option.map suc (index_of s p)

-- s.indexOf(c)
unfoldable pub index_of_char : Text → ℕ → Option ℕ
index_of_char [] c = none
index_of_char (a ∷ s) c = if a == c then some 0 else Option.map suc (index_of_char s c)

-- s.split(c), the parts in reverse order within `cur`.
split_from : ℕ → Text → Text → List Text
split_from c cur [] = cur ∷ []
split_from c cur (a ∷ s) =
    let closed = split_from c [] s in
    let longer = split_from c (cur ++ a ∷ []) s in if a == c then cur ∷ closed else longer

unfoldable pub split : Text → ℕ → List Text
unfolding split_from
split s c = split_from c [] s

-- isspace in the C locale.
abbrev pub is_space : ℕ → Bool
is_space c = (c == 32) || (leb 9 c && leb c 13)

unfoldable pub trim_left : Text → Text
trim_left [] = []
trim_left (a ∷ s) = if is_space a then trim_left s else a ∷ s

-- s.trimmed()
unfoldable pub trimmed : Text → Text
unfolding trim_left
trimmed s = reverse (trim_left (reverse (trim_left s)))

abbrev pub is_digit : ℕ → Bool
is_digit c = leb 48 c && leb c 57

unfoldable pub lower_char : ℕ → ℕ
lower_char c = if leb 65 c && leb c 90 then c + 32 else c

-- s.toLower() on bytes.
unfoldable pub to_lower : Text → Text
unfolding lower_char
to_lower s = map lower_char s
