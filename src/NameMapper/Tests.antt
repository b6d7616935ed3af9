-- ===== src/NameMapper/Tests.antt =====
-- Names escaped.
use kdsoap.Prelude.{true, false, ◌⊎◌, ◌≡◌, ◌≢◌, refl, codes, eq_text}
use kdsoap.NameMapper.{key_words, contains, escape, unescape}
use kdsoap.NameMapper.Escaping.{contains-escape, escape-injective, unescape-escape}

contains-escape_example : contains key_words (escape (codes "delete")) ≡ false
contains-escape_example = contains-escape (codes "delete")

delete_twice : escape (codes "delete") ≡ escape (codes "delete_")
unfolding escape eq_text
delete_twice = refl

escape-injective_example :
    (codes "delete" ≡ codes "delete_")
    ⊎ ((contains key_words (codes "delete") ≡ true) × (codes "delete_" ≡ codes "delete_"))
    ⊎ ((contains key_words (codes "delete_") ≡ true) × (codes "delete" ≡ codes "delete__"))
escape-injective_example = escape-injective (codes "delete") (codes "delete_") delete_twice

delete_keyword : contains key_words (codes "delete") ≡ true
unfolding contains eq_text
delete_keyword = refl

unescape-escape_example :
    (unescape (escape (codes "delete")) ≡ codes "delete_")
    × (unescape (escape (codes "delete")) ≢ codes "delete")
unescape-escape_example = unescape-escape (codes "delete") delete_keyword
