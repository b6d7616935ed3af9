-- ===== src/NameMapper/Escaping.antt =====
-- What escaping a name gives.
use kdsoap.Prelude.{
  Text, List, [], ◌∷◌, ◌++◌, Bool, Bool-cases, true, false, inl, inr, ◌⊎◌, ◌≡◌, ◌≢◌, refl, sym, ◌∙◌,
  ap, ap₂, subst, arith, codes, drop, eq_text, eq_text_iff, starts_with, ℕ, ◌==◌, not, ◌&&◌, all,
}
use kdsoap.NameMapper.{key_words, contains, escape, unescape}

-- Whether the last byte is an underscore, and whether the first is.
abbrev ends_underscore : Text → Bool
ends_underscore [] = false
ends_underscore (c ∷ []) = c == b'_'
ends_underscore (c ∷ d ∷ s) = ends_underscore (d ∷ s)

snoc_underscore : (s : Text) → ends_underscore (s ++ codes "_") ≡ true
snoc_underscore [] = refl
snoc_underscore (c ∷ []) = refl
snoc_underscore (c ∷ d ∷ s) = snoc_underscore (d ∷ s)

and_left : (a b : Bool) → (a && b) ≡ true → a ≡ true
and_left true b h = refl
and_left false b h = cc

and_right : (a b : Bool) → (a && b) ≡ true → b ≡ true
and_right true b h = h
and_right false b h = cc

-- What holds of every keyword holds of a name that is one.
contains-all :
    (p : Text → Bool) (ks : List Text) (name : Text)
    → all p ks ≡ true
    → contains ks name ≡ true
    → p name ≡ true
unfolding contains
contains-all p [] name h k = cc
contains-all p (w ∷ ks) name h k = elim (Bool-cases (eq_text w name)) [
  | inl e ↦
      let same : w ≡ name = (eq_text_iff w name).0 e in
      subst (λ t. p t ≡ true) same (and_left (p w) (all p ks) h)
  | inr e ↦ contains-all p ks name (and_right (p w) (all p ks) h) (rw (e, contains) at k)
]

escape_keyword : (name : Text) → contains key_words name ≡ true → escape name ≡ name ++ codes "_"
unfolding escape
escape_keyword name e = rw e

escape_other : (name : Text) → contains key_words name ≡ false → escape name ≡ name
unfolding escape
escape_other name e = rw e

no_keyword_ends_so : all (λ k. not (ends_underscore k)) key_words ≡ true
no_keyword_ends_so = refl

no_keyword_starts_so : all (λ k. not (starts_with (k ++ codes "_") (codes "_"))) key_words ≡ true
unfolding starts_with
no_keyword_starts_so = refl

not_both : (b : Bool) → b ≡ true → not b ≡ true → ⊥
not_both b e f = ground arith

no_snoc : (b : Text) (c : ℕ) → [] ≡ b ++ (c ∷ []) → ⊥
no_snoc [] c h = cc
no_snoc (x ∷ b) c h = cc

longer : (s : Text) → s ++ codes "_" ≡ s → ⊥
longer [] h = cc
longer (x ∷ s) h = longer s (ap (drop 1) h)

-- A name that is escaped is never a keyword.
pub contains-escape : (name : Text) → contains key_words (escape name) ≡ false
contains-escape name = elim (Bool-cases (contains key_words name)) [
  | inr e ↦ ap (contains key_words) (escape_other name e) ∙ e
  | inl e ↦ elim (Bool-cases (contains key_words (name ++ codes "_"))) [
    | inr f ↦ ap (contains key_words) (escape_keyword name e) ∙ f
    | inl f ↦ absurd (
        not_both (ends_underscore (name ++ codes "_")) (snoc_underscore name) (
          contains-all (λ k. not (ends_underscore k)) key_words (name ++ codes "_")
            no_keyword_ends_so f))
  ]
]

snoc-injective : (a b : Text) (c : ℕ) → a ++ (c ∷ []) ≡ b ++ (c ∷ []) → a ≡ b
snoc-injective [] [] c h = refl
snoc-injective [] (y ∷ b) c h = absurd (no_snoc b c (ap (drop 1) h))
snoc-injective (x ∷ a) [] c h = absurd (no_snoc a c (sym (ap (drop 1) h)))
snoc-injective (x ∷ a) (y ∷ b) c h =
    let same : x ≡ y = cc h in ap₂ (λ u v. u ∷ v) same (snoc-injective a b c (ap (drop 1) h))

-- Two names are escaped to the same name only if they are equal, or one is a keyword and the other
-- is that keyword with an underscore behind it.
pub escape-injective :
    (a b : Text)
    → escape a ≡ escape b
    → (a ≡ b)
      ⊎ ((contains key_words a ≡ true) × (b ≡ a ++ codes "_"))
      ⊎ ((contains key_words b ≡ true) × (a ≡ b ++ codes "_"))
escape-injective a b h = elim (Bool-cases (contains key_words a)) [
  | inl e ↦ elim (Bool-cases (contains key_words b)) [
    | inl f ↦ inl (snoc-injective a b b'_' (sym (escape_keyword a e) ∙ h ∙ escape_keyword b f))
    | inr f ↦ inr (inl (e, sym (escape_other b f) ∙ sym h ∙ escape_keyword a e))
  ]
  | inr e ↦ elim (Bool-cases (contains key_words b)) [
    | inl f ↦ inr (inr (f, sym (escape_other a e) ∙ h ∙ escape_keyword b f))
    | inr f ↦ inl (sym (escape_other a e) ∙ h ∙ escape_other b f)
  ]
]

unescape_other : (name : Text) → starts_with name (codes "_") ≡ false → unescape name ≡ name
unfolding unescape
unescape_other name e = rw e

not-eq-true : (b : Bool) → not b ≡ true → b ≡ false
not-eq-true b h = ground arith

-- Unescaping an escaped keyword gives the keyword with an underscore behind it, which is not the
-- keyword.
pub unescape-escape :
    (name : Text)
    → contains key_words name ≡ true
    → (unescape (escape name) ≡ name ++ codes "_") × (unescape (escape name) ≢ name)
unescape-escape name e =
    let same : unescape (escape name) ≡ name ++ codes "_" =
      ap unescape (escape_keyword name e)
      ∙ unescape_other (name ++ codes "_") (
          not-eq-true (starts_with (name ++ codes "_") (codes "_")) (
            contains-all (λ k. not (starts_with (k ++ codes "_") (codes "_"))) key_words name
              no_keyword_starts_so e)) in
    (same, (λ h. longer name (sym same ∙ h)))
