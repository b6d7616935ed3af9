-- ===== src/Prelude/Find.antt =====
-- Laws of the searches in a text.
use mathlib.Core.Option
use kdsoap.Prelude.Tests.{Bool-cases, ◌==◌}
use kdsoap.Prelude.Lists.{take, All, length, drop}
use kdsoap.Prelude.Strings.{Text, starts_with, index_of, index_of_char}
use Prim.Native.Nat.{ℕ, suc, ◌+◌, ◌≤◌, ◌<◌}
use mathlib.Core.Path.{◌≡◌, refl, ap, ◌∙◌}
use mathlib.Core.Logic.{◌≢◌, inl, inr}
use mathlib.Core.Bool.{false, true, ◌&&◌}
use mathlib.Core.List.{[], ◌∷◌, ◌++◌}
use mathlib.Core.Option.{Option, none, some}
use native.Mathlib.Omega.{arith}

pub starts_with-eq_append : (s p : Text) → starts_with s p ≡ true → s ≡ p ++ drop (length p) s
unfolding starts_with
starts_with-eq_append [] [] h = refl
starts_with-eq_append (a ∷ s) [] h = refl
starts_with-eq_append [] (b ∷ p) h = cc
starts_with-eq_append (a ∷ s) (b ∷ p) h = ground (arith, starts_with-eq_append s p)

pub starts_with-length : (s p : Text) → starts_with s p ≡ true → length p ≤ length s
unfolding starts_with
starts_with-length s [] h = omega arith
starts_with-length [] (b ∷ p) h = cc
starts_with-length (a ∷ s) (b ∷ p) h = ground (arith, starts_with-length s p)

pub starts_with-append_self : (p t : Text) → starts_with (p ++ t) p ≡ true
unfolding starts_with
starts_with-append_self [] [] = refl
starts_with-append_self [] (a ∷ t) = refl
starts_with-append_self (b ∷ p) t = ground (arith, starts_with-append_self p t)

-- What follows a text that is long enough does not matter.
pub starts_with-append :
    (s t p : Text) → length p ≤ length s → starts_with (s ++ t) p ≡ starts_with s p
unfolding starts_with
starts_with-append [] [] [] h = refl
starts_with-append [] (c ∷ t) [] h = refl
starts_with-append (a ∷ s) t [] h = refl
starts_with-append [] t (b ∷ p) h = absurd (omega arith)
starts_with-append (a ∷ s) t (b ∷ p) h =
    ap (λ r. (a == b) && r) (starts_with-append s t p (omega arith))

module _ (p : Text) where
  -- A search finds a place where the text stands, inside.
  pub index_of-found :
      (s : Text) (i : ℕ)
      → index_of s p ≡ some i
      → (starts_with (drop i s) p ≡ true) × (i + length p ≤ length s)
  unfolding index_of
  index_of-found [] i h = elim (Bool-cases (starts_with [] p)) [
    | inl e ↦ let z : i ≡ 0 = ground arith in rw z (e, omega (arith, starts_with-length [] p e))
    | inr e ↦ ground arith
  ]
  index_of-found (a ∷ s) i h = elim (Bool-cases (starts_with (a ∷ s) p)) [
    | inl e ↦
        let z : i ≡ 0 = ground arith in rw z (e, omega (arith, starts_with-length (a ∷ s) p e))
    | inr e ↦
        let (j, found, same) = (Option.map-eq-some_iff _ _).0 (rw (e, index_of) at h) in
        let (there, inside) = index_of-found s j found in rw (← same) (there, omega arith)
  ]

  at_start : (s : Text) → starts_with s p ≡ true → index_of s p ≡ some 0
  unfolding index_of
  at_start [] e = rw e
  at_start (a ∷ s) e = rw e

  -- Text that arrives later does not move what was found.
  pub index_of-append : (s t : Text) (i : ℕ) → index_of s p ≡ some i → index_of (s ++ t) p ≡ some i
  unfolding index_of
  index_of-append [] t i h = elim (Bool-cases (starts_with [] p)) [
    | inl e ↦
        let z : i ≡ 0 = ground arith in
        rw z (at_start t (starts_with-append [] t p (starts_with-length [] p e) ∙ e))
    | inr e ↦ ground arith
  ]
  index_of-append (a ∷ s) t i h = elim (Bool-cases (starts_with (a ∷ s) p)) [
    | inl e ↦
        let z : i ≡ 0 = ground arith in
        rw z (
          at_start (a ∷ s ++ t)
            (starts_with-append (a ∷ s) t p (starts_with-length (a ∷ s) p e) ∙ e))
    | inr e ↦
        let (j, found, same) = (Option.map-eq-some_iff _ _).0 (rw (e, index_of) at h) in
        let (_, inside) = index_of-found s j found in
        let not_here = starts_with-append (a ∷ s) t p (omega arith) ∙ e in
        rw (not_here, index_of-append s t j found, index_of) (ap some same)
  ]

pub index_of_char-found : (s : Text) (c i : ℕ) → index_of_char s c ≡ some i → i < length s
unfolding index_of_char
index_of_char-found [] c i h = cc
index_of_char-found (a ∷ s) c i h = elim (Bool-cases (a == c)) [
  | inl e ↦ ground arith
  | inr e ↦
      let (j, found, same) = (Option.map-eq-some_iff _ _).0 (rw (e, index_of_char) at h) in
      let below : suc j < length (a ∷ s) = omega (arith, index_of_char-found s c j found) in
      rw (← same) below
]

-- A text up to its first c.
pub index_of_char-append :
    (s rest : Text) (c : ℕ)
    → All (λ a. a ≢ c) s
    → index_of_char (s ++ (c ∷ rest)) c ≡ some (length s)
unfolding index_of_char
index_of_char-append [] rest c h = let same : (c == c) ≡ true = ground arith in rw same
index_of_char-append (a ∷ s) rest c (k, h) =
    let ne : (a == c) ≡ false = ground arith in
    rw (ne, index_of_char) (ap (Option.map suc) (index_of_char-append s rest c h))

pub index_of_char-none : (s : Text) (c : ℕ) → All (λ a. a ≢ c) s → index_of_char s c ≡ none
unfolding index_of_char
index_of_char-none [] c h = refl
index_of_char-none (a ∷ s) c (k, h) =
    let ne : (a == c) ≡ false = ground arith in
    rw (ne, index_of_char) (ap (Option.map suc) (index_of_char-none s c h))

pub take-append_length : (s t : Text) → take (length s) (s ++ t) ≡ s
take-append_length [] t = refl
take-append_length (a ∷ s) t = ap (λ u. a ∷ u) (take-append_length s t)

pub drop-append_length : (s t : Text) (c : ℕ) → drop (suc (length s)) (s ++ (c ∷ t)) ≡ t
drop-append_length [] t c = refl
drop-append_length (a ∷ s) t c = drop-append_length s t c
