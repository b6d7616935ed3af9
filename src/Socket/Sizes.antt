-- ===== src/Socket/Sizes.antt =====
-- A test of a text for chunk sizes that are negative or do not fit, for requests that are given.
use kdsoap.Prelude.{
  and_left, and_right, ℕ, ◌+◌, ◌^◌, ◌<◌, Text, [], ◌∷◌, ◌++◌, append-nil, append_assoc, Option,
  none, some, Bool, true, false, not, ◌&&◌, ◌||◌, ltb, ltb→lt, arith, ◌≡◌, sym, subst, ℤ, pos,
  negsuc, length, starts_with,
}
use kdsoap.Http.{crlf}
use kdsoap.Platform.{Qt}
use kdsoap.Socket.Chunks.{HasPlainSizes}

size_fits : ℕ → Option ℤ → Bool
size_fits len none = true
size_fits len (some (pos k)) = ltb (k + len + 2) (2 ^ 31)
size_fits len (some (negsuc k)) = false

size_fits-eq :
    (len : ℕ) (o : Option ℤ) (n : ℤ)
    → size_fits len o ≡ true
    → o ≡ some n
    → (k : ℕ) × (n ≡ pos k) × (k + len + 2 < 2 ^ 31)
unfolding size_fits
size_fits-eq len none n h e = cc
size_fits-eq len (some (pos k)) n h e = (k, ground arith, ltb→lt _ _ h)
size_fits-eq len (some (negsuc k)) n h e = cc

module _ (qt : Qt) (len : ℕ) where
  -- The text up to each end of a line in the rest.
  lines_fit : Text → Text → Bool
  unfolding size_fits
  lines_fit line [] = true
  lines_fit line (c ∷ s) =
      (not (starts_with (c ∷ s) crlf) || size_fits len (qt.to_int_hex line))
      && lines_fit (line ++ c ∷ []) s

  all_fit : Text → Bool
  unfolding lines_fit
  all_fit [] = true
  all_fit (c ∷ s) = lines_fit [] (c ∷ s) && all_fit s

  lines_fit_sound :
      (line more after : Text)
      → lines_fit line (more ++ (crlf ++ after)) ≡ true
      → size_fits len (qt.to_int_hex (line ++ more)) ≡ true
  unfolding lines_fit starts_with
  lines_fit_sound line [] after h =
      subst (λ t. size_fits len (qt.to_int_hex t) ≡ true) (sym (append-nil line)) (and_left _ _ h)
  lines_fit_sound line (c ∷ more) after h =
      subst (λ t. size_fits len (qt.to_int_hex t) ≡ true) (append_assoc line (c ∷ []) more)
        (lines_fit_sound (line ++ c ∷ []) more after (and_right _ _ h))

  all_fit_sound :
      (before line after : Text)
      → all_fit (before ++ (line ++ (crlf ++ after))) ≡ true
      → size_fits len (qt.to_int_hex line) ≡ true
  unfolding all_fit
  all_fit_sound [] [] after h = lines_fit_sound [] [] after (and_left _ _ h)
  all_fit_sound [] (c ∷ line) after h = lines_fit_sound [] (c ∷ line) after (and_left _ _ h)
  all_fit_sound (c ∷ before) line after h = all_fit_sound before line after (and_right _ _ h)

unfoldable pub sizes_fit : Qt → Text → Bool
unfolding all_fit
sizes_fit qt buf = all_fit qt (length buf) buf

pub sizes_fit-HasPlainSizes :
    (qt : Qt) (buf : Text) → sizes_fit qt buf ≡ true → HasPlainSizes qt buf
unfolding sizes_fit
sizes_fit-HasPlainSizes qt buf h before line after n e parsed =
    size_fits-eq (length buf) (qt.to_int_hex line) n
      (all_fit_sound qt (length buf) before line after
        (subst (λ t. all_fit qt (length buf) t ≡ true) e h))
      parsed
