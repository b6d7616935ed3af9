-- ===== src/Dates/Zones.antt =====
-- The time zone of a date: fromDateString and setTimeZone of src/KDSoapClient/KDDateTime.cpp.
use kdsoap.Prelude.{
  ◌-◌, Text, [], ◌++◌, some, true, false, ◌||◌, codes, starts_with, ends_with, length,
  length-append, eq_text, take, drop, drop-append_le, take-append_le, take_all, drop_all, pos, ◌≡◌,
  refl, sym, ap, ◌∙◌, arith, ℕ, zero, suc, ◌+◌, ◌*◌, ◌<◌, ◌∷◌, ◌≢◌, All, ℤ, ◌+ℤ◌, ◌-ℤ◌, leb_ℤ, ◌==◌,
  if◌then◌else◌, index_of_char-append, take-append_length, drop-append_length,
}
use kdsoap.Platform.{Qt}
use kdsoap.Dates.{
  Clock, offset_at, time_spec_of, zone_of, set_time_zone, from_date_string, times, negated,
  seconds_ahead,
}

zone_start : (base zone : Text) → length zone ≡ 6 → length (base ++ zone) - 6 ≡ length base
zone_start base zone h = omega (arith, length-append base zone)

take_base : (base zone : Text) → take (length base) (base ++ zone) ≡ base
take_base base zone =
    take-append_le (length base) base zone (omega arith) ∙ take_all (length base) base (omega arith)

drop_base : (base zone : Text) → drop (length base) (base ++ zone) ≡ zone
drop_base base zone =
    drop-append_le (length base) base zone (omega arith)
    ∙ ap (λ t. t ++ zone) (drop_all (length base) base (omega arith))

zone_of-append :
    (base zone : Text)
    → length zone ≡ 6
    → ends_with (base ++ zone) (codes "Z") ≡ false
    → (starts_with zone (codes "+") || starts_with zone (codes "-")) ≡ true
    → zone_of (base ++ zone) ≡ (zone, base)
unfolding zone_of
zone_of-append base zone h no_z signed =
    rw (no_z, zone_start base zone h, drop_base base zone, take_base base zone, signed) refl

module _ {D : Type 0} (qt : Qt) (clock : Clock D) where
  -- A date whose text ends with a zone of six characters, a sign first and no Z last, is the date
  -- that the text before the zone stands for, told from that zone, which is kept.
  pub from_date_string-append :
      (base zone : Text)
      → length zone ≡ 6
      → ends_with (base ++ zone) (codes "Z") ≡ false
      → (starts_with zone (codes "+") || starts_with zone (codes "-")) ≡ true
      → from_date_string qt clock (base ++ zone)
        ≡ set_time_zone qt clock zone (record { date_time = clock.from_iso base; time_zone = [] })
  unfolding from_date_string
  from_date_string-append base zone h no_z signed =
      ap
        (λ p.
          set_time_zone qt clock p.0 (record { date_time = clock.from_iso p.1; time_zone = [] }))
        (zone_of-append base zone h no_z signed)

-- The place of the colon.
offset_at-append :
    (qt : Qt) (zone mm : Text) (hours minutes : ℤ)
    → qt.to_int zone ≡ some hours
    → qt.to_int mm ≡ some minutes
    → offset_at qt (zone ++ (b':' ∷ mm)) (length zone)
      ≡ times 3600 hours +ℤ times 60 (if leb_ℤ (pos 0) hours then minutes else negated minutes)
unfolding offset_at
offset_at-append qt zone mm hours minutes h m =
    rw (take-append_length zone (b':' ∷ mm), drop-append_length zone mm b':') (rw (h, m) refl)

time_spec_of-append :
    (qt : Qt) (c : ℕ) (hh mm : Text)
    → (c == b'Z') ≡ false
    → All (λ d. d ≢ b':') (c ∷ hh)
    → time_spec_of qt ((c ∷ hh) ++ (b':' ∷ mm))
      ≡ some (seconds_ahead (offset_at qt ((c ∷ hh) ++ (b':' ∷ mm)) (suc (length hh))))
unfolding time_spec_of eq_text
time_spec_of-append qt c hh mm no_z no_colon =
    rw (no_z, index_of_char-append (c ∷ hh) mm b':' no_colon) refl

-- The offset in seconds, ahead and behind.
ahead_of : (h m : ℕ) → times 3600 (pos h) +ℤ times 60 (pos m) ≡ pos (3600 * h + 60 * m)
unfolding times
ahead_of h m = ground arith

behind_of :
    (h m : ℕ)
    → 0 < h
    → times 3600 (pos 0 -ℤ pos h) +ℤ times 60 (negated (pos m)) ≡ negated (pos (3600 * h + 60 * m))
unfolding times
behind_of zero m p = absurd (omega arith)
behind_of (suc h) zero p = ground arith
behind_of (suc h) (suc m) p = ground arith

sign_plus : (h : ℕ) (x y : ℤ) → (if leb_ℤ (pos 0) (pos h) then x else y) ≡ x
sign_plus h x y = ground arith

sign_minus : (h : ℕ) (x y : ℤ) → 0 < h → (if leb_ℤ (pos 0) (pos 0 -ℤ pos h) then x else y) ≡ y
sign_minus h x y p = ground arith

not_zero : (h : ℕ) (x y : ℤ) → 0 < h → (if h == 0 then x else y) ≡ y
not_zero h x y p = ground arith

-- A zone of a sign, hours and minutes is so many seconds ahead of UTC with a plus sign and so many
-- behind it with a minus sign, where toInt reads the hours with their sign, the minutes and no colon
-- in the hours; but with a minus sign and zero hours it is as many seconds ahead.
pub time_spec_of-signed :
    (qt : Qt) (hh mm : Text) (h m : ℕ)
    → All (λ d. d ≢ b':') hh
    → qt.to_int (b'+' ∷ hh) ≡ some (pos h)
    → qt.to_int (b'-' ∷ hh) ≡ some (pos 0 -ℤ pos h)
    → qt.to_int mm ≡ some (pos m)
    → (time_spec_of qt ((b'+' ∷ hh) ++ (b':' ∷ mm))
        ≡ some (seconds_ahead (pos (3600 * h + 60 * m))))
      × (time_spec_of qt ((b'-' ∷ hh) ++ (b':' ∷ mm))
          ≡ some
              (seconds_ahead (if h == 0 then pos (60 * m) else negated (pos (3600 * h + 60 * m)))))
time_spec_of-signed qt hh mm h m no_colon plus minus mins = (
  time_spec_of-append qt b'+' hh mm refl ((λ e. absurd (omega arith)), no_colon)
      ∙ ap (λ n. some (seconds_ahead n))
          (offset_at-append qt (b'+' ∷ hh) mm (pos h) (pos m) plus mins ∙ plus_seconds h),
  time_spec_of-append qt b'-' hh mm refl ((λ e. absurd (omega arith)), no_colon)
      ∙ ap (λ n. some (seconds_ahead n))
          (offset_at-append qt (b'-' ∷ hh) mm (pos 0 -ℤ pos h) (pos m) minus mins
            ∙ minus_seconds h),
)
  where
    plus_seconds :
        (h : ℕ)
        → times 3600 (pos h) +ℤ times 60 (if leb_ℤ (pos 0) (pos h) then pos m else negated (pos m))
          ≡ pos (3600 * h + 60 * m)
    plus_seconds h =
        ap (λ n. times 3600 (pos h) +ℤ times 60 n) (sign_plus h (pos m) (negated (pos m)))
        ∙ ahead_of h m

    minus_seconds :
        (h : ℕ)
        → times 3600 (pos 0 -ℤ pos h)
            +ℤ times 60 (if leb_ℤ (pos 0) (pos 0 -ℤ pos h) then pos m else negated (pos m))
          ≡ (if h == 0 then pos (60 * m) else negated (pos (3600 * h + 60 * m)))
    minus_seconds zero = ahead_of 0 m ∙ ap pos (omega arith)
    minus_seconds (suc k) =
        ap (λ n. times 3600 (pos 0 -ℤ pos (suc k)) +ℤ times 60 n)
          (sign_minus (suc k) (pos m) (negated (pos m)) (omega arith))
        ∙ behind_of (suc k) m (omega arith)
        ∙ sym (not_zero (suc k) (pos (60 * m)) _ (omega arith))
