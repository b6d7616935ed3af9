-- ===== src/Dates.antt =====
-- Dates with a time zone: fromDateString, setTimeZone and toDateString of
-- src/KDSoapClient/KDDateTime.cpp. A QDateTime is a parameter, with what the source asks of it.
pub mod Zones
mod Tests
use kdsoap.Prelude.{
  ℕ, suc, ◌-◌, Text, List, [], ◌∷◌, ◌++◌, Option, none, some, Bool, ◌||◌, if◌then◌else◌, codes,
  eq_text, is_empty, ends_with, starts_with, index_of_char, length, take, drop, ltb, ℤ, pos, negsuc,
  ◌+ℤ◌, ◌-ℤ◌, leb_ℤ, zero, ◌*◌,
}
use kdsoap.Platform.{Qt}

-- Where the time of a date is told from: the time zone of the machine, UTC, or that many seconds
-- ahead of UTC.
pub data TimeSpec : Type 0 where
  local_time utc : TimeSpec
  seconds_ahead : ℤ → TimeSpec

-- What the source asks of QDateTime.
pub record Clock (D : Type 0) : Type 0 where
  pub from_iso : Text → D
  pub with_spec : TimeSpec → D → D
  pub has_milliseconds : D → Bool
  pub to_text_with_milliseconds : D → Text
  pub to_iso : D → Text

pub record DateTime (D : Type 0) : Type 0 where
  pub date_time : D
  pub time_zone : Text

-- A positive number of times an integer.
times : ℕ → ℤ → ℤ
times k (pos n) = pos (k * n)
times k (negsuc n) = negsuc (k * suc n - 1)

abbrev negated : ℤ → ℤ
negated n = pos 0 -ℤ n

-- toInt(), which is 0 for what is not a number.
abbrev or_zero : Option ℤ → ℤ
or_zero none = pos 0
or_zero (some n) = n

-- The offset of a zone that has its colon at that place.
pub offset_at : Qt → Text → ℕ → ℤ
unfolding times
offset_at qt zone colon =
    let hours = or_zero (qt.to_int (take colon zone)) in
    let minutes = or_zero (qt.to_int (drop (suc colon) zone)) in
    times 3600 hours +ℤ times 60 (if leb_ℤ (pos 0) hours then minutes else negated minutes)

-- What setTimeZone makes the time be told from; `none` where it is left as it is.
pub time_spec_of : Qt → Text → Option TimeSpec
unfolding offset_at
time_spec_of qt zone =
    if eq_text zone (codes "Z")
    then some utc
    else if is_empty zone
    then some local_time
    else elim (index_of_char zone b':') [
      | none ↦ none
      | some zero ↦ none
      | some (suc n) ↦ some (seconds_ahead (offset_at qt zone (suc n)))
    ]

-- The zone at the end of a text, and the text before it.
pub zone_of : Text → Text × Text
zone_of s =
    if ends_with s (codes "Z")
    then (codes "Z", take (length s - 1) s)
    else let last = drop (length s - 6) s in
      if starts_with last (codes "+") || starts_with last (codes "-")
      then (last, take (length s - 6) s)
      else ([], s)

module _ {D : Type 0} (qt : Qt) (clock : Clock D) where
  pub set_time_zone : Text → DateTime D → DateTime D
  unfolding time_spec_of
  set_time_zone zone d = record {
    date_time = elim (time_spec_of qt zone) [
      | none ↦ d.date_time
      | some spec ↦ clock.with_spec spec d.date_time
    ];
    time_zone = zone;
  }

  pub from_date_string : Text → DateTime D
  unfolding set_time_zone zone_of
  from_date_string s =
      let (zone, base) = zone_of s in
      set_time_zone zone (record { date_time = clock.from_iso base; time_zone = [] })

  pub to_date_string : DateTime D → Text
  to_date_string d =
      if clock.has_milliseconds d.date_time
      then clock.to_text_with_milliseconds d.date_time ++ d.time_zone
      else clock.to_iso d.date_time
