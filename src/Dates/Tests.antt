-- ===== src/Dates/Tests.antt =====
-- Zones near UTC.
use kdsoap.Prelude.{
  Text, [], ◌∷◌, Option, some, ℤ, pos, negsuc, arith, if◌then◌else◌, ◌==◌, codes, ◌≡◌, refl,
}
use kdsoap.Platform.{Qt}
use kdsoap.Examples.{qt}
use kdsoap.Dates.{seconds_ahead, time_spec_of}
use kdsoap.Dates.Zones.{time_spec_of-signed}

-- With a plus sign too.
abbrev to_int : Text → Option ℤ
to_int [] = qt.to_int []
to_int (c ∷ s) = if c == b'+' then qt.to_int s else qt.to_int (c ∷ s)

abbrev signed_qt : Qt
signed_qt = record qt { to_int = to_int }

half_an_hour : time_spec_of signed_qt (codes "+00:30") ≡ some (seconds_ahead (pos 1800))
unfolding time_spec_of kdsoap.Prelude.eq_text kdsoap.Prelude.index_of_char
half_an_hour = refl

time_spec_of-signed_example :
    (time_spec_of signed_qt (codes "+05:30") ≡ some (seconds_ahead (pos 19800)))
    × (time_spec_of signed_qt (codes "-05:30") ≡ some (seconds_ahead (negsuc 19799)))
time_spec_of-signed_example =
    time_spec_of-signed signed_qt (codes "05") (codes "30") 5 30
      ((λ e. absurd (omega arith)), ((λ e. absurd (omega arith)), tt)) refl refl refl
