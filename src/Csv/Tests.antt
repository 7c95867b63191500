-- ===== src/Csv/Tests.antt =====
-- The last day of February of the year 2000.
use relyt_ingest.Common.{◌+◌, ◌≡◌, refl}
use relyt_ingest.Common.Int.{pos}
use relyt_ingest.Csv.Calendar.{civil_from_days}
use relyt_ingest.Csv.Dates.{civil_from_days-IsDateOf}
use relyt_ingest.Csv.Rules.{IsDateOf}

leap_date : civil_from_days (pos 11016) ≡ (pos 2000, 2, 29)
unfolding civil_from_days
leap_date = refl

civil_from_days-IsDateOf_example : IsDateOf (730484 + 60) (civil_from_days (pos 11016))
civil_from_days-IsDateOf_example = civil_from_days-IsDateOf (pos 11016) 730484 refl
