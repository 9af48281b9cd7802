-- ===== src/Tests/Names.antt =====
-- Filenames, paths and timestamps of the kind that the program meets.
use verifiable_storage.Prelude.{ℕ, ◌+◌, ◌/◌, ◌≤◌, ◌≡◌, ◌≢◌, ◌↔◌, refl, some, arith, ◌==◌}
use verifiable_storage.Prelude.Result.{ok, err}
use verifiable_storage.Prelude.Text.{Str, text}
use verifiable_storage.Common.FilePath.{IsPlain}
use verifiable_storage.Common.Filename.{
  validate_filename, IsValidFilename, invalid_file_name, contains_invalid_characters,
  is_special_directory, validate_filename_iff, validate_filename-errors,
}
use verifiable_storage.Server.Checks.{validate_timestamp_default}
use verifiable_storage.Server.Timestamps.{validate_timestamp_default_iff}

abbrev report : Str
report = text "report.pdf"

abbrev data_dir : Str
data_dir = text "client_data/b1"

report_accepted : validate_filename report ≡ ok tt
unfolding validate_filename ◌==◌
report_accepted = refl

dots_refused : validate_filename (text "..") ≡ err is_special_directory
unfolding validate_filename ◌==◌
dots_refused = refl

validate_filename_iff_example : (validate_filename report ≡ ok tt) ↔ IsValidFilename report
validate_filename_iff_example = validate_filename_iff report

validate_filename-errors_example :
    (is_special_directory ≢ invalid_file_name)
    × (is_special_directory ≢ contains_invalid_characters)
validate_filename-errors_example =
    validate_filename-errors (text "..") is_special_directory dots_refused

report-IsPlain : IsPlain report
report-IsPlain = ((validate_filename_iff report).0 report_accepted).plain

-- 2024-01-01, and a request from 59 seconds later.
abbrev clock : ℕ
clock = 1704067200000

validate_timestamp_default_iff_example :
    (validate_timestamp_default (some clock) (clock + 59000) ≡ ok tt)
    ↔ ((clock / 1000 ≤ (clock + 59000) / 1000 + 300) × ((clock + 59000) / 1000 ≤ clock / 1000 + 60))
validate_timestamp_default_iff_example =
    validate_timestamp_default_iff clock (clock + 59000) (omega arith)
