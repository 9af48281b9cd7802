-- ===== src/Common/Filename.antt =====
-- crates/common/src/file_utils.rs: `validate_filename`.
use verifiable_storage.Prelude.{
  ◌≡◌, ◌≢◌, ◌↔◌, Bool, true, false, ◌||◌, not, Option, none, some, [], arith, ◌==◌, ==_iff,
  if◌then◌else◌, Bool-cases, inl, inr,
}
use verifiable_storage.Prelude.Result.{Result, ok, err}
use verifiable_storage.Prelude.Text.{Str, text, contains}
use verifiable_storage.Common.FilePath.{file_name, IsPlain, file_name_plain}

pub data FilenameValidationError : Type 0 where
  empty contains_null_byte contains_path_separator : FilenameValidationError
  is_special_directory invalid_file_name contains_invalid_characters : FilenameValidationError

unfoldable pub message : FilenameValidationError → Str
message empty = text "Filename cannot be empty"
message contains_null_byte = text "Filename cannot contain null bytes"
message contains_path_separator = text "Filename cannot contain path separators (/ or \\)"
message is_special_directory = text "Filename cannot be '.' or '..'"
message invalid_file_name = text "Invalid filename: must be a valid file name"
message contains_invalid_characters = text "Invalid filename: contains invalid characters"

abbrev names_whole : Str → Option Str → Bool
names_whole filename none = false
names_whole filename (some n) = n == filename

abbrev is_none : Option Str → Bool
is_none none = true
is_none (some n) = false

unfoldable pub validate_filename : Str → Result FilenameValidationError (Unit {0})
unfolding file_name
validate_filename filename =
    if filename == []
    then err empty
    else if contains filename 0
    then err contains_null_byte
    else if contains filename b'/' || contains filename b'\\'
    then err contains_path_separator
    else if filename == text "." || filename == text ".."
    then err is_special_directory
    else if is_none (file_name filename)
    then err invalid_file_name
    else if not (names_whole filename (file_name filename))
    then err contains_invalid_characters
    else ok tt

-- What the check is for.
pub record IsValidFilename (name : Str) : Type 0 where
  pub plain : IsPlain name
  pub no_null : contains name 0 ≡ false
  pub no_backslash : contains name b'\\' ≡ false

validate_filename_sound : (name : Str) → validate_filename name ≡ ok tt → IsValidFilename name
unfolding validate_filename
validate_filename_sound name h = record {
  plain = record {
    ne_nil = λ e. ground (arith, (==_iff name []).1 e);
    ne_dot = λ e. ground (arith, (==_iff name (text ".")).1 e);
    ne_dotdot = λ e. ground (arith, (==_iff name (text "..")).1 e);
    no_slash = ground arith;
  };
  no_null = ground arith;
  no_backslash = ground arith;
}

validate_filename_complete : (name : Str) → IsValidFilename name → validate_filename name ≡ ok tt
unfolding validate_filename
validate_filename_complete name v = ground (
  arith,
  file_name_plain name v.plain,
  ==_iff name name,
  ==_iff name [],
  ==_iff name (text "."),
  ==_iff name (text ".."),
  v.plain.ne_nil,
  v.plain.ne_dot,
  v.plain.ne_dotdot,
  v.plain.no_slash,
  v.no_null,
  v.no_backslash,
)

-- `validate_filename` accepts exactly the names that are not empty, `.` or `..` and hold no slash,
-- backslash or null character.
pub validate_filename_iff : (name : Str) → (validate_filename name ≡ ok tt) ↔ IsValidFilename name
validate_filename_iff name = (validate_filename_sound name, validate_filename_complete name)

passes_IsPlain :
    (name : Str)
    → (name == []) ≡ false
    → contains name b'/' ≡ false
    → (name == text ".") ≡ false
    → (name == text "..") ≡ false
    → IsPlain name
passes_IsPlain name a b c d = record {
  ne_nil = λ e. ground (arith, (==_iff name []).1 e);
  ne_dot = λ e. ground (arith, (==_iff name (text ".")).1 e);
  ne_dotdot = λ e. ground (arith, (==_iff name (text "..")).1 e);
  no_slash = b;
}

-- The last two errors never occur: what passes the tests before them is its own file name.
pub validate_filename-errors :
    (name : Str) (e : FilenameValidationError)
    → validate_filename name ≡ err e
    → (e ≢ invalid_file_name) × (e ≢ contains_invalid_characters)
unfolding validate_filename
validate_filename-errors name e h = elim (Bool-cases (name == [])) [
  | inl a ↦ ground arith
  | inr a ↦ elim (Bool-cases (contains name b'/')) [
    | inl b ↦ ground arith
    | inr b ↦ elim (Bool-cases (name == text ".")) [
      | inl c ↦ ground arith
      | inr c ↦ elim (Bool-cases (name == text "..")) [
        | inl d ↦ ground arith
        | inr d ↦
            ground (arith, file_name_plain name (passes_IsPlain name a b c d), ==_iff name name)
      ]
    ]
  ]
]
