-- ===== src/Preflight/Report.antt =====
-- The notices of a validation report. The texts of messages and actions, a table by code, are left
-- out; a notice is its code with the details that the code gives it.
use share_slices.Base.{ℕ, Bool, Option, some, List, Text}

abbrev pub report_limit : ℕ
report_limit = 20

pub data Notice : Type 0 where
  archive_too_large : (actual_bytes limit_bytes : ℕ) → Notice
  invalid_zip unsafe_archive_path duplicate_wrapped_path : Notice
  duplicate_archive_path : Text → Notice
  unsupported_file_type : Text → Notice
  nested_archive : Text → Notice
  unsupported_format : Text → Option Text → Notice
  expanded_size_exceeded : Text → (actual_bytes limit_bytes : ℕ) → Notice
  file_count_exceeded : Text → (actual_count limit_count : ℕ) → Notice
  single_file_too_large : Text → (actual_bytes limit_bytes : ℕ) → Notice
  missing_entry_file ambiguous_entry_file : List Text → Notice
  ignored_system_metadata : ℕ → List Text → Notice
  wrapper_directory_removed entry_file_inferred : Text → Notice

-- `issues` is empty in every report.
pub record ValidationReport : Type 0 where
  pub primary_issue : Option Notice
  pub warnings : List Notice

pub record UploadPolicy : Type 0 where
  pub max_archive_bytes : ℕ
  pub max_expanded_bytes : ℕ
  pub max_file_bytes : ℕ
  pub max_file_count : ℕ
  pub enabled_extensions : List Text

pub record ArchiveEntry : Type 0 where
  pub path : Text
  pub size_bytes : ℕ
  pub directory : Bool

abbrev pub failure : Notice → List Notice → ValidationReport
failure n warnings = record { primary_issue = some n; warnings = warnings }

-- A stage either goes on with a value or ends the preflight with a report.
pub data Stage {ℓ} (A : Type ℓ) : Type ℓ where
  next : A → Stage A
  stop : ValidationReport → Stage A

infixl 5 ◌>>=◌
abbrev pub ◌>>=◌ {ℓ κ} : {A : Type ℓ} {B : Type κ} → Stage A → (A → Stage B) → Stage B
next a >>= f = f a
stop r >>= f = stop r
