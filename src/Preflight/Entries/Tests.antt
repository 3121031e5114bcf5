-- ===== src/Preflight/Entries/Tests.antt =====
-- The preflight at a concrete archive.
use share_slices.Base.{
  ℕ, String, ◌≡◌, refl, ap, Bool, true, false, none, some, List, [], ◌∷◌, Text, units, text_eq,
  starts_with, split_on, join_with,
}
use share_slices.Preflight.Paths.{safe_path, extension, is_ignored_metadata}
use share_slices.Preflight.Report.{
  UploadPolicy, ArchiveEntry, next, nested_archive, wrapper_directory_removed,
  ignored_system_metadata,
}
use share_slices.Preflight.Entries.{
  Collected, empty_collection, collect, collect_one, ignored_warning, strip, unwrap, insert_sorted,
  sort_entries, entry_issue, first_issue, find_entry_file, preflight_stages, preflight_entries,
}
use share_slices.Preflight.Entries.Accepted.{IsAccepted, HasEntryFile, preflight_entries-IsAccepted}
use share_slices.Preflight.Report.{Notice}

stages : Unit {0}
unfolding preflight_entries preflight_stages collect collect_one strip unwrap insert_sorted
    sort_entries entry_issue first_issue find_entry_file safe_path extension is_ignored_metadata
    split_on join_with text_eq starts_with
stages = tt

abbrev file : String → ℕ → ArchiveEntry
file path size = record { path = units path; size_bytes = size; directory = false }

abbrev policy : UploadPolicy
policy = record {
  max_archive_bytes = 1000;
  max_expanded_bytes = 100;
  max_file_bytes = 80;
  max_file_count = 2;
  enabled_extensions = units ".html" ∷ units ".css" ∷ [];
}

abbrev site : List ArchiveEntry
site = file "site/index.html" 60 ∷ file "site/.DS_Store" 900 ∷ file "site/a.css" 40 ∷ []

abbrev by_place : Text → Text → Bool
by_place a b = true

site_report : preflight_entries by_place site policy (some 500) ≡ record {
  primary_issue = none;
  warnings =
      ignored_system_metadata 1 (units "site/.DS_Store" ∷ [])
      ∷ wrapper_directory_removed (units "site")
      ∷ [];
}
unfolding stages
site_report = refl

nested_report :
    (preflight_entries by_place
      (file "index.html" 1 ∷ file "x.ZIP" 1 ∷ [])
      policy
      none).primary_issue
    ≡ some (nested_archive (units "x.ZIP"))
unfolding stages
nested_report = refl

preflight_entries-IsAccepted_example :
    IsAccepted site policy (some 500)
    × ((es : List ArchiveEntry) × (warnings : List Notice) × (c : Collected) × (collect site
            empty_collection
          ≡ next c)
        × (unwrap c.entries (ignored_warning c) ≡ next (es, warnings))
        × HasEntryFile (sort_entries by_place es))
preflight_entries-IsAccepted_example =
    preflight_entries-IsAccepted by_place site policy (some 500)
      (ap (λ r. r.primary_issue) site_report)
