-- ===== src/Preflight/Entries.antt =====
-- `preflightEntries`. `entries.sort` by `localeCompare` is a stable sort by an order of the
-- platform's: the order is a parameter, and the sort is by insertion.
pub mod Weights
pub mod Accepted
mod Tests
use share_slices.Base.{
  ℕ, zero, suc, ◌+◌, ◌-◌, ◌*◌, ◌/◌, ◌%◌, ◌≤◌, ◌<◌, String, str_eq, eq_iff, ◌≡◌, refl, sym, ap,
  subst, ◌∙◌, ◌≢◌, ◌↔◌, ◌⊎◌, inl, inr, Bool, true, false, not, ◌&&◌, ◌||◌, Option, none, some, List,
  [], ◌∷◌, ◌++◌, map, arith, ltb, leb, ◌==◌, if◌then◌else◌, Bool-cases, Option-cases, is_some,
  is_none, length, length-append, get_or, take, drop, some_of, every, All, All-append, All-mono,
  every-All, find_where, select_where, update_where, sum_of, find_where-update_where,
  update_where_missing, find_where_holds, leb→le, unless-eq-some, ||-eq-false, ltb→lt, ==_iff, Text,
  units, text_eq, text_eq_iff, starts_with, includes, ends_with_unit, push, split_on, join_with,
  without_last, last_or, to_lower_case, Without, split_on-Without, split_on-join_with,
  join_with-split_on, split_on_nonempty, split_on-part, split_on-snoc, ends-append,
  without_last-append, some_of-append,
}
use share_slices.Preflight.Paths.{slash, is_empty, safe_path, is_ignored_metadata, extension}
use share_slices.Preflight.Report.{
  Notice, archive_too_large, unsafe_archive_path, duplicate_wrapped_path, duplicate_archive_path,
  nested_archive, unsupported_format, expanded_size_exceeded, file_count_exceeded,
  single_file_too_large, missing_entry_file, ambiguous_entry_file, ignored_system_metadata,
  wrapper_directory_removed, entry_file_inferred, ValidationReport, UploadPolicy, ArchiveEntry,
  failure, Stage, next, stop, ◌>>=◌, report_limit,
}

abbrev pub has_path : List Text → Text → Bool
has_path paths p = some_of (λ q. text_eq q p) paths

-- The variables of the first loop.
pub record Collected : Type 0 where
  pub paths : List Text
  pub entries : List ArchiveEntry
  pub ignored_paths : List Text
  pub ignored_count : ℕ

abbrev pub keep_entry : ArchiveEntry → Text → Collected → Collected
keep_entry raw path c = record c {
  paths = path ∷ c.paths;
  entries = c.entries ++ record raw { path = path } ∷ [];
}

abbrev pub ignore_entry : Text → Collected → Collected
ignore_entry path c = record c {
  paths = path ∷ c.paths;
  ignored_paths =
      if ltb (length c.ignored_paths) report_limit
      then c.ignored_paths ++ path ∷ []
      else c.ignored_paths;
  ignored_count = c.ignored_count + 1;
}

abbrev pub classify : ArchiveEntry → Text → Collected → Collected
classify raw path c =
    if raw.directory
    then record c { paths = path ∷ c.paths }
    else if is_ignored_metadata path
    then ignore_entry path c
    else keep_entry raw path c

abbrev pub collect_safe : ArchiveEntry → Option Text → Collected → Stage Collected
collect_safe raw none c = stop (failure unsafe_archive_path [])
collect_safe raw (some path) c =
    if has_path c.paths path
    then stop (failure (duplicate_archive_path path) [])
    else next (classify raw path c)

pub collect_one : ArchiveEntry → Collected → Stage Collected
collect_one raw c = collect_safe raw (safe_path raw.path) c

pub collect : List ArchiveEntry → Collected → Stage Collected
collect [] c = next c
collect (raw ∷ input) c = collect_one raw c >>= collect input

abbrev pub empty_collection : Collected
empty_collection = record { paths = []; entries = []; ignored_paths = []; ignored_count = 0 }

abbrev pub ignored_warning : Collected → List Notice
ignored_warning c =
    if ltb 0 c.ignored_count
    then ignored_system_metadata c.ignored_count (take report_limit c.ignored_paths) ∷ []
    else []

-- `entries[0]?.path.split("/")[0]`.
abbrev pub first_directory : List ArchiveEntry → Text
first_directory [] = []
first_directory (e ∷ es) = elim (split_on slash e.path) [ [] ↦ [] | w ∷ ws ↦ w ]

abbrev pub is_wrapped : List ArchiveEntry → Bool
is_wrapped entries =
    not (is_empty (first_directory entries))
    && every (λ e. starts_with e.path (first_directory entries ++ slash ∷ [])) entries

pub strip : ℕ → List ArchiveEntry → List Text → List Notice → Stage (List ArchiveEntry)
strip n [] stripped warnings = next []
strip n (e ∷ es) stripped warnings =
    let path : Text = drop n e.path in
    let rest : Stage (List ArchiveEntry) =
      strip n es (path ∷ stripped) warnings >>= λ later. next (record e { path = path } ∷ later) in
    if is_empty path || has_path stripped path
    then stop (failure duplicate_wrapped_path warnings)
    else rest

pub unwrap : List ArchiveEntry → List Notice → Stage (List ArchiveEntry × List Notice)
unwrap entries warnings =
    if is_wrapped entries
    then (strip (length (first_directory entries) + 1) entries [] warnings >>= λ stripped.
        next (stripped, warnings ++ wrapper_directory_removed (first_directory entries) ∷ []))
    else next (entries, warnings)

module _ (locale_le : Text → Text → Bool) where
  pub insert_sorted : ArchiveEntry → List ArchiveEntry → List ArchiveEntry
  insert_sorted e [] = e ∷ []
  insert_sorted e (x ∷ xs) = if locale_le e.path x.path then e ∷ x ∷ xs else x ∷ insert_sorted e xs

  pub sort_entries : List ArchiveEntry → List ArchiveEntry
  sort_entries [] = []
  sort_entries (e ∷ es) = insert_sorted e (sort_entries es)

abbrev pub has_extension : Text → Option Text → Bool
has_extension ext none = false
has_extension ext (some e) = text_eq (to_lower_case e) ext

abbrev pub is_html : ArchiveEntry → Bool
is_html e = has_extension (units ".html") (extension e.path)

abbrev pub is_root_html : ArchiveEntry → Bool
is_root_html e = not (includes slash e.path) && is_html e

abbrev pub is_index : ArchiveEntry → Bool
is_index e = text_eq e.path (units "index.html")

abbrev pub paths_where : (ArchiveEntry → Bool) → List ArchiveEntry → List Text
paths_where p entries = map (λ e. e.path) (select_where p entries)

abbrev pub choose_root : List Text → List Text → List Notice → Stage (List Notice)
choose_root [] candidates warnings =
    stop (failure (missing_entry_file (take report_limit candidates)) warnings)
choose_root (root ∷ []) candidates warnings = next (warnings ++ entry_file_inferred root ∷ [])
choose_root (root ∷ other ∷ roots) candidates warnings =
    stop (failure (ambiguous_entry_file (take report_limit (root ∷ other ∷ roots))) warnings)

pub find_entry_file : List ArchiveEntry → List Notice → Stage (List Notice)
find_entry_file entries warnings =
    if some_of is_index entries
    then next warnings
    else choose_root (paths_where is_root_html entries) (paths_where is_html entries) warnings

abbrev pub nested_archive_extensions : List Text
nested_archive_extensions =
    units ".zip"
    ∷ units ".tar"
    ∷ units ".gz"
    ∷ units ".tgz"
    ∷ units ".bz2"
    ∷ units ".xz"
    ∷ units ".7z"
    ∷ units ".rar"
    ∷ []

abbrev pub is_nested_archive : Option Text → Bool
is_nested_archive none = false
is_nested_archive (some ext) = has_path nested_archive_extensions (to_lower_case ext)

abbrev pub is_enabled : UploadPolicy → Option Text → Bool
is_enabled policy none = false
is_enabled policy (some ext) = has_path policy.enabled_extensions ext

-- One round of the last loop: the entry's place and the bytes before it.
pub entry_issue : UploadPolicy → ℕ → ℕ → ArchiveEntry → Option Notice
entry_issue policy index expanded e =
    if is_nested_archive (extension e.path)
    then some (nested_archive e.path)
    else if not (is_enabled policy (extension e.path))
    then some (unsupported_format e.path (extension e.path))
    else if ltb policy.max_file_bytes e.size_bytes
    then some (single_file_too_large e.path e.size_bytes policy.max_file_bytes)
    else if ltb policy.max_file_count (index + 1)
    then some (file_count_exceeded e.path (index + 1) policy.max_file_count)
    else if ltb policy.max_expanded_bytes (expanded + e.size_bytes)
    then some (expanded_size_exceeded e.path (expanded + e.size_bytes) policy.max_expanded_bytes)
    else none

pub first_issue : UploadPolicy → ℕ → ℕ → List ArchiveEntry → Option Notice
first_issue policy index expanded [] = none
first_issue policy index expanded (e ∷ es) =
    let rest = first_issue policy (index + 1) (expanded + e.size_bytes) es in
    elim (entry_issue policy index expanded e) [ some n ↦ some n | none ↦ rest ]

abbrev pub over_archive_limit : UploadPolicy → Option ℕ → Option Notice
over_archive_limit policy none = none
over_archive_limit policy (some size) =
    if ltb policy.max_archive_bytes size
    then some (archive_too_large size policy.max_archive_bytes)
    else none

abbrev pub unless_issue : Option Notice → Stage (Unit {0})
unless_issue none = next tt
unless_issue (some n) = stop (failure n [])

abbrev pub to_report : Stage ValidationReport → ValidationReport
to_report (next r) = r
to_report (stop r) = r

module _ (locale_le : Text → Text → Bool) where
  pub preflight_stages : List ArchiveEntry → UploadPolicy → Option ℕ → Stage ValidationReport
  preflight_stages input policy archive_size = do
    _ ← unless_issue (over_archive_limit policy archive_size)
    c ← collect input empty_collection
    (entries, warnings) ← unwrap c.entries (ignored_warning c)
    let sorted = sort_entries locale_le entries
    found ← find_entry_file sorted warnings
    next (record { primary_issue = first_issue policy 0 0 sorted; warnings = found })

  pub preflight_entries : List ArchiveEntry → UploadPolicy → Option ℕ → ValidationReport
  preflight_entries input policy archive_size =
      to_report (preflight_stages input policy archive_size)
