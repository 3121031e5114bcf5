-- ===== src/Preflight/Entries/Accepted.antt =====
-- What an accepted archive satisfies, in terms of the entries that the caller gave.
use share_slices.Base.{
  ℕ, ◌+◌, ◌≤◌, ◌≡◌, refl, sym, ◌∙◌, ◌≢◌, ◌⊎◌, inl, inr, Bool, true, ◌||◌, Option, none, some, List,
  [], ◌∷◌, arith, Bool-cases, length, drop, some_of, Text,
}
use share_slices.Preflight.Paths.{is_empty, safe_path}
use share_slices.Preflight.Report.{
  Notice, ValidationReport, UploadPolicy, ArchiveEntry, Stage, next, stop, ◌>>=◌,
}
use share_slices.Preflight.Entries.{
  Collected, empty_collection, collect, collect_one, collect_safe, strip, is_wrapped,
  first_directory, has_path, ignored_warning, unwrap, sort_entries, first_issue, find_entry_file,
  choose_root, is_index, is_root_html, paths_where, over_archive_limit, unless_issue, to_report,
  preflight_stages, preflight_entries,
}
use share_slices.Preflight.Entries.Weights.{
  kept, weigh, weigh-collect, weigh-unwrap, weigh-sort, AllSafe, oversized, one_each,
  first_issue-none,
}

-- A stage that was stopped has a primary issue.
abbrev pub StopsWithIssue {ℓ} : {A : Type ℓ} → Stage A → Type 0
StopsWithIssue (next a) = Unit {0}
StopsWithIssue (stop r) = r.primary_issue ≢ none

abbrev pub HasEntryFile : List ArchiveEntry → Type 0
HasEntryFile es =
    (some_of is_index es ≡ true) ⊎ ((root : Text) × (paths_where is_root_html es ≡ root ∷ []))

-- Going on past a stage that reports an issue when it stops.
past {ℓ} :
    {A : Type ℓ} (m : Stage A) (f : A → Stage ValidationReport)
    → StopsWithIssue m
    → (to_report (m >>= f)).primary_issue ≡ none
    → (a : A) × (m ≡ next a) × ((to_report (f a)).primary_issue ≡ none)
past (next a) f h e = (a, refl, e)
past (stop r) f h e = absurd (h e)

bind-StopsWithIssue {ℓ κ} :
    {A : Type ℓ} {B : Type κ} (m : Stage A) (f : A → Stage B)
    → StopsWithIssue m
    → ((a : A) → StopsWithIssue (f a))
    → StopsWithIssue (m >>= f)
bind-StopsWithIssue (next a) f h k = k a
bind-StopsWithIssue (stop r) f h k = h

unless_issue-stops : (o : Option Notice) → StopsWithIssue (unless_issue o)
unless_issue-stops none = tt
unless_issue-stops (some n) = λ e. cc

unless_issue-next : (o : Option Notice) {u : Unit {0}} → unless_issue o ≡ next u → o ≡ none
unless_issue-next none e = refl
unless_issue-next (some n) e = cc

collect_safe-stops :
    (raw : ArchiveEntry) (o : Option Text) (c : Collected) → StopsWithIssue (collect_safe raw o c)
collect_safe-stops raw none c = λ e. cc
collect_safe-stops raw (some path) c = elim (Bool-cases (has_path c.paths path)) [
  | inl twice ↦ rw twice (λ e. cc)
  | inr fresh ↦ rw fresh tt
]

collect-stops : (input : List ArchiveEntry) (c : Collected) → StopsWithIssue (collect input c)
unfolding collect collect_one
collect-stops [] c = tt
collect-stops (raw ∷ input) c =
    bind-StopsWithIssue (collect_safe raw (safe_path raw.path) c) (collect input)
      (collect_safe-stops raw (safe_path raw.path) c) (λ d. collect-stops input d)

strip-stops :
    (n : ℕ) (es : List ArchiveEntry) (seen : List Text) (warnings : List Notice)
    → StopsWithIssue (strip n es seen warnings)
unfolding strip
strip-stops n [] seen warnings = tt
strip-stops n (e ∷ es) seen warnings =
    elim (Bool-cases (is_empty (drop n e.path) || has_path seen (drop n e.path))) [
      | inl twice ↦ rw twice (λ k. cc)
      | inr fresh ↦ rw fresh (
          bind-StopsWithIssue (strip n es (drop n e.path ∷ seen) warnings) _
            (strip-stops n es (drop n e.path ∷ seen) warnings) (λ later. tt))
    ]

unwrap-stops :
    (es : List ArchiveEntry) (warnings : List Notice) → StopsWithIssue (unwrap es warnings)
unfolding unwrap
unwrap-stops es warnings = elim (Bool-cases (is_wrapped es)) [
  | inr bare ↦ rw bare tt
  | inl wrapped ↦ rw wrapped (
      bind-StopsWithIssue (strip (length (first_directory es) + 1) es [] warnings) _
        (strip-stops (length (first_directory es) + 1) es [] warnings) (λ stripped. tt))
]

choose_root-stops :
    (roots candidates : List Text) (warnings : List Notice)
    → StopsWithIssue (choose_root roots candidates warnings)
choose_root-stops [] candidates warnings = λ e. cc
choose_root-stops (root ∷ []) candidates warnings = tt
choose_root-stops (root ∷ other ∷ roots) candidates warnings = λ e. cc

choose_root-next :
    (roots candidates : List Text) (warnings found : List Notice)
    → choose_root roots candidates warnings ≡ next found
    → (root : Text) × (roots ≡ root ∷ [])
choose_root-next [] candidates warnings found h = cc
choose_root-next (root ∷ []) candidates warnings found h = (root, refl)
choose_root-next (root ∷ other ∷ roots) candidates warnings found h = cc

find_entry_file-stops :
    (es : List ArchiveEntry) (warnings : List Notice) → StopsWithIssue (find_entry_file es warnings)
unfolding find_entry_file
find_entry_file-stops es warnings = elim (Bool-cases (some_of is_index es)) [
  | inl there ↦ rw there tt
  | inr missing ↦ rw missing (choose_root-stops (paths_where is_root_html es) _ warnings)
]

find_entry_file-next :
    (es : List ArchiveEntry) (warnings found : List Notice)
    → find_entry_file es warnings ≡ next found
    → HasEntryFile es
unfolding find_entry_file
find_entry_file-next es warnings found h = elim (Bool-cases (some_of is_index es)) [
  | inl there ↦ inl there
  | inr missing ↦ inr (choose_root-next _ _ warnings found (rw (missing, find_entry_file) at h))
]

-- An archive that passes: what each limit of the policy means for the entries as they were given.
pub record IsAccepted (input : List ArchiveEntry) (policy : UploadPolicy) (archive_size : Option ℕ)
    : Type 0 where
  pub archive : over_archive_limit policy archive_size ≡ none
  pub safe : AllSafe input
  pub no_oversized : weigh (oversized policy.max_file_bytes) (kept input) ≡ 0
  pub count : weigh one_each (kept input) ≤ policy.max_file_count
  pub expanded : weigh (λ size. size) (kept input) ≤ policy.max_expanded_bytes

module _ (le : Text → Text → Bool) (input : List ArchiveEntry) (policy : UploadPolicy)
    (archive_size : Option ℕ) where
  sorted-Accepted :
      (c : Collected) (es : List ArchiveEntry) (warnings : List Notice)
      → over_archive_limit policy archive_size ≡ none
      → collect input empty_collection ≡ next c
      → unwrap c.entries (ignored_warning c) ≡ next (es, warnings)
      → first_issue policy 0 0 (sort_entries le es) ≡ none
      → IsAccepted input policy archive_size
  sorted-Accepted c es warnings small collected unwrapped passed =
      let (no_big, few, fits) =
        first_issue-none policy 0 0 (sort_entries le es) passed (omega arith) (omega arith) in
      let same : (w : ℕ → ℕ) → weigh w (sort_entries le es) ≡ weigh w (kept input) = λ w. omega (
        arith,
        (weigh-collect w input empty_collection c collected).1,
        weigh-unwrap w c.entries es (ignored_warning c) warnings unwrapped,
        weigh-sort le w es,
      ) in
      record {
        archive = small;
        safe = (weigh-collect one_each input empty_collection c collected).0;
        no_oversized = sym (same (oversized policy.max_file_bytes)) ∙ no_big;
        count = omega (arith, same one_each, few);
        expanded = omega (arith, same (λ size. size), fits);
      }

  -- If the report has no primary issue, then the archive and every single kept file are within
  -- their byte limits, the kept files together are within the limits on count and expanded bytes,
  -- every path given is safe, and among the files as they will be stored there is a root
  -- `index.html` or exactly one HTML file at the root. This holds for every order of collation.
  pub preflight_entries-IsAccepted :
      (preflight_entries le input policy archive_size).primary_issue ≡ none
      → IsAccepted input policy archive_size
        × ((es : List ArchiveEntry) × (warnings : List Notice) × (c : Collected) × (collect input
                empty_collection
              ≡ next c)
            × (unwrap c.entries (ignored_warning c) ≡ next (es, warnings))
            × HasEntryFile (sort_entries le es))
  unfolding preflight_entries preflight_stages
  preflight_entries-IsAccepted h =
      let (u, small, h1) =
        past (unless_issue (over_archive_limit policy archive_size)) _ (unless_issue-stops _) h in
      let (c, collected, h2) =
        past (collect input empty_collection) _ (collect-stops input empty_collection) h1 in
      let (x, unwrapped, h3) =
        past (unwrap c.entries (ignored_warning c)) _ (unwrap-stops c.entries (ignored_warning c))
          h2 in
      let (found, chosen, passed) =
        past (find_entry_file (sort_entries le x.0) x.1) _
          (find_entry_file-stops (sort_entries le x.0) x.1) h3 in
      (
        sorted-Accepted c x.0 x.1 (unless_issue-next _ small) collected unwrapped passed,
        (
          x.0,
          x.1,
          c,
          collected,
          unwrapped,
          find_entry_file-next (sort_entries le x.0) x.1 found chosen,
        ),
      )
