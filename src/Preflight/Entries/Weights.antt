-- ===== src/Preflight/Entries/Weights.antt =====
-- Sums over the sizes of the entries through the stages of `preflightEntries`.
use share_slices.Base.{
  ℕ, ◌+◌, ◌≤◌, ◌≡◌, refl, ◌≢◌, inl, inr, Bool, false, not, ◌&&◌, ◌||◌, Option, none, some, List, [],
  ◌∷◌, ◌++◌, arith, ltb, if◌then◌else◌, Bool-cases, length, drop, All, select_where, sum_of, Text,
}
use share_slices.Preflight.Paths.{is_empty, safe_path, is_ignored_metadata}
use share_slices.Preflight.Report.{Notice, UploadPolicy, ArchiveEntry, Stage, next, stop, ◌>>=◌}
use share_slices.Preflight.Entries.{
  has_path, Collected, collect_safe, collect_one, collect, strip, unwrap, is_wrapped,
  first_directory, insert_sorted, sort_entries, entry_issue, first_issue,
}

-- The entries that are uploaded: neither directories nor system metadata.
abbrev pub is_kept_at : ArchiveEntry → Option Text → Bool
is_kept_at raw none = false
is_kept_at raw (some path) = not raw.directory && not (is_ignored_metadata path)

abbrev pub kept : List ArchiveEntry → List ArchiveEntry
kept = select_where (λ raw. is_kept_at raw (safe_path raw.path))

-- A sum over the sizes: the bytes, the number of entries, the number of oversized ones.
abbrev pub weigh : (ℕ → ℕ) → List ArchiveEntry → ℕ
weigh w = sum_of (λ e. w e.size_bytes)

weigh-append :
    (w : ℕ → ℕ) (xs ys : List ArchiveEntry) → weigh w (xs ++ ys) ≡ weigh w xs + weigh w ys
weigh-append w [] ys = omega arith
weigh-append w (x ∷ xs) ys = omega (arith, weigh-append w xs ys)

pub stage-next {ℓ κ} :
    {A : Type ℓ} {B : Type κ} (m : Stage A) (f : A → Stage B) {b : B}
    → (m >>= f) ≡ next b
    → (a : A) × (m ≡ next a) × (f a ≡ next b)
stage-next (next a) f h = (a, refl, h)
stage-next (stop r) f h = cc

weigh-collect_one :
    (w : ℕ → ℕ) (raw : ArchiveEntry) (c c' : Collected)
    → collect_one raw c ≡ next c'
    → (safe_path raw.path ≢ none)
      × (weigh w c'.entries ≡ weigh w c.entries + weigh w (kept (raw ∷ [])))
unfolding collect_one
weigh-collect_one w raw c c' h = by_path (safe_path raw.path) h
  where
    by_path :
        (o : Option Text)
        → collect_safe raw o c ≡ next c'
        → (o ≢ none)
          × (weigh w c'.entries
              ≡ weigh w c.entries + weigh w (if is_kept_at raw o then raw ∷ [] else []))
    by_path none e = cc
    by_path (some path) e =
        ((λ k. cc), ground (arith, weigh-append w c.entries (record raw { path = path } ∷ [])))

weigh-kept-cons :
    (w : ℕ → ℕ) (raw : ArchiveEntry) (input : List ArchiveEntry)
    → weigh w (kept (raw ∷ input)) ≡ weigh w (kept (raw ∷ [])) + weigh w (kept input)
weigh-kept-cons w raw input = ground arith

abbrev pub AllSafe : List ArchiveEntry → Type 0
AllSafe = All (λ raw. safe_path raw.path ≢ none)

pub weigh-collect :
    (w : ℕ → ℕ) (input : List ArchiveEntry) (c c' : Collected)
    → collect input c ≡ next c'
    → AllSafe input × (weigh w c'.entries ≡ weigh w c.entries + weigh w (kept input))
unfolding collect
weigh-collect w [] c c' h = (tt, ground arith)
weigh-collect w (raw ∷ input) c c' h =
    let (d, one, more) = stage-next (collect_one raw c) (collect input) h in
    let (safe, first) = weigh-collect_one w raw c d one in
    let (rest, sum) = weigh-collect w input d c' more in
    ((safe, rest), omega (arith, first, sum, weigh-kept-cons w raw input))

weigh-strip :
    (w : ℕ → ℕ) (n : ℕ) (es : List ArchiveEntry) (seen : List Text) (warnings : List Notice)
    (es' : List ArchiveEntry)
    → strip n es seen warnings ≡ next es'
    → weigh w es' ≡ weigh w es
unfolding strip
weigh-strip w n [] seen warnings es' h = ground arith
weigh-strip w n (e ∷ es) seen warnings es' h =
    elim (Bool-cases (is_empty (drop n e.path) || has_path seen (drop n e.path))) [
      | inl twice ↦ absurd (ground arith)
      | inr fresh ↦
          let (later, stripped, same) =
            stage-next (strip n es (drop n e.path ∷ seen) warnings)
              (λ later. next (record e { path = drop n e.path } ∷ later)) {b = es'}
              (ground arith) in
          ground (arith, weigh-strip w n es (drop n e.path ∷ seen) warnings later stripped)
    ]

weigh-insert :
    (le : Text → Text → Bool) (w : ℕ → ℕ) (e : ArchiveEntry) (es : List ArchiveEntry)
    → weigh w (insert_sorted le e es) ≡ w e.size_bytes + weigh w es
unfolding insert_sorted
weigh-insert le w e [] = refl
weigh-insert le w e (x ∷ es) = ground (arith, weigh-insert le w e es)

pub weigh-sort :
    (le : Text → Text → Bool) (w : ℕ → ℕ) (es : List ArchiveEntry)
    → weigh w (sort_entries le es) ≡ weigh w es
unfolding sort_entries
weigh-sort le w [] = refl
weigh-sort le w (e ∷ es) =
    omega (arith, weigh-insert le w e (sort_entries le es), weigh-sort le w es)

pub weigh-unwrap :
    (w : ℕ → ℕ) (es es' : List ArchiveEntry) (warnings warnings' : List Notice)
    → unwrap es warnings ≡ next (es', warnings')
    → weigh w es' ≡ weigh w es
unfolding unwrap
weigh-unwrap w es es' warnings warnings' h = elim (Bool-cases (is_wrapped es)) [
  | inr bare ↦ ground arith
  | inl wrapped ↦
      let (stripped, ran, same) =
        stage-next (strip (length (first_directory es) + 1) es [] warnings) _
          (rw (wrapped, unwrap) at h) in
      ground (arith, weigh-strip w (length (first_directory es) + 1) es [] warnings stripped ran)
]

abbrev pub oversized : ℕ → ℕ → ℕ
oversized limit size = if ltb limit size then 1 else 0

abbrev pub one_each : ℕ → ℕ
one_each size = 1

entry_issue-none :
    (policy : UploadPolicy) (index expanded : ℕ) (e : ArchiveEntry)
    → entry_issue policy index expanded e ≡ none
    → (e.size_bytes ≤ policy.max_file_bytes)
      × (index + 1 ≤ policy.max_file_count)
      × (expanded + e.size_bytes ≤ policy.max_expanded_bytes)
unfolding entry_issue
entry_issue-none policy index expanded e h = ground arith

pub first_issue-none :
    (policy : UploadPolicy) (index expanded : ℕ) (es : List ArchiveEntry)
    → first_issue policy index expanded es ≡ none
    → index ≤ policy.max_file_count
    → expanded ≤ policy.max_expanded_bytes
    → (weigh (oversized policy.max_file_bytes) es ≡ 0)
      × (index + weigh one_each es ≤ policy.max_file_count)
      × (expanded + weigh (λ n. n) es ≤ policy.max_expanded_bytes)
unfolding first_issue
first_issue-none policy index expanded [] h p q = omega arith
first_issue-none policy index expanded (e ∷ es) h p q =
    by_issue (entry_issue policy index expanded e) refl h
      (first_issue-none policy (index + 1) (expanded + e.size_bytes) es)
  where
    Within : ℕ → ℕ → List ArchiveEntry → Type 0
    Within i n xs =
        (weigh (oversized policy.max_file_bytes) xs ≡ 0)
        × (i + weigh one_each xs ≤ policy.max_file_count)
        × (n + weigh (λ size. size) xs ≤ policy.max_expanded_bytes)

    by_issue :
        (o : Option Notice)
        → entry_issue policy index expanded e ≡ o
        → (elim o [
          | some n ↦ some n
          | none ↦ first_issue policy (index + 1) (expanded + e.size_bytes) es
        ])
          ≡ none
        → (first_issue policy (index + 1) (expanded + e.size_bytes) es ≡ none
            → index + 1 ≤ policy.max_file_count
            → expanded + e.size_bytes ≤ policy.max_expanded_bytes
            → Within (index + 1) (expanded + e.size_bytes) es)
        → Within index expanded (e ∷ es)
    by_issue (some n) at_e k rest = cc
    by_issue none at_e k rest =
        let (a, b, c) = entry_issue-none policy index expanded e at_e in
        let (x, y, z) = rest k b c in (ground arith, omega arith, omega arith)
