-- ===== src/Gallery/Governance/Reports.antt =====
-- reports.ts: `submit` of `GalleryReportService`. The challenge's verification and the digests are
-- library calls and are given; the unique slugs are a column that is left out of the listing rows,
-- so the listing of a slug is given too. Evidence holds are left out.
use share_slices.Base.{
  ℕ, ◌+◌, ◌*◌, String, str_eq, Bool, true, false, not, ◌&&◌, ◌||◌, Option, none, some, ◌∷◌, ltb,
  leb, if◌then◌else◌, length, some_of, select_where, update_where, Text, trim, is_empty,
}
use share_slices.Gallery.Listing.{
  GalleryReviewState, clear, reviewing, ListingRow, RevisionRow, is_row, row_of, is_listed,
}
use share_slices.Gallery.Governance.{
  GalleryReportCategory, ReportRow, SignalRow, CaseRow, report_case, open_case, BasisRow,
  report_basis, active, GovernanceTables, Outcome, failed, done, ◌>>=◌, ensure, found_or,
  settle_transaction, is_control, challenge_rejected, challenge_unavailable, rate_limited,
  not_found, invalid_report,
}
use share_slices.Gallery.Governance.Measures.{is_active_for, revision_of, set_review, with_listings}
use share_slices.Gallery.Governance.Chain.{is_reviewable}

-- The answer of the challenge's verifier.
pub data Verification : Type 0 where
  success rejected unavailable : Verification

pub record ReportInput : Type 0 where
  pub slug : String
  pub category : GalleryReportCategory
  pub detail : Text
  pub remote_ip : String
  pub reporter_user_id : Option String

-- The digest of the reporter and of the snapshot, the listing of a slug, identifiers and clock.
pub record ReportContext : Type 0 where
  pub verification : Verification
  pub digest : String → String
  pub snapshot_digest : String → ℕ → String → GalleryReportCategory → Text → String
  pub listing_of_slug : String → Option String
  pub now : ℕ
  pub report_id : String
  pub case_id : String

-- The empty string counts as no user.
abbrev pub is_identified : Option String → Bool
is_identified none = false
is_identified (some user) = not (str_eq user "")

abbrev pub pass_challenge : Verification → Outcome (Unit {0})
pass_challenge success = done tt
pass_challenge unavailable = failed challenge_unavailable
pass_challenge rejected = failed challenge_rejected

abbrev pub verified : Option String → Verification → Outcome (Unit {0})
verified user v = if is_identified user then done tt else pass_challenge v

-- `input.reporterUserId ?? input.remoteIp`
abbrev pub reporter_of : ReportInput → String
reporter_of i = elim i.reporter_user_id [ none ↦ i.remote_ip | some user ↦ user ]

abbrev pub is_recent : String → ℕ → SignalRow → Bool
is_recent key now s = str_eq s.subject_key key && ltb now (s.created_at + 3600 * 1000)

abbrev pub is_reportable : GovernanceTables → ListingRow → Bool
is_reportable g l =
    is_listed l.lifecycle_state
    && is_reviewable l.review_state
    && not (some_of (is_active_for l.artifact_id) g.restrictions)
    && not (some_of (is_active_for l.artifact_id) g.takedowns)

abbrev pub listing_at_slug : Option String → GovernanceTables → Option ListingRow
listing_at_slug none g = none
listing_at_slug (some id) g = row_of id g.listing_tables

abbrev pub report_row : ReportContext → ReportInput → Text → ListingRow → RevisionRow → ReportRow
report_row x i detail l v = record {
  id = x.report_id;
  listing_id = l.id;
  listing_revision = l.listing_revision;
  category = i.category;
  details = detail;
  reporter_actor_hash = x.digest (reporter_of i);
  challenge_evidence_digest =
      x.snapshot_digest l.id l.listing_revision v.version_id i.category detail;
}

abbrev pub report_case_row : ReportContext → ListingRow → ReportRow → CaseRow
report_case_row x l report = record {
  id = x.case_id;
  case_kind = report_case;
  listing_id = some l.id;
  artifact_id = some l.artifact_id;
  parent_case_id = none;
  state = open_case;
  evidence_digest = report.challenge_evidence_digest;
  closed_at = none;
}

abbrev pub report_basis_row : ReportContext → ListingRow → BasisRow
report_basis_row x l = record {
  artifact_id = l.artifact_id;
  listing_id = some l.id;
  case_id = x.case_id;
  basis_kind = report_basis;
  source_decision_id = none;
  source_root_decision_id = none;
  state = active;
  ended_at = none;
  ending_decision_id = none;
}

abbrev pub is_clear : GalleryReviewState → Bool
is_clear clear = true
is_clear _ = false

abbrev pub starts_review : String → ListingRow → Bool
starts_review id l = is_row id l && is_clear l.review_state

abbrev pub record_report :
    ReportContext → ReportInput → ListingRow → ReportRow → GovernanceTables → GovernanceTables
record_report x i l report g =
    with_listings
      (update_where (starts_review l.id) (set_review reviewing) g.listing_tables.listings)
      (record g {
        reports = report ∷ g.reports;
        cases = report_case_row x l report ∷ g.cases;
        bases = report_basis_row x l ∷ g.bases;
        signals = record { subject_key = x.digest (reporter_of i); created_at = x.now } ∷ g.signals;
      })

abbrev pub is_bad_detail : Text → Bool
is_bad_detail detail = is_empty detail || ltb 4000 (length detail) || some_of is_control detail

unfoldable pub submit_work :
    ReportContext → ReportInput → GovernanceTables → Outcome (String × GovernanceTables)
submit_work x i g = do
  _ ← ensure (not (is_bad_detail (trim i.detail))) invalid_report
  _ ← verified i.reporter_user_id x.verification
  _ ←
      ensure
        (not
          (leb 10 (length (select_where (is_recent (x.digest (reporter_of i)) x.now) g.signals))))
        rate_limited
  l ← found_or (listing_at_slug (x.listing_of_slug i.slug) g) not_found
  v ← found_or (revision_of g.listing_tables l.current_revision_id) not_found
  _ ← ensure (is_reportable g l) not_found
  done (x.report_id, record_report x i l (report_row x i (trim i.detail) l v) g)

unfoldable pub submit :
    ReportContext → ReportInput → GovernanceTables → Outcome String × GovernanceTables
submit x i g = settle_transaction g (submit_work x i g)
