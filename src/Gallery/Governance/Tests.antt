-- ===== src/Gallery/Governance/Tests.antt =====
-- The governance theorems on a small gallery: a listed artifact, a copy of it and two cases.
use share_slices.Base.{
  inl, inr, ◌≡◌, refl, is_white, trim, trim_end, trim_start, String, true, false, none, some, List,
  [], ◌∷◌, some_of, find_where,
}
use share_slices.Gallery.Listing.{
  RevisionRow, listed, withdrawn, clear, reviewing, GalleryClosureReason, ListingRow, row_of,
}
use share_slices.Gallery.Listing.Sealed.{IsConsistent}
use share_slices.Gallery.Governance.{
  MeasureRow, ProvenanceRow, active, takedown, restrict, clear_takedown, clear_restriction, CaseRow,
  report_case, takedown_case, restriction_case, open_case, DecisionRow, GovernanceTables, done,
  safe_text,
}
use share_slices.Gallery.Governance.Authority.{require}
use share_slices.Gallery.Governance.Measures.{
  is_active_for, review_state_for, recompute_artifact, recompute_all, close_blocked_proposals,
  propagate_restriction, insert_missing, copied_artifacts,
}
use share_slices.Gallery.Governance.Reversals.{
  close_derived, apply_clear_restriction, apply_clear_takedown,
}
use share_slices.Gallery.Governance.Chain.{apply_decision}
use share_slices.Gallery.Governance.Decisions.{
  DecideInput, Digests, Fresh, DecisionResponse, Hindrance, is_replay_of, decide, decide_work,
  decision_response,
}
use share_slices.Gallery.Governance.Committed.{fingerprint, audited}
use share_slices.Gallery.Governance.Once.{decided_once}
use share_slices.Gallery.Governance.Following.{CalledFor, decide_projects}
use share_slices.Gallery.Governance.Reach.{IsCopy, decide_reaches_copies}
use share_slices.Gallery.Governance.Clearing.{
  is_active_with_root, decide_clears_restriction, takedown_outlasts_clearing,
}
use share_slices.Gallery.Governance.Sequences.{GalleryCall, decides, revokes, run}
use share_slices.Gallery.Governance.Lasting.{run_sealed, run-row_of-IsConsistent}

abbrev shared : ListingRow
shared = record {
  id = "l1";
  artifact_id = "a1";
  owner_user_id = "ann";
  creator_profile_id = "p1";
  lifecycle_state = listed;
  review_state = clear;
  closure_reason = none;
  listing_revision = 4;
  current_revision_id = some "r1";
  restoration_forfeited_at = none;
  created_at = 1;
  closed_at = none;
}

abbrev withdrawn_row : ListingRow
withdrawn_row = record shared {
  id = "l0";
  lifecycle_state = withdrawn;
  closure_reason = some GalleryClosureReason.creator_withdrawal;
  closed_at = some 1;
}

abbrev report : CaseRow
report = record {
  id = "c1";
  case_kind = report_case;
  listing_id = some "l1";
  artifact_id = some "a1";
  parent_case_id = none;
  state = open_case;
  evidence_digest = "e";
  closed_at = none;
}

abbrev takedown_review : CaseRow
takedown_review = record report { id = "c2"; case_kind = takedown_case; listing_id = none }

abbrev restriction_review : CaseRow
restriction_review = record report { id = "c3"; case_kind = restriction_case; listing_id = none }

abbrev shared_revision : RevisionRow
shared_revision = record {
  id = "r1";
  listing_id = "l1";
  revision = 1;
  version_id = "v1";
  permission_acceptance_id = "g1";
  public_title = "Report";
  public_description = none;
  tags = [];
}

abbrev copied_row : ProvenanceRow
copied_row = record {
  artifact_id = "a2";
  immediate_listing_id = "l1";
  immediate_version_id = "v1";
  root_listing_id = "l1";
  root_version_id = "v1";
}

abbrev gallery : GovernanceTables
gallery = record {
  listing_tables = record {
    listings = withdrawn_row ∷ shared ∷ [];
    proposals = [];
    revisions =
        record {
          id = "r1";
          listing_id = "l1";
          revision = 1;
          version_id = "v1";
          permission_acceptance_id = "g1";
          public_title = "Report";
          public_description = none;
          tags = [];
        }
        ∷ [];
    events = [];
    profiles = [];
    closed_accounts = [];
    tombstones = [];
  };
  cases = report ∷ takedown_review ∷ restriction_review ∷ [];
  policies = record { version = "1"; deadline_seconds = 60; active = true } ∷ [];
  decisions = [];
  restrictions = [];
  takedowns = [];
  bases = [];
  appeals = [];
  notifications = [];
  provenance =
      record {
        artifact_id = "a2";
        immediate_listing_id = "l1";
        immediate_version_id = "v1";
        root_listing_id = "l1";
        root_version_id = "v1";
      }
      ∷ [];
  featured =
      record { position = 1; listing_id = "l1"; set_by_user_id = "eve"; listing_revision = 4 } ∷ [];
  featured_audit = [];
  authorities =
      record { user_id = "eve"; granted_by_user_id = "eve"; revoked_at = none; revision = 1 } ∷ [];
  audit = [];
  reports = [];
  signals = [];
}

abbrev digests : Digests
digests = record {
  key = λ k. k;
  decision = λ case_id kind rule rationale revision. case_id;
  appeal = λ decision statement. decision;
  evidence = λ decision version deadline statement. decision;
}

abbrev fresh : String → Fresh
fresh id = record { now = 100; id = id; case_id = "c9"; event_id = λ l. l }

abbrev order : String → DecideInput
order key = record {
  actor_user_id = "eve";
  case_id = "c1";
  kind = takedown;
  rule_code = b'R' ∷ [];
  rationale = b' ' ∷ b'x' ∷ [];
  idempotency_key = key;
  expected_listing_revision = some 4;
}

abbrev restriction : DecideInput
restriction = record (order "k1") { kind = restrict }

abbrev taken_down_response : DecisionResponse
taken_down_response = record {
  decision_id = "d1";
  committed_at = 100;
  policy_version = some "1";
  deadline_at = some 60100;
  accessible = false;
  restrictions = Hindrance.artifact_takedown ∷ [];
}

abbrev taken_down : GovernanceTables
taken_down = (decide digests (fresh "d1") (order "k1") gallery).1

takes_down_run :
    decide digests (fresh "d1") (order "k1") gallery ≡ (done taken_down_response, taken_down)
unfolding decide decide_work safe_text trim trim_end trim_start is_white require apply_decision
    decision_response recompute_artifact close_blocked_proposals propagate_restriction
    insert_missing copied_artifacts review_state_for
takes_down_run = refl

takes_down_again :
    decide digests (fresh "d9") (order "k1") taken_down
    ≡ (done taken_down_response, audited (order "k1") taken_down)
unfolding decide decide_work safe_text trim trim_end trim_start is_white require apply_decision
    decision_response recompute_artifact close_blocked_proposals propagate_restriction
    insert_missing copied_artifacts review_state_for
takes_down_again = refl

abbrev clearing : DecideInput
clearing = record (order "k2") { case_id = "c2"; kind = clear_takedown }

abbrev cleared_response : DecisionResponse
cleared_response = record {
  decision_id = "d2";
  committed_at = 100;
  policy_version = none;
  deadline_at = none;
  accessible = false;
  restrictions = Hindrance.not_listed ∷ [];
}

abbrev after_clearing : GovernanceTables
after_clearing = (decide digests (fresh "d2") clearing taken_down).1

clearing_run :
    decide digests (fresh "d2") clearing taken_down ≡ (done cleared_response, after_clearing)
unfolding decide decide_work safe_text trim trim_end trim_start is_white require apply_decision
    decision_response recompute_artifact recompute_all close_derived apply_clear_restriction
    apply_clear_takedown close_blocked_proposals propagate_restriction insert_missing
    copied_artifacts review_state_for
clearing_run = refl

abbrev restricted_response : DecisionResponse
restricted_response = record taken_down_response {
  restrictions = Hindrance.public_sharing_restricted ∷ [];
}

abbrev restricted_gallery : GovernanceTables
restricted_gallery = (decide digests (fresh "d1") restriction gallery).1

restriction_run :
    decide digests (fresh "d1") restriction gallery ≡ (done restricted_response, restricted_gallery)
unfolding decide decide_work safe_text trim trim_end trim_start is_white require apply_decision
    decision_response recompute_artifact close_blocked_proposals propagate_restriction
    insert_missing copied_artifacts review_state_for
restriction_run = refl

abbrev lifting : DecideInput
lifting = record (order "k3") { case_id = "c3"; kind = clear_restriction }

abbrev after_lifting : GovernanceTables
after_lifting = (decide digests (fresh "d3") lifting restricted_gallery).1

lifting_run :
    decide digests (fresh "d3") lifting restricted_gallery
    ≡ (done (record cleared_response { decision_id = "d3" }), after_lifting)
unfolding decide decide_work safe_text trim trim_end trim_start is_white require apply_decision
    decision_response recompute_artifact recompute_all close_derived apply_clear_restriction
    apply_clear_takedown close_blocked_proposals propagate_restriction insert_missing
    copied_artifacts review_state_for
lifting_run = refl

decided_once_example :
    (d : DecisionRow) × (find_where (is_replay_of "eve" "k1") taken_down.decisions ≡ some d)
    × (d.input_fingerprint ≡ fingerprint digests (order "k1"))
    × ("d1" ≡ d.id)
    × (audited (order "k1") taken_down ≡ audited (order "k1") taken_down)
decided_once_example =
    decided_once digests (fresh "d1") (fresh "d9") (order "k1") (order "k1") gallery taken_down
      (audited (order "k1") taken_down) taken_down_response taken_down_response report
      takes_down_run refl refl takes_down_again refl

abbrev reviewed : ListingRow
reviewed = record shared { review_state = reviewing }

decide_projects_example : CalledFor "a1" taken_down reviewing
unfolding decide decide_work safe_text trim trim_end trim_start is_white require apply_decision
    decision_response recompute_artifact close_blocked_proposals propagate_restriction
    insert_missing copied_artifacts review_state_for
decide_projects_example =
    decide_projects digests (fresh "d1") (order "k1") gallery taken_down taken_down_response report
      "a1" "l1" reviewed takes_down_run refl refl refl refl refl (inr refl)

a2-IsCopy : IsCopy "a1" "a2" gallery
a2-IsCopy = record {
  source = shared;
  revision = shared_revision;
  provenance = copied_row;
  listing = refl;
  of_artifact = refl;
  current = refl;
  revised = refl;
  copied = refl;
  names = inl (refl, refl);
}

decide_reaches_copies_example :
    (m : MeasureRow) × (find_where (is_active_for "a2") taken_down.restrictions ≡ some m)
    × (m.artifact_id ≡ "a2")
    × (m.state ≡ active)
unfolding decide decide_work safe_text trim trim_end trim_start is_white require apply_decision
    decision_response recompute_artifact close_blocked_proposals propagate_restriction
    insert_missing copied_artifacts review_state_for
decide_reaches_copies_example =
    decide_reaches_copies digests (fresh "d1") (order "k1") gallery taken_down taken_down_response
      report "a1" "a2" takes_down_run refl refl (inr refl) refl refl a2-IsCopy

decide_clears_restriction_example :
    (some_of (is_active_for "a1") after_lifting.restrictions ≡ false)
    × (some_of (is_active_with_root "d1") after_lifting.restrictions ≡ false)
unfolding decide decide_work safe_text trim trim_end trim_start is_white require apply_decision
    decision_response recompute_artifact recompute_all close_derived apply_clear_restriction
    apply_clear_takedown close_blocked_proposals propagate_restriction insert_missing
    copied_artifacts review_state_for
decide_clears_restriction_example =
    decide_clears_restriction digests (fresh "d3") lifting restricted_gallery after_lifting
      (record cleared_response { decision_id = "d3" }) restriction_review "a1" "d1" lifting_run refl
      refl refl refl refl

takedown_outlasts_clearing_example : some_of (is_active_for "a2") after_clearing.restrictions ≡ true
unfolding decide decide_work safe_text trim trim_end trim_start is_white require apply_decision
    decision_response recompute_artifact recompute_all close_derived apply_clear_restriction
    apply_clear_takedown close_blocked_proposals propagate_restriction insert_missing
    copied_artifacts review_state_for
takedown_outlasts_clearing_example =
    takedown_outlasts_clearing digests (fresh "d1") (fresh "d2") (order "k1") clearing gallery
      taken_down after_clearing taken_down_response cleared_response report takedown_review "a1"
      "a2" takes_down_run refl refl refl refl refl refl clearing_run refl refl refl refl

abbrev calls : List GalleryCall
calls = decides (fresh "d1") (order "k1") ∷ revokes "eve" "eve" 9 ∷ []

run_sealed_example :
    row_of "l0" (run digests (λ a. some "ann") gallery calls).listing_tables ≡ some withdrawn_row
run_sealed_example = run_sealed digests (λ a. some "ann") gallery calls "l0" withdrawn_row refl refl

run-row_of-IsConsistent_example :
    (r : ListingRow) × (row_of "l1" (run digests (λ a. some "ann") gallery calls).listing_tables
      ≡ some r)
    × IsConsistent r
run-row_of-IsConsistent_example =
    run-row_of-IsConsistent digests (λ a. some "ann") gallery calls "l1" shared refl
      (record { reason = refl; closing = refl; uncommitted = refl; committed = refl })
