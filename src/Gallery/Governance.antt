-- ===== src/Gallery/Governance.antt =====
-- api/src/application/gallery/governance.ts: the rows of the governance tables
-- (0015_gallery_governance_foundation.sql, 0025_gallery_governance_runtime.sql) over the listing
-- tables. Identifiers of rows that nothing looks up by them (restrictions, takedowns, review bases,
-- notifications, audit events) are left out, and so is the slug of a tombstone.
pub mod Authority
pub mod Measures
pub mod Effects
pub mod Reversals
pub mod Chain
pub mod Decisions
pub mod Appeals
pub mod Featured
pub mod Closing
pub mod Reports
pub mod Sequences
pub mod Outcomes
pub mod Steps
pub mod Committed
pub mod Following
pub mod Reach
pub mod Clearing
pub mod Once
pub mod Keeping
pub mod Reporting
pub mod Lasting
mod Tests
use share_slices.Base.{
  ℕ, String, str_eq, Bool, true, false, not, ◌&&◌, ◌||◌, Option, none, some, List, [], ◌∷◌, ltb,
  leb, ◌==◌, if◌then◌else◌, some_of, length, find_where, Text, trim, is_empty,
}
use share_slices.Gallery.Listing.{GalleryLifecycle, GalleryReviewState, ListingTables}

pub data GovernanceDecisionKind : Type 0 where
  approve reject dismiss remove restore restrict clear_restriction : GovernanceDecisionKind
  takedown clear_takedown uphold_appeal reverse_appeal : GovernanceDecisionKind

pub data CaseKind : Type 0 where
  proposal_case report_case removal_case restriction_case takedown_case appeal_case : CaseKind

pub data CaseState : Type 0 where
  open_case decided_case moot_case : CaseState

pub record CaseRow : Type 0 where
  pub id : String
  pub case_kind : CaseKind
  pub listing_id : Option String
  pub artifact_id : Option String
  pub parent_case_id : Option String
  pub state : CaseState
  pub evidence_digest : String
  pub closed_at : Option ℕ

pub record AppealPolicy : Type 0 where
  pub version : String
  pub deadline_seconds : ℕ
  pub active : Bool

pub record DecisionRow : Type 0 where
  pub id : String
  pub case_id : String
  pub actor_user_id : String
  pub decision_kind : GovernanceDecisionKind
  pub rule_code : Text
  pub rationale : Text
  pub evidence_digest : String
  pub appeal_policy_version : Option String
  pub appeal_deadline_at : Option ℕ
  pub idempotency_key_digest : String
  pub input_fingerprint : String
  pub created_at : ℕ

-- Of a restriction, a takedown or a review basis.
pub data MeasureState : Type 0 where
  active cleared reversed : MeasureState

-- gallery_public_sharing_restriction and gallery_artifact_takedown have the same columns.
pub record MeasureRow : Type 0 where
  pub artifact_id : String
  pub source_decision_id : String
  pub source_root_decision_id : String
  pub rule_code : Text
  pub state : MeasureState
  pub ended_at : Option ℕ
  pub ending_decision_id : Option String

pub data BasisKind : Type 0 where
  report_basis proposal_basis takedown_basis restriction_basis : BasisKind

-- A basis that was closed has the state `cleared`.
pub record BasisRow : Type 0 where
  pub artifact_id : String
  pub listing_id : Option String
  pub case_id : String
  pub basis_kind : BasisKind
  pub source_decision_id : Option String
  pub source_root_decision_id : Option String
  pub state : MeasureState
  pub ended_at : Option ℕ
  pub ending_decision_id : Option String

pub data AppealState : Type 0 where
  pending upheld appeal_reversed moot : AppealState

pub record AppealRow : Type 0 where
  pub id : String
  pub case_id : String
  pub decision_id : String
  pub appellant_user_id : String
  pub policy_version : String
  pub deadline_at : ℕ
  pub statement : Text
  pub idempotency_key_digest : String
  pub input_fingerprint : String
  pub state : AppealState
  pub resolved_at : Option ℕ
  pub resolution_decision_id : Option String

pub data NotificationCategory : Type 0 where
  removal appeal_decision artifact_takedown public_sharing_restriction : NotificationCategory

pub record NotificationRow : Type 0 where
  pub recipient_user_id : String
  pub case_id : String
  pub decision_id : String
  pub category : NotificationCategory
  pub appeal_policy_version : Option String
  pub appeal_deadline_at : Option ℕ

pub record ProvenanceRow : Type 0 where
  pub artifact_id : String
  pub immediate_listing_id : String
  pub immediate_version_id : String
  pub root_listing_id : String
  pub root_version_id : String

pub record FeaturedRow : Type 0 where
  pub position : ℕ
  pub listing_id : String
  pub set_by_user_id : String
  pub listing_revision : ℕ

pub data FeaturedAction : Type 0 where
  placed taken_out eligibility_removed : FeaturedAction

pub record FeaturedEvent : Type 0 where
  pub actor_user_id : String
  pub listing_id : String
  pub position : ℕ
  pub action : FeaturedAction

pub record AuthorityRow : Type 0 where
  pub user_id : String
  pub granted_by_user_id : String
  pub revoked_at : Option ℕ
  pub revision : ℕ

pub data AdministratorAction : Type 0 where
  queue_read case_read decision_action appeal_read featured_change grant_action revoke_action :
      AdministratorAction

pub record AuditEvent : Type 0 where
  pub actor_user_id : String
  pub action : AdministratorAction
  pub resource_id : Option String
  pub subject_user_id : Option String

pub data GalleryReportCategory : Type 0 where
  malware abuse copyright privacy other : GalleryReportCategory

pub record ReportRow : Type 0 where
  pub id : String
  pub listing_id : String
  pub listing_revision : ℕ
  pub category : GalleryReportCategory
  pub details : Text
  pub reporter_actor_hash : String
  pub challenge_evidence_digest : String

-- gallery_privacy_retention_record of the kind `reporter_signal`.
pub record SignalRow : Type 0 where
  pub subject_key : String
  pub created_at : ℕ

pub record GovernanceTables : Type 0 where
  pub listing_tables : ListingTables
  pub cases : List CaseRow
  pub policies : List AppealPolicy
  pub decisions : List DecisionRow
  pub restrictions : List MeasureRow
  pub takedowns : List MeasureRow
  pub bases : List BasisRow
  pub appeals : List AppealRow
  pub notifications : List NotificationRow
  pub provenance : List ProvenanceRow
  pub featured : List FeaturedRow
  pub featured_audit : List FeaturedEvent
  pub authorities : List AuthorityRow
  pub audit : List AuditEvent
  pub reports : List ReportRow
  pub signals : List SignalRow

pub data GovernanceErrorCode : Type 0 where
  case_not_found case_closed invalid_decision decision_conflict : GovernanceErrorCode
  appeal_forbidden appeal_unavailable appeal_expired invalid_text : GovernanceErrorCode
  administrator_forbidden database_error : GovernanceErrorCode
  challenge_rejected challenge_unavailable rate_limited : GovernanceErrorCode
  not_found invalid_report : GovernanceErrorCode

-- The result of a part of a transaction; an error rolls all of it back.
pub data Outcome {ℓ} (A : Type ℓ) : Type ℓ where
  failed : GovernanceErrorCode → Outcome A
  done : A → Outcome A

infixl 5 ◌>>=◌
abbrev pub ◌>>=◌ {ℓ κ} : {A : Type ℓ} {B : Type κ} → Outcome A → (A → Outcome B) → Outcome B
failed code >>= continue = failed code
done a >>= continue = continue a

abbrev pub ensure : Bool → GovernanceErrorCode → Outcome (Unit {0})
ensure true code = done tt
ensure false code = failed code

abbrev pub found_or {ℓ} : {A : Type ℓ} → Option A → GovernanceErrorCode → Outcome A
found_or (some a) code = done a
found_or none code = failed code

abbrev pub settle_transaction {ℓ} :
    {A : Type ℓ} → GovernanceTables → Outcome (A × GovernanceTables) → Outcome A × GovernanceTables
settle_transaction g (failed code) = (failed code, g)
settle_transaction g (done (a, g')) = (done a, g')

abbrev pub is_active : MeasureState → Bool
is_active active = true
is_active _ = false

abbrev pub is_pending_appeal : AppealState → Bool
is_pending_appeal pending = true
is_pending_appeal _ = false

-- /[\u0000-\u0008\u000b\u000c\u000e-\u001f]/
abbrev pub is_control : ℕ → Bool
is_control c = leb c 8 || c == 11 || c == 12 || (leb 14 c && leb c 31)

unfoldable pub safe_text : ℕ → Text → Outcome Text
safe_text maximum value =
    if is_empty (trim value) || ltb maximum (length (trim value)) || some_of is_control (trim value)
    then failed invalid_text
    else done (trim value)
