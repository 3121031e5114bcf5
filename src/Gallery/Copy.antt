-- ===== src/Gallery/Copy.antt =====
-- api/src/application/gallery/copy.ts: the class `GalleryCopyService` over the governance and quota
-- tables. The digests are library calls and parameters; the listing of a slug and the size of a
-- version's files come from columns and tables that are not modelled, and are given. Identifiers of
-- the retention and evidence rows, which nothing looks up, are left out.
pub mod Calls
pub mod Accepting
pub mod Reserving
pub mod Repeating
mod Tests
use mathlib.Core.Option
use share_slices.Base.{
  ℕ, ◌+◌, ◌*◌, String, str_eq, Bool, true, false, not, ◌&&◌, ◌||◌, Option, none, some, List, [],
  ◌∷◌, ltb, leb, if◌then◌else◌, is_some, length, some_of, find_where, select_where, update_where,
  Text, trim, is_empty,
}
use share_slices.Base.Attempts.{Attempt, throws, returns, ◌>>=◌, check, present, transact}
use share_slices.Gallery.Listing.{ListingRow, RevisionRow, is_withdrawn, is_listed}
use share_slices.Gallery.Governance.{GovernanceTables}
use share_slices.Gallery.Governance.Measures.{is_active_for, revision_of}
use share_slices.Gallery.Governance.Chain.{is_reviewable}
use share_slices.Gallery.Governance.Reports.{listing_at_slug}
use share_slices.Gallery.Quota.{
  QuotaPolicy, PolicyRow, Account, Reservation, ReservationState, held, QuotaTables, ReserveInput,
  of_user, has_id, open_account, new_reservation, hold,
}

pub data CopyState : Type 0 where
  accepted processing ready failed cancelled indeterminate : CopyState

pub record CopyJob : Type 0 where
  pub id : String
  pub copier_user_id : String
  pub source_listing_id : String
  pub source_listing_revision : ℕ
  pub source_version_id : String
  pub destination_artifact_id : String
  pub destination_version_id : String
  pub destination_title : Text
  pub quota_reservation_id : String
  pub idempotency_key_digest : String
  pub input_fingerprint : String
  pub max_attempts : ℕ
  pub state : CopyState

pub record SourceRetention : Type 0 where
  pub job_id : String
  pub source_listing_id : String
  pub source_version_id : String

pub record RateEvidence : Type 0 where
  pub copier_user_id : String
  pub policy_revision : String
  pub consumed_at : ℕ
  pub operation_id : String

pub record CopyTables : Type 0 where
  pub governance : GovernanceTables
  pub quota : QuotaTables
  pub jobs : List CopyJob
  pub retentions : List SourceRetention
  pub evidence : List RateEvidence

pub record GalleryCopyOutcome : Type 0 where
  pub id : String
  pub state : CopyState
  pub source_listing_id : String
  pub source_listing_revision : ℕ
  pub source_version_id : String
  pub destination_artifact_id : Option String
  pub quota_state : ReservationState

pub data CopyError : Type 0 where
  not_found gone rate_limited artifact_quota_unavailable storage_quota_unavailable : CopyError
  idempotency_conflict quota_policy_unavailable database_error : CopyError

pub record CopyInput : Type 0 where
  pub copier_user_id : String
  pub slug : String
  pub title : Text
  pub idempotency_key : String

-- The digests, the listing of a slug, the size of a version's files (none without a manifest), the
-- configured attempts, and of each call the clock and the identifiers that it makes.
pub record CopyContext : Type 0 where
  pub key_digest : String → String
  pub fingerprint : String → Text → String
  pub listing_of_slug : String → Option String
  pub total_size : String → Option ℕ
  pub max_attempts : ℕ

pub record CopyIds : Type 0 where
  pub now : ℕ
  pub id : String
  pub artifact_id : String
  pub version_id : String
  pub reservation_id : String

abbrev pub is_copied : CopyState → Bool
is_copied ready = true
is_copied _ = false

-- `outcome` of a job joined with its reservation.
abbrev pub outcome : CopyJob → Reservation → GalleryCopyOutcome
outcome job r = record {
  id = job.id;
  state = job.state;
  source_listing_id = job.source_listing_id;
  source_listing_revision = job.source_listing_revision;
  source_version_id = job.source_version_id;
  destination_artifact_id = if is_copied job.state then some job.destination_artifact_id else none;
  quota_state = r.state;
}

abbrev pub is_job_of : String → String → CopyJob → Bool
is_job_of user key job = str_eq job.copier_user_id user && str_eq job.idempotency_key_digest key

abbrev pub reservation_of : CopyTables → CopyJob → Option Reservation
reservation_of t job = find_where (has_id job.quota_reservation_id) t.quota.reservations

-- The join of the jobs that match with their reservations: its first row.
abbrev pub joined_from :
    CopyTables → (CopyJob → Bool) → List CopyJob → Option (CopyJob × Reservation)
joined_from t p [] = none
joined_from t p (job ∷ jobs) =
    let rest = joined_from t p jobs in
    if p job then elim (reservation_of t job) [ none ↦ rest | some r ↦ some (job, r) ] else rest

abbrev pub joined : CopyTables → (CopyJob → Bool) → Option (CopyJob × Reservation)
joined t p = joined_from t p t.jobs

-- Bytes of a version: `Number(null)` is 0.
abbrev pub size_of : CopyContext → String → ℕ
size_of x version = elim (x.total_size version) [ none ↦ 0 | some n ↦ n ]

abbrev pub bytes_of : CopyContext → Option RevisionRow → ℕ
bytes_of x none = 0
bytes_of x (some v) = size_of x v.version_id

abbrev pub blocked : GovernanceTables → ListingRow → Bool
blocked g l =
    some_of (is_active_for l.artifact_id) g.restrictions
    || some_of (is_active_for l.artifact_id) g.takedowns

abbrev pub policy_for_share : QuotaTables → Option QuotaPolicy
policy_for_share q =
    Option.map (λ (p : PolicyRow). p.policy) (find_where (λ p. p.active) q.policies)

-- `consumed_at > now - window`
abbrev pub is_consumed_by : String → ℕ → QuotaPolicy → RateEvidence → Bool
is_consumed_by user now policy e =
    str_eq e.copier_user_id user && ltb now (e.consumed_at + policy.copy_rate_window_seconds * 1000)

abbrev pub reserve_input : CopyIds → CopyInput → ℕ → ReserveInput
reserve_input ids i bytes = record {
  reservation_id = ids.reservation_id;
  user_id = i.copier_user_id;
  artifact_count = 1;
  storage_bytes = bytes;
  expires_at = ids.now + 3600 * 1000;
}

abbrev pub new_job : CopyContext → CopyIds → CopyInput → ListingRow → String → CopyJob
new_job x ids i l version = record {
  id = ids.id;
  copier_user_id = i.copier_user_id;
  source_listing_id = l.id;
  source_listing_revision = l.listing_revision;
  source_version_id = version;
  destination_artifact_id = ids.artifact_id;
  destination_version_id = ids.version_id;
  destination_title = trim i.title;
  quota_reservation_id = ids.reservation_id;
  idempotency_key_digest = x.key_digest i.idempotency_key;
  input_fingerprint = x.fingerprint i.slug (trim i.title);
  max_attempts = x.max_attempts;
  state = accepted;
}

-- The reservation and the update of the account, as in `reserve`.
abbrev pub book : ReserveInput → QuotaPolicy → QuotaTables → QuotaTables
book r policy q = record q {
  accounts = update_where (of_user r.user_id) (hold r) q.accounts;
  reservations = new_reservation r policy ∷ q.reservations;
}

abbrev pub with_account : CopyInput → QuotaPolicy → QuotaTables → QuotaTables
with_account i policy q = record q {
  accounts = open_account i.copier_user_id policy.revision q.accounts;
}

abbrev pub enqueue :
    CopyContext
    → CopyIds
    → CopyInput
    → ListingRow
    → String
    → QuotaPolicy
    → ℕ
    → CopyTables
    → CopyTables
enqueue x ids i l version policy bytes t = record t {
  quota = book (reserve_input ids i bytes) policy (with_account i policy t.quota);
  jobs = new_job x ids i l version ∷ t.jobs;
  retentions =
      record { job_id = ids.id; source_listing_id = l.id; source_version_id = version }
      ∷ t.retentions;
  evidence =
      record {
        copier_user_id = i.copier_user_id;
        policy_revision = policy.revision;
        consumed_at = ids.now;
        operation_id = ids.id;
      }
      ∷ t.evidence;
}

abbrev pub accepted_outcome : CopyIds → ListingRow → String → GalleryCopyOutcome
accepted_outcome ids l version = record {
  id = ids.id;
  state = accepted;
  source_listing_id = l.id;
  source_listing_revision = l.listing_revision;
  source_version_id = version;
  destination_artifact_id = none;
  quota_state = held;
}
