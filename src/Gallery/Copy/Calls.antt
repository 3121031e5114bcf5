-- ===== src/Gallery/Copy/Calls.antt =====
-- copy.ts: the methods `accept`, `recover` and `get`.
use mathlib.Core.Option
use share_slices.Base.{
  ◌+◌, String, str_eq, Bool, not, ◌&&◌, ◌||◌, Option, none, some, ltb, is_some, length, find_where,
  select_where, Text, trim, is_empty,
}
use share_slices.Base.Attempts.{Attempt, returns, ◌>>=◌, check, present, transact}
use share_slices.Gallery.Listing.{ListingRow, is_withdrawn, is_listed}
use share_slices.Gallery.Governance.Measures.{revision_of}
use share_slices.Gallery.Governance.Chain.{is_reviewable}
use share_slices.Gallery.Governance.Reports.{listing_at_slug}
use share_slices.Gallery.Quota.{Reservation, of_user, has_id}
use share_slices.Gallery.Copy.{
  CopyContext, CopyError, CopyIds, CopyInput, CopyJob, CopyTables, GalleryCopyOutcome,
  accepted_outcome, artifact_quota_unavailable, blocked, bytes_of, database_error, enqueue, gone,
  idempotency_conflict, is_consumed_by, is_job_of, joined, not_found, outcome, policy_for_share,
  quota_policy_unavailable, rate_limited, storage_quota_unavailable, with_account,
}

-- From the policy on. A reservation whose id is taken, or a missing version, is refused by the
-- database.
unfoldable pub accept_listing :
    CopyContext
    → CopyIds
    → CopyInput
    → ListingRow
    → CopyTables
    → Attempt CopyError (GalleryCopyOutcome × CopyTables)
accept_listing x ids i l t = do
  policy ← present (policy_for_share t.quota) quota_policy_unavailable
  _ ←
      check
        (ltb (length (select_where (is_consumed_by i.copier_user_id ids.now policy) t.evidence))
          policy.copy_rate_limit)
        rate_limited
  let revision = revision_of t.governance.listing_tables l.current_revision_id
  let bytes = bytes_of x revision
  let quota = with_account i policy t.quota
  account ← present (find_where (of_user i.copier_user_id) quota.accounts) database_error
  _ ←
      check
        (not (ltb policy.artifact_limit (account.artifact_usage + account.artifact_reserved + 1)))
        artifact_quota_unavailable
  _ ←
      check
        (not (
          ltb policy.storage_bytes_limit
            (account.storage_bytes_usage + account.storage_bytes_reserved + bytes)))
        storage_quota_unavailable
  _ ←
      check (not (is_some (find_where (has_id ids.reservation_id) quota.reservations)))
        database_error
  v ← present revision database_error
  returns (accepted_outcome ids l v.version_id, enqueue x ids i l v.version_id policy bytes t)

unfoldable pub accept_new :
    CopyContext
    → CopyIds
    → CopyInput
    → CopyTables
    → Attempt CopyError (GalleryCopyOutcome × CopyTables)
accept_new x ids i t = do
  l ← present (listing_at_slug (x.listing_of_slug i.slug) t.governance) not_found
  _ ← check (not (is_withdrawn l.lifecycle_state)) gone
  _ ←
      check
        (is_listed l.lifecycle_state
          && is_reviewable l.review_state
          && not (blocked t.governance l))
        not_found
  accept_listing x ids i l t

abbrev pub same_request : CopyContext → String → Text → CopyJob → Bool
same_request x slug title job = str_eq job.input_fingerprint (x.fingerprint slug title)

abbrev pub accept_once :
    CopyContext
    → CopyIds
    → CopyInput
    → Option (CopyJob × Reservation)
    → CopyTables
    → Attempt CopyError (GalleryCopyOutcome × CopyTables)
accept_once x ids i (some (job, r)) t = do
  _ ← check (same_request x i.slug (trim i.title) job) idempotency_conflict
  returns (outcome job r, t)
accept_once x ids i none t = accept_new x ids i t

abbrev pub is_bad_title : Text → Bool
is_bad_title title = is_empty title || ltb 200 (length title)

unfoldable pub accept_work :
    CopyContext
    → CopyIds
    → CopyInput
    → CopyTables
    → Attempt CopyError (GalleryCopyOutcome × CopyTables)
accept_work x ids i t = do
  _ ← check (not (is_bad_title (trim i.title))) not_found
  accept_once x ids i (joined t (is_job_of i.copier_user_id (x.key_digest i.idempotency_key))) t

unfoldable pub accept :
    CopyContext
    → CopyIds
    → CopyInput
    → CopyTables
    → Attempt CopyError GalleryCopyOutcome × CopyTables
accept x ids i t = transact t (accept_work x ids i t)

abbrev pub recover_found :
    CopyContext
    → String
    → Text
    → Option (CopyJob × Reservation)
    → Attempt CopyError (Option GalleryCopyOutcome)
recover_found x slug title none = returns none
recover_found x slug title (some (job, r)) = do
  _ ← check (same_request x slug (trim title) job) idempotency_conflict
  returns (some (outcome job r))

unfoldable pub recover :
    CopyContext
    → String
    → String
    → Text
    → String
    → CopyTables
    → Attempt CopyError (Option GalleryCopyOutcome)
recover x user slug title key t =
    recover_found x slug title (joined t (is_job_of user (x.key_digest key)))

abbrev pub outcome_of : CopyJob × Reservation → GalleryCopyOutcome
outcome_of pair = outcome pair.0 pair.1

unfoldable pub get : String → String → CopyTables → Option GalleryCopyOutcome
get user id t =
    Option.map outcome_of
      (joined t (λ (job : CopyJob). str_eq job.id id && str_eq job.copier_user_id user))
