-- ===== src/Gallery/Copy/Accepting.antt =====
-- copy.ts: what a copy that is accepted does to the quota, and what a repeated request is told.
use share_slices.Base.{
  ℕ, ◌+◌, ◌≡◌, ap, subst, Bool, false, not, ◌&&◌, Option, none, some, arith, ltb, is_some, length,
  find_where, select_where, trim,
}
use share_slices.Base.Attempts.{
  Attempt, returns, ◌>>=◌, check, present, returns_injective, check_returns, present_returns,
  transact_returns,
}
use share_slices.Gallery.Listing.{ListingRow, RevisionRow, is_withdrawn, is_listed}
use share_slices.Gallery.Governance.Measures.{revision_of}
use share_slices.Gallery.Governance.Chain.{is_reviewable}
use share_slices.Gallery.Governance.Reports.{listing_at_slug}
use share_slices.Gallery.Quota.{QuotaPolicy, Account, Reservation, has_id, of_user}
use share_slices.Gallery.Copy.{
  CopyJob, CopyTables, GalleryCopyOutcome, CopyError, not_found, gone, rate_limited,
  artifact_quota_unavailable, storage_quota_unavailable, quota_policy_unavailable, database_error,
  CopyInput, CopyContext, CopyIds, is_job_of, joined, size_of, bytes_of, blocked, policy_for_share,
  is_consumed_by, with_account, enqueue, accepted_outcome,
}
use share_slices.Gallery.Copy.Calls.{
  accept_listing, accept_new, accept_once, is_bad_title, accept_work, accept,
}

-- What a listing that is accepted for copying has passed.
pub record Accepted (x : CopyContext) (ids : CopyIds) (i : CopyInput) (t : CopyTables)
    (o : GalleryCopyOutcome) (t' : CopyTables) : Type 0 where
  pub listing : ListingRow
  pub revision : RevisionRow
  pub policy : QuotaPolicy
  pub account : Account
  pub bytes : ℕ
  pub of_version : bytes ≡ size_of x revision.version_id
  pub has_policy : policy_for_share t.quota ≡ some policy
  pub has_account :
      find_where (of_user i.copier_user_id) (with_account i policy t.quota).accounts ≡ some account
  pub artifact_fits :
      ltb policy.artifact_limit (account.artifact_usage + account.artifact_reserved + 1) ≡ false
  pub storage_fits :
      ltb policy.storage_bytes_limit
        (account.storage_bytes_usage + account.storage_bytes_reserved + bytes)
      ≡ false
  pub unused : is_some (find_where (has_id ids.reservation_id) t.quota.reservations) ≡ false
  pub answer : accepted_outcome ids listing revision.version_id ≡ o
  pub tables : enqueue x ids i listing revision.version_id policy bytes t ≡ t'

listing-Accepted :
    (x : CopyContext) (ids : CopyIds) (i : CopyInput) (l : ListingRow) (t t' : CopyTables)
    (o : GalleryCopyOutcome)
    → accept_listing x ids i l t ≡ returns (o, t')
    → Accepted x ids i t o t'
unfolding accept_listing
listing-Accepted x ids i l t t' o e =
    let rate : QuotaPolicy → Bool = λ p.
      ltb (length (select_where (is_consumed_by i.copier_user_id ids.now p) t.evidence))
        p.copy_rate_limit in
    let revision = revision_of t.governance.listing_tables l.current_revision_id in
    let bytes = bytes_of x revision in
    let Answer : Type 0 = Attempt CopyError (GalleryCopyOutcome × CopyTables) in
    let last : QuotaPolicy → RevisionRow → Answer = λ p v.
      returns (accepted_outcome ids l v.version_id, enqueue x ids i l v.version_id p bytes t) in
    let unused : Bool =
      not (is_some (find_where (has_id ids.reservation_id) t.quota.reservations)) in
    let fits : QuotaPolicy → Account → Bool =
      λ p a. not (ltb p.artifact_limit (a.artifact_usage + a.artifact_reserved + 1)) in
    let stores : QuotaPolicy → Account → Bool = λ p a.
      not (ltb p.storage_bytes_limit (a.storage_bytes_usage + a.storage_bytes_reserved + bytes)) in
    let k4 : QuotaPolicy → Unit {0} → Answer = λ p _. present revision database_error >>= last p in
    let k3 : QuotaPolicy → Unit {0} → Answer = λ p _. check unused database_error >>= k4 p in
    let k2 : QuotaPolicy → Account → Unit {0} → Answer =
      λ p a _. check (stores p a) storage_quota_unavailable >>= k3 p in
    let k1 : QuotaPolicy → Account → Answer =
      λ p a. check (fits p a) artifact_quota_unavailable >>= k2 p a in
    let k0 : QuotaPolicy → Unit {0} → Answer = λ p _.
      present (find_where (of_user i.copier_user_id) (with_account i p t.quota).accounts)
        database_error
      >>= k1 p in
    let (p, has_p, e1) =
      present_returns (policy_for_share t.quota) quota_policy_unavailable
        (λ p. check (rate p) rate_limited >>= k0 p) (o, t') e in
    let (in_rate, e2) = check_returns (rate p) rate_limited (k0 p) (o, t') e1 in
    let (a, has_a, e3) =
      present_returns (find_where (of_user i.copier_user_id) (with_account i p t.quota).accounts)
        database_error (k1 p) (o, t') e2 in
    let (fit, e4) = check_returns (fits p a) artifact_quota_unavailable (k2 p a) (o, t') e3 in
    let (store, e5) = check_returns (stores p a) storage_quota_unavailable (k3 p) (o, t') e4 in
    let (fresh, e6) = check_returns unused database_error (k4 p) (o, t') e5 in
    let (v, has_v, e7) = present_returns revision database_error (last p) (o, t') e6 in
    let same =
      returns_injective
        (accepted_outcome ids l v.version_id, enqueue x ids i l v.version_id p bytes t) (o, t')
        e7 in
    record {
      listing = l;
      revision = v;
      policy = p;
      account = a;
      bytes = bytes;
      of_version = ap (bytes_of x) has_v;
      has_policy = has_p;
      has_account = has_a;
      artifact_fits = ground (arith, fit);
      storage_fits = ground (arith, store);
      unused = ground (arith, fresh);
      answer = cc;
      tables = cc;
    }

new-Accepted :
    (x : CopyContext) (ids : CopyIds) (i : CopyInput) (t t' : CopyTables) (o : GalleryCopyOutcome)
    → accept_new x ids i t ≡ returns (o, t')
    → Accepted x ids i t o t'
unfolding accept_new
new-Accepted x ids i t t' o e =
    let Answer : Type 0 = Attempt CopyError (GalleryCopyOutcome × CopyTables) in
    let shown : ListingRow → Bool = λ l.
      is_listed l.lifecycle_state && is_reviewable l.review_state && not (blocked t.governance l) in
    let k1 : ListingRow → Unit {0} → Answer = λ l _. accept_listing x ids i l t in
    let k0 : ListingRow → Unit {0} → Answer = λ l _. check (shown l) not_found >>= k1 l in
    let (l, has_l, e1) =
      present_returns (listing_at_slug (x.listing_of_slug i.slug) t.governance) not_found
        (λ l. check (not (is_withdrawn l.lifecycle_state)) gone >>= k0 l) (o, t') e in
    let (there, e2) = check_returns (not (is_withdrawn l.lifecycle_state)) gone (k0 l) (o, t') e1 in
    let (listed, e3) = check_returns (shown l) not_found (k1 l) (o, t') e2 in
    listing-Accepted x ids i l t t' o e3

-- The job that a request of the same user and key has left.
abbrev pub previous : CopyContext → CopyInput → CopyTables → Option (CopyJob × Reservation)
previous x i t = joined t (is_job_of i.copier_user_id (x.key_digest i.idempotency_key))

pub accept-Accepted :
    (x : CopyContext) (ids : CopyIds) (i : CopyInput) (t t' : CopyTables) (o : GalleryCopyOutcome)
    → accept x ids i t ≡ (returns o, t')
    → previous x i t ≡ none
    → (is_bad_title (trim i.title) ≡ false) × Accepted x ids i t o t'
unfolding accept accept_work
accept-Accepted x ids i t t' o e fresh =
    let Answer : Type 0 = Attempt CopyError (GalleryCopyOutcome × CopyTables) in
    let k : Unit {0} → Answer = λ _. accept_once x ids i (previous x i t) t in
    let done = transact_returns t t' (accept_work x ids i t) o e in
    let (good, e1) = check_returns (not (is_bad_title (trim i.title))) not_found k (o, t') done in
    let e2 = subst (λ p. accept_once x ids i p t ≡ returns (o, t')) fresh e1 in
    (ground (arith, good), new-Accepted x ids i t t' o e2)
