-- ===== src/Gallery/Copy/Tests.antt =====
-- The theorems on copies at a listed artifact of forty bytes that one user copies.
use share_slices.Base.{
  true, ◌≡◌, refl, String, none, some, [], ◌∷◌, trim, trim_start, trim_end, is_white,
}
use share_slices.Base.Attempts.{returns, throws}
use share_slices.Gallery.Listing.{listed, clear, ListingRow}
use share_slices.Gallery.Governance.{GovernanceTables}
use share_slices.Gallery.Quota.{QuotaPolicy, ok, reserved, current_policy, reserve}
use share_slices.Gallery.Copy.{
  CopyTables, GalleryCopyOutcome, CopyInput, CopyContext, CopyIds, accepted_outcome, reserve_input,
  enqueue, idempotency_conflict,
}
use share_slices.Gallery.Copy.Calls.{accept, accept_work, accept_new, accept_listing, recover}
use share_slices.Gallery.Copy.Reserving.{accept_reserves}
use share_slices.Gallery.Copy.Repeating.{accept_again}

abbrev source : ListingRow
source = record {
  id = "l1";
  artifact_id = "a1";
  owner_user_id = "ann";
  creator_profile_id = "p1";
  lifecycle_state = listed;
  review_state = clear;
  closure_reason = none;
  listing_revision = 4;
  current_revision_id = some "r1";
  restoration_forfeited_at = none;
  created_at = 1;
  closed_at = none;
}

abbrev governance : GovernanceTables
governance = record {
  listing_tables = record {
    listings = source ∷ [];
    proposals = [];
    revisions =
        record {
          id = "r1";
          listing_id = "l1";
          revision = 1;
          version_id = "v1";
          permission_acceptance_id = "g1";
          public_title = "Report";
          public_description = none;
          tags = [];
        }
        ∷ [];
    events = [];
    profiles = [];
    closed_accounts = [];
    tombstones = [];
  };
  cases = [];
  policies = [];
  decisions = [];
  restrictions = [];
  takedowns = [];
  bases = [];
  appeals = [];
  notifications = [];
  provenance = [];
  featured = [];
  featured_audit = [];
  authorities = [];
  audit = [];
  reports = [];
  signals = [];
}

abbrev limits : QuotaPolicy
limits = record {
  revision = "artifact-storage/v1";
  artifact_limit = 2;
  storage_bytes_limit = 100;
  copy_rate_limit = 1;
  copy_rate_window_seconds = 3600;
}

abbrev tables : CopyTables
tables = record {
  governance = governance;
  quota = record {
    policies = record { policy = limits; active = true } ∷ [];
    accounts = [];
    reservations = [];
  };
  jobs = [];
  retentions = [];
  evidence = [];
}

abbrev copy_context : CopyContext
copy_context = record {
  key_digest = λ k. k;
  fingerprint = λ slug title. slug;
  listing_of_slug = λ slug. some "l1";
  total_size = λ version. some 40;
  max_attempts = 3;
}

abbrev input : CopyInput
input = record {
  copier_user_id = "bob";
  slug = "s1";
  title = 104 ∷ 105 ∷ [];
  idempotency_key = "k";
}

abbrev ids : String → CopyIds
ids id = record { now = 100; id = id; artifact_id = "a2"; version_id = "v2"; reservation_id = "q1" }

abbrev answer : GalleryCopyOutcome
answer = accepted_outcome (ids "c1") source "v1"

abbrev copied : CopyTables
copied = enqueue copy_context (ids "c1") input source "v1" limits 40 tables

accept_run : accept copy_context (ids "c1") input tables ≡ (returns answer, copied)
unfolding accept accept_work accept_new accept_listing trim trim_start trim_end is_white
accept_run = refl

accept_reserves_example :
    reserve (reserve_input (ids "c1") input 40) tables.quota
    ≡ (ok (reserved "q1" limits), copied.quota)
unfolding current_policy
accept_reserves_example =
    accept_reserves copy_context (ids "c1") input tables copied answer limits accept_run refl refl

accept_again_example :
    (accept copy_context (ids "c2") input copied ≡ (returns answer, copied))
    × (recover copy_context "bob" "s1" (104 ∷ 105 ∷ []) "k" copied ≡ returns (some answer))
accept_again_example =
    accept_again copy_context (ids "c1") (ids "c2") input tables copied answer accept_run refl

-- Another slug under the same key is refused.
conflict :
    (accept copy_context (ids "c2") (record input { slug = "s2" }) copied).0
    ≡ throws idempotency_conflict
unfolding accept accept_work trim trim_start trim_end is_white
conflict = refl
