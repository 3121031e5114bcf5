-- ===== src/Reconciliation.antt =====
-- api/src/application/reconciliation/reconciliation.ts: `ReconciliationModule.run` over the
-- in-memory object storage. The repository is an interface, as in repository.ts; of its operations
-- only those that the code calls under `try` may throw (`none`) here. The log is left out.
pub mod Sweeping
mod Tests
use share_slices.Base.{
  ℕ, zero, suc, ◌+◌, ◌-◌, ◌*◌, ◌^◌, min, String, Bool, true, false, not, ◌&&◌, ◌||◌, Option, none,
  some, List, [], ◌∷◌, ◌++◌, ltb, leb, ◌==◌, if◌then◌else◌, map, length, every, select_where, Text,
}
use share_slices.Storage.{
  Objects, delete, ObjectListInput, StoredObjectSummary, ObjectListResult, list_objects,
  is_cleanup_prefix, remove_prefix,
}

pub data ReconciliationWorkType : Type 0 where
  expired_leases raw_objects staging_objects : ReconciliationWorkType
  artifact_deletions content_bundle_deletions : ReconciliationWorkType

pub record ReconciliationInput : Type 0 where
  pub work_type : ReconciliationWorkType
  pub older_than : ℕ
  pub limit : ℕ
  pub cursor : Option Text

pub record ReconciliationReport : Type 0 where
  pub work_type : ReconciliationWorkType
  pub scanned_count : ℕ
  pub deleted_count : ℕ
  pub recovered_lease_count : ℕ
  pub next_cursor : Option Text

pub record ArtifactCleanup : Type 0 where
  pub artifact_id : String
  pub object_keys : List Text
  pub staging_prefixes : List Text
  pub attempt_count : ℕ
  pub lease_token : String

pub record BundleCleanup : Type 0 where
  pub bundle_id : String
  pub object_prefixes : List Text
  pub attempt_count : ℕ
  pub lease_token : String

pub record AttemptCleanup : Type 0 where
  pub attempt_id : String
  pub object_prefix : Text
  pub attempt_count : ℕ
  pub lease_token : String

pub record ThumbnailCleanup : Type 0 where
  pub attempt_id : String
  pub object_key : Text
  pub attempt_count : ℕ
  pub lease_token : String

-- `ReconciliationRepository` over a state.
pub record Repository (R : Type 0) : Type 0 where
  pub recover_expired_leases : ℕ → ℕ → R → ℕ × R
  pub find_removable_raw_object_keys : List Text → R → List Text
  pub find_removable_staging_object_keys : List Text → R → List Text
  pub claim_artifact_deletion_cleanups : ℕ → ℕ → R → List ArtifactCleanup × R
  pub complete_artifact_deletion_cleanup : String → String → R → Option R
  pub fail_artifact_deletion_cleanup : String → String → ℕ → R → R
  pub recover_expired_creating_bundles : ℕ → ℕ → ℕ → R → R
  pub claim_content_bundle_cleanups : ℕ → ℕ → R → List BundleCleanup × R
  pub complete_content_bundle_cleanup : String → String → List Text → R → Option (Bool × R)
  pub fail_content_bundle_cleanup : String → String → ℕ → R → R
  pub claim_eligible_attempt_prefixes : ℕ → ℕ → R → List AttemptCleanup × R
  pub complete_attempt_prefix_cleanup : String → String → R → Option R
  pub fail_attempt_prefix_cleanup : String → String → ℕ → R → R
  pub claim_eligible_thumbnail_objects : ℕ → ℕ → R → List ThumbnailCleanup × R
  pub complete_thumbnail_object_cleanup : String → String → R → Option R
  pub fail_thumbnail_object_cleanup : String → String → ℕ → R → R

abbrev pub max_batch_size : ℕ
max_batch_size = 1000

abbrev pub is_valid_limit : ℕ → Bool
is_valid_limit limit = leb 1 limit && leb limit max_batch_size

-- `Math.min(3600, 30 * 2 ** Math.min(attemptCount - 1, 7))`, where 2 ** -1 is one half.
abbrev pub delay_seconds : ℕ → ℕ
delay_seconds zero = 15
delay_seconds (suc n) = min 3600 (30 * 2 ^ min n 7)

unfoldable pub delete_all : List Text → Objects → Objects
delete_all [] objects = objects
delete_all (key ∷ keys) objects = delete_all keys (delete key objects)

abbrev pub staging_root : Text
staging_root = b's' ∷ b't' ∷ b'a' ∷ b'g' ∷ b'i' ∷ b'n' ∷ b'g' ∷ []

abbrev pub bundle_root : Text
bundle_root =
    b'c' ∷ b'o' ∷ b'n' ∷ b't' ∷ b'e' ∷ b'n' ∷ b't' ∷ b'-' ∷ b'b' ∷ b'u' ∷ b'n' ∷ b'd' ∷ b'l' ∷ b'e'
    ∷ b's' ∷ []

abbrev pub raw_prefix : Text
raw_prefix = b'r' ∷ b'a' ∷ b'w' ∷ b'/' ∷ []

abbrev pub staging_prefix : Text
staging_prefix = staging_root ++ b'/' ∷ []

-- `prefixes`: which objects a work type sweeps.
abbrev pub prefixes : ReconciliationWorkType → Option Text
prefixes raw_objects = some raw_prefix
prefixes staging_objects = some staging_prefix
prefixes _ = none

-- The calls of `Promise.all` are all made; a refused prefix removes nothing.
unfoldable pub remove_staging_all : List Text → Objects → Objects
remove_staging_all [] objects = objects
remove_staging_all (p ∷ ps) objects =
    remove_staging_all ps
      (if is_cleanup_prefix staging_root p then (remove_prefix p objects).1 else objects)

-- The loop stops at the first refused prefix (`false`).
unfoldable pub remove_bundle_prefixes : List Text → Objects → Bool × Objects
remove_bundle_prefixes [] objects = (true, objects)
remove_bundle_prefixes (p ∷ ps) objects =
    let rest = remove_bundle_prefixes ps (remove_prefix p objects).1 in
    if is_cleanup_prefix bundle_root p then rest else (false, objects)

abbrev pub or_fail {ℓ} : {R : Type ℓ} → Bool → Option R → R → ℕ × R
or_fail true (some r) r' = (1, r)
or_fail true none r' = (0, r')
or_fail false o r' = (0, r')

-- A completion that is refused (`false`) is not counted; one that throws is recorded as failed.
abbrev pub bundle_result {ℓ} : {R : Type ℓ} → Bool → Option (Bool × R) → R → ℕ × R
bundle_result true (some (true, r)) r' = (1, r)
bundle_result true (some (false, r)) r' = (0, r)
bundle_result true none r' = (0, r')
bundle_result false o r' = (0, r')

-- `run` on objects that are listed: the page's old keys that the repository calls removable.
abbrev pub is_old : ℕ → StoredObjectSummary → Bool
is_old older_than o = ltb o.last_modified older_than

abbrev pub old_keys : ℕ → List StoredObjectSummary → List Text
old_keys older_than page =
    map (λ (o : StoredObjectSummary). o.key) (select_where (is_old older_than) page)

abbrev pub page_for : Text → ReconciliationInput → Objects → ObjectListResult
page_for prefix input objects =
    list_objects (record { prefix = prefix; cursor = input.cursor; limit = input.limit }) objects

abbrev pub sweep {ℓ} :
    {R : Type ℓ}
    → Text
    → (List Text → R → List Text)
    → ReconciliationInput
    → Objects
    → R
    → ReconciliationReport × Objects × R
sweep prefix removable input objects r =
    let page = page_for prefix input objects in
    let removed = removable (old_keys input.older_than page.objects) r in
    (
      record {
        work_type = input.work_type;
        scanned_count = length page.objects;
        deleted_count = length removed;
        recovered_lease_count = 0;
        next_cursor = page.next_cursor;
      },
      delete_all removed objects,
      r,
    )

abbrev pub counted : ReconciliationInput → ℕ → ℕ → ℕ → ReconciliationReport
counted input scanned deleted recovered = record {
  work_type = input.work_type;
  scanned_count = scanned;
  deleted_count = deleted;
  recovered_lease_count = recovered;
  next_cursor = none;
}

module _ {R : Type 0} (repository : Repository R) where
  unfoldable pub clean_artifacts : ℕ → List ArtifactCleanup → Objects → R → ℕ × Objects × R
  clean_artifacts clock [] objects r = (0, objects, r)
  clean_artifacts clock (c ∷ cs) objects r =
      let removed = remove_staging_all c.staging_prefixes (delete_all c.object_keys objects) in
      let (n, r') =
        or_fail (every (is_cleanup_prefix staging_root) c.staging_prefixes)
          (repository.complete_artifact_deletion_cleanup c.artifact_id c.lease_token r)
          (repository.fail_artifact_deletion_cleanup c.artifact_id c.lease_token
            (clock + delay_seconds c.attempt_count * 1000) r) in
      let (m, objects', r2) = clean_artifacts clock cs removed r' in (n + m, objects', r2)

  unfoldable pub clean_bundles : ℕ → List BundleCleanup → Objects → R → ℕ × Objects × R
  clean_bundles now [] objects r = (0, objects, r)
  clean_bundles now (c ∷ cs) objects r =
      let (passed, removed) = remove_bundle_prefixes c.object_prefixes objects in
      let (n, r') =
        bundle_result passed
          (repository.complete_content_bundle_cleanup c.bundle_id c.lease_token c.object_prefixes r)
          (repository.fail_content_bundle_cleanup c.bundle_id c.lease_token
            (now + delay_seconds c.attempt_count * 1000) r) in
      let (m, objects', r2) = clean_bundles now cs removed r' in (n + m, objects', r2)

  unfoldable pub clean_attempts : ℕ → List AttemptCleanup → Objects → R → ℕ × Objects × R
  clean_attempts now [] objects r = (0, objects, r)
  clean_attempts now (c ∷ cs) objects r =
      let (passed, removed) = remove_bundle_prefixes (c.object_prefix ∷ []) objects in
      let (n, r') =
        or_fail passed (repository.complete_attempt_prefix_cleanup c.attempt_id c.lease_token r) (
          repository.fail_attempt_prefix_cleanup c.attempt_id c.lease_token
            (now + delay_seconds c.attempt_count * 1000) r) in
      let (m, objects', r2) = clean_attempts now cs removed r' in (n + m, objects', r2)

  unfoldable pub clean_thumbnails : ℕ → List ThumbnailCleanup → Objects → R → ℕ × Objects × R
  clean_thumbnails clock [] objects r = (0, objects, r)
  clean_thumbnails clock (c ∷ cs) objects r =
      let (n, r') =
        or_fail true (repository.complete_thumbnail_object_cleanup c.attempt_id c.lease_token r) (
          repository.fail_thumbnail_object_cleanup c.attempt_id c.lease_token
            (clock + delay_seconds c.attempt_count * 1000) r) in
      let (m, objects', r2) = clean_thumbnails clock cs (delete c.object_key objects) r' in
      (n + m, objects', r2)

  abbrev pub clean_content :
      ReconciliationInput → ℕ → Objects → R → ReconciliationReport × Objects × R
  clean_content input now objects r =
      let r1 = repository.recover_expired_creating_bundles input.older_than now input.limit r in
      let (bundles, r2) = repository.claim_content_bundle_cleanups now input.limit r1 in
      let (attempts, r3) = repository.claim_eligible_attempt_prefixes now input.limit r2 in
      let (thumbnails, r4) = repository.claim_eligible_thumbnail_objects now input.limit r3 in
      let (n1, o1, r5) = clean_bundles now bundles objects r4 in
      let (n2, o2, r6) = clean_attempts now attempts o1 r5 in
      let (n3, o3, r7) = clean_thumbnails now thumbnails o2 r6 in
      (
        counted input (length bundles + length attempts + length thumbnails) (n1 + n2 + n3) 0,
        o3,
        r7,
      )

  abbrev pub work :
      ReconciliationWorkType
      → ReconciliationInput
      → ℕ
      → Objects
      → R
      → ReconciliationReport × Objects × R
  work expired_leases input now objects r =
      let (n, r') = repository.recover_expired_leases input.older_than input.limit r in
      (counted input n 0 n, objects, r')
  work raw_objects input now objects r =
      sweep raw_prefix repository.find_removable_raw_object_keys input objects r
  work staging_objects input now objects r =
      sweep staging_prefix repository.find_removable_staging_object_keys input objects r
  work artifact_deletions input now objects r =
      let (cleanups, r1) =
        repository.claim_artifact_deletion_cleanups input.older_than input.limit r in
      let (n, objects', r2) = clean_artifacts now cleanups objects r1 in
      (counted input (length cleanups) n 0, objects', r2)
  work content_bundle_deletions input now objects r = clean_content input now objects r

  -- None where the validation throws. One reading of the clock stands for those of the run.
  unfoldable pub run :
      ReconciliationInput → ℕ → Objects → R → Option (ReconciliationReport × Objects × R)
  run input now objects r =
      if is_valid_limit input.limit then some (work input.work_type input now objects r) else none
