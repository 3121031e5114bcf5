-- ===== src/Reconciliation/Tests.antt =====
-- A sweep of two raw objects, of which one is old, with a repository that calls all of them
-- removable.
use share_slices.Base.{
  ℕ, ◌≡◌, refl, true, none, some, List, [], ◌∷◌, arith, every, find_where, Text, text_eq,
  text_eq_iff, starts_with,
}
use share_slices.Storage.{MemoryObject, Objects, delete, is_at, list_objects}
use share_slices.Storage.Keys.{has_key, key_less, sort_keys}
use share_slices.Reconciliation.{
  raw_objects, raw_prefix, ReconciliationInput, ReconciliationReport, Repository, delete_all, run,
}
use share_slices.Reconciliation.Sweeping.{run_spares}

weaken :
    (x : Text) (ms ks : List Text)
    → every (λ k. has_key k ks) ms ≡ true
    → every (λ k. has_key k (x ∷ ks)) ms ≡ true
weaken x [] ks h = refl
weaken x (m ∷ ms) ks h = ground (arith, weaken x ms ks, h)

asked_all : (ks : List Text) → every (λ k. has_key k ks) ks ≡ true
asked_all [] = refl
asked_all (k ∷ ks) = ground (arith, weaken k ks ks (asked_all ks), text_eq_iff k k)

abbrev greedy : Repository ℕ
greedy = record {
  recover_expired_leases = λ before limit r. (0, r);
  find_removable_raw_object_keys = λ ks r. ks;
  find_removable_staging_object_keys = λ ks r. ks;
  claim_artifact_deletion_cleanups = λ before limit r. ([], r);
  complete_artifact_deletion_cleanup = λ id lease r. some r;
  fail_artifact_deletion_cleanup = λ id lease at r. r;
  recover_expired_creating_bundles = λ before quiesce limit r. r;
  claim_content_bundle_cleanups = λ now limit r. ([], r);
  complete_content_bundle_cleanup = λ id lease ps r. some (true, r);
  fail_content_bundle_cleanup = λ id lease at r. r;
  claim_eligible_attempt_prefixes = λ now limit r. ([], r);
  complete_attempt_prefix_cleanup = λ id lease r. some r;
  fail_attempt_prefix_cleanup = λ id lease at r. r;
  claim_eligible_thumbnail_objects = λ now limit r. ([], r);
  complete_thumbnail_object_cleanup = λ id lease r. some r;
  fail_thumbnail_object_cleanup = λ id lease at r. r;
}

abbrev raw_key : ℕ → Text
raw_key c = b'r' ∷ b'a' ∷ b'w' ∷ b'/' ∷ c ∷ []

abbrev stored : ℕ → ℕ → MemoryObject
stored c modified = record {
  key = raw_key c;
  bytes = [];
  content_type = none;
  last_modified = modified;
}

abbrev two : Objects
two = stored b'b' 9 ∷ stored b'a' 2 ∷ []

abbrev request : ReconciliationInput
request = record { work_type = raw_objects; older_than = 5; limit = 10; cursor = none }

abbrev report : ReconciliationReport
report = record {
  work_type = raw_objects;
  scanned_count = 2;
  deleted_count = 1;
  recovered_lease_count = 0;
  next_cursor = none;
}

sweep_run : run greedy request 50 two 0 ≡ some (report, stored b'b' 9 ∷ [], 0)
unfolding run list_objects delete_all delete text_eq starts_with key_less sort_keys
sweep_run = refl

run_spares_example : find_where (is_at (raw_key b'b')) (stored b'b' 9 ∷ []) ≡ some (stored b'b' 9)
unfolding text_eq starts_with
run_spares_example =
    run_spares greedy request 50 two 0 raw_prefix (raw_key b'b') (stored b'b' 9) report
      (stored b'b' 9 ∷ []) 0 (λ ks r. asked_all ks) (λ ks r. asked_all ks) refl refl refl sweep_run
