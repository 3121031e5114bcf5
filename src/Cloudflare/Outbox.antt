-- ===== src/Cloudflare/Outbox.antt =====
-- api/src/cloudflare/job-outbox.ts over the table cloudflare_job_dispatch_outbox. The queue, the
-- clock, the generated identifiers and what other sessions write while a message is sent are given
-- for each round of the loop; generated identifiers are taken to be new, so the unique index on
-- `wake_id`, which the rows do not enforce here, refuses none. No
-- row is locked by another session when it is claimed.
pub mod Drain
pub mod Counting
pub mod Rounds
pub mod Tracking
pub mod Draining
pub mod Keeping
pub mod Retrying
pub mod Recovery
use share_slices.Base.{
  ℕ, zero, suc, ◌+◌, ◌*◌, String, Bool, true, false, not, ◌&&◌, ◌||◌, Option, none, some, List, [],
  ◌∷◌, ◌++◌, map, ltb, leb, ◌==◌, if◌then◌else◌, is_some, length, some_of, select_where,
  update_where, Text, text_eq,
}
use share_slices.Base.Attempts.{Attempt, throws, returns, ◌>>=◌, check}
use share_slices.Cloudflare.JobWake.{
  CloudflareJobWakeLane, authentication_email, artifact_processing, thumbnail, lane_name,
  CloudflareJobWake, DateLibrary, or_given, create_cloudflare_job_wake,
}

pub data DispatchState : Type 0 where
  pending publishing published : DispatchState

pub record DispatchRow : Type 0 where
  pub lane : CloudflareJobWakeLane
  pub durable_job_id : Text
  pub state : DispatchState
  pub wake_id : Option Text
  pub available_at : ℕ
  pub lease_owner : Option Text
  pub lease_expires_at : Option ℕ
  pub fence : ℕ
  pub attempt_count : ℕ
  pub failure_reason_code : Option String
  pub created_at : ℕ
  pub published_at : Option ℕ

pub data OutboxError : Type 0 where
  invalid_accepted_lanes invalid_lost_wake_seconds invalid_max_messages : OutboxError
  invalid_lease_seconds invalid_retry_delay_seconds : OutboxError
  claim_lost publish_outcome_after_lease_lost : OutboxError

abbrev pub is_pending_dispatch : DispatchState → Bool
is_pending_dispatch pending = true
is_pending_dispatch _ = false

abbrev pub is_publishing : DispatchState → Bool
is_publishing publishing = true
is_publishing _ = false

abbrev pub is_published : DispatchState → Bool
is_published published = true
is_published _ = false

abbrev pub same_lane : CloudflareJobWakeLane → CloudflareJobWakeLane → Bool
same_lane a b = text_eq (lane_name a) (lane_name b)

abbrev pub is_accepted : List CloudflareJobWakeLane → DispatchRow → Bool
is_accepted lanes r = some_of (same_lane r.lane) lanes

-- `set.size === length`
abbrev pub are_different : List CloudflareJobWakeLane → Bool
are_different [] = true
are_different (l ∷ lanes) = not (some_of (same_lane l) lanes) && are_different lanes

abbrev pub are_accepted_lanes : List CloudflareJobWakeLane → Bool
are_accepted_lanes lanes = not (length lanes == 0) && are_different lanes

abbrev pub is_positive_integer : ℕ → Bool
is_positive_integer n = ltb 0 n && ltb n 9007199254740992

-- `order by <time>, lane, durable_job_id`, by the collation of the database.
abbrev pub is_before : (Text → Text → Bool) → (DispatchRow → ℕ) → DispatchRow → DispatchRow → Bool
is_before collates time r s =
    ltb (time r) (time s)
    || (time r == time s
        && (collates (lane_name r.lane) (lane_name s.lane)
            || (same_lane r.lane s.lane && collates r.durable_job_id s.durable_job_id)))

abbrev pub least : (DispatchRow → DispatchRow → Bool) → List DispatchRow → Option DispatchRow
least before [] = none
least before (r ∷ rows) = elim (least before rows) [
  | none ↦ some r
  | some s ↦ some (if before s r then s else r)
]

-- The primary key.
abbrev pub is_dispatch : CloudflareJobWakeLane → Text → DispatchRow → Bool
is_dispatch lane id r = same_lane r.lane lane && text_eq r.durable_job_id id

pub record OutboxContext : Type 0 where
  pub collates : Text → Text → Bool
  pub dates : DateLibrary
  pub started_at : ℕ
  pub generated_wake_id : ℕ → Text
  pub claimed_at : ℕ → ℕ
  pub sends : ℕ → CloudflareJobWake → Bool
  pub meanwhile : ℕ → List DispatchRow → List DispatchRow
  pub settled_at : ℕ → ℕ

pub record DrainInput : Type 0 where
  pub accepted_lanes : List CloudflareJobWakeLane
  pub worker_id : Text
  pub max_messages : ℕ
  pub lease_seconds : ℕ
  pub retry_delay_seconds : ℕ

pub record CloudflareOutboxDrainResult : Type 0 where
  pub attempted : ℕ
  pub published : ℕ
  pub remaining : Bool

-- The rows, and the messages that the queue has taken, the newest first.
pub record OutboxState : Type 0 where
  pub rows : List DispatchRow
  pub sent : List CloudflareJobWake

-- The first statement of a drain.
abbrev pub is_expired : ℕ → DispatchRow → Bool
is_expired now r =
    is_publishing r.state && elim r.lease_expires_at [ none ↦ false | some at ↦ leb at now ]

abbrev pub return_expired : ℕ → DispatchRow → DispatchRow
return_expired now r = record r {
  state = pending;
  lease_owner = none;
  lease_expires_at = none;
  available_at = now;
  failure_reason_code = some "publish_outcome_unknown";
}

abbrev pub is_due : List CloudflareJobWakeLane → ℕ → DispatchRow → Bool
is_due lanes now r = is_pending_dispatch r.state && leb r.available_at now && is_accepted lanes r

unfoldable pub next_due : OutboxContext → DrainInput → ℕ → List DispatchRow → Option DispatchRow
next_due x i k rows =
    least (is_before x.collates (λ r. r.created_at))
      (select_where (is_due i.accepted_lanes (x.claimed_at k)) rows)

abbrev pub count_where : (DispatchRow → Bool) → List DispatchRow → ℕ
count_where p rows = length (select_where p rows)

abbrev pub is_claimable : DispatchRow → DispatchRow → Bool
is_claimable row r =
    is_dispatch row.lane row.durable_job_id r && is_pending_dispatch r.state && r.fence == row.fence

abbrev pub wake_id_for : OutboxContext → ℕ → DispatchRow → Text
wake_id_for x k row = or_given row.wake_id (x.generated_wake_id k)

abbrev pub claim : OutboxContext → DrainInput → ℕ → DispatchRow → DispatchRow → DispatchRow
claim x i k row r = record r {
  state = publishing;
  wake_id = some (wake_id_for x k row);
  lease_owner = some i.worker_id;
  lease_expires_at = some (x.claimed_at k + i.lease_seconds * 1000);
  fence = row.fence + 1;
  attempt_count = r.attempt_count + 1;
  failure_reason_code = none;
}

abbrev pub is_text : Text → Option Text → Bool
is_text t none = false
is_text t (some s) = text_eq s t

-- The row as it was claimed: the same lease with the same fence.
abbrev pub is_claimed : OutboxContext → DrainInput → ℕ → DispatchRow → DispatchRow → Bool
is_claimed x i k row r =
    is_dispatch row.lane row.durable_job_id r
    && is_publishing r.state
    && is_text (wake_id_for x k row) r.wake_id
    && is_text i.worker_id r.lease_owner
    && r.fence == row.fence + 1

abbrev pub return_unsent : DrainInput → ℕ → DispatchRow → DispatchRow
return_unsent i now r = record r {
  state = pending;
  available_at = now + i.retry_delay_seconds * 1000;
  lease_owner = none;
  lease_expires_at = none;
  failure_reason_code = some "queue_publish_failed";
}

abbrev pub mark_published : ℕ → DispatchRow → DispatchRow
mark_published now r = record r {
  state = published;
  published_at = some now;
  lease_owner = none;
  lease_expires_at = none;
  failure_reason_code = none;
}

abbrev pub wake_of : OutboxContext → ℕ → DispatchRow → CloudflareJobWake
wake_of x k row =
    create_cloudflare_job_wake x.dates (x.generated_wake_id k) (x.claimed_at k) (record {
      lane = row.lane;
      durable_job_id = some row.durable_job_id;
      wake_id = some (wake_id_for x k row);
      now = some row.created_at;
    })
