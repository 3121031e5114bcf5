-- ===== src/Cloudflare/Outbox/Recovery.antt =====
-- job-outbox.ts: `recoverLostCloudflareJobWakes`, which sends a published message once more whose job
-- still waits. The three tables of jobs are given by the columns that the statement reads.
use share_slices.Base.{
  ℕ, zero, suc, ◌+◌, ◌*◌, Bool, false, not, ◌&&◌, ◌||◌, none, some, List, [], ◌∷◌, leb, some_of,
  select_where, update_where, Text, text_eq,
}
use share_slices.Base.Attempts.{Attempt, returns, ◌>>=◌, check}
use share_slices.Cloudflare.JobWake.{
  CloudflareJobWakeLane, authentication_email, artifact_processing, thumbnail, or_given,
}
use share_slices.Cloudflare.Outbox.{
  DispatchRow, OutboxError, invalid_accepted_lanes, invalid_lost_wake_seconds, invalid_max_messages,
  pending, is_published, same_lane, is_accepted, are_accepted_lanes, is_positive_integer, is_before,
  least, is_dispatch, count_where,
}

-- A job of one of the three tables that `recoverLostCloudflareJobWakes` looks at: whether its state
-- is the waiting one, and from when it may run.
pub record JobRow : Type 0 where
  pub id : Text
  pub is_waiting : Bool
  pub available_at : ℕ

pub record JobTables : Type 0 where
  pub email_deliveries : List JobRow
  pub processing_jobs : List JobRow
  pub thumbnail_jobs : List JobRow

abbrev pub is_waiting_job : ℕ → Text → JobRow → Bool
is_waiting_job now id job = text_eq job.id id && job.is_waiting && leb job.available_at now

abbrev pub waits_for_worker : JobTables → ℕ → DispatchRow → Bool
waits_for_worker jobs now r =
    (same_lane r.lane authentication_email
      && some_of (is_waiting_job now r.durable_job_id) jobs.email_deliveries)
    || (same_lane r.lane artifact_processing
        && some_of (is_waiting_job now r.durable_job_id) jobs.processing_jobs)
    || (same_lane r.lane thumbnail
        && some_of (is_waiting_job now r.durable_job_id) jobs.thumbnail_jobs)

pub record RecoverInput : Type 0 where
  pub accepted_lanes : List CloudflareJobWakeLane
  pub lost_after_seconds : ℕ
  pub max_messages : ℕ

abbrev pub is_lost : JobTables → RecoverInput → ℕ → DispatchRow → Bool
is_lost jobs i now r =
    is_published r.state
    && is_accepted i.accepted_lanes r
    && elim r.published_at [ none ↦ false | some at ↦ leb (at + i.lost_after_seconds * 1000) now ]
    && waits_for_worker jobs now r

-- `order by … limit`: the rows of the smallest keys, one after the other.
abbrev pub least_rows : (DispatchRow → DispatchRow → Bool) → ℕ → List DispatchRow → List DispatchRow
least_rows before zero rows = []
least_rows before (suc n) rows = elim (least before rows) [
  | none ↦ []
  | some r ↦
      r ∷ least_rows before n (select_where (λ s. not (is_dispatch r.lane r.durable_job_id s)) rows)
]

abbrev pub send_again : ℕ → DispatchRow → DispatchRow
send_again now r = record r {
  state = pending;
  wake_id = none;
  available_at = now;
  failure_reason_code = some "published_wake_unobserved";
  published_at = none;
}

abbrev pub is_among : List DispatchRow → DispatchRow → Bool
is_among candidates r = some_of (λ c. is_dispatch c.lane c.durable_job_id r) candidates

abbrev pub published_time : DispatchRow → ℕ
published_time r = or_given r.published_at 0

unfoldable pub recover_lost_cloudflare_job_wakes :
    (Text → Text → Bool)
    → JobTables
    → RecoverInput
    → ℕ
    → List DispatchRow
    → Attempt OutboxError (ℕ × List DispatchRow)
recover_lost_cloudflare_job_wakes collates jobs i now rows = do
  _ ← check (are_accepted_lanes i.accepted_lanes) invalid_accepted_lanes
  _ ← check (is_positive_integer i.lost_after_seconds) invalid_lost_wake_seconds
  _ ← check (is_positive_integer i.max_messages) invalid_max_messages
  let candidates =
      least_rows (is_before collates published_time) i.max_messages
        (select_where (is_lost jobs i now) rows)
  returns (
    count_where (is_among candidates) rows,
    update_where (is_among candidates) (send_again now) rows,
  )
