-- ===== src/Cloudflare/Outbox/Drain.antt =====
-- job-outbox.ts: `drainCloudflareJobOutbox`, round by round.
use share_slices.Base.{
  ℕ, zero, suc, ◌+◌, Bool, not, ◌&&◌, Option, none, some, List, ◌∷◌, ◌==◌, if◌then◌else◌, some_of,
  update_where,
}
use share_slices.Base.Attempts.{Attempt, throws, returns, ◌>>=◌, check}
use share_slices.Cloudflare.JobWake.{CloudflareJobWakeLane}
use share_slices.Cloudflare.Outbox.{
  CloudflareOutboxDrainResult, DispatchRow, DrainInput, OutboxContext, OutboxError, OutboxState,
  are_accepted_lanes, claim, claim_lost, count_where, invalid_accepted_lanes, invalid_lease_seconds,
  invalid_max_messages, invalid_retry_delay_seconds, is_accepted, is_claimable, is_claimed,
  is_expired, is_positive_integer, is_published, mark_published, next_due,
  publish_outcome_after_lease_lost, return_expired, return_unsent, wake_of,
}

-- An update that has to change one row.
unfoldable pub update_one :
    OutboxError
    → (DispatchRow → Bool)
    → (DispatchRow → DispatchRow)
    → OutboxState
    → Attempt OutboxError (Unit {0}) × OutboxState
update_one failure p f s =
    if count_where p s.rows == 1
    then (returns tt, record s { rows = update_where p f s.rows })
    else (throws failure, record s { rows = update_where p f s.rows })

-- The rest of a round, the row claimed: the answer tells whether the message was published.
unfoldable pub send_claimed :
    OutboxContext
    → DrainInput
    → ℕ
    → DispatchRow
    → OutboxState
    → Attempt OutboxError Bool × OutboxState
send_claimed x i k row s =
    let wake = wake_of x k row in
    let rows = x.meanwhile k s.rows in
    let taken = x.sends k wake in
    let change =
      if taken then mark_published (x.settled_at k) else return_unsent i (x.settled_at k) in
    let sent = if taken then wake ∷ s.sent else s.sent in
    let (done, s') =
      update_one publish_outcome_after_lease_lost (is_claimed x i k row) change
        (record { rows = rows; sent = sent }) in
    (done >>= (λ _. returns taken), s')

-- The transaction of the claim: an error rolls it back.
unfoldable pub claim_row :
    OutboxContext
    → DrainInput
    → ℕ
    → DispatchRow
    → List DispatchRow
    → Attempt OutboxError (List DispatchRow)
claim_row x i k row rows = do
  _ ← check (count_where (is_claimable row) rows == 1) claim_lost
  returns (update_where (is_claimable row) (claim x i k row) rows)

-- How a round of the loop ends.
pub data Round : Type 0 where
  nothing_due : Round
  failed : OutboxError → Round
  attempted : Bool → Round

abbrev pub round_of : Attempt OutboxError Bool × OutboxState → Round × OutboxState
round_of (throws e, s) = (failed e, s)
round_of (returns taken, s) = (attempted taken, s)

abbrev pub send_if_claimed :
    OutboxContext
    → DrainInput
    → ℕ
    → DispatchRow
    → OutboxState
    → Attempt OutboxError (List DispatchRow)
    → Round × OutboxState
send_if_claimed x i k row s (throws e) = (failed e, s)
send_if_claimed x i k row s (returns rows) =
    round_of (send_claimed x i k row (record s { rows = rows }))

abbrev pub round_for :
    OutboxContext → DrainInput → ℕ → OutboxState → Option DispatchRow → Round × OutboxState
round_for x i k s none = (nothing_due, s)
round_for x i k s (some row) = send_if_claimed x i k row s (claim_row x i k row s.rows)

unfoldable pub round : OutboxContext → DrainInput → ℕ → OutboxState → Round × OutboxState
round x i k s = round_for x i k s (next_due x i k s.rows)

pub record Progress : Type 0 where
  pub attempted : ℕ
  pub published : ℕ

abbrev pub advance : Bool → Progress → Progress
advance taken p = record {
  attempted = p.attempted + 1;
  published = if taken then p.published + 1 else p.published;
}

abbrev pub go_on :
    (Progress → OutboxState → Attempt OutboxError Progress × OutboxState)
    → Progress
    → Round × OutboxState
    → Attempt OutboxError Progress × OutboxState
go_on rest p (nothing_due, s) = (returns p, s)
go_on rest p (failed e, s) = (throws e, s)
go_on rest p (attempted taken, s) = rest (advance taken p) s

-- The loop, with the number of messages that may still be tried.
unfoldable pub drain_rounds :
    OutboxContext
    → DrainInput
    → ℕ
    → Progress
    → OutboxState
    → Attempt OutboxError Progress × OutboxState
drain_rounds x i zero p s = (returns p, s)
drain_rounds x i (suc n) p s = go_on (drain_rounds x i n) p (round x i p.attempted s)

abbrev pub are_remaining : List CloudflareJobWakeLane → List DispatchRow → Bool
are_remaining lanes = some_of (λ r. not (is_published r.state) && is_accepted lanes r)

abbrev pub with_remaining :
    DrainInput
    → Attempt OutboxError Progress × OutboxState
    → Attempt OutboxError CloudflareOutboxDrainResult × OutboxState
with_remaining i (throws e, s) = (throws e, s)
with_remaining i (returns p, s) = (
  returns record {
    attempted = p.attempted;
    published = p.published;
    remaining = are_remaining i.accepted_lanes s.rows;
  },
  s,
)

abbrev pub valid_drain : DrainInput → Attempt OutboxError (Unit {0})
valid_drain i = do
  _ ← check (is_positive_integer i.max_messages) invalid_max_messages
  _ ← check (is_positive_integer i.lease_seconds) invalid_lease_seconds
  _ ← check (is_positive_integer i.retry_delay_seconds) invalid_retry_delay_seconds
  check (are_accepted_lanes i.accepted_lanes) invalid_accepted_lanes

abbrev pub return_all_expired : ℕ → OutboxState → OutboxState
return_all_expired now s = record s {
  rows = update_where (is_expired now) (return_expired now) s.rows;
}

abbrev pub drain_valid :
    OutboxContext
    → DrainInput
    → OutboxState
    → Attempt OutboxError (Unit {0})
    → Attempt OutboxError CloudflareOutboxDrainResult × OutboxState
drain_valid x i s (throws e) = (throws e, s)
drain_valid x i s (returns _) = with_remaining i (
    drain_rounds x i i.max_messages (record { attempted = 0; published = 0 })
      (return_all_expired x.started_at s))

unfoldable pub drain_cloudflare_job_outbox :
    OutboxContext
    → DrainInput
    → OutboxState
    → Attempt OutboxError CloudflareOutboxDrainResult × OutboxState
drain_cloudflare_job_outbox x i s = drain_valid x i s (valid_drain i)
