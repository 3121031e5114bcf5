-- ===== src/Cloudflare/Outbox/Tracking.antt =====
-- job-outbox.ts: a row of the outbox followed through the rounds of a drain.
use share_slices.Base.{
  ℕ, ◌+◌, ◌≤◌, ◌≡◌, refl, ap, sym, ◌∙◌, Bool, true, false, ◌&&◌, ◌⊎◌, Bool-cases, inl, inr, Option,
  some, List, [], ◌∷◌, arith, leb, if◌then◌else◌, is_empty, some_of, find_where, find_where_holds,
  find_where-update_where, Text, text_eq, text_eq_iff,
}
use share_slices.Cloudflare.JobWake.{
  CloudflareJobWakeLane, CloudflareJobWake, lane_name, create_cloudflare_job_wake,
}
use share_slices.Cloudflare.Outbox.{
  DispatchRow, OutboxContext, DrainInput, OutboxState, is_pending_dispatch, is_published, same_lane,
  is_accepted, is_dispatch, is_due, next_due, count_where, is_claimable, claim, is_text, is_claimed,
  mark_published, wake_of,
}
use share_slices.Cloudflare.Outbox.Counting.{
  count_where-update_where_le, count_where-update_where_lt, some_of_mono,
}
use share_slices.Cloudflare.Outbox.Rounds.{
  claimed_rows, settled_rows, settled, due-claimable, claim_settles,
}

-- A row that this drain may have to send, and one that waits by the time `time`.
abbrev pub is_waiting : List CloudflareJobWakeLane → DispatchRow → Bool
is_waiting lanes r = is_pending_dispatch r.state && is_accepted lanes r

abbrev pub waits_by : ℕ → DispatchRow → Bool
waits_by time r = is_pending_dispatch r.state && leb r.available_at time

abbrev pub is_wake_for : CloudflareJobWakeLane → Text → CloudflareJobWake → Bool
is_wake_for lane id w = same_lane w.lane lane && is_text id w.durable_job_id

-- The row of the key is published and the queue has a message for it.
abbrev pub Delivered : CloudflareJobWakeLane → Text → OutboxState → Type 0
Delivered lane id s =
    (r : DispatchRow) × (find_where (is_dispatch lane id) s.rows ≡ some r)
    × (is_published r.state ≡ true)
    × (some_of (is_wake_for lane id) s.sent ≡ true)

abbrev pub Tracked : CloudflareJobWakeLane → Text → ℕ → OutboxState → Type 0
Tracked lane id time s =
    ((r : DispatchRow) × (find_where (is_dispatch lane id) s.rows ≡ some r)
      × (waits_by time r ≡ true))
    ⊎ Delivered lane id s

-- The row of the key after a round that takes `row`.
abbrev pub moved : OutboxContext → DrainInput → ℕ → DispatchRow → DispatchRow → DispatchRow
moved x i k row r =
    let c = if is_claimable row r then claim x i k row r else r in
    if is_claimed x i k row c then mark_published (x.settled_at k) c else c

find-settled :
    (x : OutboxContext) (i : DrainInput) (k : ℕ) (row r : DispatchRow) (rows : List DispatchRow)
    (lane : CloudflareJobWakeLane) (id : Text)
    → find_where (is_dispatch lane id) rows ≡ some r
    → find_where (is_dispatch lane id) (settled_rows x i k row rows) ≡ some (moved x i k row r)
find-settled x i k row r rows lane id e =
    let key = is_dispatch lane id in
    let first = find_where-update_where key (is_claimable row) (claim x i k row) (λ r. refl) rows in
    let second =
      find_where-update_where key (is_claimed x i k row) (mark_published (x.settled_at k))
        (λ r. refl) (claimed_rows x i k row rows) in
    ground (arith, first, second, e)

moved-waiting :
    (x : OutboxContext) (i : DrainInput) (k : ℕ) (row r : DispatchRow) (time : ℕ)
    → waits_by time r ≡ true
    → (moved x i k row r ≡ r)
      ⊎ ((is_claimable row r ≡ true) × (is_published (moved x i k row r).state ≡ true))
moved-waiting x i k row r time waits =
    let settles = claim_settles x i k row r in
    elim (Bool-cases (is_claimable row r)) [
      | inl on ↦ inr (on, ground (arith, on, settles on))
      | inr off ↦ inl (ground (arith, off, waits))
    ]

moved-published :
    (x : OutboxContext) (i : DrainInput) (k : ℕ) (row r : DispatchRow)
    → is_published r.state ≡ true
    → moved x i k row r ≡ r
moved-published x i k row r done = ground (arith, done)

-- A row and the row that the statement claims have one key.
pub claimable-key :
    (lane : CloudflareJobWakeLane) (id : Text) (row r : DispatchRow)
    → is_dispatch lane id r ≡ true
    → is_claimable row r ≡ true
    → is_dispatch lane id row ≡ true
claimable-key lane id row r key on =
    let lane_row = (text_eq_iff (lane_name r.lane) (lane_name row.lane)).0 (ground (arith, on)) in
    let lane_key = (text_eq_iff (lane_name r.lane) (lane_name lane)).0 (ground (arith, key)) in
    let id_row = (text_eq_iff r.durable_job_id row.durable_job_id).0 (ground (arith, on)) in
    let id_key = (text_eq_iff r.durable_job_id id).0 (ground (arith, key)) in
    let lanes = (text_eq_iff (lane_name row.lane) (lane_name lane)).1 (sym lane_row ∙ lane_key) in
    let ids = (text_eq_iff row.durable_job_id id).1 (sym id_row ∙ id_key) in
    ground (arith, lanes, ids)

wake_of-claimable :
    (x : OutboxContext) (k : ℕ) (row r : DispatchRow) (lane : CloudflareJobWakeLane) (id : Text)
    → is_claimable row r ≡ true
    → is_dispatch lane id r ≡ true
    → is_empty id ≡ false
    → is_wake_for lane id (wake_of x k row) ≡ true
unfolding create_cloudflare_job_wake
wake_of-claimable x k row r lane id on key there =
    let own = claimable-key lane id row r key on in
    let same = (text_eq_iff row.durable_job_id id).0 (ground (arith, own)) in
    ground (arith, ap is_empty same, there, own)

pub settled-Tracked :
    (x : OutboxContext) (i : DrainInput) (k : ℕ) (row : DispatchRow) (s : OutboxState)
    (lane : CloudflareJobWakeLane) (id : Text) (time : ℕ)
    → is_empty id ≡ false
    → Tracked lane id time s
    → Tracked lane id time (settled x i k row s)
settled-Tracked x i k row s lane id time there (inl (r, found, waits)) =
    let after = find-settled x i k row r s.rows lane id found in
    let key = find_where_holds (is_dispatch lane id) s.rows r found in
    elim (moved-waiting x i k row r time waits) [
      | inl same ↦ inl (r, after ∙ ap some same, waits)
      | inr (on, done) ↦
          let wake = wake_of-claimable x k row r lane id on key there in
          inr (moved x i k row r, after, done, ground (arith, wake))
    ]
settled-Tracked x i k row s lane id time there (inr (r, found, done, sent)) =
    let after = find-settled x i k row r s.rows lane id found in
    inr (r, after ∙ ap some (moved-published x i k row r done), done, ground (arith, sent))

-- The rows that the drain may have to send become fewer.
pub count-settled :
    (x : OutboxContext) (i : DrainInput) (k : ℕ) (row : DispatchRow) (rows : List DispatchRow)
    → next_due x i k rows ≡ some row
    → count_where (is_waiting i.accepted_lanes) (settled_rows x i k row rows) + 1
      ≤ count_where (is_waiting i.accepted_lanes) rows
count-settled x i k row rows e =
    let waiting = is_waiting i.accepted_lanes in
    let due = is_due i.accepted_lanes (x.claimed_at k) in
    let there =
      some_of_mono (λ r. due r && is_claimable row r) (λ r. is_claimable row r && waiting r)
        (λ r on. ground (arith, on)) rows (due-claimable x i k row rows e).1 in
    let fewer =
      count_where-update_where_lt waiting (is_claimable row) (claim x i k row) (λ r. refl) rows
        there in
    let no_more =
      count_where-update_where_le waiting (is_claimed x i k row) (mark_published (x.settled_at k))
        (λ r on h. cc) (claimed_rows x i k row rows) in
    ground (arith, fewer, no_more)

-- A row that waits in an accepted lane is found by a count of such rows.
pub waiting-some :
    (q : DispatchRow → Bool) (key : DispatchRow → Bool) (rows : List DispatchRow) (r : DispatchRow)
    → find_where key rows ≡ some r
    → q r ≡ true
    → some_of q rows ≡ true
waiting-some q key [] r e on = cc
waiting-some q key (s ∷ rows) r e on =
    let rest = waiting-some q key rows r in
    elim (Bool-cases (key s)) [
      | inl match ↦
          let same : ◌≡◌ {A = Option DispatchRow} (some s) (some r) = ground (arith, match, e) in
          let row : s ≡ r = cc (same) in ground (arith, ap q row, on)
      | inr off ↦ ground (arith, off, rest, e, on)
    ]

pub in_lane :
    (lanes : List CloudflareJobWakeLane) (lane : CloudflareJobWakeLane) (id : Text)
    (r : DispatchRow)
    → is_dispatch lane id r ≡ true
    → some_of (same_lane lane) lanes ≡ true
    → is_accepted lanes r ≡ true
in_lane lanes lane id r key accepted =
    let same = (text_eq_iff (lane_name r.lane) (lane_name lane)).0 (ground (arith, key)) in
    ap (λ name. some_of (λ l. text_eq name (lane_name l)) lanes) same ∙ accepted
