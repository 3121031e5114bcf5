-- ===== src/Cloudflare/Outbox/Rounds.antt =====
-- job-outbox.ts: a round of a drain whose queue takes every message, while no other session writes.
use share_slices.Base.{
  ℕ, ◌≤◌, ◌≡◌, refl, Bool, true, ◌&&◌, ◌==◌, some, List, ◌∷◌, arith, some_of, update_where, Text,
  text_eq_refl,
}
use share_slices.Cloudflare.JobWake.{CloudflareJobWakeLane, CloudflareJobWake, lane_name}
use share_slices.Cloudflare.Outbox.{
  DispatchRow, OutboxContext, DrainInput, OutboxState, is_dispatch, is_due, next_due, is_before,
  count_where, is_claimable, wake_id_for, claim, is_claimed, mark_published, wake_of,
}
use share_slices.Cloudflare.Outbox.Drain.{update_one, send_claimed, claim_row, attempted, round}
use share_slices.Cloudflare.Outbox.Counting.{
  count_where-update_where, count_where_mono, some_of_mono, some_of-update_where, some_of-count,
  least_found,
}

-- The primary key of the table.
abbrev pub HasPrimaryKey : List DispatchRow → Type 0
HasPrimaryKey rows =
    (lane : CloudflareJobWakeLane) (id : Text) → count_where (is_dispatch lane id) rows ≤ 1

abbrev pub claimed_rows :
    OutboxContext → DrainInput → ℕ → DispatchRow → List DispatchRow → List DispatchRow
claimed_rows x i k row rows = update_where (is_claimable row) (claim x i k row) rows

abbrev pub settled_rows :
    OutboxContext → DrainInput → ℕ → DispatchRow → List DispatchRow → List DispatchRow
settled_rows x i k row rows =
    update_where (is_claimed x i k row) (mark_published (x.settled_at k))
      (claimed_rows x i k row rows)

pub update_where-HasPrimaryKey :
    (g : DispatchRow → Bool) (f : DispatchRow → DispatchRow) (rows : List DispatchRow)
    → ((lane : CloudflareJobWakeLane) (id : Text) (r : DispatchRow)
        → is_dispatch lane id (f r) ≡ is_dispatch lane id r)
    → HasPrimaryKey rows
    → HasPrimaryKey (update_where g f rows)
update_where-HasPrimaryKey g f rows keep unique lane id =
    let same = count_where-update_where (is_dispatch lane id) g f (keep lane id) rows in
    ground (arith, same, unique lane id)

-- Where a row of the key matches a test that asks for the key, one row does.
one_matches :
    (p : DispatchRow → Bool) (lane : CloudflareJobWakeLane) (id : Text) (rows : List DispatchRow)
    → ((r : DispatchRow) → p r ≡ true → is_dispatch lane id r ≡ true)
    → HasPrimaryKey rows
    → some_of p rows ≡ true
    → (count_where p rows == 1) ≡ true
one_matches p lane id rows keyed unique there =
    let most = count_where_mono p (is_dispatch lane id) keyed rows in
    let some_row = some_of-count p rows there in ground (arith, most, some_row, unique lane id)

pub due-claimable :
    (x : OutboxContext) (i : DrainInput) (k : ℕ) (row : DispatchRow) (rows : List DispatchRow)
    → next_due x i k rows ≡ some row
    → (is_due i.accepted_lanes (x.claimed_at k) row ≡ true)
      × (some_of (λ r. is_due i.accepted_lanes (x.claimed_at k) r && is_claimable row r) rows
          ≡ true)
unfolding next_due
due-claimable x i k row rows e =
    let before = is_before x.collates (λ r. r.created_at) in
    let due = is_due i.accepted_lanes (x.claimed_at k) in
    let row_due = (least_found before due (λ _. true) rows row e refl).0 in
    let claimable : is_claimable row row ≡ true =
      ground (arith, row_due, text_eq_refl (lane_name row.lane), text_eq_refl row.durable_job_id) in
    (row_due, (least_found before due (is_claimable row) rows row e claimable).1)

pub claim_settles :
    (x : OutboxContext) (i : DrainInput) (k : ℕ) (row r : DispatchRow)
    → is_claimable row r ≡ true
    → is_claimed x i k row (claim x i k row r) ≡ true
claim_settles x i k row r on =
    ground (arith, on, text_eq_refl (wake_id_for x k row), text_eq_refl i.worker_id)

abbrev pub settled : OutboxContext → DrainInput → ℕ → DispatchRow → OutboxState → OutboxState
settled x i k row s = record {
  rows = settled_rows x i k row s.rows;
  sent = wake_of x k row ∷ s.sent;
}

pub claimed-one :
    (x : OutboxContext) (i : DrainInput) (k : ℕ) (row : DispatchRow) (rows : List DispatchRow)
    → HasPrimaryKey rows
    → next_due x i k rows ≡ some row
    → ((count_where (is_claimable row) rows == 1) ≡ true)
      × ((count_where (is_claimed x i k row) (claimed_rows x i k row rows) == 1) ≡ true)
claimed-one x i k row rows unique e =
    let due = is_due i.accepted_lanes (x.claimed_at k) in
    let there =
      some_of_mono (λ r. due r && is_claimable row r) (is_claimable row)
        (λ r on. ground (arith, on)) rows (due-claimable x i k row rows e).1 in
    let still =
      some_of-update_where (is_claimed x i k row) (is_claimable row) (claim x i k row)
        (claim_settles x i k row) rows there in
    let unique_claimed =
      update_where-HasPrimaryKey (is_claimable row) (claim x i k row) rows (λ lane id r. refl)
        unique in
    (
      one_matches (is_claimable row) row.lane row.durable_job_id rows (λ r on. ground (arith, on))
          unique there,
      one_matches (is_claimed x i k row) row.lane row.durable_job_id (claimed_rows x i k row rows)
          (λ r on. ground (arith, on)) unique_claimed still,
    )

-- A round that finds a due row publishes it.
pub round-settled :
    (x : OutboxContext) (i : DrainInput) (k : ℕ) (row : DispatchRow) (s : OutboxState)
    → ((wake : CloudflareJobWake) → x.sends k wake ≡ true)
    → ((rows : List DispatchRow) → x.meanwhile k rows ≡ rows)
    → HasPrimaryKey s.rows
    → next_due x i k s.rows ≡ some row
    → round x i k s ≡ (attempted true, settled x i k row s)
unfolding round claim_row send_claimed update_one
round-settled x i k row s takes alone unique e =
    let (one, again) = claimed-one x i k row s.rows unique e in
    let quiet = alone (claimed_rows x i k row s.rows) in
    let taken = takes (wake_of x k row) in ground (arith, e, one, again, quiet, taken)
