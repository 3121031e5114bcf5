-- ===== src/Cloudflare/Outbox/Draining.antt =====
-- job-outbox.ts: a whole drain whose queue takes every message, while no other session writes.
use share_slices.Base.{
  ℕ, zero, suc, ◌+◌, ◌≤◌, ◌≡◌, refl, Bool, true, false, not, ◌&&◌, ◌||◌, Bool-cases, Option-cases,
  inl, inr, none, some, List, arith, if◌then◌else◌, is_empty, some_of, find_where, find_where_holds,
  find_where-update_where, Text,
}
use share_slices.Base.Attempts.{returns}
use share_slices.Cloudflare.JobWake.{CloudflareJobWakeLane, CloudflareJobWake}
use share_slices.Cloudflare.Outbox.{
  DispatchRow, OutboxContext, DrainInput, OutboxState, CloudflareOutboxDrainResult, is_published,
  same_lane, is_accepted, is_dispatch, is_expired, return_expired, is_due, next_due, is_before,
  count_where, is_claimable, claim, is_claimed, mark_published,
}
use share_slices.Cloudflare.Outbox.Drain.{
  return_all_expired, round, Progress, advance, drain_rounds, are_remaining, valid_drain,
  drain_cloudflare_job_outbox,
}
use share_slices.Cloudflare.Outbox.Counting.{
  count_where-update_where_le, count_where_mono, some_of-count, least-none,
}
use share_slices.Cloudflare.Outbox.Rounds.{
  HasPrimaryKey, update_where-HasPrimaryKey, claimed_rows, settled, round-settled,
}
use share_slices.Cloudflare.Outbox.Tracking.{
  is_waiting, waits_by, Delivered, Tracked, settled-Tracked, count-settled, waiting-some, in_lane,
}

-- What a loop that starts at `s` leaves.
abbrev Drained : OutboxContext → DrainInput → ℕ → ℕ → Progress → OutboxState → Type 0
Drained x i time n p s =
    (p' : Progress) × (s' : OutboxState) × (drain_rounds x i n p s ≡ (returns p', s'))
    × (p'.published + p.attempted ≡ p'.attempted + p.published)
    × ((lane : CloudflareJobWakeLane) (id : Text)
        → some_of (same_lane lane) i.accepted_lanes ≡ true
        → is_empty id ≡ false
        → Tracked lane id time s
        → Delivered lane id s')

-- Where no row waits that this drain may send, the tracked row is delivered.
Tracked-Delivered :
    (i : DrainInput) (time : ℕ) (s : OutboxState) (q : DispatchRow → Bool)
    (lane : CloudflareJobWakeLane) (id : Text)
    → ((r : DispatchRow)
        → waits_by time r ≡ true
        → is_accepted i.accepted_lanes r ≡ true
        → q r ≡ true)
    → some_of q s.rows ≡ false
    → some_of (same_lane lane) i.accepted_lanes ≡ true
    → Tracked lane id time s
    → Delivered lane id s
Tracked-Delivered i time s q lane id due none_left accepted (inr delivered) = delivered
Tracked-Delivered i time s q lane id due none_left accepted (inl (r, found, waits)) =
    let key = find_where_holds (is_dispatch lane id) s.rows r found in
    let some_left =
      waiting-some q (is_dispatch lane id) s.rows r found
        (due r waits (in_lane i.accepted_lanes lane id r key accepted)) in
    cc (none_left, some_left)

module _ (x : OutboxContext) (i : DrainInput) (time : ℕ)
    (takes : (k : ℕ) (wake : CloudflareJobWake) → x.sends k wake ≡ true)
    (alone : (k : ℕ) (rows : List DispatchRow) → x.meanwhile k rows ≡ rows)
    (later : (k : ℕ) → time ≤ x.claimed_at k) where
  drain_idle :
      (n : ℕ) (p : Progress) (s : OutboxState)
      → next_due x i p.attempted s.rows ≡ none
      → Drained x i time (suc n) p s
  unfolding drain_rounds round next_due
  drain_idle n p s e =
      let due = is_due i.accepted_lanes (x.claimed_at p.attempted) in
      let none_left = least-none (is_before x.collates (λ r. r.created_at)) due s.rows e in
      (
        p,
        s,
        ground (arith, e),
        ground arith,
        λ lane id accepted there tracked.
            Tracked-Delivered i time s due lane id
              (λ r waits lanes. ground (arith, waits, lanes, later p.attempted)) none_left accepted
              tracked,
      )

  drain_settled :
      (n : ℕ) (p : Progress) (s : OutboxState) (row : DispatchRow)
      → HasPrimaryKey s.rows
      → next_due x i p.attempted s.rows ≡ some row
      → Drained x i time n (advance true p) (settled x i p.attempted row s)
      → Drained x i time (suc n) p s
  unfolding drain_rounds
  drain_settled n p s row unique e (p', s', ends, published, delivers) =
      let one =
        round-settled x i p.attempted row s (takes p.attempted) (alone p.attempted) unique e in
      (
        p',
        s',
        ground (arith, one, ends),
        ground (arith, published),
        λ lane id accepted there tracked.
            delivers lane id accepted there
              (settled-Tracked x i p.attempted row s lane id time there tracked),
      )

  drain_all :
      (n : ℕ) (p : Progress) (s : OutboxState)
      → HasPrimaryKey s.rows
      → count_where (is_waiting i.accepted_lanes) s.rows ≤ n
      → Drained x i time n p s
  unfolding drain_rounds
  drain_all zero p s unique few =
      let waiting = is_waiting i.accepted_lanes in
      let none_left : some_of waiting s.rows ≡ false = elim (Bool-cases (some_of waiting s.rows)) [
        | inl on ↦ ground (arith, some_of-count waiting s.rows on, few)
        | inr off ↦ off
      ] in
      (
        p,
        s,
        refl,
        ground arith,
        λ lane id accepted there tracked.
            Tracked-Delivered i time s waiting lane id
              (λ r waits lanes. ground (arith, waits, lanes)) none_left accepted tracked,
      )
  drain_all (suc n) p s unique few = elim (Option-cases (next_due x i p.attempted s.rows)) [
    | inl idle ↦ drain_idle n p s idle
    | inr (row, found) ↦
        let fewer = count-settled x i p.attempted row s.rows found in
        drain_settled n p s row unique found (
          drain_all n (advance true p) (settled x i p.attempted row s)
            (update_where-HasPrimaryKey (is_claimed x i p.attempted row)
              (mark_published (x.settled_at p.attempted)) (claimed_rows x i p.attempted row s.rows)
              (λ lane id r. refl)
              (update_where-HasPrimaryKey (is_claimable row) (claim x i p.attempted row) s.rows
                (λ lane id r. refl) unique))
            (omega (arith, fewer, few)))
  ]

-- A row that no drain has published.
abbrev pub is_unfinished : List CloudflareJobWakeLane → DispatchRow → Bool
is_unfinished lanes r = not (is_published r.state) && is_accepted lanes r

-- A row that the drain finds pending and due, or whose lease it finds expired.
abbrev pub is_due_for_drain : OutboxContext → ℕ → DispatchRow → Bool
is_due_for_drain x time r = waits_by time r || is_expired x.started_at r

-- Let no more rows of the accepted lanes be unpublished than the drain may send, the input be valid,
-- the queue take every message and no other session write. Let the drain start by some time and
-- claim at no earlier time. Then the drain returns, it has published each message that it tried,
-- and a row of an accepted lane that was pending and due by that time, or that an expired lease
-- held, is published and the queue has a message for it. The row has a job identifier that is not
-- empty, and no two rows have one primary key.
pub drain_delivers :
    (x : OutboxContext) (i : DrainInput) (time : ℕ) (s : OutboxState) (r : DispatchRow)
    (lane : CloudflareJobWakeLane) (id : Text)
    → ((k : ℕ) (wake : CloudflareJobWake) → x.sends k wake ≡ true)
    → ((k : ℕ) (rows : List DispatchRow) → x.meanwhile k rows ≡ rows)
    → ((k : ℕ) → time ≤ x.claimed_at k)
    → x.started_at ≤ time
    → valid_drain i ≡ returns tt
    → HasPrimaryKey s.rows
    → count_where (is_unfinished i.accepted_lanes) s.rows ≤ i.max_messages
    → some_of (same_lane lane) i.accepted_lanes ≡ true
    → is_empty id ≡ false
    → find_where (is_dispatch lane id) s.rows ≡ some r
    → is_due_for_drain x time r ≡ true
    → (result : CloudflareOutboxDrainResult) × (s' : OutboxState) × (drain_cloudflare_job_outbox x i
          s
        ≡ (returns result, s'))
      × (result.published ≡ result.attempted)
      × Delivered lane id s'
unfolding drain_cloudflare_job_outbox
drain_delivers x i time s r lane id takes alone later started valid unique few accepted there found
      due =
    let tables = return_all_expired x.started_at s in
    let unpublished = is_unfinished i.accepted_lanes in
    let no_more =
      count_where-update_where_le unpublished (is_expired x.started_at)
        (return_expired x.started_at) (λ r on h. ground (arith, on, h)) s.rows in
    let fewer =
      count_where_mono (is_waiting i.accepted_lanes) unpublished (λ r on. ground (arith, on))
        tables.rows in
    let after =
      find_where-update_where (is_dispatch lane id) (is_expired x.started_at)
        (return_expired x.started_at) (λ r. refl) s.rows in
    let row : DispatchRow =
      if is_expired x.started_at r then return_expired x.started_at r else r in
    let waits : waits_by time row ≡ true = ground (arith, due, started) in
    let at : find_where (is_dispatch lane id) tables.rows ≡ some row =
      ground (arith, after, found) in
    let (p, s', ends, published, delivers) =
      drain_all x i time takes alone later i.max_messages (record { attempted = 0; published = 0 })
        tables
        (update_where-HasPrimaryKey (is_expired x.started_at) (return_expired x.started_at) s.rows
          (λ lane id r. refl) unique)
        (omega (arith, few, no_more, fewer)) in
    (
      record {
        attempted = p.attempted;
        published = p.published;
        remaining = are_remaining i.accepted_lanes s'.rows;
      },
      s',
      ground (arith, valid, ends),
      ground (arith, published),
      delivers lane id accepted there (inl (row, at, waits)),
    )
