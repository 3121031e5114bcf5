-- ===== src/Cloudflare/Outbox/Keeping.antt =====
-- job-outbox.ts: what the statements of a drain leave of the wake identifier of a job.
use share_slices.Base.{
  ℕ, ◌≤◌, ◌≡◌, refl, ap, Bool, true, false, not, ◌&&◌, ◌||◌, Bool-cases, inl, inr, Option, none,
  some, List, [], ◌∷◌, arith, some_of, every, find_where, find_where_holds, find_where-update_where,
  update_where, Text, text_eq, text_eq_iff, text_eq_refl,
}
use share_slices.Base.Attempts.{Attempt, throws, returns}
use share_slices.Cloudflare.JobWake.{
  CloudflareJobWakeLane, CloudflareJobWake, create_cloudflare_job_wake,
}
use share_slices.Cloudflare.Outbox.{
  DispatchRow, OutboxError, OutboxContext, DrainInput, OutboxState, is_dispatch, is_due, next_due,
  is_before, count_where, is_text, wake_of,
}
use share_slices.Cloudflare.Outbox.Drain.{round_of}
use share_slices.Cloudflare.Outbox.Counting.{least_found, some_of-count, some_of_mono}
use share_slices.Cloudflare.Outbox.Rounds.{HasPrimaryKey, update_where-HasPrimaryKey}
use share_slices.Cloudflare.Outbox.Tracking.{is_wake_for}

-- Where one row at most has the key, a row with the key passes a test as the found one does.
found_only :
    (key bad : DispatchRow → Bool) (rows : List DispatchRow) (r : DispatchRow)
    → count_where key rows ≤ 1
    → find_where key rows ≡ some r
    → bad r ≡ false
    → some_of (λ s. key s && bad s) rows ≡ false
found_only key bad [] r one e good = refl
found_only key bad (s ∷ rows) r one e good =
    let rest = found_only key bad rows r in
    elim (Bool-cases (key s)) [
      | inl match ↦
          let row : ◌≡◌ {A = Option DispatchRow} (some s) (some r) = ground (arith, match, e) in
          let same : s ≡ r = cc (row) in
          let none_left : some_of key rows ≡ false = elim (Bool-cases (some_of key rows)) [
            | inl on ↦ ground (arith, some_of-count key rows on, one, match)
            | inr off ↦ off
          ] in
          let imply = some_of_mono (λ s. key s && bad s) key (λ s on. ground (arith, on)) rows in
          ground (arith, ap bad same, good, imply, none_left)
      | inr off ↦ ground (arith, off, rest, one, e, good)
    ]

-- The messages for the key have the wake identifier `w`.
abbrev pub all_have : CloudflareJobWakeLane → Text → Text → List CloudflareJobWake → Bool
all_have lane id w = every (λ m. not (is_wake_for lane id m) || text_eq m.wake_id w)

-- The row of the key and the messages for it have the wake identifier `w`, and no fence is below
-- `fence`.
pub record Keeps (lane : CloudflareJobWakeLane) (id w : Text) (fence : ℕ) (s : OutboxState)
    : Type 0 where
  pub row : DispatchRow
  pub found : find_where (is_dispatch lane id) s.rows ≡ some row
  pub wake_id : row.wake_id ≡ some w
  pub fenced : fence ≤ row.fence
  pub messages : all_have lane id w s.sent ≡ true
  pub unique : HasPrimaryKey s.rows

is_text_reads : (w : Text) (o : Option Text) → is_text w o ≡ true → o ≡ some w
is_text_reads w none e = cc
is_text_reads w (some t) e = ap some ((text_eq_iff t w).0 e)

-- The message of a row that has the identifier `w` if it has the key.
pub wake_of_keeps :
    (lane : CloudflareJobWakeLane) (id w : Text) (x : OutboxContext) (n : ℕ) (row : DispatchRow)
    → (is_dispatch lane id row ≡ true → row.wake_id ≡ some w)
    → (not (is_wake_for lane id (wake_of x n row)) || text_eq (wake_of x n row).wake_id w) ≡ true
unfolding create_cloudflare_job_wake
wake_of_keeps lane id w x n row holds = elim (Bool-cases (is_dispatch lane id row)) [
  | inl on ↦ ground (arith, holds on, text_eq_refl w)
  | inr off ↦ ground (arith, off)
]

pub round_of_state : (m : Attempt OutboxError Bool × OutboxState) → (round_of m).1 ≡ m.1
round_of_state (throws e, s) = refl
round_of_state (returns taken, s) = refl

module _ (lane : CloudflareJobWakeLane) (id w : Text) (fence : ℕ) where
  -- A write that keeps the key, the identifier `w` and raises no fence above what it writes.
  pub update_where-Keeps :
      (g : DispatchRow → Bool) (f : DispatchRow → DispatchRow) (s : OutboxState)
      → ((lane : CloudflareJobWakeLane) (id : Text) (r : DispatchRow)
          → is_dispatch lane id (f r) ≡ is_dispatch lane id r)
      → ((r : DispatchRow)
          → is_dispatch lane id r ≡ true
          → g r ≡ true
          → r.wake_id ≡ some w
          → ((f r).wake_id ≡ some w) × (r.fence ≤ (f r).fence))
      → Keeps lane id w fence s
      → Keeps lane id w fence (record s { rows = update_where g f s.rows })
  update_where-Keeps g f s keep holds k =
      let key = find_where_holds (is_dispatch lane id) s.rows k.row k.found in
      let after = find_where-update_where (is_dispatch lane id) g f (keep lane id) s.rows in
      let unique = update_where-HasPrimaryKey g f s.rows keep k.unique in
      elim (Bool-cases (g k.row)) [
        | inl on ↦ record {
          row = f k.row;
          found = ground (arith, after, k.found, on);
          wake_id = (holds k.row key on k.wake_id).0;
          fenced = omega (arith, (holds k.row key on k.wake_id).1, k.fenced);
          messages = k.messages;
          unique = unique;
        }
        | inr off ↦ record {
          row = k.row;
          found = ground (arith, after, k.found, off);
          wake_id = k.wake_id;
          fenced = k.fenced;
          messages = k.messages;
          unique = unique;
        }
      ]

  -- The row that a round takes has the identifier `w`, if it has the key.
  pub next_due-Keeps :
      (x : OutboxContext) (i : DrainInput) (n : ℕ) (s : OutboxState) (row : DispatchRow)
      → Keeps lane id w fence s
      → next_due x i n s.rows ≡ some row
      → is_dispatch lane id row ≡ true
      → row.wake_id ≡ some w
  unfolding next_due
  next_due-Keeps x i n s row k e keyed =
      let key = is_dispatch lane id in
      let bad : DispatchRow → Bool = λ r. not (is_text w r.wake_id) in
      let due = is_due i.accepted_lanes (x.claimed_at n) in
      let before = is_before x.collates (λ r. r.created_at) in
      let good : bad k.row ≡ false = ground (arith, k.wake_id, text_eq_refl w) in
      let only = found_only key bad s.rows k.row (k.unique lane id) k.found good in
      elim (Bool-cases (is_text w row.wake_id)) [
        | inl on ↦ is_text_reads w row.wake_id on
        | inr off ↦
            let there =
              (least_found before due (λ r. key r && bad r) s.rows row e
                (ground (arith, keyed, off))).1 in
            let other =
              some_of_mono (λ r. due r && (key r && bad r)) (λ r. key r && bad r)
                (λ r on. ground (arith, on)) s.rows there in
            cc (only, other)
      ]
