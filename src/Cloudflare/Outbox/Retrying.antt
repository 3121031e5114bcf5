-- ===== src/Cloudflare/Outbox/Retrying.antt =====
-- job-outbox.ts: the messages for a job that a drain sends again carry one wake identifier, whether
-- the queue takes them or not.
use share_slices.Base.{
  ℕ, zero, suc, ◌≤◌, ◌≡◌, refl, sym, subst, ◌∙◌, Bool, true, false, ◌==◌, Bool-cases, Option-cases,
  inl, inr, some, List, ◌∷◌, arith, if◌then◌else◌, find_where, update_where, Text,
}
use share_slices.Base.Attempts.{Attempt, throws, returns}
use share_slices.Cloudflare.JobWake.{CloudflareJobWakeLane}
use share_slices.Cloudflare.Outbox.{
  DispatchRow, OutboxError, OutboxContext, DrainInput, OutboxState, is_dispatch, next_due,
  count_where, is_claimable, claim, is_claimed, mark_published, return_unsent, wake_of, is_expired,
  return_expired,
}
use share_slices.Cloudflare.Outbox.Drain.{
  Round, nothing_due, failed, attempted, round_of, advance, go_on, with_remaining,
  return_all_expired, update_one, send_claimed, claim_row, round, Progress, drain_rounds,
  drain_valid, valid_drain, drain_cloudflare_job_outbox,
}
use share_slices.Cloudflare.Outbox.Rounds.{HasPrimaryKey, claimed_rows}
use share_slices.Cloudflare.Outbox.Tracking.{claimable-key}
use share_slices.Cloudflare.Outbox.Keeping.{
  all_have, Keeps, round_of_state, wake_of_keeps, update_where-Keeps, next_due-Keeps,
}

module _ (lane : CloudflareJobWakeLane) (id w : Text) (fence : ℕ) (x : OutboxContext)
    (i : DrainInput) (alone : (n : ℕ) (rows : List DispatchRow) → x.meanwhile n rows ≡ rows) where
  claim-Keeps :
      (n : ℕ) (row : DispatchRow) (s : OutboxState)
      → next_due x i n s.rows ≡ some row
      → Keeps lane id w fence s
      → Keeps lane id w fence (record s { rows = claimed_rows x i n row s.rows })
  claim-Keeps n row s e k =
      update_where-Keeps lane id w fence (is_claimable row) (claim x i n row) s (λ lane id r. refl)
        (λ r key on has.
          let own =
            next_due-Keeps lane id w fence x i n s row k e (claimable-key lane id row r key on) in
          (ground (arith, own), ground (arith, on)))
        k

  -- The rest of a round: the statement after the message, and the message if it is taken.
  settle-Keeps :
      (n : ℕ) (row : DispatchRow) (f : DispatchRow → DispatchRow) (s : OutboxState)
      → ((r : DispatchRow) → (f r).wake_id ≡ r.wake_id)
      → ((r : DispatchRow) → (f r).fence ≡ r.fence)
      → ((lane : CloudflareJobWakeLane) (id : Text) (r : DispatchRow)
          → is_dispatch lane id (f r) ≡ is_dispatch lane id r)
      → Keeps lane id w fence s
      → Keeps lane id w fence (record s { rows = update_where (is_claimed x i n row) f s.rows })
  settle-Keeps n row f s wake level keep k =
      update_where-Keeps lane id w fence (is_claimed x i n row) f s keep
        (λ r key on has. (wake r ∙ has, ground (arith, level r))) k

  send_state :
      (n : ℕ) (row : DispatchRow) (s : OutboxState) (taken : Bool)
      → x.sends n (wake_of x n row) ≡ taken
      → (send_claimed x i n row s).1 ≡ record {
        rows =
            update_where
              (is_claimed x i n row)
              (if taken then mark_published (x.settled_at n) else return_unsent i (x.settled_at n))
              s.rows;
        sent = if taken then wake_of x n row ∷ s.sent else s.sent;
      }
  unfolding send_claimed update_one
  send_state n row s true e = ground (arith, e, alone n s.rows)
  send_state n row s false e = ground (arith, e, alone n s.rows)

  send-Keeps :
      (n : ℕ) (row : DispatchRow) (s : OutboxState)
      → (is_dispatch lane id row ≡ true → row.wake_id ≡ some w)
      → Keeps lane id w fence s
      → Keeps lane id w fence (send_claimed x i n row s).1
  send-Keeps n row s own k =
      let now = x.settled_at n in
      let claimed = is_claimed x i n row in
      elim (Bool-cases (x.sends n (wake_of x n row))) [
        | inl on ↦
            let written =
              settle-Keeps n row (mark_published now) s (λ r. refl) (λ r. refl) (λ lane id r. refl)
                k in
            let message = wake_of_keeps lane id w x n row own in
            let kept : Keeps lane id w fence (record {
              rows = update_where claimed (mark_published now) s.rows;
              sent = wake_of x n row ∷ s.sent;
            }) =
              record {
                row = written.row;
                found = written.found;
                wake_id = written.wake_id;
                fenced = written.fenced;
                messages = ground (arith, message, k.messages);
                unique = written.unique;
              } in
            subst (Keeps lane id w fence) (sym (send_state n row s true on)) kept
        | inr off ↦
            let written =
              settle-Keeps n row (return_unsent i now) s (λ r. refl) (λ r. refl) (λ lane id r. refl)
                k in
            subst (Keeps lane id w fence) (sym (send_state n row s false off)) written
      ]

  round-Keeps :
      (n : ℕ) (s : OutboxState) → Keeps lane id w fence s → Keeps lane id w fence (round x i n s).1
  unfolding round claim_row
  round-Keeps n s k = elim (Option-cases (next_due x i n s.rows)) [
    | inl idle ↦
        let same : (round x i n s).1 ≡ s = ground (arith, idle) in
        subst (Keeps lane id w fence) (sym same) k
    | inr (row, found) ↦
        let s' : OutboxState = record s { rows = claimed_rows x i n row s.rows } in
        let sent = send_claimed x i n row s' in
        let own = next_due-Keeps lane id w fence x i n s row k found in
        elim (Bool-cases (count_where (is_claimable row) s.rows == 1)) [
          | inl one ↦
              let same : (round x i n s).1 ≡ (round_of sent).1 = ground (arith, found, one) in
              subst (Keeps lane id w fence) (sym (same ∙ round_of_state sent))
                (send-Keeps n row s' own (claim-Keeps n row s found k))
          | inr lost ↦
              let same : (round x i n s).1 ≡ s = ground (arith, found, lost) in
              subst (Keeps lane id w fence) (sym same) k
        ]
  ]

  go_on-Keeps :
      (rest : Progress → OutboxState → Attempt OutboxError Progress × OutboxState)
      → ((p : Progress) (s : OutboxState)
          → Keeps lane id w fence s
          → Keeps lane id w fence (rest p s).1)
      → (p : Progress) (end : Round × OutboxState) → Keeps lane id w fence end.1
      → Keeps lane id w fence (go_on rest p end).1
  go_on-Keeps rest later p (nothing_due, s) k = k
  go_on-Keeps rest later p (failed e, s) k = k
  go_on-Keeps rest later p (attempted taken, s) k = later (advance taken p) s k

  drain_rounds-Keeps :
      (n : ℕ) (p : Progress) (s : OutboxState)
      → Keeps lane id w fence s
      → Keeps lane id w fence (drain_rounds x i n p s).1
  unfolding drain_rounds
  drain_rounds-Keeps zero p s k = k
  drain_rounds-Keeps (suc n) p s k =
      go_on-Keeps (drain_rounds x i n) (drain_rounds-Keeps n) p (round x i p.attempted s)
        (round-Keeps p.attempted s k)

  with_remaining-Keeps :
      (m : Attempt OutboxError Progress × OutboxState)
      → Keeps lane id w fence m.1
      → Keeps lane id w fence (with_remaining i m).1
  with_remaining-Keeps (throws e, s) k = k
  with_remaining-Keeps (returns p, s) k = k

  drain_valid-Keeps :
      (s : OutboxState) (checked : Attempt OutboxError (Unit {0}))
      → Keeps lane id w fence s
      → Keeps lane id w fence (drain_valid x i s checked).1
  drain_valid-Keeps s (throws e) k = k
  drain_valid-Keeps s (returns u) k =
      let start : OutboxState = return_all_expired x.started_at s in
      let begun =
        update_where-Keeps lane id w fence (is_expired x.started_at) (return_expired x.started_at) s
          (λ lane id r. refl) (λ r key on has. (has, ground arith)) k in
      with_remaining-Keeps
        (drain_rounds x i i.max_messages (record { attempted = 0; published = 0 }) start)
        (drain_rounds-Keeps i.max_messages (record { attempted = 0; published = 0 }) start begun)

-- Whatever the queue answers and however the drain ends, while no other session writes: a row that
-- has a wake identifier still has it after the drain, with a fence that is not lower, and each
-- message that the queue has for its job carries that identifier, if those before the drain did.
pub drain_keeps_wake :
    (x : OutboxContext) (i : DrainInput) (s : OutboxState) (r : DispatchRow)
    (lane : CloudflareJobWakeLane) (id w : Text)
    → ((n : ℕ) (rows : List DispatchRow) → x.meanwhile n rows ≡ rows)
    → HasPrimaryKey s.rows
    → find_where (is_dispatch lane id) s.rows ≡ some r
    → r.wake_id ≡ some w
    → all_have lane id w s.sent ≡ true
    → (r' : DispatchRow) × (find_where
          (is_dispatch lane id)
          (drain_cloudflare_job_outbox x i s).1.rows
        ≡ some r')
      × (r'.wake_id ≡ some w)
      × (r.fence ≤ r'.fence)
      × (all_have lane id w (drain_cloudflare_job_outbox x i s).1.sent ≡ true)
unfolding drain_cloudflare_job_outbox
drain_keeps_wake x i s r lane id w alone unique found has carried =
    let k = drain_valid-Keeps lane id w r.fence x i alone s (valid_drain i) (record {
      row = r;
      found = found;
      wake_id = has;
      fenced = omega arith;
      messages = carried;
      unique = unique;
    }) in
    (k.row, k.found, k.wake_id, k.fenced, k.messages)
