-- ===== src/Gallery/Quota/Limits.antt =====
-- Bookings stay within the active policy.
use share_slices.Base.{
  is_some, ◌+◌, ◌≤◌, ◌<◌, String, eq_iff, ◌≡◌, refl, ◌⊎◌, true, Option, none, some, List, [], ◌∷◌,
  arith, All, find_where, update_where, find_where-update_where, update_where_missing,
  find_where_holds, find_where-update_where,
}
use share_slices.Gallery.Quota.{
  err, unique_violation, check_violation, Op, reserves, commits, releases, reconciles, activates,
  step, run, QuotaPolicy, Account, Reservation, ReservationState, committed, released, QuotaTables,
  finish, account_missing, ok, ◌>>=◌, of_user, has_id, conclude, covers_all, settle, hold,
  ReserveInput, record_hold, decide_reserve, reserve_work, reserve, reserved,
  insufficient_artifacts, insufficient_storage, settle_held, finish_found, finish_work, commit,
  release, open_account, current_policy, new_reservation, or_fail,
}
use share_slices.Gallery.Quota.Ledger.{OneEach, OneEach-update, OneEach-open}
use share_slices.Gallery.Quota.Invariant.{After, conclude-After}

pub record Within (p : QuotaPolicy) (a : Account) : Type 0 where
  pub artifacts : a.artifact_usage + a.artifact_reserved ≤ p.artifact_limit
  pub bytes : a.storage_bytes_usage + a.storage_bytes_reserved ≤ p.storage_bytes_limit

-- What a booking keeps: the policies, one account for each user, and the limits.
pub record Bounded (p : QuotaPolicy) (s : QuotaTables) : Type 0 where
  pub policy : current_policy s ≡ ok p
  pub one_each : OneEach s.accounts
  pub within : All (Within p) s.accounts

untouched :
    (p : QuotaPolicy) (user : String) (g : Account → Account) (accounts : List Account)
    → find_where (of_user user) accounts ≡ none
    → All (Within p) accounts
    → All (Within p) (update_where (of_user user) g accounts)
untouched p user g accounts missing w =
    rw (update_where_missing (of_user user) g accounts missing) w

All-hold :
    (p : QuotaPolicy) (i : ReserveInput) (a : Account) (accounts : List Account)
    → OneEach accounts
    → find_where (of_user i.user_id) accounts ≡ some a
    → Within p (hold i a)
    → All (Within p) accounts
    → All (Within p) (update_where (of_user i.user_id) (hold i) accounts)
All-hold p i a [] d found h w = tt
All-hold p i a (b ∷ accounts) d found h w = ground (
  arith,
  eq_iff b.user_id i.user_id,
  untouched p i.user_id (hold i) accounts,
  All-hold p i a accounts d.1,
)

All-settle :
    (p : QuotaPolicy) (o : ReservationState) (r : Reservation) (accounts : List Account)
    → covers_all r accounts ≡ true
    → All (Within p) accounts
    → All (Within p) (update_where (of_user r.user_id) (settle o r) accounts)
All-settle p o r [] c w = tt
All-settle p o r (a ∷ accounts) c w = ground (arith, All-settle p o r accounts)

find-Within :
    (p : QuotaPolicy) (user : String) (a : Account) (accounts : List Account)
    → find_where (of_user user) accounts ≡ some a
    → All (Within p) accounts
    → Within p a
find-Within p user a [] found w = cc
find-Within p user a (b ∷ accounts) found w = ground (arith, find-Within p user a accounts)

record_hold-Bounded :
    (p : QuotaPolicy) (i : ReserveInput) (a : Account) (s : QuotaTables)
    → Bounded p s
    → find_where (of_user i.user_id) s.accounts ≡ some a
    → Within p (hold i a)
    → After (Bounded p) (record_hold i p s)
unfolding record_hold current_policy
record_hold-Bounded p i a s b found h = ground (
  arith,
  All-hold p i a s.accounts b.one_each found h b.within,
  OneEach-update i.user_id (hold i) s.accounts (λ x. refl) b.one_each,
)

decide_reserve-Bounded :
    (p : QuotaPolicy) (i : ReserveInput) (a : Account) (s : QuotaTables)
    → Bounded p s
    → find_where (of_user i.user_id) s.accounts ≡ some a
    → After (Bounded p) (decide_reserve i p a s)
unfolding decide_reserve
decide_reserve-Bounded p i a s b found = ground (arith, record_hold-Bounded p i a s b found)

opened-Bounded :
    (p : QuotaPolicy) (user revision : String) (s : QuotaTables)
    → Bounded p s
    → Bounded p (record s { accounts = open_account user revision s.accounts })
unfolding current_policy
opened-Bounded p user revision s b = record {
  policy = b.policy;
  one_each = OneEach-open user revision s.accounts b.one_each;
  within = ground arith;
}

reserve_work-Bounded :
    (p : QuotaPolicy) (i : ReserveInput) (s : QuotaTables)
    → Bounded p s
    → After (Bounded p) (reserve_work i s)
unfolding reserve_work
reserve_work-Bounded p i s b =
    rw (b.policy, reserve_work) (by_account (find_where (of_user i.user_id) opened.accounts) refl)
  where
    opened : QuotaTables
    opened = record s { accounts = open_account i.user_id p.revision s.accounts }

    by_account :
        (found : Option Account)
        → find_where (of_user i.user_id) opened.accounts ≡ found
        → After (Bounded p) (or_fail found account_missing >>= λ a. decide_reserve i p a opened)
    by_account none e = tt
    by_account (some a) e =
        decide_reserve-Bounded p i a opened (opened-Bounded p i.user_id p.revision s b) e

settle_held-Bounded :
    (p : QuotaPolicy) (o : ReservationState) (r : Reservation) (s : QuotaTables)
    → Bounded p s
    → After (Bounded p) (settle_held o r s)
unfolding settle_held current_policy
settle_held-Bounded p o r s b = ground (
  arith,
  All-settle p o r s.accounts,
  OneEach-update r.user_id (settle o r) s.accounts (λ x. refl) b.one_each,
)

finish_work-Bounded :
    (p : QuotaPolicy) (o : ReservationState) (id : String) (s : QuotaTables)
    → Bounded p s
    → After (Bounded p) (finish_work o id s)
unfolding finish_work
finish_work-Bounded p o id s b = by_row (find_where (has_id id) s.reservations)
  where
    by_row : (row : Option Reservation) → After (Bounded p) (finish_found o row s)
    by_row none = b
    by_row (some r) = ground (arith, settle_held-Bounded p o r s b)

-- The calls of a booking: not `reconcile`, which sets the usage to what it counts, and not a
-- change of policy.
abbrev pub IsBooking : Op → Type 0
IsBooking (reconciles user usage) = ⊥
IsBooking (activates policy) = ⊥
IsBooking _ = Unit {0}

step-Bounded :
    (p : QuotaPolicy) (s : QuotaTables) (op : Op)
    → IsBooking op
    → Bounded p s
    → Bounded p (step s op)
unfolding step reserve commit release finish
step-Bounded p s (reserves i) k b =
    conclude-After (Bounded p) s (reserve_work i s) b (reserve_work-Bounded p i s b)
step-Bounded p s (commits id) k b =
    conclude-After (Bounded p) s (finish_work committed id s) b
      (finish_work-Bounded p committed id s b)
step-Bounded p s (releases id) k b =
    conclude-After (Bounded p) s (finish_work released id s) b
      (finish_work-Bounded p released id s b)
step-Bounded p s (reconciles user usage) k b = absurd k
step-Bounded p s (activates policy) k b = absurd k

-- If a policy is the active one, there is one account for each user and every account's usage and
-- reservations together are within the policy's two limits, then the same holds after any
-- sequence of reserve, commit and release calls, whatever amounts they ask for.
pub run-Bounded :
    (p : QuotaPolicy) (s : QuotaTables) (ops : List Op)
    → All IsBooking ops
    → Bounded p s
    → Bounded p (run s ops)
unfolding run
run-Bounded p s [] k b = b
run-Bounded p s (op ∷ ops) k b = run-Bounded p (step s op) ops k.1 (step-Bounded p s op k.0 b)

-- The tables once the user has an account.
abbrev pub opened : ReserveInput → QuotaPolicy → QuotaTables → QuotaTables
opened i p s = record s { accounts = open_account i.user_id p.revision s.accounts }

reserve-decide :
    (p : QuotaPolicy) (i : ReserveInput) (a : Account) (s : QuotaTables)
    → current_policy s ≡ ok p
    → find_where (of_user i.user_id) (opened i p s).accounts ≡ some a
    → reserve i s ≡ conclude s (decide_reserve i p a (opened i p s))
unfolding reserve reserve_work
reserve-decide p i a s policy found = rw (policy, reserve_work) (rw found refl)

-- What a call of `reserve` answers where one policy is active, `a` being the user's account, which
-- the call opens if there is none. It reserves where both limits allow it, the identifier is new
-- and the count is positive. A limit that is exceeded, the artifact limit being tested first, is
-- the answer, and nothing but the account is added. Where the limits allow it, a known identifier
-- or a count of zero is an error that leaves the tables as they were.
pub reserve_answer :
    (p : QuotaPolicy) (i : ReserveInput) (a : Account) (s : QuotaTables)
    → current_policy s ≡ ok p
    → find_where (of_user i.user_id) (opened i p s).accounts ≡ some a
    → (Within p (hold i a)
        × (find_where (has_id i.reservation_id) s.reservations ≡ none)
        × (0 < i.artifact_count)
        × ((reserve i s).0 ≡ ok (reserved i.reservation_id p))
        × ((reserve i s).1.reservations ≡ new_reservation i p ∷ s.reservations)
        × (find_where (of_user i.user_id) (reserve i s).1.accounts ≡ some (hold i a)))
      ⊎ ((p.artifact_limit < a.artifact_usage + a.artifact_reserved + i.artifact_count)
          × (reserve i s ≡ (ok (insufficient_artifacts p), opened i p s)))
      ⊎ ((a.artifact_usage + a.artifact_reserved + i.artifact_count ≤ p.artifact_limit)
          × (p.storage_bytes_limit
              < a.storage_bytes_usage + a.storage_bytes_reserved + i.storage_bytes)
          × (reserve i s ≡ (ok (insufficient_storage p), opened i p s)))
      ⊎ (Within p (hold i a)
          × (is_some (find_where (has_id i.reservation_id) s.reservations) ≡ true)
          × (reserve i s ≡ (err unique_violation, s)))
      ⊎ (Within p (hold i a) × (i.artifact_count ≡ 0) × (reserve i s ≡ (err check_violation, s)))
unfolding decide_reserve record_hold
reserve_answer p i a s policy found = rw (reserve-decide p i a s policy found) (
    ground (
      arith,
      find_where-update_where (of_user i.user_id) (of_user i.user_id) (hold i) (λ x. refl)
          (opened i p s).accounts,
      find_where_holds (of_user i.user_id) (opened i p s).accounts a,
    ))
