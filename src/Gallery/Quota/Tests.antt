-- ===== src/Gallery/Quota/Tests.antt =====
-- The quota theorems at concrete tables.
use share_slices.Base.{
  is_some, find_where, none, ℕ, ◌+◌, ◌≤◌, ◌<◌, String, eq_iff, ◌≡◌, refl, ◌⊎◌, true, some, List, [],
  ◌∷◌, arith, find_where,
}
use share_slices.Gallery.Quota.{
  err, unique_violation, check_violation, QuotaPolicy, Account, Reservation, held, QuotaTables,
  finish, ok, of_user, has_id, hold, ReserveInput, record_hold, decide_reserve, reserve_work,
  reserve, reserved, insufficient_artifacts, insufficient_storage, settle_held, finish_work, commit,
  release, current_policy, new_reservation,
}
use share_slices.Gallery.Quota.Ledger.{figure}
use share_slices.Gallery.Quota.Invariant.{Inv}
use share_slices.Gallery.Quota.{Op, reserves, commits, releases, step, run}
use share_slices.Gallery.Quota.History.{run-Inv}
use share_slices.Gallery.Quota.Limits.{Within, Bounded, run-Bounded, reserve_answer}

abbrev policy_one : QuotaPolicy
policy_one = record {
  revision = "artifact-storage/v1";
  artifact_limit = 2;
  storage_bytes_limit = 100;
  copy_rate_limit = 10;
  copy_rate_window_seconds = 3600;
}

abbrev ann : Account
ann = record {
  user_id = "ann";
  policy_revision = "artifact-storage/v1";
  artifact_usage = 0;
  storage_bytes_usage = 0;
  artifact_reserved = 1;
  storage_bytes_reserved = 60;
  revision = 2;
}

abbrev first_hold : Reservation
first_hold = record {
  id = "r1";
  user_id = "ann";
  policy_revision = "artifact-storage/v1";
  artifact_count = 1;
  storage_bytes = 60;
  state = held;
  expires_at = 500;
}

abbrev start : QuotaTables
start = record {
  policies = record { policy = policy_one; active = true } ∷ [];
  accounts = ann ∷ [];
  reservations = first_hold ∷ [];
}

abbrev ask : String → ℕ → ReserveInput
ask id bytes = record {
  reservation_id = id;
  user_id = "ann";
  artifact_count = 1;
  storage_bytes = bytes;
  expires_at = 900;
}

start-Inv : Inv start
start-Inv = record {
  artifacts_match = λ u. ground (arith, eq_iff "ann" u);
  bytes_match = λ u. ground (arith, eq_iff "ann" u);
  distinct = (refl, tt);
  one_each = (refl, tt);
}

abbrev bookings : List Op
bookings = reserves (ask "r2" 30) ∷ reserves (ask "r3" 1) ∷ commits "r1" ∷ releases "r2" ∷ []

booked : figure (λ a. a.storage_bytes_usage) "ann" (run start bookings).accounts ≡ 60
unfolding run step reserve reserve_work current_policy decide_reserve record_hold commit release
    finish finish_work settle_held
booked = refl

too_large : (reserve (ask "r2" 41) start).0 ≡ ok (insufficient_storage policy_one)
unfolding reserve reserve_work current_policy decide_reserve record_hold
too_large = refl

run-Inv_example : Inv (run start bookings)
run-Inv_example = run-Inv start bookings start-Inv

run-Bounded_example : Bounded policy_one (run start bookings)
unfolding current_policy
run-Bounded_example =
    run-Bounded policy_one start bookings (tt, (tt, (tt, (tt, tt))))
      (record { policy = refl; one_each = (refl, tt); within = omega arith })

reserve_answer_example :
    (Within policy_one (hold (ask "r2" 30) ann)
      × (find_where (has_id "r2") start.reservations ≡ none)
      × (0 < 1)
      × ((reserve (ask "r2" 30) start).0 ≡ ok (reserved "r2" policy_one))
      × ((reserve (ask "r2" 30) start).1.reservations
          ≡ new_reservation (ask "r2" 30) policy_one ∷ first_hold ∷ [])
      × (find_where (of_user "ann") (reserve (ask "r2" 30) start).1.accounts
          ≡ some (hold (ask "r2" 30) ann)))
    ⊎ ((2 < 0 + 1 + 1)
        × (reserve (ask "r2" 30) start ≡ (ok (insufficient_artifacts policy_one), start)))
    ⊎ ((0 + 1 + 1 ≤ 2)
        × (100 < 0 + 60 + 30)
        × (reserve (ask "r2" 30) start ≡ (ok (insufficient_storage policy_one), start)))
    ⊎ (Within policy_one (hold (ask "r2" 30) ann)
        × (is_some (find_where (has_id "r2") start.reservations) ≡ true)
        × (reserve (ask "r2" 30) start ≡ (err unique_violation, start)))
    ⊎ (Within policy_one (hold (ask "r2" 30) ann)
        × ((ask "r2" 30).artifact_count ≡ 0)
        × (reserve (ask "r2" 30) start ≡ (err check_violation, start)))
unfolding current_policy
reserve_answer_example = reserve_answer policy_one (ask "r2" 30) ann start refl refl
